-- ===== src/Base/Lists.antt =====
-- Lists measured by native numbers, and predicates over all entries of a list.
use Prim.Native.Nat.{ℕ, zero, suc, ◌+◌}
use mathlib.Core.Path.{◌≡◌, refl, ap, sym, subst}
use mathlib.Core.Bool.{Bool, false, ◌||◌}
use mathlib.Core.List.{List, [], ◌∷◌, ◌++◌, Memᴰ}
use mathlib.Core.Option.{Option, none, some}
use native.Mathlib.Omega.{arith}

abbrev pub All {ℓ κ} : {A : Type ℓ} → (A → Type κ) → List A → Type κ
All P [] = Unit
All P (x ∷ xs) = P x × All P xs

module _ {ℓ} {A : Type ℓ} where
  abbrev pub length : List A → ℕ
  length [] = 0
  length (x ∷ xs) = suc (length xs)

  abbrev pub take : ℕ → List A → List A
  take zero xs = []
  take (suc n) [] = []
  take (suc n) (x ∷ xs) = x ∷ take n xs

  abbrev pub drop : ℕ → List A → List A
  drop zero xs = xs
  drop (suc n) [] = []
  drop (suc n) (x ∷ xs) = drop n xs

  abbrev pub get_elem? : List A → ℕ → Option A
  get_elem? [] i = none
  get_elem? (x ∷ xs) zero = some x
  get_elem? (x ∷ xs) (suc i) = get_elem? xs i

  -- xs[i] = a
  abbrev pub replace_at : ℕ → A → List A → List A
  replace_at i a [] = []
  replace_at zero a (x ∷ xs) = a ∷ xs
  replace_at (suc i) a (x ∷ xs) = x ∷ replace_at i a xs

  -- del xs[i]
  abbrev pub remove_at : ℕ → List A → List A
  remove_at i [] = []
  remove_at zero (x ∷ xs) = xs
  remove_at (suc i) (x ∷ xs) = x ∷ remove_at i xs

  abbrev pub head? : List A → Option A
  head? [] = none
  head? (x ∷ xs) = some x

  pub length-append : (xs ys : List A) → length (xs ++ ys) ≡ length xs + length ys
  length-append [] ys = omega arith
  length-append (x ∷ xs) ys = omega (arith, length-append xs ys)

  -- `any p xs`: some entry passes the test. (The library's cannot be unfolded.)
  abbrev pub any : (A → Bool) → List A → Bool
  any p [] = false
  any p (x ∷ xs) = p x || any p xs

  pub All-intro {κ} : (P : A → Type κ) (xs : List A) → ((a : A) → P a) → All P xs
  All-intro P [] f = tt
  All-intro P (x ∷ xs) f = (f x, All-intro P xs f)

  pub All-both {κ κ'} :
      (P : A → Type κ) (Q : A → Type κ') (xs : List A)
      → All P xs
      → All Q xs
      → All (λ a. P a × Q a) xs
  All-both P Q [] h k = tt
  All-both P Q (x ∷ xs) h k = ((h.0, k.0), All-both P Q xs h.1 k.1)

  pub All-append {κ} : (P : A → Type κ) (xs ys : List A) → All P xs → All P ys → All P (xs ++ ys)
  All-append P [] ys hx hy = hy
  All-append P (x ∷ xs) ys hx hy = (hx.0, All-append P xs ys hx.1 hy)

  pub All-get_elem? {κ} :
      (P : A → Type κ) (xs : List A) (i : ℕ) (a : A) → All P xs → get_elem? xs i ≡ some a → P a
  All-get_elem? P [] i a h e = cc
  All-get_elem? P (x ∷ xs) zero a h e = let same : x ≡ a = ground arith in rw (← same) h.0
  All-get_elem? P (x ∷ xs) (suc i) a h e = All-get_elem? P xs i a h.1 e

  pub All-replace_at {κ} :
      (P : A → Type κ) (i : ℕ) (a : A) (xs : List A) → P a → All P xs → All P (replace_at i a xs)
  All-replace_at P i a [] p h = tt
  All-replace_at P zero a (x ∷ xs) p h = (p, h.1)
  All-replace_at P (suc i) a (x ∷ xs) p h = (h.0, All-replace_at P i a xs p h.1)

  pub All-remove_at {κ} : (P : A → Type κ) (i : ℕ) (xs : List A) → All P xs → All P (remove_at i xs)
  All-remove_at P i [] h = tt
  All-remove_at P zero (x ∷ xs) h = h.1
  All-remove_at P (suc i) (x ∷ xs) h = (h.0, All-remove_at P i xs h.1)

  pub get_elem?-replace_at :
      (i : ℕ) (b : A) (xs : List A) (a : A)
      → get_elem? xs i ≡ some a
      → get_elem? (replace_at i b xs) i ≡ some b
  get_elem?-replace_at i b [] a e = cc
  get_elem?-replace_at zero b (x ∷ xs) a e = refl
  get_elem?-replace_at (suc i) b (x ∷ xs) a e = get_elem?-replace_at i b xs a e

  pub remove_at-replace_at :
      (i : ℕ) (b : A) (xs : List A) → remove_at i (replace_at i b xs) ≡ remove_at i xs
  remove_at-replace_at i b [] = refl
  remove_at-replace_at zero b (x ∷ xs) = refl
  remove_at-replace_at (suc i) b (x ∷ xs) = ap (λ ys. x ∷ ys) (remove_at-replace_at i b xs)

  pub get_elem?-append : (xs : List A) (a : A) → get_elem? (xs ++ a ∷ []) (length xs) ≡ some a
  get_elem?-append [] a = refl
  get_elem?-append (x ∷ xs) a = get_elem?-append xs a

  pub remove_at-append : (xs : List A) (a : A) → remove_at (length xs) (xs ++ a ∷ []) ≡ xs
  remove_at-append [] a = refl
  remove_at-append (x ∷ xs) a = ap (λ ys. x ∷ ys) (remove_at-append xs a)

  pub length-remove_at :
      (xs : List A) (i : ℕ) (a : A)
      → get_elem? xs i ≡ some a
      → suc (length (remove_at i xs)) ≡ length xs
  length-remove_at [] i a e = cc
  length-remove_at (x ∷ xs) zero a e = refl
  length-remove_at (x ∷ xs) (suc i) a e = ap suc (length-remove_at xs i a e)

  pub All-Mem {κ} : (P : A → Type κ) (xs : List A) (a : A) → All P xs → Memᴰ a xs → P a
  All-Mem P [] a h m = elim m [ ]
  All-Mem P (x ∷ xs) a h (Memᴰ.head e) = subst P (sym e) h.0
  All-Mem P (x ∷ xs) a h (Memᴰ.tail m) = All-Mem P xs a h.1 m

  pub All-mono {κ κ'} :
      (P : A → Type κ) (Q : A → Type κ') (xs : List A) → ((a : A) → P a → Q a) → All P xs → All Q xs
  All-mono P Q [] f h = tt
  All-mono P Q (x ∷ xs) f h = (f x h.0, All-mono P Q xs f h.1)

pub some_pair {ℓ κ} :
    {A : Type ℓ}
    → {B : Type κ} → (a c : A) (b d : B) → ◌≡◌ {A = Option (A × B)} (some (a, b)) (some (c, d))
    → (a ≡ c) × (b ≡ d)
some_pair a c b d e = (cc, cc)

pub some_triple {ℓ κ η} :
    {A : Type ℓ}
    → {B : Type κ} → {C : Type η} → (a a' : A) (b b' : B) (c c' : C)
    → ◌≡◌ {A = Option (A × B × C)} (some (a, b, c)) (some (a', b', c'))
    → (a ≡ a') × (b ≡ b') × (c ≡ c')
some_triple a a' b b' c c' e = (cc, cc, cc)
