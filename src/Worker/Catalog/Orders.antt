-- ===== src/Worker/Catalog/Orders.antt =====
-- What a round of the loop does to the lists of names, each name once.
use text.Mathlib.Text.{◌==◌ as str_eq}
use text.Mathlib.TextPositions.{eq_refl}
use duck_launcher.Base.{
  ◌≡◌, refl, sym, ap, ◌∙◌, subst, inl, inr, Bool, true, ◌&&◌, ◌||◌, String, List, [], ◌∷◌, ◌++◌,
  map, any, if◌then◌else◌, arith, Bool-cases,
}
use duck_launcher.Worker.Dict.{find_or, set_default, modify, find_or-upsert}
use duck_launcher.Worker.Catalog.{ColumnRow, same_pair, push}
use duck_launcher.Worker.Catalog.Grouped.{
  distinct, picked, str_eq-to, distinct-append, picked-append, any-picked,
}

pub map-push {ℓ κ} :
    {A : Type ℓ} {B : Type κ} (f : A → B) (a : A) (xs : List A)
    → map f (xs ++ a ∷ []) ≡ map f xs ++ f a ∷ []
map-push f a [] = refl
map-push f a (x ∷ xs) = ap (◌∷◌ (f x)) (map-push f a xs)

pub any-map {ℓ} :
    {A : Type ℓ} (q : String → Bool) (f : A → String) (xs : List A)
    → any q (map f xs) ≡ any (λ a. q (f a)) xs
any-map q f [] = refl
any-map q f (x ∷ xs) = ap (◌||◌ (q (f x))) (any-map q f xs)

-- One more name, which is new or not.
pub more :
    (known : Bool) (name : String) (names : List String)
    → known ≡ any (str_eq name) names
    → distinct (push name names) ≡ (if known then distinct names else push name (distinct names))
more known name names e =
    distinct-append name names
    ∙ ap (λ b. if b then distinct names else push name (distinct names)) (sym e)

-- What the loop does to database_order, and to each of schema_order and table_order.
module _ {ℓ} {K : Type ℓ} (same : K → K → Bool) (same-refl : (a : K) → same a a ≡ true)
    (same-eq : (a b : K) → same a b ≡ true → a ≡ b) (key : ColumnRow → K)
    (name : ColumnRow → String) (row : ColumnRow) (rows : List ColumnRow) where
  pub order_after :
      (order : List (K × List String)) (known : Bool)
      → ((k : K) → find_or same [] k order ≡ distinct (picked (λ r. same k (key r)) name rows))
      → known ≡ any (λ r. same (key row) (key r) && str_eq (name row) (name r)) rows
      → (k : K)
      → find_or same [] k (
          if known
          then order
          else modify same (key row) (push (name row)) (set_default same (key row) [] order))
        ≡ distinct (picked (λ r. same k (key r)) name (rows ++ row ∷ []))
  order_after order known holds e k = elim (Bool-cases (same k (key row))) [
    | inl t ↦
        let p : ColumnRow → Bool = λ r. same k (key r) in
        let here : k ≡ key row = same-eq k (key row) t in
        let known_here : known ≡ any (λ r. p r && str_eq (name row) (name r)) rows =
          subst (λ x. known ≡ any (λ r. same x (key r) && str_eq (name row) (name r)) rows)
            (sym here) e in
        let added = rw t at (picked-append p name row rows) in
        let later =
          ap distinct added
          ∙ more known (name row) (picked p name rows)
              (known_here ∙ sym (any-picked p name (name row) rows)) in
        elim (Bool-cases known) [
          | inl b ↦ rw b (holds k ∙ sym (rw b at later))
          | inr b ↦
              let pushed =
                rw t at
                  (find_or-upsert same same-refl same-eq k (key row) [] (push (name row)) order) in
              rw b (
                pushed
                ∙ ap (push (name row)) (ap (λ x. find_or same [] x order) (sym here) ∙ holds k)
                ∙ sym (rw b at later))
        ]
    | inr t ↦
        let kept = ap distinct (rw t at (picked-append (λ r. same k (key r)) name row rows)) in
        elim (Bool-cases known) [
          | inl b ↦ rw b (holds k ∙ sym kept)
          | inr b ↦
              let other =
                rw t at
                  (find_or-upsert same same-refl same-eq k (key row) [] (push (name row)) order) in
              rw b (other ∙ holds k ∙ sym kept)
        ]
  ]

pub same_pair_refl : (a : String × String) → same_pair a a ≡ true
same_pair_refl (a, b) = rw (eq_refl a, eq_refl b) refl

pub same_pair-eq : (a b : String × String) → same_pair a b ≡ true → a ≡ b
same_pair-eq (a, b) (c, d) h = elim (Bool-cases (str_eq a c)) [
  | inl t ↦ rw (str_eq-to a c t, str_eq-to b d (rw t at h)) refl
  | inr t ↦ absurd (ground (arith, t, h))
]
