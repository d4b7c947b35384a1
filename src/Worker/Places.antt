-- ===== src/Worker/Places.antt =====
-- Where connections are: how often in the queue, and with how many threads.
use duck_launcher.Base.{
  ℕ, zero, suc, ◌+◌, ◌≡◌, ◌≤◌, ◌<◌, refl, ap, inl, inr, ◌==◌, ==_iff, Bool, true, false, List, [],
  ◌∷◌, ◌++◌, length, arith, Bool-cases, if◌then◌else◌,
}
use duck_launcher.Worker.Executor.{fresh_connections}
use duck_launcher.Worker.Threads.{
  Pc, waiting, finished, acquired, running, ran, left, update, dropped,
}

-- How often a connection is in the queue.
abbrev pub times : ℕ → List ℕ → ℕ
times conn [] = 0
times conn (c ∷ conns) = (if c == conn then 1 else 0) + times conn conns

-- 1 where a thread has a connection, and where it has a given one.
abbrev pub has_any : Pc → ℕ
has_any waiting = 0
has_any finished = 0
has_any dropped = 0
has_any (acquired c) = 1
has_any (running c) = 1
has_any (ran c discard) = 1
has_any (left c discard) = 1

abbrev pub has : ℕ → Pc → ℕ
has conn waiting = 0
has conn finished = 0
has conn dropped = 0
has conn (acquired c) = if c == conn then 1 else 0
has conn (running c) = if c == conn then 1 else 0
has conn (ran c discard) = if c == conn then 1 else 0
has conn (left c discard) = if c == conn then 1 else 0

-- 1 where a thread has ended without a connection to put back.
abbrev pub has_lost : Pc → ℕ
has_lost dropped = 1
has_lost _ = 0

module _ (weight : Pc → ℕ) where
  pub total : ℕ → (ℕ → Pc) → ℕ
  total zero pc = 0
  total (suc n) pc = total n pc + weight (pc n)

  total-update_above :
      (n : ℕ) (pc : ℕ → Pc) (i : ℕ) (p : Pc) → n ≤ i → total n (update pc i p) ≡ total n pc
  unfolding total
  total-update_above zero pc i p h = refl
  total-update_above (suc n) pc i p h = ground (arith, total-update_above n pc i p)

  pub total-update :
      (n : ℕ) (pc : ℕ → Pc) (i : ℕ) (p : Pc)
      → i < n
      → total n (update pc i p) + weight (pc i) ≡ total n pc + weight p
  unfolding total
  total-update zero pc i p h = absurd (omega arith)
  total-update (suc n) pc i p h = elim (Bool-cases (n == i)) [
    | inl t ↦
        let e : n ≡ i = (==_iff n i).0 t in
        rw t (omega (arith, total-update_above n pc i p (omega arith), ap (λ k. weight (pc k)) e))
    | inr t ↦ rw t (omega (arith, total-update n pc i p (ground arith)))
  ]

  pub total-zero : (n : ℕ) → weight waiting ≡ 0 → total n (λ i. waiting) ≡ 0
  unfolding total
  total-zero zero h = refl
  total-zero (suc n) h = omega (arith, total-zero n h)

pub times-append :
    (conn : ℕ) (conns : List ℕ) (c : ℕ)
    → times conn (conns ++ c ∷ []) ≡ times conn conns + (if c == conn then 1 else 0)
times-append conn [] c = omega arith
times-append conn (d ∷ conns) c = omega (arith, times-append conn conns c)

abbrev pub one_if : Bool → ℕ
one_if b = if b then 1 else 0

pub one_at_most : (b : Bool) → one_if b ≤ 1
one_at_most true = omega arith
one_at_most false = omega arith

pub not_eq : (n c : ℕ) → n < c → (n == c) ≡ false
not_eq n c h = ground arith

pub fresh-length : (n first : ℕ) → length (fresh_connections n first) ≡ n
fresh-length zero first = refl
fresh-length (suc n) first = omega (arith, fresh-length n (suc first))

fresh-below : (n first c : ℕ) → c < first → times c (fresh_connections n first) ≡ 0
fresh-below zero first c h = refl
fresh-below (suc n) first c h =
    omega (arith, ap one_if (not_eq_above first c h), fresh-below n (suc first) c (omega arith))
  where
    not_eq_above : (a b : ℕ) → b < a → (a == b) ≡ false
    not_eq_above a b h = ground arith

pub fresh-above : (n first c : ℕ) → first + n ≤ c → times c (fresh_connections n first) ≡ 0
fresh-above zero first c h = refl
fresh-above (suc n) first c h =
    omega
      (arith, ap one_if (not_eq first c (omega arith)), fresh-above n (suc first) c (omega arith))

pub fresh-once : (n first c : ℕ) → times c (fresh_connections n first) ≤ 1
fresh-once zero first c = omega arith
fresh-once (suc n) first c = elim (Bool-cases (first == c)) [
  | inl t ↦ omega (arith, one_at_most (first == c), fresh-below n (suc first) c (ground (arith, t)))
  | inr t ↦ omega (arith, ap one_if t, fresh-once n (suc first) c)
]
