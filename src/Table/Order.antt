-- ===== src/Table/Order.antt =====
-- ORDER BY keeps the rows and puts a least one first.
use duck_launcher.Base.{
  ◌≡◌, subst, inl, inr, Bool, true, false, some, List, [], ◌∷◌, All, All-mono, head?, arith,
  Bool-cases, none,
}
use duck_launcher.Table.{insert_row, order_by}

module _ {ℓ} {A : Type ℓ} (before : A → A → Bool) where
  All-insert_row {κ} :
      (P : A → Type κ) (a : A) (xs : List A) → P a → All P xs → All P (insert_row before a xs)
  unfolding insert_row
  All-insert_row P a [] p h = (p, tt)
  All-insert_row P a (b ∷ xs) p h = elim (Bool-cases (before a b)) [
    | inl t ↦ rw t (p, h)
    | inr t ↦ rw t (h.0, All-insert_row P a xs p h.1)
  ]

  pub All-order_by {κ} : (P : A → Type κ) (xs : List A) → All P xs → All P (order_by before xs)
  unfolding order_by
  All-order_by P [] h = tt
  All-order_by P (a ∷ xs) h = All-insert_row P a (order_by before xs) h.0 (All-order_by P xs h.1)

  All-of-insert_row {κ} :
      (P : A → Type κ) (a : A) (xs : List A) → All P (insert_row before a xs) → All P (a ∷ xs)
  unfolding insert_row
  All-of-insert_row P a [] h = h
  All-of-insert_row P a (b ∷ xs) h = elim (Bool-cases (before a b)) [
    | inl t ↦ rw t at h
    | inr t ↦
        let h' : All P (b ∷ insert_row before a xs) = rw t at h in
        let rest = All-of-insert_row P a xs h'.1 in (rest.0, (h'.0, rest.1))
  ]

  pub All-of-order_by {κ} : (P : A → Type κ) (xs : List A) → All P (order_by before xs) → All P xs
  unfolding order_by
  All-of-order_by P [] h = tt
  All-of-order_by P (a ∷ xs) h =
      let split = All-of-insert_row P a (order_by before xs) h in
      (split.0, All-of-order_by P xs split.1)

  -- An order: total, so reflexive too, and transitive.
  pub record IsOrder : Type ℓ where
    pub total : (a b : A) → before a b ≡ false → before b a ≡ true
    pub reflexive : (a : A) → before a a ≡ true
    pub transitive : (a b c : A) → before a b ≡ true → before b c ≡ true → before a c ≡ true

  abbrev HeadIsLeast : List A → Type 0
  HeadIsLeast [] = Unit
  HeadIsLeast (a ∷ xs) = All (λ b. before a b ≡ true) xs

  insert_row-HeadIsLeast :
      (o : IsOrder) (a : A) (xs : List A) → HeadIsLeast xs → HeadIsLeast (insert_row before a xs)
  unfolding insert_row
  insert_row-HeadIsLeast o a [] h = tt
  insert_row-HeadIsLeast o a (b ∷ xs) h = elim (Bool-cases (before a b)) [
    | inl t ↦ rw t (t, All-mono _ _ xs (λ c later. o.transitive a b c t later) h)
    | inr t ↦ rw t (All-insert_row (λ c. before b c ≡ true) a xs (o.total a b t) h)
  ]

  order_by-HeadIsLeast : (o : IsOrder) (xs : List A) → HeadIsLeast (order_by before xs)
  unfolding order_by
  order_by-HeadIsLeast o [] = tt
  order_by-HeadIsLeast o (a ∷ xs) =
      insert_row-HeadIsLeast o a (order_by before xs) (order_by-HeadIsLeast o xs)

  head_first :
      (o : IsOrder) (a : A) (xs : List A)
      → HeadIsLeast xs
      → head? xs ≡ some a
      → All (λ b. before a b ≡ true) xs
  head_first o a [] h e = tt
  head_first o a (b ∷ xs) h e =
      let same : b ≡ a = ground arith in
      subst (λ first. All (λ c. before first c ≡ true) (b ∷ xs)) same (o.reflexive b, h)

  -- ORDER BY … LIMIT 1 gets a row that no row comes before.
  pub order_by-least :
      (o : IsOrder) (a : A) (xs : List A)
      → head? (order_by before xs) ≡ some a
      → All (λ b. before a b ≡ true) xs
  order_by-least o a xs e =
      All-of-order_by (λ b. before a b ≡ true) xs
        (head_first o a (order_by before xs) (order_by-HeadIsLeast o xs) e)

  pub All-head {κ} : (P : A → Type κ) (xs : List A) (a : A) → All P xs → head? xs ≡ some a → P a
  All-head P [] a h e = cc
  All-head P (b ∷ xs) a h e = let same : b ≡ a = ground arith in rw (← same) h.0

  -- ORDER BY … LIMIT 1 gets nothing from no rows only.
  pub order_by-none {κ} :
      (P : A → Type κ) (xs : List A) → head? (order_by before xs) ≡ none → All P xs
  order_by-none P xs e = All-of-order_by P xs (nothing (order_by before xs) e)
    where
      nothing : (ys : List A) → head? ys ≡ none → All P ys
      nothing [] none_left = tt
      nothing (y ∷ ys) none_left = cc
