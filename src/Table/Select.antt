-- ===== src/Table/Select.antt =====
-- SELECT after a statement on the table: a statement that meets no selected row does not show.
use duck_launcher.Table.Update.{ends_in_one_at_key}
use duck_launcher.Base.{
  ◌≡◌, refl, inl, inr, Bool, true, false, ◌&&◌, Option, none, some, List, [], ◌∷◌, ◌++◌, arith,
  Bool-cases, any, if◌then◌else◌, ℕ, ◌==◌, ◌≢◌, All, All-mono, ==_iff, ◌∙◌, sym, All-append,
}
use duck_launcher.Table.{update, select, delete, fetch, Unique, ends_in_one}

module _ {ℓ} {A : Type ℓ} where
  -- A SELECT with two conditions is one on the rows that meet the second.
  pub fetch-select :
      (p test : A → Bool) (xs : List A) → fetch (λ a. p a && test a) xs ≡ fetch p (select test xs)
  unfolding fetch select
  fetch-select p test [] = refl
  fetch-select p test (a ∷ xs) = elim (Bool-cases (test a)) [
    | inl t ↦ rw t (ground (arith, fetch-select p test xs))
    | inr t ↦ rw t (ground (arith, fetch-select p test xs))
  ]

  pub select-update :
      (test hit : A → Bool) (set : A → A) (xs : List A)
      → ((a : A) → hit a ≡ true → test a ≡ false)
      → ((a : A) → test (set a) ≡ test a)
      → select test (update hit set xs) ≡ select test xs
  unfolding select update
  select-update test hit set [] apart same = refl
  select-update test hit set (a ∷ xs) apart same =
      ground (arith, apart a, same a, select-update test hit set xs apart same)

  pub select-delete :
      (test hit : A → Bool) (xs : List A)
      → ((a : A) → hit a ≡ true → test a ≡ false)
      → select test (delete hit xs) ≡ select test xs
  unfolding select delete
  select-delete test hit [] apart = refl
  select-delete test hit (a ∷ xs) apart = elim (Bool-cases (hit a)) [
    | inl t ↦ rw (t, apart a t) (select-delete test hit xs apart)
    | inr t ↦ rw (t, select-delete test hit xs apart) refl
  ]

  pub select_other_row :
      (test : A → Bool) (a : A) (xs : List A)
      → test a ≡ false
      → select test (xs ++ a ∷ []) ≡ select test xs
  unfolding select
  select_other_row test a [] e = rw e refl
  select_other_row test a (b ∷ xs) e = rw (select_other_row test a xs e) refl

  pub fetch_other_row :
      (test : A → Bool) (a : A) (xs : List A)
      → test a ≡ false
      → fetch test (xs ++ a ∷ []) ≡ fetch test xs
  unfolding fetch
  fetch_other_row test a [] e = rw e refl
  fetch_other_row test a (b ∷ xs) e = rw (fetch_other_row test a xs e) refl

  pub fetch_first_row :
      (test : A → Bool) (a : A) (xs : List A)
      → fetch test xs ≡ none
      → test a ≡ true
      → fetch test (xs ++ a ∷ []) ≡ some a
  unfolding fetch
  fetch_first_row test a [] e t = rw t refl
  fetch_first_row test a (b ∷ xs) e t = ground (arith, fetch_first_row test a xs)

  pub fetch-delete : (test : A → Bool) (xs : List A) → fetch test (delete test xs) ≡ none
  unfolding fetch delete
  fetch-delete test [] = refl
  fetch-delete test (a ∷ xs) = elim (Bool-cases (test a)) [
    | inl t ↦ rw t (fetch-delete test xs)
    | inr t ↦ rw (t, t) (fetch-delete test xs)
  ]

  -- The row that an INSERT adds, when a broader test meets no row before it.
  pub fetch_new_row :
      (test p : A → Bool) (a : A) (xs : List A)
      → ((b : A) → test b ≡ true → p b ≡ true)
      → any p xs ≡ false
      → test a ≡ true
      → fetch test (xs ++ a ∷ []) ≡ some a
  unfolding fetch
  fetch_new_row test p a [] broad fresh t = rw t refl
  fetch_new_row test p a (b ∷ xs) broad fresh t =
      ground (arith, broad b, fetch_new_row test p a xs broad (ground arith) t)

  pub fetch_updated :
      (test : A → Bool) (set : A → A) (xs : List A)
      → ((a : A) → test (set a) ≡ test a)
      → fetch test (update test set xs)
        ≡ elim (fetch test xs) [ none ↦ none | some a ↦ some (set a) ]
  unfolding fetch update
  fetch_updated test set [] same = refl
  fetch_updated test set (a ∷ xs) same = elim (Bool-cases (test a)) [
    | inl t ↦ rw (t, same a, t) refl
    | inr t ↦ rw (t, t) (fetch_updated test set xs same)
  ]

  pub fetch-none :
      (test p : A → Bool) (xs : List A)
      → ((a : A) → test a ≡ true → p a ≡ true)
      → fetch p xs ≡ none
      → fetch test xs ≡ none
  unfolding fetch
  fetch-none test p [] broad e = refl
  fetch-none test p (a ∷ xs) broad e = ground (arith, broad a, fetch-none test p xs broad)

  pub delete-All {κ} :
      (P : A → Type κ) (test : A → Bool) (xs : List A) → All P xs → All P (delete test xs)
  unfolding delete
  delete-All P test [] h = tt
  delete-All P test (a ∷ xs) h = elim (Bool-cases (test a)) [
    | inl t ↦ rw t (delete-All P test xs h.1)
    | inr t ↦ rw t (h.0, delete-All P test xs h.1)
  ]

module _ {ℓ} {A : Type ℓ} (key : A → ℕ) where
  fetch_absent :
      (k : ℕ) (p : A → Bool) (xs : List A)
      → All (λ b. key b ≢ k) xs
      → fetch (λ a. (key a == k) && p a) xs ≡ none
  unfolding fetch
  fetch_absent k p [] h = refl
  fetch_absent k p (a ∷ xs) h = ground (arith, h.0, fetch_absent k p xs h.1)

  -- A test beside the primary key is one on the row with that key.
  pub fetch_at_key :
      (k : ℕ) (p : A → Bool) (xs : List A)
      → Unique key xs
      → fetch (λ a. (key a == k) && p a) xs
        ≡ elim (fetch (λ a. key a == k) xs) [ none ↦ none | some a ↦ if p a then some a else none ]
  unfolding fetch
  fetch_at_key k p [] u = refl
  fetch_at_key k p (a ∷ xs) u = elim (Bool-cases (key a == k)) [
    | inl e ↦
        let e' : key a ≡ k = (==_iff (key a) k).0 e in
        let none_left = fetch_absent k p xs (All-mono _ _ xs (λ b ne. ground (arith, ne)) u.0) in
        ground (arith, none_left)
    | inr e ↦ ground (arith, fetch_at_key k p xs u.1)
  ]

  -- So the tag of a command tells whether the statement meets a row.
  pub ends_in_one-fetch :
      (k : ℕ) (p : A → Bool) (xs : List A)
      → Unique key xs
      → ends_in_one (λ a. (key a == k) && p a) xs
        ≡ elim (fetch (λ a. (key a == k) && p a) xs) [ none ↦ false | some a ↦ true ]
  ends_in_one-fetch k p xs u =
      rw (fetch_at_key k p xs u)
        (ends_in_one_at_key key k p xs u ∙ same (fetch (λ a. key a == k) xs))
    where
      same :
          (found : Option A)
          → elim found [ none ↦ false | some a ↦ p a ]
            ≡ elim (elim found as (λ _. Option A) [
              | none ↦ none
              | some a ↦ if p a then some a else none
            ]) [ none ↦ false | some a ↦ true ]
      same none = refl
      same (some a) = ground arith

  -- A row with a new key.
  pub append-Unique :
      (xs : List A) (a : A)
      → All (λ b. key b ≢ key a) xs
      → Unique key xs
      → Unique key (xs ++ a ∷ [])
  append-Unique [] a fresh u = (tt, tt)
  append-Unique (b ∷ xs) a fresh u =
      (All-append _ xs _ u.0 ((λ e. fresh.0 (sym e)), tt), append-Unique xs a fresh.1 u.1)

  pub absent_key :
      (k : ℕ) (xs : List A) → any (λ a. key a == k) xs ≡ false → All (λ a. key a ≢ k) xs
  absent_key k [] h = tt
  absent_key k (a ∷ xs) h = (ground arith, absent_key k xs (ground arith))

  pub delete-Unique : (test : A → Bool) (xs : List A) → Unique key xs → Unique key (delete test xs)
  unfolding delete
  delete-Unique test [] u = tt
  delete-Unique test (a ∷ xs) u = elim (Bool-cases (test a)) [
    | inl t ↦ rw t (delete-Unique test xs u.1)
    | inr t ↦ rw t (delete-All _ test xs u.0, delete-Unique test xs u.1)
  ]
