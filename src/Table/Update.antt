-- ===== src/Table/Update.antt =====
-- Laws of UPDATE: what it does to a row, to a predicate on all rows and to a primary key.
use duck_launcher.Base.{
  ℕ, ◌≡◌, ◌≢◌, refl, inl, inr, Bool, true, false, ◌&&◌, Option, none, some, List, [], ◌∷◌, All,
  All-mono, arith, ◌==◌, ==_iff, Bool-cases, if◌then◌else◌, All-both, ==_refl,
}
use duck_launcher.Table.{update, select, fetch, count, ends_in_one, Unique}

module _ {ℓ} {A : Type ℓ} where
  -- A row after an update.
  abbrev pub updated : (A → Bool) → (A → A) → A → A
  updated test set a = if test a then set a else a

  abbrev pub updated? : (A → Bool) → (A → A) → Option A → Option A
  updated? test set none = none
  updated? test set (some a) = some (updated test set a)

  pub All-update {κ} :
      (P Q : A → Type κ) (test : A → Bool) (set : A → A) (xs : List A)
      → ((a : A) → P a → test a ≡ true → Q (set a))
      → ((a : A) → P a → test a ≡ false → Q a)
      → All P xs
      → All Q (update test set xs)
  unfolding update
  All-update P Q test set [] hit miss h = tt
  All-update P Q test set (a ∷ xs) hit miss h = elim (Bool-cases (test a)) [
    | inl e ↦ rw e (hit a h.0 e, All-update P Q test set xs hit miss h.1)
    | inr e ↦ rw e (miss a h.0 e, All-update P Q test set xs hit miss h.1)
  ]

  pub All-fetch {κ} :
      (P : A → Type κ) (test : A → Bool) (xs : List A) (a : A)
      → All P xs
      → fetch test xs ≡ some a
      → P a × (test a ≡ true)
  unfolding fetch
  All-fetch P test [] a h e = cc
  All-fetch P test (b ∷ xs) a h e = elim (Bool-cases (test b)) [
    | inl t ↦ let same : b ≡ a = ground arith in rw (← same) (h.0, t)
    | inr t ↦ All-fetch P test xs a h.1 (ground arith)
  ]

  pub All-select {κ} :
      (P : A → Type κ) (test : A → Bool) (xs : List A)
      → All P xs
      → All (λ a. P a × (test a ≡ true)) (select test xs)
  unfolding select
  All-select P test [] h = tt
  All-select P test (b ∷ xs) h = elim (Bool-cases (test b)) [
    | inl t ↦ rw t ((h.0, t), All-select P test xs h.1)
    | inr t ↦ rw t (All-select P test xs h.1)
  ]

  pub All-of-select {κ} :
      (P : A → Type κ) (test : A → Bool) (xs : List A)
      → All P (select test xs)
      → All (λ a. test a ≡ true → P a) xs
  unfolding select
  All-of-select P test [] h = tt
  All-of-select P test (a ∷ xs) h = elim (Bool-cases (test a)) [
    | inl t ↦
        let h' : All P (a ∷ select test xs) = rw t at h in (λ _. h'.0, All-of-select P test xs h'.1)
    | inr t ↦ (λ t'. cc, All-of-select P test xs (rw t at h))
  ]

  pub fetch-test : (test : A → Bool) (xs : List A) (a : A) → fetch test xs ≡ some a → test a ≡ true
  unfolding fetch
  fetch-test test [] a e = cc
  fetch-test test (b ∷ xs) a e = ground (arith, fetch-test test xs a)

module _ {ℓ} {A : Type ℓ} (key : A → ℕ) where
  pub update-Unique :
      (test : A → Bool) (set : A → A) (xs : List A)
      → ((a : A) → key (set a) ≡ key a)
      → Unique key xs
      → Unique key (update test set xs)
  unfolding update
  update-Unique test set [] same u = tt
  update-Unique test set (a ∷ xs) same u = (
    All-update (λ b. key b ≢ key a) (λ b. key b ≢ key (if test a then set a else a)) test set xs
        (λ b ne _. ground (arith, same a, same b)) (λ b ne _. ground (arith, same a)) u.0,
    update-Unique test set xs same u.1,
  )

  -- The row with a given key after an update that keeps keys.
  pub fetch-update :
      (k : ℕ) (test : A → Bool) (set : A → A) (xs : List A)
      → ((a : A) → key (set a) ≡ key a)
      → fetch (λ a. key a == k) (update test set xs)
        ≡ updated? test set (fetch (λ a. key a == k) xs)
  unfolding fetch update
  fetch-update k test set [] same = refl
  fetch-update k test set (a ∷ xs) same = ground (arith, same a, fetch-update k test set xs same)

  -- Each row is the one that its key fetches.
  pub All-fetch_self :
      (xs : List A) → Unique key xs → All (λ a. fetch (λ b. key b == key a) xs ≡ some a) xs
  unfolding fetch
  All-fetch_self [] u = tt
  All-fetch_self (a ∷ xs) u = (
    rw (==_refl (key a)),
    All-mono (λ b. (key b ≢ key a) × (fetch (λ c. key c == key b) xs ≡ some b)) _ xs
        (λ b h. ground (arith, h.0, h.1)) (All-both _ _ xs u.0 (All-fetch_self xs u.1)),
  )

  -- A fetched row is the only one with its key.
  pub fetch-only :
      (k : ℕ) (xs : List A) (a : A)
      → Unique key xs
      → fetch (λ b. key b == k) xs ≡ some a
      → All (λ b. (key b == k) ≡ true → b ≡ a) xs
  unfolding fetch
  fetch-only k [] a u e = tt
  fetch-only k (b ∷ xs) a u e = elim (Bool-cases (key b == k)) [
    | inl t ↦ (
      λ _. ground arith,
      All-mono (λ c. key c ≢ key b) _ xs (λ c ne hit. absurd (ne (ground arith))) u.0,
    )
    | inr t ↦ (λ hit. cc, fetch-only k xs a u.1 (ground arith))
  ]

  -- An update at a key that no row has changes nothing.
  pub update_absent :
      (k : ℕ) (set : A → A) (xs : List A)
      → All (λ b. key b ≢ k) xs
      → update (λ a. key a == k) set xs ≡ xs
  unfolding update
  update_absent k set [] h = refl
  update_absent k set (a ∷ xs) h = ground (arith, h.0, update_absent k set xs h.1)

  -- No row with the key: nothing is counted, and nothing changes.
  count_absent :
      (k : ℕ) (p : A → Bool) (xs : List A)
      → All (λ b. key b ≢ k) xs
      → count (λ a. (key a == k) && p a) xs ≡ 0
  unfolding count
  count_absent k p [] h = refl
  count_absent k p (a ∷ xs) h = ground (arith, h.0, count_absent k p xs h.1)

  count_absent_key :
      (k : ℕ) (xs : List A) → All (λ b. key b ≢ k) xs → count (λ a. key a == k) xs ≡ 0
  unfolding count
  count_absent_key k [] h = refl
  count_absent_key k (a ∷ xs) h = ground (arith, h.0, count_absent_key k xs h.1)

  -- By its primary key a statement meets one row at most.
  pub count_at_key :
      (k : ℕ) (p : A → Bool) (xs : List A)
      → Unique key xs
      → count (λ a. (key a == k) && p a) xs
        ≡ elim (fetch (λ a. key a == k) xs) [ none ↦ 0 | some a ↦ if p a then 1 else 0 ]
  unfolding count fetch
  count_at_key k p [] u = refl
  count_at_key k p (a ∷ xs) u = elim (Bool-cases (key a == k)) [
    | inl e ↦
        let e' : key a ≡ k = (==_iff (key a) k).0 e in
        let none_left = count_absent k p xs (All-mono _ _ xs (λ b ne. ground (arith, ne)) u.0) in
        ground (arith, none_left)
    | inr e ↦ ground (arith, count_at_key k p xs u.1)
  ]

  pub count_key :
      (k : ℕ) (xs : List A)
      → Unique key xs
      → count (λ a. key a == k) xs ≡ elim (fetch (λ a. key a == k) xs) [ none ↦ 0 | some a ↦ 1 ]
  unfolding count fetch
  count_key k [] u = refl
  count_key k (a ∷ xs) u = elim (Bool-cases (key a == k)) [
    | inl e ↦
        let e' : key a ≡ k = (==_iff (key a) k).0 e in
        let none_left = count_absent_key k xs (All-mono _ _ xs (λ b ne. ground (arith, ne)) u.0) in
        ground (arith, none_left)
    | inr e ↦ ground (arith, count_key k xs u.1)
  ]

  -- So the test on the command's tag is the test on that row.
  pub ends_in_one_at_key :
      (k : ℕ) (p : A → Bool) (xs : List A)
      → Unique key xs
      → ends_in_one (λ a. (key a == k) && p a) xs
        ≡ elim (fetch (λ a. key a == k) xs) [ none ↦ false | some a ↦ p a ]
  unfolding ends_in_one
  ends_in_one_at_key k p xs u = ground (arith, count_at_key k p xs u)

  pub ends_in_one_key :
      (k : ℕ) (xs : List A)
      → Unique key xs
      → ends_in_one (λ a. key a == k) xs
        ≡ elim (fetch (λ a. key a == k) xs) [ none ↦ false | some a ↦ true ]
  unfolding ends_in_one
  ends_in_one_key k xs u = ground (arith, count_key k xs u)
