-- ===== src/Table.antt =====
-- The SQL statements that the program sends (db/*.py), over a table as the list of its rows: UPDATE
-- with its row count, DELETE, SELECT with WHERE, ORDER BY, LIMIT and OFFSET, and primary keys.
-- Rows that ORDER BY leaves tied keep the order in which the table holds them.
pub mod Update
pub mod Order
pub mod Select
use duck_launcher.Base.{
  ℕ, ◌+◌, ◌%◌, ◌≡◌, ◌≢◌, Bool, Option, none, some, List, [], ◌∷◌, All, ◌==◌, if◌then◌else◌,
}

module _ {ℓ} {A : Type ℓ} where
  -- UPDATE … SET … WHERE …
  unfoldable pub update : (A → Bool) → (A → A) → List A → List A
  update test set [] = []
  update test set (a ∷ xs) = (if test a then set a else a) ∷ update test set xs

  -- SELECT … WHERE …
  unfoldable pub select : (A → Bool) → List A → List A
  select test [] = []
  select test (a ∷ xs) = let rest = select test xs in if test a then a ∷ rest else rest

  -- DELETE … WHERE …
  unfoldable pub delete : (A → Bool) → List A → List A
  delete test [] = []
  delete test (a ∷ xs) = let rest = delete test xs in if test a then rest else a ∷ rest

  -- The first row that `fetchrow` gets, None without one.
  unfoldable pub fetch : (A → Bool) → List A → Option A
  fetch test [] = none
  fetch test (a ∷ xs) = if test a then some a else fetch test xs

  -- The number n of a command's tag `UPDATE n` or `DELETE n`, and COUNT(*).
  unfoldable pub count : (A → Bool) → List A → ℕ
  count test [] = 0
  count test (a ∷ xs) = let rest = count test xs in if test a then rest + 1 else rest

  -- `result.endswith("1")` on that tag: its last digit is 1.
  unfoldable pub ends_in_one : (A → Bool) → List A → Bool
  ends_in_one test xs = count test xs % 10 == 1

  -- ORDER BY, where `before a b` says that `a` does not come after `b`.
  unfoldable pub insert_row : (A → A → Bool) → A → List A → List A
  insert_row before a [] = a ∷ []
  insert_row before a (b ∷ xs) = if before a b then a ∷ b ∷ xs else b ∷ insert_row before a xs

  unfoldable pub order_by : (A → A → Bool) → List A → List A
  unfolding insert_row
  order_by before [] = []
  order_by before (a ∷ xs) = insert_row before a (order_by before xs)

  -- A primary key: no two rows share it.
  abbrev pub Unique : (A → ℕ) → List A → Type 0
  Unique key [] = Unit
  Unique key (a ∷ xs) = All (λ b. key b ≢ key a) xs × Unique key xs
