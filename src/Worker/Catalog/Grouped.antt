-- ===== src/Worker/Catalog/Grouped.antt =====
-- What the catalog is: the columns grouped by their databases, schemas and tables.
use mathlib.Core.List.{append-nil}
use text.Mathlib.Text.{◌==◌ as str_eq}
use text.Mathlib.TextEquality.{eq_iff}
use text.Mathlib.TextPositions.{eq_refl}
use duck_launcher.Base.{
  ◌≡◌, refl, sym, ap, ◌∙◌, subst, inl, inr, Bool, true, false, ◌&&◌, ◌||◌, String, List, [], ◌∷◌,
  ◌++◌, map, any, if◌then◌else◌, arith, Bool-cases,
}
use duck_launcher.Table.{select, delete, order_by}
use duck_launcher.Worker.Catalog.{
  ColumnRow, CatalogTable, CatalogSchema, CatalogDatabase, push, column_of, by_ordinal,
  catalog_column,
}

-- Each of the names once, where it first stands.
unfoldable pub distinct : List String → List String
unfolding delete
distinct [] = []
distinct (x ∷ xs) = x ∷ delete (λ y. str_eq x y) (distinct xs)

abbrev pub in_database : String → ColumnRow → Bool
in_database d row = str_eq d row.database_name

abbrev pub in_schema : String → String → ColumnRow → Bool
in_schema d s row = in_database d row && str_eq s row.schema_name

abbrev pub in_table : String → String → String → ColumnRow → Bool
in_table d s t row = in_schema d s row && str_eq t row.table_name

-- The values of the rows that pass a test.
abbrev pub picked {ℓ κ} : {A : Type ℓ} → {B : Type κ} → (A → Bool) → (A → B) → List A → List B
picked p f rows = map f (select p rows)

abbrev pub grouped_table : List ColumnRow → String → String → String → CatalogTable
grouped_table rows d s t = record {
  name = t;
  columns = map catalog_column (order_by by_ordinal (picked (in_table d s t) column_of rows));
}

abbrev pub grouped_schema : List ColumnRow → String → String → CatalogSchema
grouped_schema rows d s = record {
  name = s;
  tables =
      map (grouped_table rows d s) (distinct (picked (in_schema d s) (λ r. r.table_name) rows));
}

abbrev pub grouped_database : List ColumnRow → String → CatalogDatabase
grouped_database rows d = record {
  name = d;
  schemas =
      map (grouped_schema rows d) (distinct (picked (in_database d) (λ r. r.schema_name) rows));
}

abbrev pub grouped : List ColumnRow → List CatalogDatabase
grouped rows = map (grouped_database rows) (distinct (map (λ r. r.database_name) rows))

pub str_eq-to : (a b : String) → str_eq a b ≡ true → a ≡ b
str_eq-to a b t = (eq_iff a b).0 t

str_eq_comm : (a b : String) → str_eq a b ≡ str_eq b a
str_eq_comm a b = elim (Bool-cases (str_eq a b)) [
  | inl t ↦ t ∙ sym (subst (λ x. str_eq b x ≡ true) (sym (str_eq-to a b t)) (eq_refl b))
  | inr t ↦ elim (Bool-cases (str_eq b a)) [
    | inl h ↦ subst (λ x. str_eq a x ≡ str_eq b a) (sym (str_eq-to b a h)) (eq_refl a ∙ sym h)
    | inr h ↦ t ∙ sym h
  ]
]

delete-append {ℓ} :
    {A : Type ℓ} (q : A → Bool) (xs ys : List A) → delete q (xs ++ ys) ≡ delete q xs ++ delete q ys
unfolding delete
delete-append q [] ys = refl
delete-append q (x ∷ xs) ys = elim (Bool-cases (q x)) [
  | inl t ↦ rw t (delete-append q xs ys)
  | inr t ↦ rw t (ap (◌∷◌ x) (delete-append q xs ys))
]

pub distinct-append :
    (x : String) (xs : List String)
    → distinct (push x xs) ≡ (if any (str_eq x) xs then distinct xs else push x (distinct xs))
unfolding distinct delete
distinct-append x [] = refl
distinct-append x (y ∷ ys) = elim (Bool-cases (any (str_eq x) ys)) [
  | inl t ↦ rw t (
      ap (λ zs. y ∷ delete (λ z. str_eq y z) zs) (distinct-append x ys ∙ rw t refl)
      ∙ either (str_eq x y))
  | inr t ↦
      ap (λ zs. y ∷ delete (λ z. str_eq y z) zs) (distinct-append x ys ∙ rw t refl)
      ∙ ap (◌∷◌ y) (delete-append (λ z. str_eq y z) (distinct ys) (x ∷ []))
      ∙ elim (Bool-cases (str_eq y x)) [
        | inl h ↦
            rw (str_eq_comm x y, h)
              (ap (◌∷◌ y) (append-nil (delete (λ z. str_eq y z) (distinct ys))))
        | inr h ↦ rw (str_eq_comm x y, h, t) refl
      ]
]
  where
    either :
        (b : Bool)
        → ◌≡◌ (y ∷ delete (λ z. str_eq y z) (distinct ys)) (
            if b || true
            then y ∷ delete (λ z. str_eq y z) (distinct ys)
            else push x (y ∷ delete (λ z. str_eq y z) (distinct ys)))
    either true = refl
    either false = refl

module _ {ℓ κ} {A : Type ℓ} {B : Type κ} (p : A → Bool) (f : A → B) where
  pub picked-append :
      (a : A) (xs : List A)
      → picked p f (xs ++ a ∷ []) ≡ (if p a then picked p f xs ++ f a ∷ [] else picked p f xs)
  unfolding select
  picked-append a [] = elim (Bool-cases (p a)) [ inl t ↦ rw t refl | inr t ↦ rw t refl ]
  picked-append a (x ∷ xs) = elim (Bool-cases (p x)) [
    | inl t ↦ elim (Bool-cases (p a)) [
      | inl h ↦ rw (t, h) (ap (◌∷◌ (f x)) (picked-append a xs ∙ rw h refl))
      | inr h ↦ rw (t, h) (ap (◌∷◌ (f x)) (picked-append a xs ∙ rw h refl))
    ]
    | inr t ↦ rw t (picked-append a xs)
  ]

pub any-picked {ℓ} :
    {A : Type ℓ} (p : A → Bool) (f : A → String) (x : String) (xs : List A)
    → any (str_eq x) (picked p f xs) ≡ any (λ a. p a && str_eq x (f a)) xs
unfolding select
any-picked p f x [] = refl
any-picked p f x (a ∷ xs) = elim (Bool-cases (p a)) [
  | inl t ↦ rw t (ap (◌||◌ (str_eq x (f a))) (any-picked p f x xs))
  | inr t ↦ rw t (any-picked p f x xs)
]

pub any-push {ℓ} :
    {A : Type ℓ} (p : A → Bool) (a : A) (xs : List A) → any p (xs ++ a ∷ []) ≡ p a || any p xs
any-push p a [] = refl
any-push p a (x ∷ xs) = rw (any-push p a xs) (ground arith)
