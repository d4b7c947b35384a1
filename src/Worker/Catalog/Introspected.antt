-- ===== src/Worker/Catalog/Introspected.antt =====
-- worker/duckdb.py: the result of introspect_catalog, and the grouped columns.
use text.Mathlib.Text.{◌==◌ as str_eq}
use text.Mathlib.TextPositions.{eq_refl}
use duck_launcher.Base.{
  ◌≡◌, refl, sym, ap, ◌∙◌, inl, inr, true, Option, some, String, List, [], ◌∷◌, map, any, All,
  All-mono, arith, Option-cases, is_some, All-intro,
}
use duck_launcher.Table.Select.{delete-All}
use duck_launcher.Worker.Dict.{find}
use duck_launcher.Worker.Catalog.{
  ColumnRow, Column, Databases, Collected, nothing_collected, column_of, tables_at, collect_all,
  columns_at, each, catalog_table, catalog_schema, catalog_database, introspect_catalog,
}
use duck_launcher.Worker.Catalog.Grouped.{
  distinct, in_database, in_schema, in_table, picked, any-picked, grouped_table, grouped_schema,
  grouped_database, grouped,
}
use duck_launcher.Worker.Catalog.Rounds.{Holds, filled, filled-any, collected-Holds}

each-some {ℓ κ} :
    {A : Type ℓ} {B : Type κ} (f : A → Option B) (g : A → B) (xs : List A)
    → All (λ a. f a ≡ some (g a)) xs
    → each f xs ≡ some (map g xs)
each-some f g [] h = refl
each-some f g (a ∷ xs) h = rw (h.0, each-some f g xs h.1) refl

any_self : (names : List String) → All (λ x. any (str_eq x) names ≡ true) names
any_self [] = tt
any_self (x ∷ names) = (
  rw (eq_refl x) refl,
  All-mono (λ y. any (str_eq y) names ≡ true) (λ y. any (str_eq y) (x ∷ names) ≡ true) names
      (λ y h. ground (arith, h)) (any_self names),
)

distinct-All : (P : String → Type 0) (names : List String) → All P names → All P (distinct names)
unfolding distinct
distinct-All P [] h = tt
distinct-All P (x ∷ names) h =
    (h.0, delete-All P (λ y. str_eq x y) (distinct names) (distinct-All P names h.1))

columns_at-tables :
    (dbs : Databases) (d s t : String) → columns_at dbs d s t ≡ find str_eq t (tables_at dbs d s)
unfolding columns_at find
columns_at-tables dbs d s t = elim (Option-cases (find str_eq d dbs)) [
  | inl n ↦ rw (columns_at, n) refl
  | inr (schemas, e) ↦ elim (Option-cases (find str_eq s schemas)) [
    | inl n ↦ rw (columns_at, e, n) refl
    | inr (tables, e') ↦ rw (columns_at, e, e') refl
  ]
]

filled_some : (cs : List Column) → is_some (filled cs) ≡ true → filled cs ≡ some cs
filled_some [] h = absurd (ground (arith, h))
filled_some (c ∷ cs) h = refl

module _ (c : Collected) (rows : List ColumnRow) (h : Holds c rows) where
  table_grouped :
      (d s t : String)
      → any (in_table d s t) rows ≡ true
      → catalog_table c.databases d s t ≡ some (grouped_table rows d s t)
  unfolding catalog_table
  table_grouped d s t there =
      let columns : columns_at c.databases d s t ≡ some (picked (in_table d s t) column_of rows) =
        columns_at-tables c.databases d s t
        ∙ h.columns d s t
        ∙ filled_some (picked (in_table d s t) column_of rows)
            (filled-any (in_table d s t) rows ∙ there) in
      rw (catalog_table, columns) refl

  schema_grouped : (d s : String) → catalog_schema c d s ≡ some (grouped_schema rows d s)
  unfolding catalog_schema
  schema_grouped d s =
      let names = picked (in_schema d s) (λ r. r.table_name) rows in
      let there = distinct-All (λ t. any (str_eq t) names ≡ true) names (any_self names) in
      let tables =
        each-some (catalog_table c.databases d s) (grouped_table rows d s) (distinct names) (
          All-mono (λ t. any (str_eq t) names ≡ true) _ (distinct names)
            (λ t k.
              table_grouped d s t (sym (any-picked (in_schema d s) (λ r. r.table_name) t rows) ∙ k))
            there) in
      rw (catalog_schema, h.tables d s, tables) refl

  database_grouped : (d : String) → catalog_database c d ≡ some (grouped_database rows d)
  unfolding catalog_database
  database_grouped d =
      let names = distinct (picked (in_database d) (λ r. r.schema_name) rows) in
      let schemas = each-some (catalog_schema c d) (grouped_schema rows d) names (
        All-intro (λ s. catalog_schema c d s ≡ some (grouped_schema rows d s)) names
          (schema_grouped d)) in
      rw (catalog_database, h.schemas d, schemas) refl

-- Whatever rows DuckDB gives, in whatever order: introspect_catalog raises no KeyError, and its
-- result is the rows grouped by database, schema and table, each name once and where it first stands,
-- and the columns of each table by their ordinal position.
pub introspect_catalog_lem : (rows : List ColumnRow) → introspect_catalog rows ≡ some (grouped rows)
unfolding introspect_catalog
introspect_catalog_lem rows =
    let c = collect_all nothing_collected rows in
    let h = collected-Holds rows in
    let names = distinct (map (λ r. r.database_name) rows) in
    ap (each (catalog_database c)) h.databases
    ∙ each-some (catalog_database c) (grouped_database rows) names (
        All-intro (λ d. catalog_database c d ≡ some (grouped_database rows d)) names
          (database_grouped c rows h))
