-- ===== src/Worker/Catalog/Changes.antt =====
-- What a round of the loop does to the dictionary of the databases.
use text.Mathlib.Text.{◌==◌ as str_eq}
use text.Mathlib.TextPositions.{eq_refl}
use duck_launcher.Base.{
  ◌≡◌, refl, ap, ◌∙◌, inl, inr, true, ◌||◌, some, String, [], ◌∷◌, ◌++◌, is_some, if◌then◌else◌,
  arith, Bool-cases,
}
use duck_launcher.Worker.Dict.{find, find_or, find-upsert, find_or-upsert}
use duck_launcher.Worker.Catalog.{
  ColumnRow, Databases, column_of, in_tables, in_schemas, in_databases, schemas_at, tables_at,
}
use duck_launcher.Worker.Catalog.Grouped.{in_database, in_schema, in_table, str_eq-to}

pub schema_keys :
    (row : ColumnRow) (d s : String)
    → in_schema d s row ≡ true
    → (d ≡ row.database_name) × (s ≡ row.schema_name)
schema_keys row d s h = elim (Bool-cases (in_database d row)) [
  | inl t ↦ (str_eq-to d row.database_name t, str_eq-to s row.schema_name (rw t at h))
  | inr t ↦ absurd (ground (arith, t, h))
]

module _ (row : ColumnRow) (dbs : Databases) where
  schemas_after :
      (d : String)
      → schemas_at (in_databases row dbs) d ≡ (
          if in_database d row
          then in_schemas row (schemas_at dbs row.database_name)
          else schemas_at dbs d)
  schemas_after d =
      find_or-upsert str_eq eq_refl str_eq-to d row.database_name [] (in_schemas row) dbs

  tables_after :
      (d s : String)
      → tables_at (in_databases row dbs) d s ≡ (
          if in_schema d s row
          then in_tables row (tables_at dbs row.database_name row.schema_name)
          else tables_at dbs d s)
  tables_after d s = elim (Bool-cases (in_database d row)) [
    | inl t ↦
        let same : d ≡ row.database_name = str_eq-to d row.database_name t in
        let schemas = rw t at (schemas_after d) in
        ap (find_or str_eq [] s) schemas
        ∙ find_or-upsert str_eq eq_refl str_eq-to s row.schema_name [] (in_tables row)
            (schemas_at dbs row.database_name)
        ∙ rw (t, same) refl
    | inr t ↦
        let schemas = rw t at (schemas_after d) in ap (find_or str_eq [] s) schemas ∙ rw t refl
  ]

  pub columns_after :
      (d s t : String)
      → find str_eq t (tables_at (in_databases row dbs) d s) ≡ (
          if in_table d s t row
          then some (
              find_or str_eq [] row.table_name (tables_at dbs row.database_name row.schema_name)
              ++ column_of row ∷ [])
          else find str_eq t (tables_at dbs d s))
  columns_after d s t = elim (Bool-cases (in_schema d s row)) [
    | inl h ↦
        let tables = rw h at (tables_after d s) in
        let keys = schema_keys row d s h in
        let here : tables_at dbs d s ≡ tables_at dbs row.database_name row.schema_name =
          rw (keys.0, keys.1) refl in
        ap (find str_eq t) tables
        ∙ find-upsert str_eq eq_refl str_eq-to t row.table_name []
            (λ columns. columns ++ column_of row ∷ [])
            (tables_at dbs row.database_name row.schema_name)
        ∙ rw (h, ← here) refl
    | inr h ↦ let tables = rw h at (tables_after d s) in ap (find str_eq t) tables ∙ rw h refl
  ]

  pub has_database_after :
      (d : String)
      → is_some (find str_eq d (in_databases row dbs))
        ≡ in_database d row || is_some (find str_eq d dbs)
  has_database_after d =
      let found =
        find-upsert str_eq eq_refl str_eq-to d row.database_name [] (in_schemas row) dbs in
      elim (Bool-cases (in_database d row)) [
        | inl t ↦ ap is_some (rw t at found) ∙ rw t refl
        | inr t ↦ ap is_some (rw t at found) ∙ rw t refl
      ]

  pub has_schema_after :
      (d s : String)
      → is_some (find str_eq s (schemas_at (in_databases row dbs) d))
        ≡ in_schema d s row || is_some (find str_eq s (schemas_at dbs d))
  has_schema_after d s = elim (Bool-cases (in_database d row)) [
    | inl t ↦
        let schemas = rw t at (schemas_after d) in
        let same : d ≡ row.database_name = str_eq-to d row.database_name t in
        let found =
          find-upsert str_eq eq_refl str_eq-to s row.schema_name [] (in_tables row)
            (schemas_at dbs row.database_name) in
        ap (λ dict. is_some (find str_eq s dict)) schemas
        ∙ elim (Bool-cases (str_eq s row.schema_name)) [
          | inl h ↦ ap is_some (rw h at found) ∙ rw (t, h) refl
          | inr h ↦ ap is_some (rw h at found) ∙ rw (t, h, same) refl
        ]
    | inr t ↦
        let schemas = rw t at (schemas_after d) in
        ap (λ dict. is_some (find str_eq s dict)) schemas ∙ rw t refl
  ]
