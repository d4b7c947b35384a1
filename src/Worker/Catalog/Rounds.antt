-- ===== src/Worker/Catalog/Rounds.antt =====
-- What the loop of introspect_catalog has collected after some rows.
use mathlib.Core.List.{append-nil, append_assoc}
use text.Mathlib.Text.{◌==◌ as str_eq}
use text.Mathlib.TextPositions.{eq_refl}
use duck_launcher.Base.{
  ◌≡◌, refl, sym, ap, ◌∙◌, subst, inl, inr, Bool, true, false, ◌||◌, Option, none, some, String,
  List, [], ◌∷◌, ◌++◌, is_some, map, any, if◌then◌else◌, Bool-cases, coalesce,
}
use duck_launcher.Table.{select}
use duck_launcher.Worker.Dict.{find, find_or}
use duck_launcher.Worker.Catalog.{
  ColumnRow, Column, same_pair, Collected, nothing_collected, push, column_of, in_databases,
  schemas_at, tables_at, collect, collect_all,
}
use duck_launcher.Worker.Catalog.Grouped.{
  distinct, in_database, in_schema, in_table, picked, str_eq-to, picked-append, any-push,
}
use duck_launcher.Worker.Catalog.Changes.{
  schema_keys, columns_after, has_database_after, has_schema_after,
}
use duck_launcher.Worker.Catalog.Orders.{
  map-push, any-map, more, order_after, same_pair_refl, same_pair-eq,
}

-- None where there are no columns.
abbrev pub filled : List Column → Option (List Column)
filled [] = none
filled (c ∷ cs) = some (c ∷ cs)

pub record Holds (c : Collected) (rows : List ColumnRow) : Type 0 where
  pub databases : c.database_order ≡ distinct (map (λ r. r.database_name) rows)
  pub schemas :
      (d : String)
      → find_or str_eq [] d c.schema_order
        ≡ distinct (picked (in_database d) (λ r. r.schema_name) rows)
  pub tables :
      (d s : String)
      → find_or same_pair [] (d, s) c.table_order
        ≡ distinct (picked (in_schema d s) (λ r. r.table_name) rows)
  pub has_database : (d : String) → is_some (find str_eq d c.databases) ≡ any (in_database d) rows
  pub has_schema :
      (d s : String) → is_some (find str_eq s (schemas_at c.databases d)) ≡ any (in_schema d s) rows
  pub columns :
      (d s t : String)
      → find str_eq t (tables_at c.databases d s) ≡ filled (picked (in_table d s t) column_of rows)

filled_push : (cs : List Column) (c : Column) → filled (cs ++ c ∷ []) ≡ some (cs ++ c ∷ [])
filled_push [] c = refl
filled_push (d ∷ cs) c = refl

filled_or : (cs : List Column) → coalesce (filled cs) [] ≡ cs
filled_or [] = refl
filled_or (c ∷ cs) = refl

pub filled-any :
    (p : ColumnRow → Bool) (rows : List ColumnRow)
    → is_some (filled (picked p column_of rows)) ≡ any p rows
unfolding select
filled-any p [] = refl
filled-any p (r ∷ rows) = elim (Bool-cases (p r)) [
  | inl t ↦ rw t refl
  | inr t ↦ rw t (filled-any p rows)
]

columns_kept :
    (c : Collected) (row : ColumnRow) (rows : List ColumnRow)
    → Holds c rows
    → (d s t : String)
    → find str_eq t (tables_at (in_databases row c.databases) d s)
      ≡ filled (picked (in_table d s t) column_of (rows ++ row ∷ []))
columns_kept c row rows h d s t = elim (Bool-cases (in_schema d s row)) [
  | inl hs ↦ elim (Bool-cases (str_eq t row.table_name)) [
    | inl ht ↦
        let here : in_table d s t row ≡ true = rw (hs, ht) refl in
        let keys = schema_keys row d s hs in
        let before : find_or str_eq [] row.table_name
              (tables_at c.databases row.database_name row.schema_name)
            ≡ picked (in_table d s t) column_of rows =
          rw (← keys.0, ← keys.1, ← (str_eq-to t row.table_name ht))
            (ap (λ o. coalesce o []) (h.columns d s t)
              ∙ filled_or (picked (in_table d s t) column_of rows)) in
        (rw here at (columns_after row c.databases d s t))
        ∙ ap (λ cs. some (cs ++ column_of row ∷ [])) before
        ∙ sym (filled_push (picked (in_table d s t) column_of rows) (column_of row))
        ∙ ap filled (sym (rw here at (picked-append (in_table d s t) column_of row rows)))
    | inr ht ↦ elsewhere (rw (hs, ht) refl)
  ]
  | inr hs ↦ elsewhere (rw hs refl)
]
  where
    elsewhere :
        in_table d s t row ≡ false
        → find str_eq t (tables_at (in_databases row c.databases) d s)
          ≡ filled (picked (in_table d s t) column_of (rows ++ row ∷ []))
    elsewhere off =
        (rw off at (columns_after row c.databases d s t))
        ∙ h.columns d s t
        ∙ ap filled (sym (rw off at (picked-append (in_table d s t) column_of row rows)))

collect-Holds :
    (c : Collected) (row : ColumnRow) (rows : List ColumnRow)
    → Holds c rows
    → Holds (collect c row) (rows ++ row ∷ [])
unfolding collect
collect-Holds c row rows h =
    let d0 = row.database_name in
    let s0 = row.schema_name in
    record {
      databases =
          let names = map (λ r. r.database_name) rows in
          ap (λ order. if is_some (find str_eq d0 c.databases) then order else push d0 order)
            h.databases
          ∙ sym (
              more (is_some (find str_eq d0 c.databases)) d0 names
                (h.has_database d0 ∙ sym (any-map (str_eq d0) (λ r. r.database_name) rows)))
          ∙ ap distinct (sym (map-push (λ r. r.database_name) row rows));
      schemas =
          order_after str_eq eq_refl str_eq-to (λ r. r.database_name) (λ r. r.schema_name) row rows
            c.schema_order (is_some (find str_eq s0 (schemas_at c.databases d0))) h.schemas
            (h.has_schema d0 s0);
      tables = λ d s.
          order_after same_pair same_pair_refl same_pair-eq (λ r. (r.database_name, r.schema_name))
            (λ r. r.table_name) row rows c.table_order
            (is_some (find str_eq row.table_name (tables_at c.databases d0 s0)))
            (λ k. h.tables k.0 k.1)
            (ap is_some (h.columns d0 s0 row.table_name)
              ∙ filled-any (in_table d0 s0 row.table_name) rows)
            (d, s);
      has_database = λ d.
          has_database_after row c.databases d
          ∙ ap (◌||◌ (in_database d row)) (h.has_database d)
          ∙ sym (any-push (in_database d) row rows);
      has_schema = λ d s.
          has_schema_after row c.databases d s
          ∙ ap (◌||◌ (in_schema d s row)) (h.has_schema d s)
          ∙ sym (any-push (in_schema d s) row rows);
      columns = columns_kept c row rows h;
    }

nothing-Holds : Holds nothing_collected []
unfolding find distinct select
nothing-Holds = record {
  databases = refl;
  schemas = λ d. refl;
  tables = λ d s. refl;
  has_database = λ d. refl;
  has_schema = λ d s. refl;
  columns = λ d s t. refl;
}

all-Holds :
    (c : Collected) (seen rows : List ColumnRow)
    → Holds c seen
    → Holds (collect_all c rows) (seen ++ rows)
unfolding collect_all
all-Holds c seen [] h = subst (Holds c) (sym (append-nil seen)) h
all-Holds c seen (row ∷ rows) h =
    subst (Holds (collect_all (collect c row) rows)) (append_assoc seen (row ∷ []) rows)
      (all-Holds (collect c row) (seen ++ row ∷ []) rows (collect-Holds c row seen h))

-- After the loop.
pub collected-Holds : (rows : List ColumnRow) → Holds (collect_all nothing_collected rows) rows
collected-Holds rows = all-Holds nothing_collected [] rows nothing-Holds
