-- ===== src/Worker/Catalog.antt =====
-- worker/duckdb.py: introspect_catalog, on the rows that information_schema.columns has; with
-- get_catalog of worker/routes.py.
pub mod Grouped
pub mod Changes
pub mod Orders
pub mod Rounds
pub mod Introspected
use text.Mathlib.Text.{◌==◌ as str_eq}
use duck_launcher.Base.{
  ℕ, Bool, ◌&&◌, Option, none, some, String, List, [], ◌∷◌, ◌++◌, is_some, leb, map, if◌then◌else◌,
}
use duck_launcher.Table.{order_by}
use duck_launcher.Worker.Dict.{find, find_or, set_default, modify}

pub record ColumnRow : Type 0 where
  pub database_name : String
  pub schema_name : String
  pub table_name : String
  pub column_name : String
  pub data_type : String
  pub ordinal_position : ℕ

-- {"name": …, "type": …, "ordinal_position": …}
pub record Column : Type 0 where
  pub name : String
  pub type_name : String
  pub ordinal_position : ℕ

pub record CatalogColumn : Type 0 where
  pub name : String
  pub type_name : String

pub record CatalogTable : Type 0 where
  pub name : String
  pub columns : List CatalogColumn

pub record CatalogSchema : Type 0 where
  pub name : String
  pub tables : List CatalogTable

pub record CatalogDatabase : Type 0 where
  pub name : String
  pub schemas : List CatalogSchema

abbrev pub Tables : Type 0
Tables = List (String × List Column)

abbrev pub Schemas : Type 0
Schemas = List (String × Tables)

abbrev pub Databases : Type 0
Databases = List (String × Schemas)

-- Equality of the keys of table_order.
abbrev pub same_pair : String × String → String × String → Bool
same_pair (a, b) (c, d) = str_eq a c && str_eq b d

-- The four variables of the loop.
pub record Collected : Type 0 where
  pub databases : Databases
  pub database_order : List String
  pub schema_order : List (String × List String)
  pub table_order : List ((String × String) × List String)

abbrev pub nothing_collected : Collected
nothing_collected = record {
  databases = [];
  database_order = [];
  schema_order = [];
  table_order = [];
}

abbrev pub push : String → List String → List String
push name names = names ++ name ∷ []

abbrev pub column_of : ColumnRow → Column
column_of row = record {
  name = row.column_name;
  type_name = row.data_type;
  ordinal_position = row.ordinal_position;
}

-- The change of a table, of a schema and of the databases: the missing ones are made first.
abbrev pub in_tables : ColumnRow → Tables → Tables
in_tables row tables =
    modify str_eq row.table_name (λ columns. columns ++ column_of row ∷ [])
      (set_default str_eq row.table_name [] tables)

abbrev pub in_schemas : ColumnRow → Schemas → Schemas
in_schemas row schemas =
    modify str_eq row.schema_name (in_tables row) (set_default str_eq row.schema_name [] schemas)

abbrev pub in_databases : ColumnRow → Databases → Databases
in_databases row databases =
    modify str_eq row.database_name (in_schemas row)
      (set_default str_eq row.database_name [] databases)

-- `db` and `schema` of a round of the loop, where missing ones are empty.
abbrev pub schemas_at : Databases → String → Schemas
schemas_at databases database_name = find_or str_eq [] database_name databases

abbrev pub tables_at : Databases → String → String → Tables
tables_at databases database_name schema_name =
    find_or str_eq [] schema_name (schemas_at databases database_name)

-- A round of the loop.
unfoldable pub collect : Collected → ColumnRow → Collected
unfolding find set_default modify
collect c row =
    let schemas = schemas_at c.databases row.database_name in
    let tables = tables_at c.databases row.database_name row.schema_name in
    let key : String × String = (row.database_name, row.schema_name) in
    record {
      databases = in_databases row c.databases;
      database_order =
          if is_some (find str_eq row.database_name c.databases)
          then c.database_order
          else push row.database_name c.database_order;
      schema_order =
          if is_some (find str_eq row.schema_name schemas)
          then c.schema_order
          else modify str_eq row.database_name (push row.schema_name)
              (set_default str_eq row.database_name [] c.schema_order);
      table_order =
          if is_some (find str_eq row.table_name tables)
          then c.table_order
          else modify same_pair key (push row.table_name)
              (set_default same_pair key [] c.table_order);
    }

unfoldable pub collect_all : Collected → List ColumnRow → Collected
unfolding collect
collect_all c [] = c
collect_all c (row ∷ rows) = collect_all (collect c row) rows

infixl 55 ◌>>=◌
abbrev pub ◌>>=◌ {ℓ κ} : {A : Type ℓ} → {B : Type κ} → Option A → (A → Option B) → Option B
none >>= f = none
some a >>= f = f a

-- databases[database_name][schema_name][table_name]; none: KeyError.
unfoldable pub columns_at : Databases → String → String → String → Option (List Column)
unfolding find
columns_at databases database_name schema_name table_name = do
  schemas ← find str_eq database_name databases
  tables ← find str_eq schema_name schemas
  find str_eq table_name tables

-- What a comprehension makes of its items, none where one of them raises.
abbrev pub each {ℓ κ} : {A : Type ℓ} → {B : Type κ} → (A → Option B) → List A → Option (List B)
each f [] = some []
each f (a ∷ xs) = do b ← f a; bs ← each f xs; some (b ∷ bs)

abbrev pub by_ordinal : Column → Column → Bool
by_ordinal a b = leb a.ordinal_position b.ordinal_position

abbrev pub catalog_column : Column → CatalogColumn
catalog_column column = record { name = column.name; type_name = column.type_name }

unfoldable pub catalog_table : Databases → String → String → String → Option CatalogTable
unfolding columns_at order_by
catalog_table databases database_name schema_name table_name = do
  columns ← columns_at databases database_name schema_name table_name
  some (record { name = table_name; columns = map catalog_column (order_by by_ordinal columns) })

unfoldable pub catalog_schema : Collected → String → String → Option CatalogSchema
unfolding catalog_table
catalog_schema c database_name schema_name = do
  tables ←
      each (catalog_table c.databases database_name schema_name)
        (find_or same_pair [] (database_name, schema_name) c.table_order)
  some (record { name = schema_name; tables = tables })

unfoldable pub catalog_database : Collected → String → Option CatalogDatabase
unfolding catalog_schema
catalog_database c database_name = do
  schemas ← each (catalog_schema c database_name) (find_or str_eq [] database_name c.schema_order)
  some (record { name = database_name; schemas = schemas })

-- None: an exception.
unfoldable pub introspect_catalog : List ColumnRow → Option (List CatalogDatabase)
unfolding collect_all catalog_database
introspect_catalog rows =
    let c = collect_all nothing_collected rows in each (catalog_database c) c.database_order
