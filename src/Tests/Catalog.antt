-- ===== src/Tests/Catalog.antt =====
-- The catalog of a small database.
use duck_launcher.Base.{◌≡◌, refl, some, List, [], ◌∷◌, String, ℕ}
use duck_launcher.Table.{order_by, insert_row}
use duck_launcher.Worker.Dict.{find, set_default, modify}
use duck_launcher.Worker.Catalog.{
  ColumnRow, introspect_catalog, collect_all, collect, catalog_database, catalog_schema,
  catalog_table, columns_at,
}
use duck_launcher.Worker.Catalog.Grouped.{grouped}
use duck_launcher.Worker.Catalog.Introspected.{introspect_catalog_lem}

abbrev column_row : String → String → String → String → ℕ → ColumnRow
column_row database schema table column position = record {
  database_name = database;
  schema_name = schema;
  table_name = table;
  column_name = column;
  data_type = "INTEGER";
  ordinal_position = position;
}

-- Two tables of one schema, whose columns come out of order, and another database.
abbrev some_columns : List ColumnRow
some_columns =
    column_row "d" "main" "t" "b" 2
    ∷ column_row "d" "main" "u" "c" 1
    ∷ column_row "e" "main" "t" "x" 1
    ∷ column_row "d" "main" "t" "a" 1
    ∷ []

introspected :
    introspect_catalog some_columns
    ≡ some (
        record {
          name = "d";
          schemas =
              record {
                name = "main";
                tables =
                    record {
                      name = "t";
                      columns =
                          record { name = "a"; type_name = "INTEGER" }
                          ∷ record { name = "b"; type_name = "INTEGER" }
                          ∷ [];
                    }
                    ∷ record {
                      name = "u";
                      columns = record { name = "c"; type_name = "INTEGER" } ∷ [];
                    }
                    ∷ [];
              }
              ∷ [];
        }
        ∷ record {
          name = "e";
          schemas =
              record {
                name = "main";
                tables =
                    record {
                      name = "t";
                      columns = record { name = "x"; type_name = "INTEGER" } ∷ [];
                    }
                    ∷ [];
              }
              ∷ [];
        }
        ∷ [])
unfolding introspect_catalog collect_all collect catalog_database catalog_schema catalog_table
    columns_at find set_default modify order_by insert_row
introspected = refl

introspect_catalog_lem_example : introspect_catalog some_columns ≡ some (grouped some_columns)
introspect_catalog_lem_example = introspect_catalog_lem some_columns
