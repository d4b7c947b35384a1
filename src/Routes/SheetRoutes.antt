-- ===== src/Routes/SheetRoutes.antt =====
-- coordinator/routes.py: the handlers of the sheets.
use duck_launcher.Base.{ℕ, Option, none, some, String, List, map, if◌then◌else◌}
use duck_launcher.Db.{Db, User, Sheet}
use duck_launcher.Sheets.{list_sheets, create_sheet, update_sheet, delete_sheet}
use duck_launcher.Accounts.Auth.{Answer, returned, raised}

pub record SheetResponse : Type 0 where
  pub sheet_id : ℕ
  pub name : String
  pub sql : String
  pub created_at : ℕ
  pub updated_at : ℕ

abbrev pub sheet_response : Sheet → SheetResponse
sheet_response row = record {
  sheet_id = row.sheet_id;
  name = row.name;
  sql = row.sql;
  created_at = row.created_at;
  updated_at = row.updated_at;
}

unfoldable pub list_sheets_route : Db → User → List SheetResponse
list_sheets_route db user = map sheet_response (list_sheets db user.user_id)

unfoldable pub create_sheet_route : Db → ℕ → ℕ → User → String → String → Answer SheetResponse × Db
create_sheet_route db gen_uuid now user name sql =
    elim (create_sheet db gen_uuid now user.user_id name sql) [
      | none ↦ (raised 500, db)
      | some (row, db') ↦ (returned (sheet_response row), db')
    ]

unfoldable pub update_sheet_route :
    Db → ℕ → ℕ → User → Option String → Option String → Answer SheetResponse × Db
update_sheet_route db now sheet_id user name sql =
    let updated = update_sheet db now sheet_id user.user_id name sql in
    elim (updated.0) [
      | none ↦ (raised 404, updated.1)
      | some row ↦ (returned (sheet_response row), updated.1)
    ]

-- The answer is {"status": "deleted"}.
unfoldable pub delete_sheet_route : Db → ℕ → User → Answer String × Db
delete_sheet_route db sheet_id user =
    let deleted = delete_sheet db sheet_id user.user_id in
    (if deleted.0 then returned "deleted" else raised 404, deleted.1)
