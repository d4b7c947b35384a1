-- ===== src/Sheets.antt =====
-- db/sheets.py: the saved SQL sheets of a user.
pub mod Owners
pub mod Roundtrip
use duck_launcher.Base.{
  ℕ, Bool, ◌&&◌, ◌==◌, Option, none, some, String, List, [], ◌∷◌, ◌++◌, any, leb, coalesce,
  if◌then◌else◌,
}
use duck_launcher.Db.{Db, Sheet}
use duck_launcher.Table.{update, select, delete, fetch, ends_in_one, order_by}
use duck_launcher.Accounts.Users.{has_user_id}

unfoldable pub list_sheets : Db → ℕ → List Sheet
list_sheets db user_id =
    order_by (λ s t. leb t.updated_at s.updated_at) (select (λ s. s.user_id == user_id) db.sheets)

-- sheet_id = $1 AND user_id = $2
abbrev pub is_sheet_of : ℕ → ℕ → Sheet → Bool
is_sheet_of sheet_id user_id s = (s.sheet_id == sheet_id) && (s.user_id == user_id)

unfoldable pub get_sheet : Db → ℕ → ℕ → Option Sheet
get_sheet db sheet_id user_id = fetch (is_sheet_of sheet_id user_id) db.sheets

-- None: the drawn id is taken, or the user is not there.
unfoldable pub create_sheet : Db → ℕ → ℕ → ℕ → String → String → Option (Sheet × Db)
create_sheet db gen_uuid now user_id name sql =
    let sheet : Sheet = record {
      sheet_id = gen_uuid;
      user_id = user_id;
      name = name;
      sql = sql;
      created_at = now;
      updated_at = now;
    } in
    if any (λ s. s.sheet_id == gen_uuid) db.sheets
    then none
    else if any (has_user_id user_id) db.users
    then some (sheet, record db { sheets = db.sheets ++ sheet ∷ [] })
    else none

-- The SET of `update_sheet`.
unfoldable pub edited : Option String → Option String → ℕ → Sheet → Sheet
edited name sql now s = record s {
  name = coalesce name s.name;
  sql = coalesce sql s.sql;
  updated_at = now;
}

unfoldable pub update_sheet : Db → ℕ → ℕ → ℕ → Option String → Option String → Option Sheet × Db
unfolding edited
update_sheet db now sheet_id user_id name sql = (
  elim (fetch (is_sheet_of sheet_id user_id) db.sheets) [
    | none ↦ none
    | some s ↦ some (edited name sql now s)
  ],
  record db { sheets = update (is_sheet_of sheet_id user_id) (edited name sql now) db.sheets },
)

unfoldable pub delete_sheet : Db → ℕ → ℕ → Bool × Db
delete_sheet db sheet_id user_id = (
  ends_in_one (is_sheet_of sheet_id user_id) db.sheets,
  record db { sheets = delete (is_sheet_of sheet_id user_id) db.sheets },
)
