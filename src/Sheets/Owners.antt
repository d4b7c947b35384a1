-- ===== src/Sheets/Owners.antt =====
-- Who sees a sheet: its owner only, and the calls of other users do not touch it.
use duck_launcher.Base.{
  ℕ, ◌≡◌, ◌≢◌, refl, sym, ◌∙◌, inl, inr, Bool, true, false, ◌==◌, Option, none, some, String, List,
  [], ◌∷◌, arith, Bool-cases, any,
}
use duck_launcher.Db.{Db, Sheet}
use duck_launcher.Table.{select}
use duck_launcher.Table.Select.{fetch-select, select-update, select-delete, select_other_row}
use duck_launcher.Accounts.Users.{has_user_id}
use duck_launcher.Sheets.{
  list_sheets, get_sheet, is_sheet_of, create_sheet, update_sheet, edited, delete_sheet,
}

-- A call on the sheets of a user, with what the call draws and reads.
pub data SheetCall : Type 0 where
  create : ℕ → ℕ → String → String → SheetCall
  edit : ℕ → ℕ → Option String → Option String → SheetCall
  remove : ℕ → SheetCall

abbrev created_or : Db → Option (Sheet × Db) → Db
created_or db none = db
created_or db (some (s, db')) = db'

-- The database after a call by a user; a call that raises changes nothing.
unfoldable pub after_call : ℕ → Db → SheetCall → Db
after_call u db (create gen_uuid now name sql) =
    created_or db (create_sheet db gen_uuid now u name sql)
after_call u db (edit now sheet_id name sql) = (update_sheet db now sheet_id u name sql).1
after_call u db (remove sheet_id) = (delete_sheet db sheet_id u).1

unfoldable pub after_calls : ℕ → Db → List SheetCall → Db
unfolding after_call
after_calls u db [] = db
after_calls u db (c ∷ cs) = after_calls u (after_call u db c) cs

abbrev of_user : ℕ → Sheet → Bool
of_user v s = s.user_id == v

apart : (u v k : ℕ) (s : Sheet) → u ≢ v → is_sheet_of k u s ≡ true → of_user v s ≡ false
apart u v k s ne hit = ground arith

after_create :
    (u v : ℕ) (db : Db) (gen_uuid now : ℕ) (name sql : String)
    → u ≢ v
    → select (of_user v) (created_or db (create_sheet db gen_uuid now u name sql)).sheets
      ≡ select (of_user v) db.sheets
unfolding create_sheet
after_create u v db gen_uuid now name sql ne =
    elim (Bool-cases (any (λ s. s.sheet_id == gen_uuid) db.sheets)) [
      | inl t ↦ rw t refl
      | inr t ↦ elim (Bool-cases (any (has_user_id u) db.users)) [
        | inl k ↦ rw (t, k) (select_other_row (of_user v) _ db.sheets (ground arith))
        | inr k ↦ rw (t, k) refl
      ]
    ]

after_call-select :
    (u v : ℕ) (db : Db) (c : SheetCall)
    → u ≢ v
    → select (of_user v) (after_call u db c).sheets ≡ select (of_user v) db.sheets
unfolding after_call update_sheet delete_sheet edited
after_call-select u v db (create gen_uuid now name sql) ne =
    after_create u v db gen_uuid now name sql ne
after_call-select u v db (edit now sheet_id name sql) ne =
    select-update (of_user v) (is_sheet_of sheet_id u) (edited name sql now) db.sheets
      (λ s hit. apart u v sheet_id s ne hit) (λ s. refl)
after_call-select u v db (remove sheet_id) ne =
    select-delete (of_user v) (is_sheet_of sheet_id u) db.sheets
      (λ s hit. apart u v sheet_id s ne hit)

after_calls-select :
    (u v : ℕ) (db : Db) (cs : List SheetCall)
    → u ≢ v
    → select (of_user v) (after_calls u db cs).sheets ≡ select (of_user v) db.sheets
unfolding after_calls
after_calls-select u v db [] ne = refl
after_calls-select u v db (c ∷ cs) ne =
    after_calls-select u v (after_call u db c) cs ne ∙ after_call-select u v db c ne

-- Whatever calls a user makes on their sheets, another user's list of sheets and each sheet that
-- they can get stay the same.
pub others_see_the_same :
    (u v : ℕ) (db : Db) (cs : List SheetCall) (sheet_id : ℕ)
    → u ≢ v
    → (list_sheets (after_calls u db cs) v ≡ list_sheets db v)
      × (get_sheet (after_calls u db cs) sheet_id v ≡ get_sheet db sheet_id v)
unfolding list_sheets get_sheet
others_see_the_same u v db cs sheet_id ne =
    let same = after_calls-select u v db cs ne in
    (
      rw same refl,
      fetch-select (λ s. s.sheet_id == sheet_id) (of_user v) (after_calls u db cs).sheets
          ∙ rw same (sym (fetch-select (λ s. s.sheet_id == sheet_id) (of_user v) db.sheets)),
    )
