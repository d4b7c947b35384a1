-- ===== src/Sheets/Roundtrip.antt =====
-- What a sheet is after a call on it.
use duck_launcher.Table.Update.{update-Unique}
use duck_launcher.Base.{
  ℕ, ◌≡◌, refl, inl, inr, true, false, ◌==◌, Option, none, some, String, arith, Bool-cases, any,
  some_pair, [], ◌∷◌, ◌++◌, sym, ◌∙◌,
}
use duck_launcher.Db.{Db, Sheet}
use duck_launcher.Table.{Unique}
use duck_launcher.Table.Select.{
  fetch-delete, fetch_new_row, fetch_updated, ends_in_one-fetch, append-Unique, absent_key,
  delete-Unique,
}
use duck_launcher.Accounts.Users.{has_user_id}
use duck_launcher.Sheets.{get_sheet, is_sheet_of, create_sheet, update_sheet, edited, delete_sheet}

-- What a call leaves behind.
get_sheet-create_sheet :
    (db db' : Db) (gen_uuid now u : ℕ) (name sql : String) (s : Sheet)
    → create_sheet db gen_uuid now u name sql ≡ some (s, db')
    → (get_sheet db' s.sheet_id u ≡ some s)
      × (s.name ≡ name)
      × (s.sql ≡ sql)
      × (db'.sheets ≡ db.sheets ++ s ∷ [])
      × (any (λ t. t.sheet_id == s.sheet_id) db.sheets ≡ false)
unfolding create_sheet get_sheet
get_sheet-create_sheet db db' gen_uuid now u name sql s e =
    elim (Bool-cases (any (λ t. t.sheet_id == gen_uuid) db.sheets)) [
      | inl t ↦ absurd (ground (arith, t))
      | inr t ↦ elim (Bool-cases (any (has_user_id u) db.users)) [
        | inl k ↦
            let made = some_pair _ _ _ _ (rw (t, k) at e) in
            (
              rw⁻¹ (made.1, made.0)
                  (fetch_new_row (is_sheet_of gen_uuid u) (λ t. t.sheet_id == gen_uuid) _ db.sheets
                    (λ t hit. ground arith) t (ground arith)),
              rw⁻¹ made.0 refl,
              rw⁻¹ made.0 refl,
              rw⁻¹ (made.1, made.0) refl,
              rw⁻¹ made.0 t,
            )
        | inr k ↦ absurd (ground (arith, t, k))
      ]
    ]

get_sheet-update_sheet :
    (db : Db) (now sheet_id u : ℕ) (name sql : Option String)
    → ((update_sheet db now sheet_id u name sql).0
        ≡ get_sheet (update_sheet db now sheet_id u name sql).1 sheet_id u)
      × ((update_sheet db now sheet_id u name sql).0
          ≡ elim (get_sheet db sheet_id u) [ none ↦ none | some s ↦ some (edited name sql now s) ])
unfolding update_sheet get_sheet edited
get_sheet-update_sheet db now sheet_id u name sql = (
  rw (fetch_updated (is_sheet_of sheet_id u) (edited name sql now) db.sheets (λ s. refl)) refl,
  refl,
)

get_sheet-delete_sheet :
    (db : Db) (sheet_id u : ℕ)
    → Unique (λ s. s.sheet_id) db.sheets
    → (get_sheet (delete_sheet db sheet_id u).1 sheet_id u ≡ none)
      × ((delete_sheet db sheet_id u).0
          ≡ elim (get_sheet db sheet_id u) [ none ↦ false | some s ↦ true ])
unfolding delete_sheet get_sheet
get_sheet-delete_sheet db sheet_id u unique = (
  fetch-delete (is_sheet_of sheet_id u) db.sheets,
  ends_in_one-fetch (λ s. s.sheet_id) sheet_id (λ s. s.user_id == u) db.sheets unique,
)

-- A value that is given, or the one there was.
abbrev pub or_else : Option String → String → String
or_else none old = old
or_else (some given) old = given

-- What an update of a sheet leaves of it: a field that is given is set, another one stays.
pub record Edited (new_name new_sql : Option String) (now : ℕ) (before after : Sheet) : Type 0 where
  pub name : after.name ≡ or_else new_name before.name
  pub sql : after.sql ≡ or_else new_sql before.sql
  pub updated_at : after.updated_at ≡ now
  pub created_at : after.created_at ≡ before.created_at
  pub sheet_id : after.sheet_id ≡ before.sheet_id
  pub user_id : after.user_id ≡ before.user_id

edited-Edited :
    (name sql : Option String) (now : ℕ) (s : Sheet) → Edited name sql now s (edited name sql now s)
unfolding edited
edited-Edited none none now s = record {
  name = refl;
  sql = refl;
  updated_at = refl;
  created_at = refl;
  sheet_id = refl;
  user_id = refl;
}
edited-Edited none (some sql) now s = record {
  name = refl;
  sql = refl;
  updated_at = refl;
  created_at = refl;
  sheet_id = refl;
  user_id = refl;
}
edited-Edited (some name) none now s = record {
  name = refl;
  sql = refl;
  updated_at = refl;
  created_at = refl;
  sheet_id = refl;
  user_id = refl;
}
edited-Edited (some name) (some sql) now s = record {
  name = refl;
  sql = refl;
  updated_at = refl;
  created_at = refl;
  sheet_id = refl;
  user_id = refl;
}

-- Where sheets have distinct ids, the life of a sheet: once created it can be got by its owner, with
-- its name and text; an update answers with the sheet with the given fields and the time set and the
-- others as they were, which is what can be got from then on; a delete then answers that the sheet
-- was there, after it the sheet can no longer be got, and a second delete answers that it was not
-- there.
pub sheet_life :
    (db db' : Db) (gen_uuid now later u : ℕ) (name sql : String) (name' sql' : Option String)
    (s : Sheet)
    → Unique (λ t. t.sheet_id) db.sheets
    → create_sheet db gen_uuid now u name sql ≡ some (s, db')
    → let updated = update_sheet db' later s.sheet_id u name' sql' in
      let deleted = delete_sheet (updated.1) s.sheet_id u in
      ((get_sheet db' s.sheet_id u ≡ some s) × (s.name ≡ name) × (s.sql ≡ sql))
      × ((t : Sheet) × (updated.0 ≡ some t)
          × (get_sheet (updated.1) s.sheet_id u ≡ some t)
          × Edited name' sql' later s t)
      × ((deleted.0 ≡ true)
          × (get_sheet (deleted.1) s.sheet_id u ≡ none)
          × ((delete_sheet (deleted.1) s.sheet_id u).0 ≡ false))
unfolding update_sheet delete_sheet edited get_sheet
sheet_life db db' gen_uuid now later u name sql name' sql' s unique e =
    let made = get_sheet-create_sheet db db' gen_uuid now u name sql s e in
    let found : get_sheet db' s.sheet_id u ≡ some s = made.0 in
    let unique' : Unique (λ t. t.sheet_id) db'.sheets = rw (made.3) (
      append-Unique (λ t. t.sheet_id) db.sheets s
        (absent_key (λ t. t.sheet_id) s.sheet_id db.sheets made.4) unique) in
    let updated = get_sheet-update_sheet db' later s.sheet_id u name' sql' in
    let answer = updated.1 ∙ rw found refl in
    let got = sym updated.0 ∙ answer in
    let db2 = (update_sheet db' later s.sheet_id u name' sql').1 in
    let unique2 =
      update-Unique (λ t. t.sheet_id) (is_sheet_of s.sheet_id u) (edited name' sql' later)
        db'.sheets (λ t. refl) unique' in
    let first = get_sheet-delete_sheet db2 s.sheet_id u unique2 in
    let again =
      get_sheet-delete_sheet (delete_sheet db2 s.sheet_id u).1 s.sheet_id u
        (delete-Unique (λ t. t.sheet_id) (is_sheet_of s.sheet_id u) db2.sheets unique2) in
    (
      (found, made.1, made.2),
      (edited name' sql' later s, answer, got, edited-Edited name' sql' later s),
      (first.1 ∙ rw got refl, first.0, again.1 ∙ rw (first.0) refl),
    )
