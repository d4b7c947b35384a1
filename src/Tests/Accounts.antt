-- ===== src/Tests/Accounts.antt =====
-- Visits, sign-ins and sheets of users.
use duck_launcher.Table.{fetch}
use duck_launcher.Base.{◌≡◌, refl, true, false, none, some, [], ◌∷◌, arith, ◌++◌}
use duck_launcher.Db.{Db, User, Sheet}
use duck_launcher.Accounts.Users.{insert_user, create_anonymous_user}
use duck_launcher.Accounts.Sessions.{create_session, get_session_user}
use duck_launcher.Accounts.Middleware.{absent, session, Draws, resolve, new_visitor, user_of_cookie}
use duck_launcher.Accounts.Auth.{auth_callback}
use duck_launcher.Accounts.Visits.{same_visitor}
use duck_launcher.Accounts.SignIn.{signed_in_anew}
use duck_launcher.Sheets.{list_sheets, get_sheet, create_sheet, update_sheet, delete_sheet}
use duck_launcher.Sheets.Owners.{after_calls, create, remove, others_see_the_same}
use duck_launcher.Sheets.Roundtrip.{sheet_life, Edited}
use duck_launcher.Tests.Fixture.{start}

-- A first request, and one an hour later.
abbrev first_visit : Draws
first_visit = record {
  user_uuid = 6;
  anonymous_uuid = "a6";
  session_uuid = 40;
  now = 1000;
  utcnow = 1000;
  session_ttl_hours = 2;
}

abbrev later_visit : Draws
later_visit = record {
  user_uuid = 7;
  anonymous_uuid = "a7";
  session_uuid = 41;
  now = 3600001000;
  utcnow = 3600001000;
  session_ttl_hours = 2;
}

abbrev visitor : User
visitor = record {
  user_id = 6;
  sub = "anon:a6";
  email = none;
  name = none;
  created_at = 1000;
  last_login_at = 1000;
}

abbrev visited : Db
visited = record {
  workers = start.workers;
  users =
      record {
        user_id = 5;
        sub = "anon:5";
        email = none;
        name = none;
        created_at = 1;
        last_login_at = 1;
      }
      ∷ visitor
      ∷ [];
  sessions =
      record { session_id = 40; user_id = 6; expires_at = 7200001000; created_at = 1000 } ∷ [];
  queries = start.queries;
  sheets =
      record {
        sheet_id = 70;
        user_id = 6;
        name = "s";
        sql = "SELECT 1";
        created_at = 3;
        updated_at = 3;
      }
      ∷ [];
  channel = [];
}

abbrev started : Db
started = record start { sheets = visited.sheets }

-- Another visitor has come in between.
abbrev busier : Db
busier = record visited {
  users =
      visited.users
      ++ record {
        user_id = 9;
        sub = "anon:a9";
        email = none;
        name = none;
        created_at = 2000;
        last_login_at = 2000;
      }
        ∷ [];
  sessions =
      record { session_id = 49; user_id = 9; expires_at = 7200002000; created_at = 2000 }
      ∷ visited.sessions;
}

same_visitor_example : resolve busier later_visit (session 40) ≡ some (visitor, none, busier)
same_visitor_example =
    same_visitor started visited busier first_visit later_visit absent visitor 40
      (unfold resolve new_visitor user_of_cookie create_anonymous_user create_session insert_user in
        refl)
      (unfold fetch in refl) (unfold fetch in refl) (omega arith)

signed_in_anew_example :
    (get_session_user
      (auth_callback true
        (some (record { sub = some "alice"; email = none; name = none }))
        visited
        later_visit
        (session 40)).1
      5000
      40).0
    ≡ none
signed_in_anew_example =
    signed_in_anew visited later_visit
      (some (record { sub = some "alice"; email = none; name = none })) 40 5000 (omega arith)

abbrev alice : User
alice = record {
  user_id = 9;
  sub = "alice";
  email = some "a@x";
  name = none;
  created_at = 50;
  last_login_at = 50;
}

abbrev with_alice : Db
with_alice = record start {
  users =
      record {
        user_id = 5;
        sub = "anon:5";
        email = none;
        name = none;
        created_at = 1;
        last_login_at = 1;
      }
      ∷ alice
      ∷ [];
}

others_see_the_same_example :
    (list_sheets (after_calls 5 visited (create 71 8 "t" "SELECT 2" ∷ remove 70 ∷ [])) 6
      ≡ list_sheets visited 6)
    × (get_sheet (after_calls 5 visited (create 71 8 "t" "SELECT 2" ∷ remove 70 ∷ [])) 70 6
        ≡ get_sheet visited 70 6)
others_see_the_same_example =
    others_see_the_same 5 6 visited (create 71 8 "t" "SELECT 2" ∷ remove 70 ∷ []) 70 (omega arith)

abbrev new_sheet : Sheet
new_sheet = record {
  sheet_id = 72;
  user_id = 5;
  name = "t";
  sql = "SELECT 2";
  created_at = 9;
  updated_at = 9;
}

abbrev with_sheet : Db
with_sheet = record start { sheets = new_sheet ∷ [] }

sheet_life_example :
    let updated = update_sheet with_sheet 20 72 5 none (some "SELECT 3") in
    let deleted = delete_sheet (updated.1) 72 5 in
    ((get_sheet with_sheet 72 5 ≡ some new_sheet)
      × (new_sheet.name ≡ "t")
      × (new_sheet.sql ≡ "SELECT 2"))
    × ((t : Sheet) × (updated.0 ≡ some t)
        × (get_sheet (updated.1) 72 5 ≡ some t)
        × Edited none (some "SELECT 3") 20 new_sheet t)
    × ((deleted.0 ≡ true)
        × (get_sheet (deleted.1) 72 5 ≡ none)
        × ((delete_sheet (deleted.1) 72 5).0 ≡ false))
sheet_life_example =
    sheet_life start with_sheet 72 9 20 5 "t" "SELECT 2" none (some "SELECT 3") new_sheet tt
      (unfold create_sheet in refl)
