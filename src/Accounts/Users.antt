-- ===== src/Accounts/Users.antt =====
-- db/users.py
use Prim.Native.String.{◌++◌}
use text.Mathlib.Text.{◌==◌ as str_eq}
use mathlib.Core.List.{◌++◌ as append}
use duck_launcher.Base.{
  ℕ, Bool, ◌==◌, Option, none, some, String, [], ◌∷◌, any, coalesce_opt, if◌then◌else◌,
}
use duck_launcher.Db.{Db, User}
use duck_launcher.Table.{update, fetch}

abbrev pub has_user_id : ℕ → User → Bool
has_user_id k u = u.user_id == k

-- The key of the UNIQUE column `sub`.
abbrev pub has_sub : String → User → Bool
has_sub sub u = str_eq u.sub sub

-- The SET of the upsert.
unfoldable pub seen_again : Option String → Option String → ℕ → User → User
seen_again email name now u = record u {
  email = coalesce_opt email u.email;
  name = coalesce_opt name u.name;
  last_login_at = now;
}

-- A new row; a drawn user_id that is taken breaks the primary key.
unfoldable pub insert_user : Db → User → Option (User × Db)
insert_user db u =
    if any (has_user_id u.user_id) db.users
    then none
    else some (u, record db { users = append db.users (u ∷ []) })

-- INSERT … ON CONFLICT (sub) DO UPDATE SET … RETURNING …
unfoldable pub upsert_user :
    Db → ℕ → ℕ → String → Option String → Option String → Option (User × Db)
unfolding insert_user seen_again
upsert_user db gen_uuid now sub email name = elim (fetch (has_sub sub) db.users) [
  | none ↦ insert_user db (record {
    user_id = gen_uuid;
    sub = sub;
    email = email;
    name = name;
    created_at = now;
    last_login_at = now;
  })
  | some u ↦ some (
    seen_again email name now u,
    record db { users = update (has_sub sub) (seen_again email name now) db.users },
  )
]

abbrev pub anon_sub_prefix : String
anon_sub_prefix = "anon:"

-- `uuid4` is the text of a drawn uuid.
unfoldable pub create_anonymous_user : Db → ℕ → String → ℕ → Option (User × Db)
unfolding insert_user
create_anonymous_user db gen_uuid uuid4 now =
    if any (has_sub (anon_sub_prefix ++ uuid4)) db.users
    then none
    else insert_user db (record {
      user_id = gen_uuid;
      sub = anon_sub_prefix ++ uuid4;
      email = none;
      name = none;
      created_at = now;
      last_login_at = now;
    })

unfoldable pub get_user : Db → ℕ → Option User
get_user db user_id = fetch (has_user_id user_id) db.users
