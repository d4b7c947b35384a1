-- ===== src/Accounts/Sessions.antt =====
-- db/sessions.py
use duck_launcher.Base.{
  ℕ, ◌+◌, ◌*◌, Bool, ◌&&◌, ◌==◌, Option, none, some, List, [], ◌∷◌, ◌++◌, any, ltb, leb,
  if◌then◌else◌,
}
use duck_launcher.Db.{Db, User, Session}
use duck_launcher.Table.{delete, fetch}
use duck_launcher.Accounts.Users.{has_user_id}

abbrev pub has_session_id : ℕ → Session → Bool
has_session_id k s = s.session_id == k

-- timedelta(hours=ttl_hours), in microseconds
abbrev pub hours : ℕ → ℕ
hours ttl_hours = ttl_hours * 3600000000

-- None: the drawn id is taken, or the user is not there (REFERENCES users(user_id)).
unfoldable pub create_session : Db → ℕ → ℕ → ℕ → ℕ → ℕ → Option (ℕ × Db)
create_session db uuid4 utcnow now user_id ttl_hours =
    if any (has_session_id uuid4) db.sessions
    then none
    else if any (has_user_id user_id) db.users
    then some (
      uuid4,
      record db {
        sessions =
            db.sessions
            ++ record {
              session_id = uuid4;
              user_id = user_id;
              expires_at = utcnow + hours ttl_hours;
              created_at = now;
            }
              ∷ [];
      },
    )
    else none

-- s.session_id = $1 AND s.expires_at > now()
abbrev pub is_live : ℕ → ℕ → Session → Bool
is_live session_id now s = has_session_id session_id s && ltb now s.expires_at

-- … JOIN users u ON u.user_id = s.user_id
abbrev pub session_user : List User → Option Session → Option User
session_user users none = none
session_user users (some s) = fetch (has_user_id s.user_id) users

unfoldable pub get_session_user : Db → ℕ → ℕ → Option User × Db
get_session_user db now session_id =
    elim (session_user db.users (fetch (is_live session_id now) db.sessions)) [
      | some u ↦ (some u, db)
      | none ↦ (
        none,
        record db {
          sessions = delete (λ s. has_session_id session_id s && leb s.expires_at now) db.sessions;
        },
      )
    ]

unfoldable pub delete_session : Db → ℕ → Db
delete_session db session_id = record db {
  sessions = delete (has_session_id session_id) db.sessions;
}
