-- ===== src/Accounts/Auth.antt =====
-- coordinator/auth.py: who is signed in, the OIDC callback and the logout. The OIDC client is not
-- part of the program: its answer is an argument.
use text.Mathlib.Text.{starts_with}
use duck_launcher.Base.{ℕ, Bool, not, Option, none, some, String, if◌then◌else◌}
use duck_launcher.Text.{is_empty}
use duck_launcher.Db.{Db, User}
use duck_launcher.Accounts.Users.{upsert_user, anon_sub_prefix}
use duck_launcher.Accounts.Sessions.{create_session, delete_session}
use duck_launcher.Accounts.Middleware.{Cookie, absent, malformed, session, Draws, new_visitor}

unfoldable pub is_anonymous_user : User → Bool
is_anonymous_user u = starts_with u.sub anon_sub_prefix

pub record UserResponse : Type 0 where
  pub user_id : ℕ
  pub email : Option String
  pub name : Option String

abbrev pub user_response : User → UserResponse
user_response u = record { user_id = u.user_id; email = u.email; name = u.name }

pub record AuthMeResponse : Type 0 where
  pub auth_enabled : Bool
  pub authenticated : Bool
  pub anonymous : Bool
  pub user : Option UserResponse

unfoldable pub auth_me : Bool → User → AuthMeResponse
unfolding is_anonymous_user
auth_me auth_enabled u = record {
  auth_enabled = auth_enabled;
  authenticated = not (is_anonymous_user u);
  anonymous = is_anonymous_user u;
  user = if is_anonymous_user u then none else some (user_response u);
}

-- `if raw: try: delete_session(UUID(raw)) except ValueError: pass`
unfoldable pub drop_session : Db → Cookie → Db
drop_session db absent = db
drop_session db malformed = db
drop_session db (session session_id) = delete_session db session_id

-- The claims of the ID token.
pub record UserInfo : Type 0 where
  pub sub : Option String
  pub email : Option String
  pub name : Option String

-- A handler's answer: the value it returns, or an HTTPException with its status; 500 stands for any
-- other exception.
pub data Answer {ℓ} (A : Type ℓ) : Type ℓ where
  returned : A → Answer A
  raised : ℕ → Answer A

-- `not sub`
abbrev pub given_sub : Option String → Option String
given_sub none = none
given_sub (some s) = if is_empty s then none else some s

-- The rest of the callback: the new session's id goes into the cookie.
unfoldable pub signed_in : Db → Draws → UserInfo → String → Answer ℕ × Db
signed_in db d info sub = elim (upsert_user db d.user_uuid d.now sub info.email info.name) [
  | none ↦ (raised 500, db)
  | some (u, db') ↦
      elim (create_session db' d.session_uuid d.utcnow d.now u.user_id d.session_ttl_hours) [
        | none ↦ (raised 500, db')
        | some (session_id, db'') ↦ (returned session_id, db'')
      ]
]

-- `auth_enabled` says that the setting is on and the client configured; `oidc` is what the client
-- makes of the request: the claims, or none where it raises.
unfoldable pub auth_callback : Bool → Option UserInfo → Db → Draws → Cookie → Answer ℕ × Db
unfolding signed_in drop_session
auth_callback auth_enabled oidc db d cookie =
    if not auth_enabled then (raised 404, db) else elim oidc [
      | none ↦ (raised 500, drop_session db cookie)
      | some info ↦ elim (given_sub info.sub) [
        | none ↦ (raised 400, drop_session db cookie)
        | some sub ↦ signed_in (drop_session db cookie) d info sub
      ]
    ]

unfoldable pub auth_logout : Db → Draws → Cookie → Answer ℕ × Db
unfolding drop_session new_visitor
auth_logout db d cookie = elim (new_visitor (drop_session db cookie) d) [
  | none ↦ (raised 500, drop_session db cookie)
  | some (u, session_id, db') ↦ (returned session_id, db')
]
