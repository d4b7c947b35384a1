-- ===== src/Accounts/Middleware.antt =====
-- coordinator/middleware.py: each request has a user, from its session cookie or a new anonymous one.
use duck_launcher.Base.{ℕ, Option, none, some, String}
use duck_launcher.Db.{Db, User}
use duck_launcher.Accounts.Users.{create_anonymous_user}
use duck_launcher.Accounts.Sessions.{get_session_user, create_session}

-- request.cookies.get(SESSION_COOKIE): not there or empty, no uuid (UUID(raw) raises ValueError), or
-- the text of a uuid.
pub data Cookie : Type 0 where
  absent malformed : Cookie
  session : ℕ → Cookie

-- What a request draws and reads: the uuids, the clocks, and `session_ttl_hours`.
pub record Draws : Type 0 where
  pub user_uuid : ℕ
  pub anonymous_uuid : String
  pub session_uuid : ℕ
  pub now : ℕ
  pub utcnow : ℕ
  pub session_ttl_hours : ℕ

unfoldable pub user_of_cookie : Db → ℕ → Cookie → Option User × Db
user_of_cookie db now absent = (none, db)
user_of_cookie db now malformed = (none, db)
user_of_cookie db now (session session_id) = get_session_user db now session_id

-- A new anonymous user with a session.
unfoldable pub new_visitor : Db → Draws → Option (User × ℕ × Db)
new_visitor db d = elim (create_anonymous_user db d.user_uuid d.anonymous_uuid d.now) [
  | none ↦ none
  | some (u, db') ↦
      elim (create_session db' d.session_uuid d.utcnow d.now u.user_id d.session_ttl_hours) [
        | none ↦ none
        | some (session_id, db'') ↦ some (u, session_id, db'')
      ]
]

-- The user, the id of a new session for the response's cookie, and the database.
unfoldable pub resolve : Db → Draws → Cookie → Option (User × Option ℕ × Db)
unfolding new_visitor
resolve db d cookie =
    let found = user_of_cookie db d.now cookie in
    elim (found.0) [
      | some u ↦ some (u, none, found.1)
      | none ↦ elim (new_visitor found.1 d) [
        | none ↦ none
        | some (u, session_id, db') ↦ some (u, some session_id, db')
      ]
    ]

-- `call_next` handles the request for the user; the response comes back with the cookie to set.
unfoldable pub dispatch {ℓ} :
    {A : Type ℓ} → Db → Draws → Cookie → (User → Db → A × Db) → Option (A × Option ℕ × Db)
unfolding resolve
dispatch db d cookie call_next = elim (resolve db d cookie) [
  | none ↦ none
  | some (u, new_session_id, db') ↦
      let answer = call_next u db' in some (answer.0, new_session_id, answer.1)
]
