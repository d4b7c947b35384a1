-- ===== src/Accounts/SignIn.antt =====
-- Signing in and out: the old session ends, and a subject keeps its account.
use text.Mathlib.TextPositions.{eq_refl}
use Prim.Native.String.{◌++◌ as append}
use duck_launcher.Base.{
  ℕ, ◌≡◌, ◌≢◌, refl, ◌∙◌, inl, inr, true, Option, none, some, String, arith, Bool-cases,
  Option-cases, any, some_pair, some_triple, coalesce_opt,
}
use duck_launcher.Db.{Db, User}
use duck_launcher.Table.{fetch, update}
use duck_launcher.Table.Select.{fetch-delete, fetch_other_row, fetch_first_row, fetch_updated}
use duck_launcher.Accounts.Users.{
  has_user_id, has_sub, upsert_user, create_anonymous_user, insert_user, anon_sub_prefix,
  seen_again,
}
use duck_launcher.Accounts.Sessions.{
  create_session, get_session_user, delete_session, has_session_id,
}
use duck_launcher.Accounts.Middleware.{session, Draws, new_visitor}
use duck_launcher.Accounts.Auth.{
  UserInfo, drop_session, given_sub, signed_in, auth_callback, auth_logout,
}
use duck_launcher.Accounts.Visits.{no_session}

-- No session with the id is left.
abbrev Ended : ℕ → Db → Type 0
Ended k db = fetch (has_session_id k) db.sessions ≡ none

drop_session-Ended : (k : ℕ) (db : Db) → Ended k (drop_session db (session k))
unfolding drop_session delete_session
drop_session-Ended k db = fetch-delete (has_session_id k) db.sessions

create_session-Ended :
    (k : ℕ) (db db' : Db) (uuid4 utcnow now u ttl_hours id : ℕ)
    → Ended k db
    → uuid4 ≢ k
    → create_session db uuid4 utcnow now u ttl_hours ≡ some (id, db')
    → Ended k db'
unfolding create_session
create_session-Ended k db db' uuid4 utcnow now u ttl_hours id gone ne e =
    elim (Bool-cases (any (has_session_id uuid4) db.sessions)) [
      | inl t ↦ absurd (ground (arith, t))
      | inr t ↦ elim (Bool-cases (any (has_user_id u) db.users)) [
        | inl m ↦
            let made = some_pair _ _ _ _ (rw (t, m) at e) in
            rw⁻¹ made.1
              (fetch_other_row (has_session_id k) _ db.sessions (ground (arith, ne)) ∙ gone)
        | inr m ↦ absurd (ground (arith, t, m))
      ]
    ]

-- Users come and go without a session.
insert_user-sessions :
    (db db' : Db) (u v : User) → insert_user db u ≡ some (v, db') → db'.sessions ≡ db.sessions
unfolding insert_user
insert_user-sessions db db' u v e = elim (Bool-cases (any (has_user_id u.user_id) db.users)) [
  | inl t ↦ absurd (ground (arith, t))
  | inr t ↦ let made = some_pair _ _ _ _ (rw t at e) in rw⁻¹ made.1 refl
]

create_anonymous_user-sessions :
    (db db' : Db) (gen_uuid now : ℕ) (uuid4 : String) (u : User)
    → create_anonymous_user db gen_uuid uuid4 now ≡ some (u, db')
    → db'.sessions ≡ db.sessions
unfolding create_anonymous_user
create_anonymous_user-sessions db db' gen_uuid now uuid4 u e =
    elim (Bool-cases (any (has_sub (append anon_sub_prefix uuid4)) db.users)) [
      | inl t ↦ absurd (ground (arith, t))
      | inr t ↦ insert_user-sessions db db' _ u (rw t at e)
    ]

upsert_user-sessions :
    (db db' : Db) (gen_uuid now : ℕ) (sub : String) (email name : Option String) (u : User)
    → upsert_user db gen_uuid now sub email name ≡ some (u, db')
    → db'.sessions ≡ db.sessions
unfolding upsert_user
upsert_user-sessions db db' gen_uuid now sub email name u e =
    elim (Option-cases (fetch (has_sub sub) db.users)) [
      | inl n ↦ insert_user-sessions db db' _ u (rw (upsert_user, n) at e)
      | inr (v, found) ↦
          let made = some_pair _ _ _ _ (rw (upsert_user, found) at e) in rw⁻¹ made.1 refl
    ]

signed_in-Ended :
    (k : ℕ) (db : Db) (d : Draws) (info : UserInfo) (sub : String)
    → Ended k db
    → d.session_uuid ≢ k
    → Ended k (signed_in db d info sub).1
unfolding signed_in
signed_in-Ended k db d info sub gone ne =
    elim (Option-cases (upsert_user db d.user_uuid d.now sub info.email info.name)) [
      | inl n ↦ rw (signed_in, n) gone
      | inr ((u, db1), made) ↦
          let kept =
            upsert_user-sessions db db1 d.user_uuid d.now sub info.email info.name u made in
          let gone' : Ended k db1 = rw kept gone in
          elim (Option-cases
            (create_session db1 d.session_uuid d.utcnow d.now u.user_id d.session_ttl_hours)) [
              | inl n ↦ rw (signed_in, made, n) gone'
              | inr ((id, db2), logged) ↦
                  rw (signed_in, made, logged)
                    (create_session-Ended k db1 db2 d.session_uuid d.utcnow d.now u.user_id
                      d.session_ttl_hours id gone' ne logged)
            ]
    ]

new_visitor-Ended :
    (k : ℕ) (db db' : Db) (d : Draws) (u : User) (id : ℕ)
    → Ended k db
    → d.session_uuid ≢ k
    → new_visitor db d ≡ some (u, id, db')
    → Ended k db'
unfolding new_visitor
new_visitor-Ended k db db' d u id gone ne e =
    elim (Option-cases (create_anonymous_user db d.user_uuid d.anonymous_uuid d.now)) [
      | inl n ↦ absurd (ground (arith, n))
      | inr ((v, db1), made) ↦
          let kept =
            create_anonymous_user-sessions db db1 d.user_uuid d.now d.anonymous_uuid v made in
          let gone' : Ended k db1 = rw kept gone in
          elim (Option-cases
            (create_session db1 d.session_uuid d.utcnow d.now v.user_id d.session_ttl_hours)) [
              | inl n ↦ absurd (ground (arith, made, n))
              | inr ((j, db2), logged) ↦
                  let parts = some_triple v u j id db2 db' (rw (new_visitor, made, logged) at e) in
                  rw⁻¹ parts.2 (
                    create_session-Ended k db1 db2 d.session_uuid d.utcnow d.now v.user_id
                      d.session_ttl_hours j gone' ne logged)
            ]
    ]

-- After a sign-in, whatever the answer of the client, the session that the browser had leads to no
-- user, when the new session's id is another one.
pub signed_in_anew :
    (db : Db) (d : Draws) (oidc : Option UserInfo) (session_id now : ℕ)
    → d.session_uuid ≢ session_id
    → (get_session_user (auth_callback true oidc db d (session session_id)).1 now session_id).0
      ≡ none
unfolding auth_callback
signed_in_anew db d none session_id now ne =
    no_session (drop_session db (session session_id)) now session_id
      (drop_session-Ended session_id db)
signed_in_anew db d (some info) session_id now ne =
    let before = drop_session db (session session_id) in
    let ended = drop_session-Ended session_id db in
    elim (Option-cases (given_sub info.sub)) [
      | inl n ↦ rw (auth_callback, n) (no_session before now session_id ended)
      | inr (sub, given) ↦
          rw (auth_callback, given)
            (no_session (signed_in before d info sub).1 now session_id
              (signed_in-Ended session_id before d info sub ended ne))
    ]

-- After a logout the session that the browser had leads to no user, when the new session's id is
-- another one.
signed_out :
    (db : Db) (d : Draws) (session_id now : ℕ)
    → d.session_uuid ≢ session_id
    → (get_session_user (auth_logout db d (session session_id)).1 now session_id).0 ≡ none
unfolding auth_logout new_visitor
signed_out db d session_id now ne =
    let before = drop_session db (session session_id) in
    let ended = drop_session-Ended session_id db in
    elim (Option-cases (new_visitor before d)) [
      | inl n ↦ rw (auth_logout, n) (no_session before now session_id ended)
      | inr ((u, id, db2), made) ↦
          rw (auth_logout, made)
            (no_session db2 now session_id
              (new_visitor-Ended session_id before db2 d u id ended ne made))
    ]

-- The user that an upsert answers with is the one with the subject.
upsert_user-fetch :
    (db db' : Db) (gen_uuid now : ℕ) (sub : String) (email name : Option String) (u : User)
    → upsert_user db gen_uuid now sub email name ≡ some (u, db')
    → fetch (has_sub sub) db'.users ≡ some u
unfolding upsert_user insert_user
upsert_user-fetch db db' gen_uuid now sub email name u e =
    elim (Option-cases (fetch (has_sub sub) db.users)) [
      | inl n ↦ elim (Bool-cases (any (has_user_id gen_uuid) db.users)) [
        | inl t ↦ absurd (ground (arith, n, t))
        | inr t ↦
            let made = some_pair _ _ _ _ (rw (upsert_user, n, insert_user, t) at e) in
            rw⁻¹ (made.1, made.0) (fetch_first_row (has_sub sub) _ db.users n (eq_refl sub))
      ]
      | inr (v, found) ↦
          let made = some_pair _ _ _ _ (rw (upsert_user, found) at e) in
          rw⁻¹ (made.1, made.0)
            (rw found at
              (fetch_updated (has_sub sub) (seen_again email name now) db.users (λ a. refl)))
    ]

-- A subject that signs in again keeps its account: no row is added, the row keeps its user_id, and
-- an email or a name that the token leaves out is kept.
same_account :
    (db db' : Db) (gen_uuid gen_uuid' now now' : ℕ) (sub : String)
    (email name email' name' : Option String) (u : User)
    → upsert_user db gen_uuid now sub email name ≡ some (u, db')
    → upsert_user db' gen_uuid' now' sub email' name'
      ≡ some (
        record u {
          email = coalesce_opt email' u.email;
          name = coalesce_opt name' u.name;
          last_login_at = now';
        },
        record db' { users = update (has_sub sub) (seen_again email' name' now') db'.users },
      )
unfolding upsert_user seen_again
same_account db db' gen_uuid gen_uuid' now now' sub email name email' name' u e =
    let found = upsert_user-fetch db db' gen_uuid now sub email name u e in
    rw (upsert_user, found) refl
