-- ===== src/Accounts/Visits.antt =====
-- A visitor keeps their user through the session's cookie, until it expires or they sign out.
use Prim.Native.String.{◌++◌ as append}
use duck_launcher.Base.{
  ℕ, ◌+◌, ◌≤◌, ◌<◌, ◌≡◌, refl, ap, inl, inr, true, ◌&&◌, Option, none, some, String, List, [], ◌∷◌,
  All, arith, Bool-cases, Option-cases, ==_refl, leb, any, some_pair, some_triple, ◌∙◌,
}
use duck_launcher.Db.{Db, User, Session}
use duck_launcher.Table.{delete, fetch}
use duck_launcher.Table.Select.{fetch_new_row, fetch-none}
use duck_launcher.Accounts.Users.{
  has_user_id, has_sub, create_anonymous_user, insert_user, anon_sub_prefix,
}
use duck_launcher.Accounts.Sessions.{
  create_session, get_session_user, has_session_id, is_live, hours,
}
use duck_launcher.Accounts.Middleware.{Cookie, session, Draws, user_of_cookie, new_visitor, resolve}

-- The table of users holds a user under its id.
abbrev pub Registered : Db → User → Type 0
Registered db u = fetch (has_user_id u.user_id) db.users ≡ some u

-- A session that was just created leads to its user until its time has come.
pub get_session_user-create_session :
    (db db' : Db) (u : User) (uuid4 utcnow now now' ttl_hours session_id : ℕ)
    → Registered db u
    → create_session db uuid4 utcnow now u.user_id ttl_hours ≡ some (session_id, db')
    → now' < utcnow + hours ttl_hours
    → get_session_user db' now' session_id ≡ (some u, db')
unfolding create_session get_session_user
get_session_user-create_session db db' u uuid4 utcnow now now' ttl_hours session_id r e early =
    elim (Bool-cases (any (has_session_id uuid4) db.sessions)) [
      | inl t ↦ absurd (ground (arith, t))
      | inr t ↦ elim (Bool-cases (any (has_user_id u.user_id) db.users)) [
        | inl k ↦
            let made = some_pair _ _ _ _ (rw (t, k) at e) in
            rw⁻¹ (made.1, made.0)
              (rw
                (
                  get_session_user,
                  fetch_new_row (is_live uuid4 now') (has_session_id uuid4)
                      (record {
                        session_id = uuid4;
                        user_id = u.user_id;
                        expires_at = utcnow + hours ttl_hours;
                        created_at = now;
                      })
                      db.sessions (λ s hit. ground arith) t (ground (arith, early)),
                  r,
                )
                refl)
        | inr k ↦ absurd (ground (arith, t, k))
      ]
    ]

-- A new user is in the table.
create_anonymous_user-Registered :
    (db db' : Db) (gen_uuid now : ℕ) (uuid4 : String) (u : User)
    → create_anonymous_user db gen_uuid uuid4 now ≡ some (u, db')
    → Registered db' u
unfolding create_anonymous_user insert_user
create_anonymous_user-Registered db db' gen_uuid now uuid4 u e =
    elim (Bool-cases (any (has_sub (append anon_sub_prefix uuid4)) db.users)) [
      | inl t ↦ absurd (ground (arith, t))
      | inr t ↦ elim (Bool-cases (any (has_user_id gen_uuid) db.users)) [
        | inl k ↦ absurd (ground (arith, t, k))
        | inr k ↦
            let made = some_pair _ _ _ _ (rw (t, k) at e) in
            rw⁻¹ (made.1, made.0)
              (fetch_new_row (has_user_id gen_uuid) (has_user_id gen_uuid) _ db.users (λ b hit. hit)
                k (==_refl gen_uuid))
      ]
    ]

-- The table of sessions holds a session of the user that ends at this time.
abbrev Lasts : Db → User → ℕ → ℕ → Type 0
Lasts db u session_id expires_at =
    (s : Session) × (fetch (has_session_id session_id) db.sessions ≡ some s)
    × (s.user_id ≡ u.user_id)
    × (s.expires_at ≡ expires_at)

create_session-Lasts :
    (db db' : Db) (u : User) (uuid4 utcnow now ttl_hours session_id : ℕ)
    → Registered db u
    → create_session db uuid4 utcnow now u.user_id ttl_hours ≡ some (session_id, db')
    → Lasts db' u session_id (utcnow + hours ttl_hours) × Registered db' u
unfolding create_session
create_session-Lasts db db' u uuid4 utcnow now ttl_hours session_id r e =
    elim (Bool-cases (any (has_session_id uuid4) db.sessions)) [
      | inl t ↦ absurd (ground (arith, t))
      | inr t ↦ elim (Bool-cases (any (has_user_id u.user_id) db.users)) [
        | inl k ↦
            let made = some_pair _ _ _ _ (rw (t, k) at e) in
            rw⁻¹ (made.1, made.0)
              (
                (
                  _,
                  fetch_new_row (has_session_id uuid4) (has_session_id uuid4) _ db.sessions
                      (λ s hit. hit) t (==_refl uuid4),
                  refl,
                  refl,
                ),
                r,
              )
        | inr k ↦ absurd (ground (arith, t, k))
      ]
    ]

new_visitor-Lasts :
    (db db' : Db) (d : Draws) (u : User) (session_id : ℕ)
    → new_visitor db d ≡ some (u, session_id, db')
    → Lasts db' u session_id (d.utcnow + hours d.session_ttl_hours) × Registered db' u
unfolding new_visitor
new_visitor-Lasts db db' d u session_id e =
    elim (Option-cases (create_anonymous_user db d.user_uuid d.anonymous_uuid d.now)) [
      | inl n ↦ absurd (ground (arith, n))
      | inr ((v, db1), made) ↦
          elim (Option-cases
            (create_session db1 d.session_uuid d.utcnow d.now v.user_id d.session_ttl_hours)) [
              | inl n ↦ absurd (ground (arith, made, n))
              | inr ((k, db2), logged) ↦
                  let e' : ◌≡◌ {A = Option (User × ℕ × Db)} (some (v, k, db2))
                      (some (u, session_id, db')) =
                    rw (new_visitor, made, logged) at e in
                  let parts = some_triple v u k session_id db2 db' e' in
                  let same_id : k ≡ session_id = parts.1 in
                  let same_db : db2 ≡ db' = parts.2 in
                  rw⁻¹ (parts.0, same_id, same_db)
                    (create_session-Lasts db1 db2 v d.session_uuid d.utcnow d.now
                      d.session_ttl_hours k
                      (create_anonymous_user-Registered db db1 d.user_uuid d.now d.anonymous_uuid v
                        made)
                      logged)
            ]
    ]

or_session : Session → Option Session → Session
or_session s none = s
or_session s (some t) = t

live_fetch :
    (k now : ℕ) (s : Session) (xs : List Session)
    → fetch (has_session_id k) xs ≡ some s
    → now < s.expires_at
    → fetch (is_live k now) xs ≡ some s
unfolding fetch or_session
live_fetch k now s [] e early = cc
live_fetch k now s (x ∷ xs) e early = elim (Bool-cases (has_session_id k x)) [
  | inl t ↦
      let same : x ≡ s = ap (or_session x) (rw t at e) in
      let soon : now < x.expires_at = rw same early in rw (← same) (ground (arith, t, soon))
  | inr t ↦ rw t (live_fetch k now s xs (rw t at e) early)
]

-- A session and its user that are still in the tables lead to the user before its time has come.
live_session :
    (db : Db) (u : User) (session_id now expires_at : ℕ)
    → Lasts db u session_id expires_at
    → Registered db u
    → now < expires_at
    → get_session_user db now session_id ≡ (some u, db)
unfolding get_session_user
live_session db u session_id now expires_at (s, found, of_user, ends) r early =
    let live = live_fetch session_id now s db.sessions found (rw ends early) in
    rw (get_session_user, live, of_user, r) refl

-- The visitor that a request without a user is: every later request with the cookie that the answer
-- sets, before the session expires, is of the same user, sets no cookie and changes no table,
-- whatever was committed in between, as long as the rows of the session and of the user are still
-- the same.
pub same_visitor :
    (db db' now_db : Db) (d later : Draws) (c : Cookie) (u : User) (session_id : ℕ)
    → resolve db d c ≡ some (u, some session_id, db')
    → fetch (has_session_id session_id) now_db.sessions
      ≡ fetch (has_session_id session_id) db'.sessions
    → fetch (has_user_id u.user_id) now_db.users ≡ fetch (has_user_id u.user_id) db'.users
    → later.now < d.utcnow + hours d.session_ttl_hours
    → resolve now_db later (session session_id) ≡ some (u, none, now_db)
unfolding resolve user_of_cookie
same_visitor db db' now_db d later c u session_id e kept_session kept_user early =
    let found = user_of_cookie db d.now c in
    elim (Option-cases (found.0)) [
      | inr (v, known) ↦ absurd (ground (arith, known))
      | inl unknown ↦ elim (Option-cases (new_visitor found.1 d)) [
        | inl n ↦ absurd (ground (arith, unknown, n))
        | inr ((v, k, db2), made) ↦
            let e' : ◌≡◌ {A = Option (User × Option ℕ × Db)} (some (v, some k, db2))
                (some (u, some session_id, db')) =
              rw (resolve, unknown, made) at e in
            let parts = some_triple v u (some k) (some session_id) db2 db' e' in
            let same_id : k ≡ session_id = ground (arith, parts.1) in
            let made' : new_visitor found.1 d ≡ some (u, session_id, db') =
              made ∙ rw (parts.0, same_id, parts.2) refl in
            let ((s, at, of_user, ends), there) =
              new_visitor-Lasts found.1 db' d u session_id made' in
            let read =
              live_session now_db u session_id later.now (d.utcnow + hours d.session_ttl_hours)
                (s, kept_session ∙ at, of_user, ends) (kept_user ∙ there) early in
            rw (resolve, user_of_cookie, read) (ap (λ x. some (u, none, x.1)) read)
      ]
    ]

live_none :
    (now k : ℕ) (xs : List Session)
    → All (λ s. has_session_id k s ≡ true → s.expires_at ≤ now) xs
    → fetch (is_live k now) xs ≡ none
unfolding fetch
live_none now k [] h = refl
live_none now k (s ∷ xs) h = ground (arith, h.0, live_none now k xs h.1)

expired_deleted :
    (now k : ℕ) (xs : List Session)
    → All (λ s. has_session_id k s ≡ true → s.expires_at ≤ now) xs
    → fetch (has_session_id k) (delete (λ s. has_session_id k s && leb s.expires_at now) xs) ≡ none
unfolding fetch delete
expired_deleted now k [] h = refl
expired_deleted now k (s ∷ xs) h = ground (arith, h.0, expired_deleted now k xs h.1)

-- A session whose time has come leads to no user, and reading it removes it.
expired_session :
    (db : Db) (now session_id : ℕ)
    → All (λ s. has_session_id session_id s ≡ true → s.expires_at ≤ now) db.sessions
    → ((get_session_user db now session_id).0 ≡ none)
      × (fetch (has_session_id session_id) (get_session_user db now session_id).1.sessions ≡ none)
unfolding get_session_user
expired_session db now session_id h =
    let gone = live_none now session_id db.sessions h in
    (
      rw (get_session_user, gone) refl,
      rw (get_session_user, gone) (expired_deleted now session_id db.sessions h),
    )

-- A session that is not in the table leads to no user.
pub no_session :
    (db : Db) (now session_id : ℕ)
    → fetch (has_session_id session_id) db.sessions ≡ none
    → (get_session_user db now session_id).0 ≡ none
unfolding get_session_user
no_session db now session_id e =
    rw
      (
        get_session_user,
        fetch-none (is_live session_id now) (has_session_id session_id) db.sessions
            (λ s hit. ground arith) e,
      )
      refl
