-- ===== src/Routes/Access.antt =====
-- Who may see and cancel a query, and what a user who submits one is told.
use duck_launcher.Base.{
  ℕ, ℤ, ◌≡◌, refl, ◌∙◌, inl, inr, Bool, false, Option, some, String, List, ==_refl, arith,
  Bool-cases, any, some_pair, ◌∷◌, ◌≢◌,
}
use duck_launcher.Db.{Db, User, Query, has_query_id}
use duck_launcher.Table.Select.{fetch_new_row}
use duck_launcher.Queries.Life.{get_query, create_query, user_exists}
use duck_launcher.Lifecycle.Calls.{Call, step, run, create, claim_by_id}
use duck_launcher.Lifecycle.Valid.{IsValid, run-IsValid, step-IsValid}
use duck_launcher.Lifecycle.Refinement.{never_lost}
use duck_launcher.Accounts.Auth.{returned, raised}
use duck_launcher.Routes.{QueryResponse, query_response, accessible, may_access, get_query_route}
use duck_launcher.Routes.Submit.{
  Submission, SubmitQueryRequest, answer_row, submit_query, get_query_result,
}
use duck_launcher.Routes.Cancel.{Await, cancel_query}

accessible-refused :
    (db : Db) (user : User) (k : ℕ) (q : Query)
    → get_query db k ≡ some q
    → may_access q.user_id user ≡ false
    → accessible db user k ≡ raised 403
unfolding accessible
accessible-refused db user k q found refused = rw (accessible, found, refused) refl

-- A query whose user is not the one who asks: its status, its result and its cancellation are refused
-- with 403, and the attempt to cancel it changes nothing.
pub others_are_refused {ℓ} :
    {A : Type ℓ}
    → (get : String → ℕ → ℕ → ℕ → Option A) (post : String → ℕ → Bool) (meanwhile : Await → Db → Db)
      (db : Db) (user : User) (owner k now offset limit : ℕ) (q : Query)
    → get_query db k ≡ some q
    → q.user_id ≡ some owner
    → owner ≢ user.user_id
    → (get_query_route db user k ≡ raised 403)
      × (get_query_result get db user k offset limit ≡ raised 403)
      × (cancel_query meanwhile now post db user k ≡ (raised 403, db))
unfolding get_query_route get_query_result cancel_query
others_are_refused get post meanwhile db user owner k now offset limit q found belongs apart =
    let refused : may_access q.user_id user ≡ false = rw belongs (ground (arith, apart)) in
    let no_access = accessible-refused db user k q found refused in
    (
      rw (get_query_route, no_access) refl,
      rw (get_query_result, no_access) refl,
      rw (cancel_query, no_access) refl,
    )

-- The row that an INSERT has made.
get_query-create_query :
    (db db' : Db) (gen_uuid now : ℕ) (query : String) (cpus memory disk_space : Option ℤ)
    (user_id : Option ℕ) (k : ℕ)
    → create_query db gen_uuid now query cpus memory disk_space user_id ≡ some (k, db')
    → (q : Query) × (get_query db' k ≡ some q)
      × (q.query ≡ query)
      × (q.user_id ≡ user_id)
      × (q.cpus ≡ cpus)
      × (q.memory ≡ memory)
      × (q.disk_space ≡ disk_space)
      × (q.created_at ≡ now)
unfolding create_query get_query
get_query-create_query db db' gen_uuid now query cpus memory disk_space user_id k e =
    elim (Bool-cases (any (has_query_id gen_uuid) db.queries)) [
      | inl t ↦ absurd (ground (arith, t))
      | inr t ↦ elim (Bool-cases (user_exists db.users user_id)) [
        | inl u ↦
            let made = some_pair _ _ _ _ (rw (t, u) at e) in
            rw⁻¹ (made.1, made.0)
              (
                _,
                fetch_new_row (has_query_id gen_uuid) (has_query_id gen_uuid) _ db.queries
                    (λ b hit. hit) t (==_refl gen_uuid),
                refl,
                refl,
                refl,
                refl,
                refl,
                refl,
              )
        | inr u ↦ absurd (ground (arith, t, u))
      ]
    ]

-- What the response says of the request.
pub record Answers (owner : User) (body : SubmitQueryRequest) (now : ℕ) (r : QueryResponse)
    : Type 0 where
  pub query : r.query ≡ body.query
  pub user : r.user_id ≡ some owner.user_id
  pub cpus : r.cpus ≡ body.cpus
  pub memory : r.memory ≡ body.memory
  pub disk_space : r.disk_space ≡ body.disk_space
  pub created_at : r.created_at ≡ now

-- A submission with what other tasks commit between its calls.
abbrev pub submission : ℕ → ℕ → (ℕ → Bool) → ℕ → ℕ → List Call → List Call → Submission
submission gen_uuid created locked utcnow claimed before after = record {
  gen_uuid = gen_uuid;
  created = created;
  locked = locked;
  utcnow = utcnow;
  claimed = claimed;
  after_create = run before;
  after_claim = run after;
}

answer_row_lem :
    (db : Db) (k : ℕ) (q : Query)
    → get_query db k ≡ some q
    → answer_row db k ≡ returned (query_response q)
answer_row_lem db k q found = rw (answer_row, found) refl

-- From a valid database, where the INSERT of `submit_query` succeeds, the user gets a response with
-- their id and their request, whatever calls other tasks commit around the claim.
pub submitted :
    (db db1 : Db) (user : User) (body : SubmitQueryRequest) (k uuid now utcnow claimed stale : ℕ)
    (locked : ℕ → Bool) (before after : List Call)
    → IsValid db
    → create_query db uuid now body.query body.cpus body.memory body.disk_space (some user.user_id)
      ≡ some (k, db1)
    → (r : QueryResponse) × ((submit_query
          (submission uuid now locked utcnow claimed before after)
          stale
          db
          user
          body).0
        ≡ returned r)
      × Answers user body now r
unfolding submit_query step run query_response
submitted db db1 user body k uuid now utcnow claimed stale locked before after v e =
    let v1 : IsValid db1 = rw e at (
      step-IsValid
        (create uuid now body.query body.cpus body.memory body.disk_space (some user.user_id)) db
        v) in
    let (q, found, text, owner, cpus, memory, disk, at) =
      get_query-create_query db db1 uuid now body.query body.cpus body.memory body.disk_space
        (some user.user_id) k e in
    let (q1, found1, same1) = never_lost before db1 k q v1 found in
    let (q2, found2, same2) =
      never_lost (claim_by_id locked utcnow claimed k stale ∷ after) (run before db1) k q1
        (run-IsValid before db1 v1) found1 in
    (
      query_response q2,
      rw (submit_query, e)
          (answer_row_lem (run (claim_by_id locked utcnow claimed k stale ∷ after) (run before db1))
            k q2 found2),
      record {
        query = same2.query ∙ same1.query ∙ text;
        user = same2.user ∙ same1.user ∙ owner;
        cpus = same2.cpus ∙ same1.cpus ∙ cpus;
        memory = same2.memory ∙ same1.memory ∙ memory;
        disk_space = same2.disk_space ∙ same1.disk_space ∙ disk;
        created_at = same2.created_at ∙ same1.created_at ∙ at;
      },
    )
