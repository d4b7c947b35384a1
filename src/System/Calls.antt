-- ===== src/System/Calls.antt =====
-- What a step of the system does to the database: calls of the coordinator, and their laws.
use duck_launcher.Base.{
  ℕ, ◌≡◌, refl, inl, inr, Bool, true, false, ◌||◌, ◌==◌, some, List, [], ◌∷◌, All, Bool-cases,
  arith,
}
use duck_launcher.Db.{Db, Query, is_active}
use duck_launcher.Queries.Life.{get_query}
use duck_launcher.Queries.Claim.{Claimed}
use duck_launcher.Lifecycle.Calls.{
  Call, step, run, complete, revert, unreachable, claim, claim_by_id,
}
use duck_launcher.Lifecycle.Valid.{IsValid, run-IsValid}
use duck_launcher.Lifecycle.Refinement.{finished_forever}
use duck_launcher.Scheduler.{Response, answered, http_error, handle_response}
use duck_launcher.Worker.Handlers.{completion}
use duck_launcher.Routes.Submit.{complete_query_route}
use duck_launcher.System.Steps.{System, Step, IsNew, Reach, is_other}

-- Any call but a report of a completion.
abbrev pub is_plain : Call → Bool
is_plain (complete _ _ _ _ _) = false
is_plain _ = true

abbrev pub Plain : List Call → Type 0
Plain = All (λ c. is_plain c ≡ true)

-- The database after some calls, none of them a report.
abbrev pub ByPlain : Db → Db → Type 0
ByPlain db db' = (cs : List Call) × (db' ≡ run cs db) × Plain cs

pub by_none : (db : Db) → ByPlain db db
unfolding run
by_none db = ([], refl, tt)

pub by_call : (db : Db) (c : Call) → is_plain c ≡ true → ByPlain db (step c db)
unfolding run
by_call db c plain = (c ∷ [], refl, (plain, tt))

pub other_plain : (c : Call) → is_other c ≡ true → is_plain c ≡ true
other_plain c h = ground arith

-- The scheduler settles an answer by one call, or by none.
pub by_answer : (r : Response) (c : Claimed) (db : Db) → ByPlain db (handle_response r c db).1
unfolding handle_response
by_answer http_error c db = unfold step in by_call db (unreachable c.worker_id) refl
by_answer (answered s) c db = elim (Bool-cases (s == 202)) [
  | inl accepted ↦ rw accepted (by_none db)
  | inr refused ↦ elim (Bool-cases ((s == 502) || (s == 503))) [
    | inl gone ↦ rw (refused, gone) (unfold step in by_call db (unreachable c.worker_id) refl)
    | inr back ↦ rw (refused, back) (unfold step in by_call db (revert c.query_id) refl)
  ]
]

-- The database after the calls that a step makes.
abbrev pub ByCalls : Db → Db → Type 0
ByCalls db db' = (cs : List Call) × (db' ≡ run cs db)

by_plain : (db db' : Db) → ByPlain db db' → ByCalls db db'
by_plain db db' (cs, same, plain) = (cs, same)

-- Each step of the system acts on the database by a list of calls.
pub Step-calls : {s t : System} → Step s t → ByCalls s.db t.db
Step-calls {s} (Step.call c other) = by_plain _ _ (by_call s.db c (other_plain c other))
Step-calls {s} (Step.claims locked utcnow now stale) =
    by_plain _ _ (unfold step in by_call s.db (claim locked utcnow now stale) refl)
Step-calls {s} (Step.claims_id locked utcnow now id stale) =
    by_plain _ _ (unfold step in by_call s.db (claim_by_id locked utcnow now id stale) refl)
Step-calls {s} (Step.settles i c r at) = by_plain _ _ (by_answer r c s.db)
Step-calls {s} (Step.reports w i now job e at stage) =
    let body = completion e in
    (
      complete now job.query_id body.status body.error body.result_row_count ∷ [],
      unfold run step complete_query_route in refl,
    )
Step-calls {s} (Step.arrives i c at) = by_plain _ _ (by_none s.db)
Step-calls {s} (Step.gives_up i c r at lost) = by_plain _ _ (by_none s.db)
Step-calls {s} (Step.arrives_late i c at) = by_plain _ _ (by_none s.db)
Step-calls {s} (Step.loses_answer i c r lost at refused) = by_plain _ _ (by_none s.db)
Step-calls {s} (Step.executes w i job e at stage) = by_plain _ _ (by_none s.db)
Step-calls {s} (Step.loses_report w i job e at stage) = by_plain _ _ (by_none s.db)
Step-calls {s} (Step.ends w i job at) = by_plain _ _ (by_none s.db)
Step-calls {s} (Step.shuts_down w) = by_plain _ _ (by_none s.db)
Step-calls {s} (Step.restarts w app none_left) = by_plain _ _ (by_none s.db)

-- A new installation has a valid database.
pub new-IsValid : (s : System) → IsNew s → IsValid s.db
new-IsValid s new = record {
  workers_unique = rw new.no_workers tt;
  queries_unique = rw new.no_queries tt;
  rows = rw new.no_queries tt;
}

pub by-IsValid : (db db' : Db) → ByCalls db db' → IsValid db → IsValid db'
by-IsValid db db' (cs, same) v = rw same (run-IsValid cs db v)

pub reached-IsValid : {s t : System} → Reach s t → IsValid s.db → IsValid t.db
reached-IsValid Reach.here v = v
reached-IsValid (Reach.later before last) v =
    by-IsValid _ _ (Step-calls last) (reached-IsValid before v)

-- Whatever happens in the system from a valid database on, a query that has ended keeps its row,
-- every column of it: dispatches given up that arrive late, second executions and their reports,
-- lost messages and restarts change nothing of it.
pub ended_for_good :
    (s t : System) (k : ℕ) (q : Query)
    → Reach s t
    → IsValid s.db
    → get_query s.db k ≡ some q
    → is_active q.status ≡ false
    → get_query t.db k ≡ some q
ended_for_good s t k q Reach.here v found over = found
ended_for_good s u k q (Reach.later {t} before last) v found over =
    let (cs, same) = Step-calls last in
    rw same (
      finished_forever cs t.db k q (reached-IsValid before v)
        (ended_for_good s t k q before v found over) over)
