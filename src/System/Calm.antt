-- ===== src/System/Calm.antt =====
-- The steps of the system when nothing is lost, no worker ends, and nothing but a refusal takes a query
-- back; and where a query is on its way from its row to its execution.
use duck_launcher.Base.{
  ℕ, ◌+◌, ◌≡◌, Bool, true, false, not, ◌&&◌, ◌==◌, some, List, [], ◌∷◌, ◌++◌, get_elem?, remove_at,
  replace_at, suc, zero, arith,
}
use duck_launcher.Table.{count}
use duck_launcher.Queries.Claim.{Claimed}
use duck_launcher.Lifecycle.Calls.{Call, revert, unreachable, sweep}
use duck_launcher.Scheduler.{Response}
use duck_launcher.Scheduler.Dispatch.{is_accepted}
use duck_launcher.System.Nodes.{Job, Stage, executing, reporting, ending}
use duck_launcher.System.Steps.{System, Step, Run}

-- The calls that take no query back.
abbrev pub is_forward : Call → Bool
is_forward (revert _) = false
is_forward (unreachable _) = false
is_forward (sweep _ _) = false
is_forward _ = true

abbrev pub IsCalm : {s t : System} → Step s t → Type 0
IsCalm (Step.call c other) = is_forward c ≡ true
IsCalm (Step.gives_up i c r at lost) = ⊥
IsCalm (Step.arrives_late i c at) = ⊥
IsCalm (Step.loses_answer i c r lost at refused) = ⊥
IsCalm (Step.ends w i job at) = job.stage ≡ ending
IsCalm (Step.shuts_down w) = ⊥
IsCalm (Step.restarts w app none_left) = ⊥
IsCalm _ = Unit

pub data CalmReach (s : System) : System → Type 0 where
  here : CalmReach s s
  later : {t u : System} → CalmReach s t → (last : Step t u) → IsCalm last → CalmReach s u

-- Where a query is: its row only, in a dispatch, in a refusal, in a task of a worker that executes
-- it, or executed.
pub data Place : Type 0 where
  at_row in_dispatch in_refusal : Place
  in_task : ℕ → Place
  is_done : Place

abbrev pub one_if : Bool → ℕ
one_if true = 1
one_if false = 0

abbrev pub in_sent : Place → ℕ
in_sent in_dispatch = 1
in_sent _ = 0

abbrev pub in_answers : Place → ℕ
in_answers in_refusal = 1
in_answers _ = 0

abbrev pub in_jobs : Place → ℕ → ℕ
in_jobs (in_task w) v = one_if (v == w)
in_jobs _ v = 0

abbrev pub in_log : Place → ℕ
in_log is_done = 1
in_log _ = 0

abbrev pub asks : ℕ → Claimed → Bool
asks k c = c.query_id == k

abbrev pub refuses : ℕ → Claimed × Response → Bool
refuses k (c, r) = c.query_id == k && not (is_accepted r)

abbrev pub is_executing : Stage → Bool
is_executing executing = true
is_executing (reporting e) = false
is_executing ending = false

abbrev pub executes : ℕ → Job → Bool
executes k job = job.query_id == k && is_executing job.stage

abbrev pub ran : ℕ → Run → Bool
ran k r = r.query_id == k

-- The query is at this place and nowhere else.
pub record At (k : ℕ) (p : Place) (s : System) : Type 0 where
  pub sent : count (asks k) s.sent ≡ in_sent p
  pub answers : count (refuses k) s.answers ≡ in_answers p
  pub jobs : (w : ℕ) → count (executes k) (s.nodes w).jobs ≡ in_jobs p w
  pub log : count (ran k) s.log ≡ in_log p

module _ {ℓ} {A : Type ℓ} (p : A → Bool) where
  pub count-cons : (a : A) (xs : List A) → count p (a ∷ xs) ≡ one_if (p a) + count p xs
  unfolding count
  count-cons a xs = ground arith

  pub count-remove_at :
      (xs : List A) (i : ℕ) (a : A)
      → get_elem? xs i ≡ some a
      → count p xs ≡ one_if (p a) + count p (remove_at i xs)
  unfolding count
  count-remove_at [] i a e = cc
  count-remove_at (x ∷ xs) zero a e = let same : x ≡ a = ground arith in rw (← same) (ground arith)
  count-remove_at (x ∷ xs) (suc i) a e = ground (arith, count-remove_at xs i a e)

  pub count-replace_at :
      (xs : List A) (i : ℕ) (a b : A)
      → get_elem? xs i ≡ some a
      → one_if (p a) + count p (replace_at i b xs) ≡ one_if (p b) + count p xs
  unfolding count
  count-replace_at [] i a b e = cc
  count-replace_at (x ∷ xs) zero a b e =
      let same : x ≡ a = ground arith in rw (← same) (ground arith)
  count-replace_at (x ∷ xs) (suc i) a b e = ground (arith, count-replace_at xs i a b e)

  pub count-append_one : (xs : List A) (b : A) → count p (xs ++ b ∷ []) ≡ one_if (p b) + count p xs
  unfolding count
  count-append_one [] b = ground arith
  count-append_one (x ∷ xs) b = ground (arith, count-append_one xs b)
