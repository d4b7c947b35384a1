-- ===== src/Worker/Threads.antt =====
-- worker/duckdb.py, with the threads in which asyncio.to_thread runs `execute`, and the event loop's
-- calls of `cancel` between their parts. Thread `i` runs the query `query_of i`.
use duck_launcher.Base.{
  ℕ, ◌≡◌, ◌<◌, ◌==◌, Bool, some, List, [], ◌∷◌, if◌then◌else◌, Option, none, String,
}
use duck_launcher.Worker.Executor.{
  Executor, warm_pool, acquire, release, enter_active, leave_active, Outcome, run_statements,
  discards, cancel_target,
}

-- Where a thread stands in `execute`, with its connection, and whether it is to be discarded. It ends
-- as `dropped` where the connection was discarded and duckdb.connect raised.
pub data Pc : Type 0 where
  waiting finished dropped : Pc
  acquired : ℕ → Pc
  running : ℕ → Pc
  ran : ℕ → Bool → Pc
  left : ℕ → Bool → Pc

-- `interrupting` is what a call of `cancel` holds between its read and its interrupt: the query that
-- it is about, and the connection.
pub record System : Type 0 where
  pub executor : Executor
  pub pc : ℕ → Pc
  pub interrupting : List (ℕ × ℕ)

abbrev pub ended : Option String → Pc
ended none = finished
ended (some text) = dropped

abbrev pub update : (ℕ → Pc) → ℕ → Pc → ℕ → Pc
update pc i p j = if j == i then p else pc j

module _ (query_of : ℕ → ℕ) (threads : ℕ) where
  pub data Step (s : System) : System → Type 0 where
    acquires :
        (i conn : ℕ) (ex : Executor)
        → i < threads
        → s.pc i ≡ waiting
        → acquire s.executor ≡ some (conn, ex)
        → Step s (record s { executor = ex; pc = update s.pc i (acquired conn) })
    enters :
        (i conn : ℕ)
        → i < threads
        → s.pc i ≡ acquired conn
        → Step s (record s {
          executor = enter_active s.executor (query_of i) conn;
          pc = update s.pc i (running conn);
        })
    runs :
        (i conn : ℕ) (outcome : Outcome)
        → i < threads
        → s.pc i ≡ running conn
        → Step s (record s {
          executor = run_statements s.executor (query_of i) outcome;
          pc = update s.pc i (ran conn (discards outcome));
        })
    leaves :
        (i conn : ℕ) (discard : Bool)
        → i < threads
        → s.pc i ≡ ran conn discard
        → Step s (record s {
          executor = leave_active s.executor (query_of i);
          pc = update s.pc i (left conn discard);
        })
    releases :
        (i conn : ℕ) (discard : Bool) (refused : Option String)
        → i < threads
        → s.pc i ≡ left conn discard
        → Step s (record s {
          executor = (release s.executor conn discard refused).1;
          pc = update s.pc i (ended (release s.executor conn discard refused).0);
        })
    cancels :
        (query_id conn : ℕ)
        → cancel_target s.executor query_id ≡ some conn
        → Step s (record s { interrupting = (query_id, conn) ∷ s.interrupting })
    interrupts :
        (query_id conn : ℕ) (rest : List (ℕ × ℕ))
        → s.interrupting ≡ (query_id, conn) ∷ rest
        → Step s (record s { interrupting = rest })

  -- The pool is warm, and each of the threads waits for a connection.
  abbrev pub start : ℕ → System
  start pool_size = record { executor = warm_pool pool_size; pc = λ i. waiting; interrupting = [] }

  pub data Reach (pool_size : ℕ) : System → Type 0 where
    here : Reach pool_size (start pool_size)
    next : {s t : System} → Reach pool_size s → Step s t → Reach pool_size t
