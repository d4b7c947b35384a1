-- ===== src/Worker/Interrupts.antt =====
-- worker/duckdb.py: a cancellation between whose two parts the threads go on.
use duck_launcher.Base.{
  ℕ, ◌≡◌, ◌≢◌, ◌<◌, refl, ==_refl, false, some, List, [], ◌∷◌, arith, sym, ◌∙◌, none,
}
use duck_launcher.Worker.Executor.{
  warm_pool, acquire, release, enter_active, leave_active, run_statements, no_result, cancel_target,
  get_active, set_active,
}
use duck_launcher.Worker.Threads.{
  Pc, waiting, finished, acquired, running, ran, left, System, update, acquires, enters, runs,
  leaves, releases, cancels, Reach, here, next,
}

update_here : (pc : ℕ → Pc) (i : ℕ) (p : Pc) → update pc i p i ≡ p
update_here pc i p = rw (==_refl i) refl

update_other : (pc : ℕ → Pc) (i j : ℕ) (p : Pc) → i ≢ j → update pc i p j ≡ pc j
update_other pc i j p ne = ground arith

get-set : (k c : ℕ) (active : List (ℕ × ℕ)) → get_active k (set_active k c active) ≡ some c
unfolding get_active set_active
get-set k c [] = rw (==_refl k) refl
get-set k c ((j, d) ∷ rest) = ground (arith, get-set k c rest)

-- With a pool of one connection and two threads: a cancellation of the first thread's query reads
-- its connection; that query ends and gives the connection back, and the second thread takes it and
-- runs its query; now the cancellation interrupts the second query.
pub wrong_query_interrupted :
    (query_of : ℕ → ℕ) (threads i j : ℕ)
    → i < threads
    → j < threads
    → i ≢ j
    → (s : System) × (conn : ℕ) × Reach query_of threads 1 s
      × (s.interrupting ≡ (query_of i, conn) ∷ [])
      × (s.pc j ≡ running conn)
      × (get_active (query_of j) s.executor.active ≡ some conn)
      × (s.pc i ≡ finished)
unfolding acquire enter_active leave_active run_statements release cancel_target warm_pool
wrong_query_interrupted query_of threads i j lt lt' ne =
    let p0 : ℕ → Pc = λ k. waiting in
    let p1 : ℕ → Pc = update p0 i (acquired 0) in
    let p2 : ℕ → Pc = update p1 i (running 0) in
    let p3 : ℕ → Pc = update p2 i (ran 0 false) in
    let p4 : ℕ → Pc = update p3 i (left 0 false) in
    let p5 : ℕ → Pc = update p4 i finished in
    let p6 : ℕ → Pc = update p5 j (acquired 0) in
    let apart : j ≢ i = λ e. ne (sym e) in
    let still_waiting : p5 j ≡ waiting =
      update_other p4 i j finished ne
      ∙ update_other p3 i j (left 0 false) ne
      ∙ update_other p2 i j (ran 0 false) ne
      ∙ update_other p1 i j (running 0) ne
      ∙ update_other p0 i j (acquired 0) ne in
    let r1 = next here (acquires i 0 _ lt refl refl) in
    let r2 = next r1 (enters i 0 lt (update_here p0 i (acquired 0))) in
    let r3 = next r2 (cancels (query_of i) 0 (get-set (query_of i) 0 [])) in
    let r4 = next r3 (runs i 0 no_result lt (update_here p1 i (running 0))) in
    let r5 = next r4 (leaves i 0 false lt (update_here p2 i (ran 0 false))) in
    let r6 = next r5 (releases i 0 false none lt (update_here p3 i (left 0 false))) in
    let r7 = next r6 (acquires j 0 _ lt' still_waiting refl) in
    let r8 = next r7 (enters j 0 lt' (update_here p5 j (acquired 0))) in
    (
      _,
      0,
      r8,
      refl,
      update_here p6 j (running 0),
      get-set (query_of j) 0 _,
      update_other p6 j i (running 0) apart
          ∙ update_other p5 j i (acquired 0) apart
          ∙ update_here p4 i finished,
    )
