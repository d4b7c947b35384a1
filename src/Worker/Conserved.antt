-- ===== src/Worker/Conserved.antt =====
-- worker/duckdb.py: where the connections of the pool are, in the states that threads reach.
use duck_launcher.Base.{
  ℕ, ◌+◌, ◌≡◌, ◌≤◌, ◌<◌, refl, sym, ap, ◌∙◌, inl, inr, ◌==◌, true, false, some, List, [], ◌∷◌,
  length, length-append, arith, Bool-cases, some_pair, ◌⊎◌, none,
}
use duck_launcher.Worker.Executor.{
  Executor, warm_pool, acquire, release, enter_active, leave_active, run_statements, discards,
}
use duck_launcher.Worker.Threads.{
  Pc, finished, acquired, running, ran, left, System, update, Step, acquires, enters, runs, leaves,
  releases, cancels, interrupts, Reach, here, next, dropped,
}
use duck_launcher.Worker.Places.{
  times, has_any, has, total, total-update, total-zero, times-append, one_if, one_at_most, not_eq,
  fresh-length, fresh-once, fresh-above, has_lost,
}

List-cases : (xs : List ℕ) → (xs ≡ []) ⊎ ((x : ℕ) × (rest : List ℕ) × (xs ≡ x ∷ rest))
List-cases [] = inl refl
List-cases (x ∷ xs) = inr (x, xs, refl)

acquire-parts :
    (ex ex' : Executor) (conn : ℕ)
    → acquire ex ≡ some (conn, ex')
    → (ex.available ≡ conn ∷ ex'.available) × (ex'.next_connection ≡ ex.next_connection)
unfolding acquire
acquire-parts ex ex' conn e = elim (List-cases ex.available) [
  | inl n ↦ absurd (ground (arith, n))
  | inr (c, rest, found) ↦
      let made = some_pair c conn (record ex { available = rest }) ex' (rw (acquire, found) at e) in
      (found ∙ (rw (made.0) (rw (← made.1) refl)), rw (← made.1) refl)
]

-- Where the connections are: in the queue, with a thread, or lost by one, `pool_size` in all, each in
-- one place at most, and none that is not open yet.
pub record Inv (threads pool_size : ℕ) (ex : Executor) (pc : ℕ → Pc) : Type 0 where
  pub all : length ex.available + total has_any threads pc + total has_lost threads pc ≡ pool_size
  pub once : (c : ℕ) → times c ex.available + total (has c) threads pc ≤ 1
  pub unopened :
      (c : ℕ) → ex.next_connection ≤ c → times c ex.available + total (has c) threads pc ≡ 0

-- A thread keeps its connection, and the queue stays as it is.
keeps :
    (threads pool_size : ℕ) (ex ex' : Executor) (pc : ℕ → Pc) (i : ℕ) (p : Pc)
    → Inv threads pool_size ex pc
    → i < threads
    → ex'.available ≡ ex.available
    → ex'.next_connection ≡ ex.next_connection
    → has_any p ≡ has_any (pc i)
    → has_lost p ≡ has_lost (pc i)
    → ((c : ℕ) → has c p ≡ has c (pc i))
    → Inv threads pool_size ex' (update pc i p)
keeps threads pool_size ex ex' pc i p inv lt same opened any_same lost_same has_same = record {
  all = rw same (
      omega (
        arith,
        inv.all,
        total-update has_any threads pc i p lt,
        any_same,
        total-update has_lost threads pc i p lt,
        lost_same,
      ));
  once =
      λ c. rw same (omega (arith, inv.once c, total-update (has c) threads pc i p lt, has_same c));
  unopened = λ c above. rw same (
      omega (
        arith,
        inv.unopened c (omega (arith, above, opened)),
        total-update (has c) threads pc i p lt,
        has_same c,
      ));
}

module _ (query_of : ℕ → ℕ) (threads pool_size : ℕ) where
  Step-Inv :
      {s t : System}
      → Step query_of threads s t
      → Inv threads pool_size s.executor s.pc
      → Inv threads pool_size t.executor t.pc
  unfolding enter_active leave_active run_statements release
  Step-Inv {s} (acquires i conn ex lt at got) inv =
      let parts = acquire-parts s.executor ex conn got in
      record {
        all = omega (
          arith,
          inv.all,
          ap length parts.0,
          total-update has_any threads s.pc i (acquired conn) lt,
          ap has_any at,
          total-update has_lost threads s.pc i (acquired conn) lt,
          ap has_lost at,
        );
        once = λ c. omega (
          arith,
          inv.once c,
          ap (times c) parts.0,
          total-update (has c) threads s.pc i (acquired conn) lt,
          ap (has c) at,
        );
        unopened = λ c above. omega (
          arith,
          inv.unopened c (omega (arith, above, parts.1)),
          ap (times c) parts.0,
          total-update (has c) threads s.pc i (acquired conn) lt,
          ap (has c) at,
        );
      }
  Step-Inv {s} (enters i conn lt at) inv =
      keeps threads pool_size s.executor _ s.pc i (running conn) inv lt refl refl
        (sym (ap has_any at)) (sym (ap has_lost at)) (λ c. sym (ap (has c) at))
  Step-Inv {s} (runs i conn outcome lt at) inv =
      keeps threads pool_size s.executor _ s.pc i (ran conn (discards outcome)) inv lt refl refl
        (sym (ap has_any at)) (sym (ap has_lost at)) (λ c. sym (ap (has c) at))
  Step-Inv {s} (leaves i conn discard lt at) inv =
      keeps threads pool_size s.executor _ s.pc i (left conn discard) inv lt refl refl
        (sym (ap has_any at)) (sym (ap has_lost at)) (λ c. sym (ap (has c) at))
  Step-Inv {s} (releases i conn true none lt at) inv =
      let fresh = s.executor.next_connection in
      record {
        all = omega (
          arith,
          inv.all,
          length-append s.executor.available (fresh ∷ []),
          total-update has_any threads s.pc i finished lt,
          ap has_any at,
          total-update has_lost threads s.pc i finished lt,
          ap has_lost at,
        );
        once = λ c. elim (Bool-cases (fresh == c)) [
          | inl t ↦ omega (
            arith,
            inv.unopened c (ground (arith, t)),
            times-append c s.executor.available fresh,
            total-update (has c) threads s.pc i finished lt,
            one_at_most (fresh == c),
          )
          | inr t ↦ omega (
            arith,
            inv.once c,
            times-append c s.executor.available fresh,
            total-update (has c) threads s.pc i finished lt,
            ap one_if t,
          )
        ];
        unopened = λ c above. omega (
          arith,
          inv.unopened c (omega (arith, above)),
          times-append c s.executor.available fresh,
          total-update (has c) threads s.pc i finished lt,
          ap one_if (not_eq fresh c (omega (arith, above))),
        );
      }
  Step-Inv {s} (releases i conn false refused lt at) inv = record {
    all = omega (
      arith,
      inv.all,
      length-append s.executor.available (conn ∷ []),
      total-update has_any threads s.pc i finished lt,
      ap has_any at,
      total-update has_lost threads s.pc i finished lt,
      ap has_lost at,
    );
    once = λ c. omega (
      arith,
      inv.once c,
      times-append c s.executor.available conn,
      total-update (has c) threads s.pc i finished lt,
      ap (has c) at,
    );
    unopened = λ c above. omega (
      arith,
      inv.unopened c above,
      times-append c s.executor.available conn,
      total-update (has c) threads s.pc i finished lt,
      ap (has c) at,
    );
  }
  Step-Inv {s} (releases i conn true (some text) lt at) inv = record {
    all = omega (
      arith,
      inv.all,
      total-update has_any threads s.pc i dropped lt,
      ap has_any at,
      total-update has_lost threads s.pc i dropped lt,
      ap has_lost at,
    );
    once = λ c.
        omega (arith, inv.once c, total-update (has c) threads s.pc i dropped lt, ap (has c) at);
    unopened = λ c above. omega (
      arith,
      inv.unopened c above,
      total-update (has c) threads s.pc i dropped lt,
      ap (has c) at,
    );
  }
  Step-Inv (cancels query_id conn found) inv = inv
  Step-Inv (interrupts query_id conn rest e) inv = inv

module _ (query_of : ℕ → ℕ) (threads pool_size : ℕ) where
  Reach-Inv :
      {s : System} → Reach query_of threads pool_size s → Inv threads pool_size s.executor s.pc
  unfolding warm_pool
  Reach-Inv here = record {
    all = omega (
      arith,
      fresh-length pool_size 0,
      total-zero has_any threads refl,
      total-zero has_lost threads refl,
    );
    once = λ c. omega (arith, fresh-once pool_size 0 c, total-zero (has c) threads refl);
    unopened = λ c above.
        omega (
          arith,
          fresh-above pool_size 0 c (omega (arith, above)),
          total-zero (has c) threads refl,
        );
  }
  Reach-Inv (next r st) = Step-Inv query_of threads pool_size st (Reach-Inv r)

-- In every state that the threads and the calls of `cancel` reach, in any order, interrupted and
-- failed queries included: the queue and the threads have `pool_size` connections together, but for
-- one for each thread whose reconnect after an interruption raised, and each connection is in the
-- queue once or with one thread, and not both.
pub pool_conserved :
    (query_of : ℕ → ℕ) (threads pool_size : ℕ) (s : System) (conn : ℕ)
    → Reach query_of threads pool_size s
    → (length s.executor.available + total has_any threads s.pc + total has_lost threads s.pc
        ≡ pool_size)
      × (times conn s.executor.available + total (has conn) threads s.pc ≤ 1)
pool_conserved query_of threads pool_size s conn r =
    let inv = Reach-Inv query_of threads pool_size r in (inv.all, inv.once conn)
