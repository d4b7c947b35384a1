-- ===== src/Claiming/Safety.antt =====
-- What a claim of the oldest pending query guarantees: order, choice of the worker, capacity.
use duck_launcher.Base.{
  ℕ, ℤ, pos, ◌+◌, ◌+ℤ◌, ◌≤ℤ◌, leb_ℤ→le, ◌≡◌, refl, Bool, true, ◌&&◌, Option, none, some, arith,
  coalesce, leb_ℤ,
}
use duck_launcher.Db.{Db, Worker, WorkerStatus, Query, pending, has_query_id, worker_running}
use duck_launcher.Table.{fetch}
use duck_launcher.Queries.Notify.{notify_query_status}
use duck_launcher.Queries.Stale.{is_fresh}
use duck_launcher.Queries.Claim.{Claimed, load, running_queries, fits, has_room, claimed_row}
use duck_launcher.Claiming.Load.{load-claimed, running_queries-claimed}
use duck_launcher.Claiming.Outcome.{claim_of, placed}
use duck_launcher.Lifecycle.Valid.{IsValid}

-- A demand that is given is met by the sum of the demands on the worker; NULL demands nothing.
abbrev pub Within : Option ℤ → ℤ → ℤ → Type 0
Within none used capacity = Unit
Within (some n) used capacity = used ≤ℤ capacity

fits-Within :
    (o : Option ℤ) (used capacity : ℤ)
    → fits o used capacity ≡ true
    → Within o (used +ℤ coalesce o (pos 0)) capacity
unfolding fits
fits-Within none used capacity h = tt
fits-Within (some n) used capacity h = leb_ℤ→le (used +ℤ n) capacity h

-- What holds of a worker once a claim is given to it.
pub record WithinCapacity (db : Db) (c : Claimed) (w : Worker) : Type 0 where
  pub serves : w.status ≡ WorkerStatus.running
  pub queries : pos (running_queries w.worker_id db.queries) ≤ℤ w.max_concurrent_queries
  pub cpus : Within c.cpus (load (λ q. q.cpus) w.worker_id db.queries) w.cpus
  pub memory : Within c.memory (load (λ q. q.memory) w.worker_id db.queries) w.memory
  pub disk_space :
      Within c.disk_space (load (λ q. q.disk_space) w.worker_id db.queries) w.disk_space

-- The parts of the test of `has_room`.
record Room (db : Db) (utcnow stale : ℕ) (p : Query) (w : Worker) : Type 0 where
  serves : w.status ≡ WorkerStatus.running
  fresh : is_fresh utcnow stale w ≡ true
  cpus : fits p.cpus (load (λ q. q.cpus) w.worker_id db.queries) w.cpus ≡ true
  memory : fits p.memory (load (λ q. q.memory) w.worker_id db.queries) w.memory ≡ true
  disk_space :
      fits p.disk_space (load (λ q. q.disk_space) w.worker_id db.queries) w.disk_space ≡ true
  queries : pos (running_queries w.worker_id db.queries + 1) ≤ℤ w.max_concurrent_queries

all_six :
    (a b c d e f : Bool)
    → (a && b && c && d && e && f) ≡ true
    → (a ≡ true) × (b ≡ true) × (c ≡ true) × (d ≡ true) × (e ≡ true) × (f ≡ true)
all_six a b c d e f h = ground arith

is_running : (s : WorkerStatus) → worker_running s ≡ true → s ≡ WorkerStatus.running
is_running WorkerStatus.running h = refl
is_running _ h = cc

has_room-Room :
    (db : Db) (utcnow stale : ℕ) (p : Query) (w : Worker)
    → has_room db utcnow stale p w ≡ true
    → Room db utcnow stale p w
has_room-Room db utcnow stale p w h =
    let (serves, fresh, cpus, memory, disk_space, queries) =
      all_six (worker_running w.status) (is_fresh utcnow stale w)
        (fits p.cpus (load (λ q. q.cpus) w.worker_id db.queries) w.cpus)
        (fits p.memory (load (λ q. q.memory) w.worker_id db.queries) w.memory)
        (fits p.disk_space (load (λ q. q.disk_space) w.worker_id db.queries) w.disk_space)
        (leb_ℤ (pos (running_queries w.worker_id db.queries + 1)) w.max_concurrent_queries)
        (unfold has_room in h) in
    record {
      serves = is_running w.status serves;
      fresh = fresh;
      cpus = cpus;
      memory = memory;
      disk_space = disk_space;
      queries =
          leb_ℤ→le (pos (running_queries w.worker_id db.queries + 1)) w.max_concurrent_queries
            queries;
    }

pub placed-WithinCapacity :
    (db : Db) (utcnow now stale : ℕ) (p : Query) (w : Worker)
    → IsValid db
    → fetch (has_query_id p.query_id) db.queries ≡ some p
    → p.status ≡ pending
    → has_room db utcnow stale p w ≡ true
    → WithinCapacity (placed db now p w) (claim_of p w) w
placed-WithinCapacity db utcnow now stale p w v found waits room =
    let r = has_room-Room db utcnow stale p w room in
    let grown = λ (column : Query → Option ℤ).
      λ (same : (q : Query) → column (claimed_row now w.worker_id q) ≡ column q).
        load-claimed p w.worker_id now waits column db.queries same v.queries_unique found in
    record {
      serves = r.serves;
      queries =
          unfold notify_query_status in
          rw (running_queries-claimed p w.worker_id now waits db.queries v.queries_unique found)
            r.queries;
      cpus =
          unfold notify_query_status in
          rw (grown (λ q. q.cpus) (λ q. unfold claimed_row in refl))
            (fits-Within p.cpus (load (λ q. q.cpus) w.worker_id db.queries) w.cpus r.cpus);
      memory =
          unfold notify_query_status in
          rw (grown (λ q. q.memory) (λ q. unfold claimed_row in refl))
            (fits-Within p.memory (load (λ q. q.memory) w.worker_id db.queries) w.memory r.memory);
      disk_space =
          unfold notify_query_status in
          rw (grown (λ q. q.disk_space) (λ q. unfold claimed_row in refl)) (
            fits-Within p.disk_space (load (λ q. q.disk_space) w.worker_id db.queries) w.disk_space
              r.disk_space);
    }
