-- ===== src/Claiming/Load.antt =====
-- What a claim adds to the load of its worker.
use duck_launcher.Base.{
  ℕ, ℤ, pos, ◌+◌, ◌+ℤ◌, ◌≡◌, ap, ◌∙◌, inl, inr, true, false, ◌==◌, Option, some, List, [], ◌∷◌,
  All-mono, arith, coalesce, Bool-cases, ==_refl, +ℤ_comm, +ℤ_assoc, sym,
}
use duck_launcher.Db.{Query, pending, has_query_id, runs_on}
use duck_launcher.Table.{update, fetch, Unique}
use duck_launcher.Table.Update.{update_absent}
use duck_launcher.Queries.Claim.{load, running_queries, claimed_row}

module _ (w : ℕ) (q : Query) (qs : List Query) where
  load-on :
      (column : Query → Option ℤ)
      → runs_on w q ≡ true
      → load column w (q ∷ qs) ≡ coalesce (column q) (pos 0) +ℤ load column w qs
  unfolding load
  load-on column on = rw on

  load-off :
      (column : Query → Option ℤ) → runs_on w q ≡ false → load column w (q ∷ qs) ≡ load column w qs
  unfolding load
  load-off column off = rw off

  running_queries-on : runs_on w q ≡ true → running_queries w (q ∷ qs) ≡ running_queries w qs + 1
  unfolding running_queries
  running_queries-on on = rw on

  running_queries-off : runs_on w q ≡ false → running_queries w (q ∷ qs) ≡ running_queries w qs
  unfolding running_queries
  running_queries-off off = rw off

module _ (p : Query) (w now : ℕ) (waits : p.status ≡ pending) where
  runs_on-claimed : (q : Query) → runs_on w (claimed_row now w q) ≡ true
  unfolding claimed_row
  runs_on-claimed q = ground (arith, ==_refl w)

  absent_rest :
      (k : ℕ) (q : Query) (qs : List Query)
      → (q.query_id == k) ≡ true
      → Unique (λ r. r.query_id) (q ∷ qs)
      → update (has_query_id k) (claimed_row now w) qs ≡ qs
  absent_rest k q qs hit u =
      update_absent (λ r. r.query_id) k (claimed_row now w) qs
        (All-mono _ _ qs (λ r ne. ground (arith, ne)) u.0)

  -- Split the table at its first row.
  update-hit :
      (k : ℕ) (q : Query) (qs : List Query)
      → (q.query_id == k) ≡ true
      → Unique (λ r. r.query_id) (q ∷ qs)
      → update (has_query_id k) (claimed_row now w) (q ∷ qs) ≡ claimed_row now w q ∷ qs
  unfolding update
  update-hit k q qs hit u = rw (hit, absent_rest k q qs hit u)

  update-miss :
      (k : ℕ) (q : Query) (qs : List Query)
      → (q.query_id == k) ≡ false
      → update (has_query_id k) (claimed_row now w) (q ∷ qs)
        ≡ q ∷ update (has_query_id k) (claimed_row now w) qs
  unfolding update
  update-miss k q qs miss = rw miss

  head-fetched :
      (q : Query) (qs : List Query)
      → (q.query_id == p.query_id) ≡ true
      → fetch (has_query_id p.query_id) (q ∷ qs) ≡ some p
      → q ≡ p
  unfolding fetch
  head-fetched q qs hit found = ground arith

  tail-fetched :
      (q : Query) (qs : List Query)
      → (q.query_id == p.query_id) ≡ false
      → fetch (has_query_id p.query_id) (q ∷ qs) ≡ some p
      → fetch (has_query_id p.query_id) qs ≡ some p
  unfolding fetch
  tail-fetched q qs miss found = ground arith

  pending_idle : (q : Query) → q ≡ p → runs_on w q ≡ false
  pending_idle q e =
      let still : q.status ≡ pending = ap (λ (r : Query). r.status) e ∙ waits in ground arith

  -- The sum of a column over the running queries of the worker grows by the column of the claimed.
  pub load-claimed :
      (column : Query → Option ℤ) (qs : List Query)
      → ((q : Query) → column (claimed_row now w q) ≡ column q)
      → Unique (λ r. r.query_id) qs
      → fetch (has_query_id p.query_id) qs ≡ some p
      → load column w (update (has_query_id p.query_id) (claimed_row now w) qs)
        ≡ load column w qs +ℤ coalesce (column p) (pos 0)
  load-claimed column [] same u found = unfold fetch in cc
  load-claimed column (q ∷ qs) same u found = elim (Bool-cases (q.query_id == p.query_id)) [
    | inl hit ↦
        let first = head-fetched q qs hit found in
        rw
          (
            update-hit p.query_id q qs hit u,
            load-on w (claimed_row now w q) qs column (runs_on-claimed q),
            load-off w q qs column (pending_idle q first),
            same q,
            first,
          )
          (+ℤ_comm _ _)
    | inr miss ↦
        let ih = load-claimed column qs same u.1 (tail-fetched q qs miss found) in
        rw (update-miss p.query_id q qs miss) (elim (Bool-cases (runs_on w q)) [
          | inl on ↦
              rw (load-on w q _ column on, load-on w q qs column on, ih) (sym (+ℤ_assoc _ _ _))
          | inr off ↦ rw (load-off w q _ column off, load-off w q qs column off, ih)
        ])
  ]

  -- So does their number, by one.
  pub running_queries-claimed :
      (qs : List Query)
      → Unique (λ r. r.query_id) qs
      → fetch (has_query_id p.query_id) qs ≡ some p
      → running_queries w (update (has_query_id p.query_id) (claimed_row now w) qs)
        ≡ running_queries w qs + 1
  running_queries-claimed [] u found = unfold fetch in cc
  running_queries-claimed (q ∷ qs) u found = elim (Bool-cases (q.query_id == p.query_id)) [
    | inl hit ↦ rw (
      update-hit p.query_id q qs hit u,
      running_queries-on w (claimed_row now w q) qs (runs_on-claimed q),
      running_queries-off w q qs (pending_idle q (head-fetched q qs hit found)),
    )
    | inr miss ↦
        let ih = running_queries-claimed qs u.1 (tail-fetched q qs miss found) in
        rw (update-miss p.query_id q qs miss) (elim (Bool-cases (runs_on w q)) [
          | inl on ↦ rw (running_queries-on w q _ on, running_queries-on w q qs on, ih)
          | inr off ↦ rw (running_queries-off w q _ off, running_queries-off w q qs off, ih)
        ])
  ]
