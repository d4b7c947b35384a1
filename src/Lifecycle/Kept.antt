-- ===== src/Lifecycle/Kept.antt =====
-- What every call keeps of the table `workers`: its rows stay, each under its own key.
use duck_launcher.Table.Select.{append-Unique}
use duck_launcher.Base.{
  ℕ, ◌≡◌, ◌≢◌, refl, Bool, true, Option, none, some, List, [], ◌∷◌, ◌++◌, All, any, arith,
}
use duck_launcher.Db.{Worker, Query, has_worker_id}
use duck_launcher.Table.{update, fetch, Unique}
use duck_launcher.Table.Update.{update-Unique}
use duck_launcher.Lifecycle.Phase.{worker_exists, IsRow}

pub record Kept (ws ws' : List Worker) : Type 0 where
  pub unique : Unique (λ w. w.worker_id) ws → Unique (λ w. w.worker_id) ws'
  pub exists : (k : ℕ) → any (has_worker_id k) ws ≡ true → any (has_worker_id k) ws' ≡ true

pub Kept-refl : (ws : List Worker) → Kept ws ws
Kept-refl ws = record { unique = λ u. u; exists = λ k h. h }

any-update :
    (test : Worker → Bool) (set : Worker → Worker) (k : ℕ) (ws : List Worker)
    → ((w : Worker) → (set w).worker_id ≡ w.worker_id)
    → any (has_worker_id k) (update test set ws) ≡ any (has_worker_id k) ws
unfolding update
any-update test set k [] same = refl
any-update test set k (w ∷ ws) same = ground (arith, same w, any-update test set k ws same)

pub Kept-update :
    (test : Worker → Bool) (set : Worker → Worker) (ws : List Worker)
    → ((w : Worker) → (set w).worker_id ≡ w.worker_id)
    → Kept ws (update test set ws)
Kept-update test set ws same = record {
  unique = update-Unique (λ w. w.worker_id) test set ws same;
  exists = λ k h. rw (any-update test set k ws same) h;
}

any-append :
    (k : ℕ) (ws vs : List Worker)
    → any (has_worker_id k) ws ≡ true
    → any (has_worker_id k) (ws ++ vs) ≡ true
any-append k [] vs h = cc
any-append k (w ∷ ws) vs h = ground (arith, any-append k ws vs)

absent :
    (k : ℕ) (ws : List Worker) → fetch (has_worker_id k) ws ≡ none → All (λ w. w.worker_id ≢ k) ws
unfolding fetch
absent k [] h = tt
absent k (w ∷ ws) h = (ground arith, absent k ws (ground arith))

pub Kept-append :
    (ws : List Worker) (v : Worker)
    → fetch (has_worker_id v.worker_id) ws ≡ none
    → Kept ws (ws ++ v ∷ [])
Kept-append ws v fresh = record {
  unique = append-Unique (λ w. w.worker_id) ws v (absent v.worker_id ws fresh);
  exists = λ k h. any-append k ws (v ∷ []) h;
}

pub IsRow-mono : (ws ws' : List Worker) → Kept ws ws' → (q : Query) → IsRow ws q → IsRow ws' q
IsRow-mono ws ws' kept q row = record { shape = row.shape; refers = still q.worker_id row.refers }
  where
    still : (o : Option ℕ) → worker_exists ws o ≡ true → worker_exists ws' o ≡ true
    still none h = refl
    still (some k) h = kept.exists k h
