-- ===== src/Lifecycle/Notices.antt =====
-- What a group of notifications adds to the channel.
use duck_launcher.Table.{update, select}
use duck_launcher.Queries.Stale.{reverted_row, revert_queries}
use duck_launcher.Base.{◌≡◌, ap, ◌∙◌, none, List, [], ◌∷◌, ◌++◌, map, Bool}
use mathlib.Core.List.{append-nil, append_assoc}
use duck_launcher.Db.{Db, Query, QueryStatus, Payload}
use duck_launcher.Queries.Notify.{notify_reverted}

-- The payload for a row that goes back to pending.
abbrev pub reverted_payload : Query → Payload
reverted_payload q = record {
  query_id = q.query_id;
  status = QueryStatus.pending;
  error = q.error;
  result_row_count = none;
}

pub notify_reverted_lem :
    (db : Db) (rows : List Query)
    → notify_reverted db rows ≡ record db { channel = db.channel ++ map reverted_payload rows }
unfolding notify_reverted
notify_reverted_lem db [] = rw append-nil
notify_reverted_lem db (q ∷ rows) =
    notify_reverted_lem _ rows
    ∙ ap (λ c. record db { channel = c })
        (append_assoc db.channel (reverted_payload q ∷ []) (map reverted_payload rows))

-- The rows that a group UPDATE takes back, and a notification for each of them.
pub revert_queries_lem :
    (db : Db) (test : Query → Bool)
    → revert_queries db test ≡ record db {
      queries = update test reverted_row db.queries;
      channel = db.channel ++ map reverted_payload (map reverted_row (select test db.queries));
    }
unfolding revert_queries
revert_queries_lem db test =
    notify_reverted_lem (record db { queries = update test reverted_row db.queries })
      (map reverted_row (select test db.queries))
