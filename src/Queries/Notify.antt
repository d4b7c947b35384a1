-- ===== src/Queries/Notify.antt =====
-- db/notify.py
use duck_launcher.Base.{ℕ, ℤ, Option, none, String, List, [], ◌∷◌, ◌++◌}
use duck_launcher.Db.{Db, Query, QueryStatus}

unfoldable pub notify_query_status : Db → ℕ → QueryStatus → Option String → Option ℤ → Db
notify_query_status db query_id status error result_row_count = record db {
  channel =
      db.channel
      ++ record {
        query_id = query_id;
        status = status;
        error = error;
        result_row_count = result_row_count;
      }
        ∷ [];
}

-- `for row in reverted: await notify_query_status(conn, row["query_id"], "pending", error=…)`
unfoldable pub notify_reverted : Db → List Query → Db
unfolding notify_query_status
notify_reverted db [] = db
notify_reverted db (row ∷ rows) =
    notify_reverted (notify_query_status db row.query_id QueryStatus.pending row.error none) rows
