-- ===== src/Models.antt =====
-- models.py: what a request may bring.
use duck_launcher.Db.{QueryStatus}

-- CompleteQueryRequest.status, a text of the pattern ^(completed|failed|cancelled)$.
pub data CompletionStatus : Type 0 where
  completed failed cancelled : CompletionStatus

abbrev pub to_status : CompletionStatus → QueryStatus
to_status completed = QueryStatus.completed
to_status failed = QueryStatus.failed
to_status cancelled = QueryStatus.cancelled
