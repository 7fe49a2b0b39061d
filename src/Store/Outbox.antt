-- ===== src/Store/Outbox.antt =====
-- internal/infrastructure/postgres/store.go: the statement that inserts into `outbox_events`.
pub mod Leases
pub mod Candidates
pub mod Claims
pub mod Reserved
pub mod Exclusive
use jungle_gaming_backend_te.Prelude.{String, Bool, false, ◌||◌, none, List, [], ◌∷◌, str_eq}
use jungle_gaming_backend_te.Prelude.Int.{pos}
use jungle_gaming_backend_te.Errors.{conflict}
use jungle_gaming_backend_te.Application.Events.{OutboxEvent}
use jungle_gaming_backend_te.Store.Tables.{OutboxRow, Tx, unless_taken}

unfoldable pub outbox_row : OutboxEvent → OutboxRow
outbox_row e = record {
  event_id = e.event_id;
  aggregate_id = e.aggregate_id;
  event_type = e.event_type;
  payload = e.payload;
  occurred_at = e.occurred_at;
  attempts = pos 0;
  next_attempt_at = e.occurred_at;
  locked_by = none;
  locked_until = none;
  published_at = none;
  last_error = none;
}

unfoldable pub outbox_taken : String → List OutboxRow → Bool
outbox_taken event_id [] = false
outbox_taken event_id (r ∷ rows) = str_eq r.event_id event_id || outbox_taken event_id rows

unfoldable pub insert_outbox : OutboxEvent → Tx (Unit {0})
insert_outbox e db =
    unless_taken (outbox_taken e.event_id db.outbox) conflict
      (record db { outbox = outbox_row e ∷ db.outbox }) db
