-- ===== src/Store/Outbox/Exclusive.antt =====
-- `ClaimOutbox`, `MarkOutboxPublished` and `ReleaseOutbox` (internal/infrastructure/postgres/store.go)
-- together: an event is handed out to one worker at a time.
use jungle_gaming_backend_te.Prelude.{ℕ, ◌⊎◌, ◌≢◌, ◌≤◌, String, ◌≡◌, false, List, ◌∷◌}
use mathlib.Core.List.{Memᴰ}
use jungle_gaming_backend_te.Domain.Time.{Time, Duration, add_duration}
use jungle_gaming_backend_te.Store.Tables.{Postgres, OutboxRow}
use jungle_gaming_backend_te.Store.Outbox.Leases.{
  claim_outbox, published, released, mark_outbox_published, release_outbox,
}
use jungle_gaming_backend_te.Application.Events.{OutboxEvent}
use jungle_gaming_backend_te.Store.Outbox.{outbox_row, outbox_taken}
use jungle_gaming_backend_te.Store.Outbox.Candidates.{ids_of, claimed-Mem}
use jungle_gaming_backend_te.Store.Outbox.Reserved.{
  IsReserved, left_out, changed-IsReserved, published-event_id, published-IsTaken,
  released-event_id, released-IsTaken, claimed-IsReserved, inserted-IsReserved, first-IsReserved,
}

-- What may happen to the rows while `worker` has the event `id` until `until`: claims of anybody, each
-- with the rows that are held at its time; new events; confirmations; releases, but not the one by
-- which the worker gives the event back.
pub data Meanwhile (id worker : String) (until : Time) (rows : List OutboxRow)
    : List OutboxRow → Type 0 where
  begin : Meanwhile id worker until rows rows
  claimed :
      {mid : List OutboxRow} (postgres : Postgres) (other : String) (limit : ℕ) (lease : Duration)
      (now : Time)
      → Meanwhile id worker until rows mid
      → now ≤ until
      → Meanwhile id worker until rows (claim_outbox postgres other limit lease now mid).1
  inserted :
      {mid : List OutboxRow} (e : OutboxEvent)
      → Meanwhile id worker until rows mid
      → outbox_taken e.event_id mid ≡ false
      → Meanwhile id worker until rows (outbox_row e ∷ mid)
  confirmed :
      {mid : List OutboxRow} (event_id other : String) (now : Time)
      → Meanwhile id worker until rows mid
      → Meanwhile id worker until rows (mark_outbox_published event_id other now mid).1
  given_back :
      {mid : List OutboxRow} (postgres : Postgres) (event_id other : String) (next : Time)
      (reason : String)
      → Meanwhile id worker until rows mid
      → (event_id ≢ id) ⊎ (other ≢ worker)
      → Meanwhile id worker until rows (release_outbox postgres event_id other next reason mid)

module _ (id worker : String) (until : Time) where
  Meanwhile-IsReserved :
      (rows rows' : List OutboxRow)
      → Meanwhile id worker until rows rows'
      → IsReserved id worker until rows
      → IsReserved id worker until rows'
  unfolding mark_outbox_published release_outbox
  Meanwhile-IsReserved rows rows' begin reserved = reserved
  Meanwhile-IsReserved rows rows' (claimed {mid = mid} postgres other limit lease now steps early)
        reserved =
      claimed-IsReserved id worker until postgres other limit lease now mid early
        (Meanwhile-IsReserved rows mid steps reserved)
  Meanwhile-IsReserved rows rows' (inserted {mid = mid} e steps free) reserved =
      inserted-IsReserved id worker until e mid free (Meanwhile-IsReserved rows mid steps reserved)
  Meanwhile-IsReserved rows rows' (confirmed {mid = mid} event_id other now steps) reserved =
      changed-IsReserved id worker until (published event_id other now) mid
        (published-event_id id worker until event_id other now)
        (λ r named taken. published-IsTaken id worker until event_id other now r taken)
        (Meanwhile-IsReserved rows mid steps reserved)
  Meanwhile-IsReserved rows rows'
        (given_back {mid = mid} postgres event_id other next reason steps foreign) reserved =
      changed-IsReserved id worker until (released postgres event_id other next reason) mid
        (released-event_id id worker until postgres event_id other next reason)
        (λ r named taken.
          released-IsTaken id worker until postgres event_id other next reason r foreign named
            taken)
        (Meanwhile-IsReserved rows mid steps reserved)

-- Once a worker has claimed an event, no claim that comes before its lease is over returns the event,
-- whichever worker makes it, as long as the worker has not released the event: whatever claims, new
-- events, confirmations and releases of others or of other events come in between, while the lease
-- runs.
pub claim_outbox-exclusive :
    (postgres later : Postgres) (worker other : String) (limit limit' : ℕ) (lease lease' : Duration)
    (now now' : Time) (rows rows' : List OutboxRow) (id : String)
    → Memᴰ id (ids_of (claim_outbox postgres worker limit lease now rows).0)
    → Meanwhile id worker
        (add_duration now lease)
        (claim_outbox postgres worker limit lease now rows).1
        rows'
    → now' ≤ add_duration now lease
    → ¬ Memᴰ id (ids_of (claim_outbox later other limit' lease' now' rows').0)
claim_outbox-exclusive postgres later worker other limit limit' lease lease' now now' rows rows' id
      first steps early second =
    left_out id worker (add_duration now lease) later limit' now' rows' early
      (Meanwhile-IsReserved id worker (add_duration now lease) _ rows' steps
        (first-IsReserved postgres worker limit lease now rows id first))
      (claimed-Mem later other limit' lease' now' rows' id second)
