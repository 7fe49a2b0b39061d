-- ===== src/Messaging/OutboxWorker.antt =====
-- internal/infrastructure/messaging/outbox_worker.go: the workers that publish the events of the outbox.
-- The loop body is cut where another worker may come in between: at the claim, at the call of the
-- queue, and at the statement that answers it. The queue is outside of the program.
pub mod Delays
pub mod Rows
pub mod Tracked
pub mod Honest
pub mod Refines
use jungle_gaming_backend_te.Prelude.{
  ℕ, zero, suc, ◌-◌, ◌*◌, ◌^◌, String, ◌≡◌, ◌≢◌, Bool, true, false, List, ◌∷◌, ◌++◌, map, ltb,
  if◌then◌else◌,
}
use jungle_gaming_backend_te.Prelude.Int.{ℤ, pos, pos_part}
use jungle_gaming_backend_te.Prelude.Word.{add64}
use jungle_gaming_backend_te.Domain.Time.{Time, Duration, add_duration}
use jungle_gaming_backend_te.Application.Events.{OutboxEvent, EventEnvelope}
use jungle_gaming_backend_te.Store.Tables.{Postgres, OutboxRow}
use jungle_gaming_backend_te.Store.Outbox.{outbox_row, outbox_taken}
use jungle_gaming_backend_te.Store.Outbox.Leases.{
  ClaimedOutboxEvent, claim_outbox, mark_outbox_published, release_outbox,
}

abbrev pub second : Duration
second = 1000000000

-- `5*time.Minute`
abbrev pub longest_delay : Duration
longest_delay = 300 * second

unfoldable pub outbox_rounds : ℕ → Duration → Duration
outbox_rounds zero delay = delay
outbox_rounds (suc rounds) delay =
    let doubled = outbox_rounds rounds (delay * 2) in
    if ltb delay longest_delay then doubled else delay

-- `outboxBackoff`; its loop makes at most `attempt - 1` rounds.
unfoldable pub outbox_backoff : ℤ → Duration
unfolding outbox_rounds
outbox_backoff attempt =
    let delay = outbox_rounds (pos_part attempt - 1) second in
    if ltb longest_delay delay then longest_delay else delay

-- How far a worker is with an event that it claimed.
pub data Stage : Type 0 where
  to_publish accepted refused : Stage

pub record Flight : Type 0 where
  pub worker : String
  pub event : ClaimedOutboxEvent
  pub stage : Stage

-- The message that `publish` sends, by its deduplication identifier.
abbrev pub Message : Type 0
Message = String × EventEnvelope

abbrev pub message_of : Flight → Message
message_of f = (((f.event).event).event_id, ((f.event).event).payload)

abbrev pub message_of_row : OutboxRow → Message
message_of_row r = (r.event_id, r.payload)

-- The table, what the workers have in hand, and what the queue has received.
pub record World : Type 0 where
  pub rows : List OutboxRow
  pub flights : List Flight
  pub sent : List Message

abbrev pub in_hand : String → ClaimedOutboxEvent → Flight
in_hand worker e = record { worker = worker; event = e; stage = to_publish }

module _ (postgres : Postgres) where
  -- What the loop does about the answer of the queue.
  unfoldable pub after_publish : Flight → Time → String → List OutboxRow → List OutboxRow
  after_publish f now reason rows =
      let id = ((f.event).event).event_id in
      elim (f.stage) [
        | accepted ↦ (mark_outbox_published id f.worker now rows).1
        | refused ↦
            release_outbox postgres id f.worker
              (add_duration now (outbox_backoff (add64 (f.event).attempts (pos 1)))) reason rows
        | to_publish ↦ rows
      ]

  pub data Step (w : World) : World → Type 0 where
    -- a use case inserts an event
    records :
        (e : OutboxEvent)
        → outbox_taken e.event_id w.rows ≡ false
        → Step w (record w { rows = outbox_row e ∷ w.rows })
    -- a worker claims events, but for those that other transactions hold at the time
    claims :
        (held : String → Bool) (worker : String) (limit : ℕ) (lease : Duration) (now : Time)
        → Step w (record w {
          rows = (claim_outbox (record postgres { held = held }) worker limit lease now w.rows).1;
          flights =
              map
                (in_hand worker)
                (claim_outbox (record postgres { held = held }) worker limit lease now w.rows).0
              ++ w.flights;
        })
    -- the queue accepts a message
    sends :
        (before after : List Flight) (f : Flight)
        → w.flights ≡ before ++ f ∷ after
        → f.stage ≡ to_publish
        → Step w (record w {
          flights = before ++ record f { stage = accepted } ∷ after;
          sent = message_of f ∷ w.sent;
        })
    -- the call fails, whether the message reached the queue or not
    misses :
        (before after : List Flight) (f : Flight) (reached : Bool)
        → w.flights ≡ before ++ f ∷ after
        → f.stage ≡ to_publish
        → Step w (record w {
          flights = before ++ record f { stage = refused } ∷ after;
          sent = (if reached then message_of f ∷ w.sent else w.sent);
        })
    -- the worker answers in the table
    answers :
        (before after : List Flight) (f : Flight) (now : Time) (reason : String)
        → w.flights ≡ before ++ f ∷ after
        → f.stage ≢ to_publish
        → Step w (record w { rows = after_publish f now reason w.rows; flights = before ++ after })
    -- a worker is stopped with an event in hand
    stops :
        (before after : List Flight) (f : Flight)
        → w.flights ≡ before ++ f ∷ after
        → Step w (record w { flights = before ++ after })

  pub data Run (w : World) : World → Type 0 where
    begin : Run w w
    next : {u v : World} → Run w u → Step u v → Run w v
