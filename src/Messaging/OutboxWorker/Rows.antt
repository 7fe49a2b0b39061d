-- ===== src/Messaging/OutboxWorker/Rows.antt =====
-- The rows of the outbox across the steps of internal/infrastructure/messaging/outbox_worker.go: each
-- step but an insertion changes every row by itself, and never what the row says of its event.
use jungle_gaming_backend_te.Prelude.{
  String, ◌≡◌, ◌≢◌, refl, false, List, map, ◌⊎◌, inl, inr, eq_iff, arith,
}
use jungle_gaming_backend_te.Prelude.Int.{pos}
use jungle_gaming_backend_te.Prelude.Word.{add64}
use jungle_gaming_backend_te.Domain.Time.{Time, add_duration}
use jungle_gaming_backend_te.Store.Tables.{Postgres, OutboxRow}
use jungle_gaming_backend_te.Store.Outbox.Leases.{
  is_null, leased, published, released, owns, mark_outbox_published, release_outbox,
}
use jungle_gaming_backend_te.Messaging.OutboxWorker.{
  Stage, to_publish, accepted, refused, Flight, message_of_row, outbox_backoff, after_publish,
}

-- A change of a row that keeps its message, and does not take the publication back.
pub record IsUpdate (g : OutboxRow → OutboxRow) : Type 0 where
  pub message : (r : OutboxRow) → message_of_row (g r) ≡ message_of_row r
  pub stays : (r : OutboxRow) → is_null r.published_at ≡ false → (g r).published_at ≡ r.published_at

pub leased-IsUpdate :
    (worker : String) (until : Time) (ids : List String) → IsUpdate (leased worker until ids)
unfolding leased
leased-IsUpdate worker until ids = record {
  message = λ r. ground arith;
  stays = λ r h. ground arith;
}

-- A lease publishes nothing.
pub leased-unpublished :
    (worker : String) (until : Time) (ids : List String) (r : OutboxRow)
    → (leased worker until ids r).published_at ≡ r.published_at
unfolding leased
leased-unpublished worker until ids r = ground arith

module _ (postgres : Postgres) (f : Flight) (now : Time) (reason : String) where
  -- What `after_publish` does to one row.
  abbrev pub answered : OutboxRow → OutboxRow
  answered r = elim (f.stage) [
    | accepted ↦ published ((f.event).event).event_id f.worker now r
    | refused ↦
        released postgres ((f.event).event).event_id f.worker
          (add_duration now (outbox_backoff (add64 (f.event).attempts (pos 1)))) reason r
    | to_publish ↦ r
  ]

  stage_cases : (s : Stage) → (s ≡ accepted) ⊎ ((s ≡ refused) ⊎ (s ≡ to_publish))
  stage_cases accepted = inl refl
  stage_cases refused = inr (inl refl)
  stage_cases to_publish = inr (inr refl)

  pub after_publish-map :
      (rows : List OutboxRow)
      → f.stage ≢ to_publish
      → after_publish postgres f now reason rows ≡ map answered rows
  unfolding after_publish mark_outbox_published release_outbox
  after_publish-map rows h = elim (stage_cases f.stage) [
    | inl e ↦ rw e
    | inr (inl e) ↦ rw e
    | inr (inr e) ↦ absurd (h e)
  ]

  pub answered-IsUpdate : IsUpdate answered
  unfolding published released owns
  answered-IsUpdate = record { message = λ r. ground arith; stays = λ r h. ground arith }

  -- What is published by the answer is the event that the queue accepted.
  pub answered-published :
      (r : OutboxRow)
      → is_null (answered r).published_at ≡ false
      → (is_null r.published_at ≡ false)
        ⊎ ((f.stage ≡ accepted) × (r.event_id ≡ ((f.event).event).event_id))
  unfolding published released owns
  answered-published r h = ground (arith, eq_iff r.event_id ((f.event).event).event_id)
