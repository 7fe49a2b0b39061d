-- ===== src/Examples/Outbox.antt =====
-- An event that is recorded, claimed, sent, and marked as published.
use jungle_gaming_backend_te.Prelude.{
  String, eq_iff, ◌≢◌, inl, inr, List, ◌≡◌, refl, true, false, some, [], ◌∷◌, map, ◌++◌, arith,
}
use mathlib.Core.List.{Memᴰ}
use jungle_gaming_backend_te.Prelude.Int.{pos}
use jungle_gaming_backend_te.Application.Events.{
  OutboxEvent, wager_transaction_pending_reference, pending_reference_data,
}
use jungle_gaming_backend_te.Domain.Transaction.{pending_reference}
use jungle_gaming_backend_te.Store.Tables.{Postgres, OutboxRow}
use jungle_gaming_backend_te.Store.Outbox.{outbox_row, outbox_taken}
use jungle_gaming_backend_te.Store.Outbox.Leases.{
  claim_outbox, claimed_event, candidates, is_candidate, contains, leased, mark_outbox_published,
  published, owns, release_outbox,
}
use jungle_gaming_backend_te.Store.Outbox.Candidates.{ids_of}
use jungle_gaming_backend_te.Store.Outbox.Claims.{claim_outbox-claims}
use jungle_gaming_backend_te.Store.Outbox.Exclusive.{Meanwhile, claim_outbox-exclusive}
use jungle_gaming_backend_te.Messaging.OutboxWorker.{
  message_of, Flight, accepted, World, in_hand, after_publish, Step, records, claims, sends,
  answers, begin, next, message_of_row,
}
use jungle_gaming_backend_te.Messaging.OutboxWorker.Honest.{
  no_world, no_world-IsHonest, published-IsSent,
}
use jungle_gaming_backend_te.Messaging.OutboxWorker.Refines.{
  mailbox, Move, Step-Move, IsKept, Run-IsKept,
}

abbrev postgres : Postgres
postgres = record { uuid_leb = λ a b. true; held = λ _. false; left = λ s n. s }

abbrev an_event : OutboxEvent
an_event = record {
  event_id = "e1";
  aggregate_id = "t1";
  event_type = wager_transaction_pending_reference;
  payload = record {
    event_id = "e1";
    event_type = wager_transaction_pending_reference;
    aggregate_id = "t1";
    correlation_id = "c1";
    causation_id = "";
    occurred_at = 5;
    version = pos 1;
    content = pending_reference_data (record {
      transaction_id = "t1";
      external_transaction_id = "x1";
      provider_id = "acme";
      wallet_id = "w1";
      reference_external_transaction_id = "x0";
      status = pending_reference;
      next_attempt_at = some 8;
    });
  };
  occurred_at = 5;
}

abbrev recorded : World
recorded = record no_world { rows = outbox_row an_event ∷ [] }

abbrev claimed_row : OutboxRow
claimed_row = record (outbox_row an_event) { locked_by = some "v1"; locked_until = some 16 }

abbrev flight : Flight
flight = in_hand "v1" (claimed_event (outbox_row an_event))

abbrev sent_row : OutboxRow
sent_row = record (outbox_row an_event) { published_at = some 7 }

claimed_events :
    (claim_outbox postgres "v1" 10 10 6 recorded.rows).0 ≡ claimed_event (outbox_row an_event) ∷ []
unfolding claim_outbox outbox_row
claimed_events = unfold candidates is_candidate contains in refl

claimed_rows : (claim_outbox postgres "v1" 10 10 6 recorded.rows).1 ≡ claimed_row ∷ []
unfolding claim_outbox outbox_row
claimed_rows = unfold candidates is_candidate contains leased in refl

abbrev claimed : World
claimed = record recorded {
  rows = (claim_outbox postgres "v1" 10 10 6 recorded.rows).1;
  flights = map (in_hand "v1") (claim_outbox postgres "v1" 10 10 6 recorded.rows).0 ++ [];
}

abbrev arrived : World
arrived = record claimed {
  flights = [] ++ record flight { stage = accepted } ∷ [];
  sent = message_of flight ∷ [];
}

abbrev confirmed : World
confirmed = record arrived {
  rows = after_publish postgres (record flight { stage = accepted }) 7 "" claimed.rows;
  flights = [] ++ [];
}

recording : Step postgres no_world recorded
recording = records an_event (unfold outbox_taken in refl)

claiming : Step postgres recorded claimed
claiming = claims (λ _. false) "v1" 10 10 6

sending : Step postgres claimed arrived
sending = sends [] [] flight (rw claimed_events refl) refl

confirming : Step postgres arrived confirmed
confirming = answers [] [] (record flight { stage = accepted }) 7 "" refl (λ e. cc)

published_row : confirmed.rows ≡ sent_row ∷ []
unfolding after_publish outbox_row claimed_event
published_row = rw claimed_rows (unfold mark_outbox_published published owns in refl)

published-IsSent_example : Memᴰ (message_of_row sent_row) confirmed.sent
published-IsSent_example =
    published-IsSent postgres confirmed sent_row
      (next (next (next (next begin recording) claiming) sending) confirming)
      (rw published_row (Memᴰ.head refl)) refl

Step-Move_example : Move (mailbox no_world) (mailbox recorded)
Step-Move_example = Step-Move postgres no_world recorded recording no_world-IsHonest

Run-IsKept_example : IsKept (outbox_row an_event) confirmed.rows
Run-IsKept_example =
    Run-IsKept postgres recorded confirmed (outbox_row an_event)
      (next (next (next begin claiming) sending) confirming) (Memᴰ.head refl)

-- Another worker claims, and gives back, while the first one has the event.
abbrev later_rows : List OutboxRow
later_rows =
    release_outbox postgres "e1" "v2" 9 "" (claim_outbox postgres "v2" 5 10 7 claimed.rows).1

other_worker : ◌≢◌ {A = String} "v2" "v1"
other_worker same = ground (arith, (eq_iff "v2" "v1").1 same)

claim_outbox-exclusive_example :
    ¬ Memᴰ "e1" (ids_of (claim_outbox postgres "v2" 5 10 16 later_rows).0)
unfolding outbox_row
claim_outbox-exclusive_example =
    claim_outbox-exclusive postgres postgres "v1" "v2" 10 5 10 10 6 16 recorded.rows later_rows "e1"
      (rw claimed_events (unfold claimed_event in Memᴰ.head refl))
      (Meanwhile.given_back postgres "e1" "v2" 9 ""
        (Meanwhile.claimed postgres "v2" 5 10 7 Meanwhile.begin (omega arith)) (inr other_worker))
      (omega arith)

claim_outbox-claims_example :
    Memᴰ (claimed_event (outbox_row an_event)) (claim_outbox postgres "v1" 10 10 6 recorded.rows).0
    × Memᴰ claimed_row (claim_outbox postgres "v1" 10 10 6 recorded.rows).1
unfolding outbox_row
claim_outbox-claims_example =
    claim_outbox-claims postgres "v1" 10 10 6 recorded.rows (outbox_row an_event) (omega arith)
      (Memᴰ.head refl) refl (omega arith) (inl refl) refl
