-- ===== src/Messaging/Consumer/Delivery.antt =====
-- A message of internal/infrastructure/messaging/consumer.go, and the tables: it leaves the queue only
-- behind a commit, and it may be delivered again.
use jungle_gaming_backend_te.Prelude.{
  String, ◌≡◌, refl, ap, Bool, true, false, Option, none, some, inl, inr, arith, Bool-cases,
}
use jungle_gaming_backend_te.Prelude.Int.{ℤ}
use jungle_gaming_backend_te.Errors.{Result, Result-cases, ok, err}
use jungle_gaming_backend_te.Domain.Money.{Money}
use jungle_gaming_backend_te.Domain.Money.Text.{parse_money}
use jungle_gaming_backend_te.Application.Contracts.{ProcessWagerResult}
use jungle_gaming_backend_te.Application.Environment.{Environment, Call}
use jungle_gaming_backend_te.Application.WagerService.Process.{process}
use jungle_gaming_backend_te.Application.WagerService.Atomic.{process-err}
use jungle_gaming_backend_te.Application.Idempotence.Again.{process-again}
use jungle_gaming_backend_te.Store.Tables.{Db}
use jungle_gaming_backend_te.Messaging.Consumer.{
  WagerEnvelope, QueueMessage, Decoding, ConsumerSettings, Shutdown, Outcome, visible_in,
  approximate_receive_count, schedule_retry, command_of, after_commit, after_process, handle_wager,
  handle_envelope, handle_message,
}

abbrev pub is_retry : Outcome → Bool
is_retry (visible_in _) = true
is_retry _ = false

module _ (env : Environment) (decoding : Decoding) (settings : ConsumerSettings) where
  abbrev hash_of : QueueMessage → String
  hash_of message = decoding.sha256_hex message.body

  -- The wager of a message was processed and the tables were committed.
  pub record IsCommitted (call : Call) (message : QueueMessage) (db db' : Db) : Type 0 where
    pub envelope : WagerEnvelope
    pub money : Money
    pub result : ProcessWagerResult
    pub decoded : decoding.unmarshal message.body ≡ some envelope
    pub accepted : decoding.valid_envelope envelope ≡ true
    pub parsed :
        parse_money env.parse_iso (envelope.content).amount (envelope.content).currency ≡ ok money
    pub committed :
        process env call (command_of (decoding.sha256_hex message.body) envelope money) db
        ≡ (ok result, db')

  -- A message with an answer of `Process` that is no error.
  handled :
      (call : Call) (shutdown : Shutdown) (message : QueueMessage) (db : Db)
      (envelope : WagerEnvelope) (money : Money) (r : ProcessWagerResult)
      → decoding.unmarshal message.body ≡ some envelope
      → decoding.valid_envelope envelope ≡ true
      → parse_money env.parse_iso (envelope.content).amount (envelope.content).currency ≡ ok money
      → process env call (command_of (hash_of message) envelope money) db ≡ (ok r, db)
      → handle_message env decoding settings call shutdown message db
        ≡ (after_commit settings shutdown, db)
  unfolding handle_message handle_envelope handle_wager after_process
  handled call shutdown message db envelope money r decoded accepted parsed answered =
      rw decoded (rw accepted (rw parsed (rw answered)))

  module _ (call : Call) (shutdown : Shutdown) where
    -- What a message comes to, by the answer of `Process`.
    wager_answers :
        (count : ℤ) (hash : String) (envelope : WagerEnvelope) (money : Money) (db : Db)
        → is_retry
            (handle_wager env decoding settings call shutdown count hash envelope (ok money) db).0
          ≡ false
        → (r : ProcessWagerResult) × (process env call (command_of hash envelope money) db ≡ (
          ok r,
          (handle_wager env decoding settings call shutdown count hash envelope (ok money) db).1,
        ))
    unfolding handle_wager after_process schedule_retry
    wager_answers count hash envelope money db h =
        elim (Result-cases (process env call (command_of hash envelope money) db).0) [
          | inl (r, e) ↦
              (r, ap (λ x. (x, (process env call (command_of hash envelope money) db).1)) e)
          | inr (x, e) ↦ ground (arith, e)
        ]

    wager_commits :
        (count : ℤ) (message : QueueMessage) (envelope : WagerEnvelope) (m : Result Money) (db : Db)
        → decoding.unmarshal message.body ≡ some envelope
        → decoding.valid_envelope envelope ≡ true
        → parse_money env.parse_iso (envelope.content).amount (envelope.content).currency ≡ m
        → is_retry
            (handle_wager env decoding settings call shutdown count
              (hash_of message)
              envelope
              m
              db).0
          ≡ false
        → IsCommitted call message db
            (handle_wager env decoding settings call shutdown count
              (hash_of message)
              envelope
              m
              db).1
    wager_commits count message envelope (err e) db decoded accepted parsed h =
        unfold handle_wager schedule_retry in cc
    wager_commits count message envelope (ok money) db decoded accepted parsed h =
        let (r, committed) = wager_answers count (hash_of message) envelope money db h in
        record {
          envelope = envelope;
          money = money;
          result = r;
          decoded = decoded;
          accepted = accepted;
          parsed = parsed;
          committed = committed;
        }

    envelope_commits :
        (count : ℤ) (message : QueueMessage) (o : Option WagerEnvelope) (db : Db)
        → decoding.unmarshal message.body ≡ o
        → is_retry
            (handle_envelope env decoding settings call shutdown count (hash_of message) o db).0
          ≡ false
        → IsCommitted call message db
            (handle_envelope env decoding settings call shutdown count (hash_of message) o db).1
    unfolding handle_envelope
    envelope_commits count message none db decoded h = unfold schedule_retry in cc
    envelope_commits count message (some envelope) db decoded h =
        elim (Bool-cases (decoding.valid_envelope envelope)) [
          | inl valid ↦
              rw valid
                (wager_commits count message envelope _ db decoded valid refl (rw valid at h))
          | inr invalid ↦ unfold schedule_retry in ground (arith, invalid)
        ]

    -- A message that is deleted, or left because the consumer stops behind the commit, had its wager
    -- processed without an error in tables that were committed.
    pub handle_message-IsCommitted :
        (message : QueueMessage) (db : Db)
        → is_retry (handle_message env decoding settings call shutdown message db).0 ≡ false
        → IsCommitted call message db
            (handle_message env decoding settings call shutdown message db).1
    unfolding handle_message
    handle_message-IsCommitted message db h =
        envelope_commits (approximate_receive_count (decoding.atoi message.receive_count)) message
          (decoding.unmarshal message.body) db refl h

    wager_kept :
        (count : ℤ) (hash : String) (envelope : WagerEnvelope) (m : Result Money) (db : Db)
        → is_retry (handle_wager env decoding settings call shutdown count hash envelope m db).0
          ≡ true
        → (handle_wager env decoding settings call shutdown count hash envelope m db).1 ≡ db
    unfolding handle_wager after_process after_commit
    wager_kept count hash envelope (err e) db h = refl
    wager_kept count hash envelope (ok money) db h =
        elim (Result-cases (process env call (command_of hash envelope money) db).0) [
          | inl (r, e) ↦ ground (arith, e)
          | inr (x, e) ↦ process-err env call db (command_of hash envelope money) x e
        ]

    envelope_kept :
        (count : ℤ) (hash : String) (o : Option WagerEnvelope) (db : Db)
        → is_retry (handle_envelope env decoding settings call shutdown count hash o db).0 ≡ true
        → (handle_envelope env decoding settings call shutdown count hash o db).1 ≡ db
    unfolding handle_envelope
    envelope_kept count hash none db h = refl
    envelope_kept count hash (some envelope) db h =
        elim (Bool-cases (decoding.valid_envelope envelope)) [
          | inl valid ↦ rw valid (wager_kept count hash envelope _ db (rw valid at h))
          | inr invalid ↦ rw invalid refl
        ]

    -- A message whose visibility the consumer changes, so that it is delivered again, since it is not
    -- well formed or `Process` failed, leaves the tables as they were.
    pub handle_message-retry :
        (message : QueueMessage) (db : Db)
        → is_retry (handle_message env decoding settings call shutdown message db).0 ≡ true
        → (handle_message env decoding settings call shutdown message db).1 ≡ db
    unfolding handle_message
    handle_message-retry message db h =
        envelope_kept (approximate_receive_count (decoding.atoi message.receive_count))
          (hash_of message) (decoding.unmarshal message.body) db h

  -- A message whose wager was committed, delivered again, however often it was received and whether or
  -- not it was deleted the first time: the tables stay as they are, and the message is deleted, unless
  -- the consumer is stopped before it can be.
  pub handle_message-redelivered :
      (call again : Call) (shutdown later : Shutdown) (message : QueueMessage) (count : String)
      (db : Db)
      → is_retry (handle_message env decoding settings call shutdown message db).0 ≡ false
      → let db' = (handle_message env decoding settings call shutdown message db).1 in
        handle_message env decoding settings again later
          (record message { receive_count = count })
          db'
        ≡ (after_commit settings later, db')
  handle_message-redelivered call again shutdown later message count db h =
      let c = handle_message-IsCommitted call shutdown message db h in
      let second =
        process-again env call again (command_of (hash_of message) c.envelope c.money) db c.result _
          c.committed in
      handled again later (record message { receive_count = count }) _ c.envelope c.money _
        c.decoded c.accepted c.parsed second
