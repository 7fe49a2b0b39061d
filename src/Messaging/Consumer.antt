-- ===== src/Messaging/Consumer.antt =====
-- internal/infrastructure/messaging/consumer.go: what becomes of one message of the queue. Logs, spans,
-- metrics and the heartbeat that extends the visibility meanwhile are left out; the queue's own answers
-- to the deletion and to the change of visibility are only logged by the code.
pub mod Delays
pub mod Delivery
use jungle_gaming_backend_te.Prelude.{
  ℕ, zero, suc, ◌+◌, ◌-◌, ◌*◌, ◌/◌, ◌%◌, ◌^◌, String, Bool, true, false, not, ◌&&◌, ◌||◌, Option,
  none, some, Bytes, ltb, if◌then◌else◌,
}
use jungle_gaming_backend_te.Prelude.Int.{ℤ, pos, negsuc, pos_part, ltb_ℤ}
use jungle_gaming_backend_te.Errors.{
  Error, Result, ok, err, inbox_payload_conflict, idempotency_payload_conflict,
  external_transaction_conflict, invalid_transaction, invalid_money,
}
use jungle_gaming_backend_te.Domain.Time.{Time, Duration}
use jungle_gaming_backend_te.Domain.Money.{Money}
use jungle_gaming_backend_te.Domain.Money.Text.{parse_money}
use jungle_gaming_backend_te.Domain.Transaction.{TransactionKind}
use jungle_gaming_backend_te.Application.Contracts.{ProcessWagerCommand, ProcessWagerResult}
use jungle_gaming_backend_te.Application.Environment.{Environment, Call}
use jungle_gaming_backend_te.Application.WagerService.Process.{process}
use jungle_gaming_backend_te.Store.Tables.{Db}

-- `consumerName`
abbrev pub consumer_name : String
consumer_name = "wager-transaction-consumer-v1"

-- The `data` of an envelope.
pub record WagerData : Type 0 where
  pub provider_id : String
  pub external_transaction_id : String
  pub idempotency_key : String
  pub player_id : String
  pub wallet_id : String
  pub round_id : String
  pub game_id : String
  pub kind : TransactionKind
  pub amount : Bytes
  pub currency : String
  pub reference_external_transaction_id : String

pub record WagerEnvelope : Type 0 where
  pub message_id : String
  pub type : String
  pub occurred_at : Time
  pub content : WagerData

-- What the consumer reads of a message: its body, and the attribute `ApproximateReceiveCount`.
pub record QueueMessage : Type 0 where
  pub body : String
  pub receive_count : String

-- What the consumer takes from packages outside the repository.
pub record Decoding : Type 0 where
  -- `json.Unmarshal` into an envelope
  pub unmarshal : String → Option WagerEnvelope
  -- `Validator.Struct` on the envelope
  pub valid_envelope : WagerEnvelope → Bool
  -- the SHA-256 of a body, in hexadecimal
  pub sha256_hex : String → String
  -- `strconv.Atoi`
  pub atoi : String → Option ℤ

-- The settings of the consumer.
pub record ConsumerSettings : Type 0 where
  pub retry_base : Duration
  pub retry_max : Duration
  pub max_receives : ℤ
  pub post_commit_delay : Duration

-- When the context is found to be cancelled.
pub record Shutdown : Type 0 where
  pub after_process : Bool
  pub after_delay : Bool

-- What is done with the message: it is deleted, its visibility is changed, or it is left.
pub data Outcome : Type 0 where
  deleted left_alone : Outcome
  visible_in : ℤ → Outcome

abbrev pub a_second : Duration
a_second = 1000000000

-- `approximateReceiveCount`
unfoldable pub approximate_receive_count : Option ℤ → ℤ
approximate_receive_count none = pos 1
approximate_receive_count (some count) = if ltb_ℤ count (pos 1) then pos 1 else count

-- The loop of `retryDelay`, with the rounds that are left, and the test behind it.
unfoldable pub retry_rounds : ℕ → Duration → Duration → Duration
retry_rounds zero maximum delay = if ltb maximum delay then maximum else delay
retry_rounds (suc rounds) maximum delay =
    let doubled = retry_rounds rounds maximum (delay * 2) in
    if ltb delay maximum
    then (if ltb (maximum / 2) delay then maximum else doubled)
    else if ltb maximum delay
    then maximum
    else delay

-- `retryDelay`
unfoldable pub retry_delay : Duration → Duration → ℤ → Duration
unfolding retry_rounds
retry_delay base maximum attempt =
    let attempts = (if ltb_ℤ attempt (pos 1) then 1 else pos_part attempt) in
    retry_rounds (attempts - 1) maximum base

-- The conversion `int32(n)`.
unfoldable pub to_int32 : ℕ → ℤ
to_int32 n = let w = n % 2 ^ 32 in if ltb w (2 ^ 31) then pos w else negsuc (2 ^ 32 - w - 1)

-- `scheduleRetry`: the seconds until the message is visible again.
unfoldable pub schedule_retry : ConsumerSettings → ℤ → Bool → Outcome
unfolding retry_delay
schedule_retry settings receive_count permanent =
    let delay =
      (if permanent || not (ltb_ℤ receive_count settings.max_receives)
        then 0
        else retry_delay settings.retry_base settings.retry_max receive_count) in
    visible_in (to_int32 ((delay + a_second - 1) / a_second))

-- The errors that another attempt cannot mend.
unfoldable pub is_permanent : Error → Bool
is_permanent inbox_payload_conflict = true
is_permanent idempotency_payload_conflict = true
is_permanent external_transaction_conflict = true
is_permanent invalid_transaction = true
is_permanent invalid_money = true
is_permanent _ = false

-- The command of an envelope.
unfoldable pub command_of : String → WagerEnvelope → Money → ProcessWagerCommand
command_of hash envelope money = record {
  provider_id = (envelope.content).provider_id;
  external_transaction_id = (envelope.content).external_transaction_id;
  idempotency_key = (envelope.content).idempotency_key;
  player_id = (envelope.content).player_id;
  wallet_id = (envelope.content).wallet_id;
  round_id = (envelope.content).round_id;
  game_id = (envelope.content).game_id;
  kind = (envelope.content).kind;
  money = money;
  reference_external_transaction_id = (envelope.content).reference_external_transaction_id;
  correlation_id = envelope.message_id;
  inbox = some (record {
    consumer_name = consumer_name;
    message_id = envelope.message_id;
    payload_hash = hash;
  });
}

-- Behind the delay after the commit.
unfoldable pub after_commit : ConsumerSettings → Shutdown → Outcome
after_commit settings shutdown =
    if ltb 0 settings.post_commit_delay && shutdown.after_delay then left_alone else deleted

-- What follows on the answer of `Process`.
unfoldable pub after_process : ConsumerSettings → Shutdown → ℤ → Result ProcessWagerResult → Outcome
unfolding after_commit schedule_retry is_permanent
after_process settings shutdown receive_count (ok result) = after_commit settings shutdown
after_process settings shutdown receive_count (err e) =
    if shutdown.after_process
    then visible_in (pos 0)
    else schedule_retry settings receive_count (is_permanent e)

module _ (env : Environment) (decoding : Decoding) (settings : ConsumerSettings) where
  -- A message that is well formed.
  unfoldable pub handle_wager :
      Call → Shutdown → ℤ → String → WagerEnvelope → Result Money → Db → Outcome × Db
  unfolding after_process
  handle_wager call shutdown receive_count hash envelope (err e) db =
      (schedule_retry settings receive_count true, db)
  handle_wager call shutdown receive_count hash envelope (ok money) db =
      let (answer, db') = process env call (command_of hash envelope money) db in
      (after_process settings shutdown receive_count answer, db')

  unfoldable pub handle_envelope :
      Call → Shutdown → ℤ → String → Option WagerEnvelope → Db → Outcome × Db
  unfolding handle_wager
  handle_envelope call shutdown receive_count hash none db =
      (schedule_retry settings receive_count true, db)
  handle_envelope call shutdown receive_count hash (some envelope) db =
      if not (decoding.valid_envelope envelope)
      then (schedule_retry settings receive_count true, db)
      else handle_wager call shutdown receive_count hash envelope
          (parse_money env.parse_iso (envelope.content).amount (envelope.content).currency) db

  -- `handleMessage`
  unfoldable pub handle_message : Call → Shutdown → QueueMessage → Db → Outcome × Db
  unfolding handle_envelope
  handle_message call shutdown message db =
      handle_envelope call shutdown
        (approximate_receive_count (decoding.atoi message.receive_count))
        (decoding.sha256_hex message.body) (decoding.unmarshal message.body) db
