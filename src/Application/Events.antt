-- ===== src/Application/Events.antt =====
-- internal/application/events.go: the events that a use case writes to the outbox. `json.Marshal` is
-- not applied: the payload is the envelope itself, with its data.
use jungle_gaming_backend_te.Prelude.{String, Option}
use jungle_gaming_backend_te.Prelude.Int.{ℤ, pos}
use jungle_gaming_backend_te.Domain.Time.{Time}
use jungle_gaming_backend_te.Domain.LedgerEntry.{LedgerDirection}
use jungle_gaming_backend_te.Domain.Transaction.{TransactionKind, TransactionStatus}
use jungle_gaming_backend_te.Application.Contracts.{MoneyView}

pub data IntegrationEventType : Type 0 where
  wager_transaction_processed wager_transaction_rejected : IntegrationEventType
  wager_transaction_failed wager_transaction_pending_reference : IntegrationEventType
  wallet_balance_changed : IntegrationEventType

pub record EventMetadata : Type 0 where
  pub correlation_id : String
  pub causation_id : String
  pub occurred_at : Time

pub record WagerTransactionProcessedData : Type 0 where
  pub transaction_id : String
  pub external_transaction_id : String
  pub provider_id : String
  pub wallet_id : String
  pub player_id : String
  pub round_id : String
  pub game_id : String
  pub kind : TransactionKind
  pub money : MoneyView
  pub status : TransactionStatus
  pub balance : MoneyView
  pub reference_transaction_id : String
  pub reference_external_id : String

-- The data of a rejection; a failure carries the same fields.
pub record WagerTransactionRejectedData : Type 0 where
  pub transaction_id : String
  pub external_transaction_id : String
  pub provider_id : String
  pub wallet_id : String
  pub kind : TransactionKind
  pub status : TransactionStatus
  pub failure_code : String
  pub balance : MoneyView

pub record WagerTransactionFailedData : Type 0 where
  pub transaction_id : String
  pub external_transaction_id : String
  pub provider_id : String
  pub wallet_id : String
  pub kind : TransactionKind
  pub status : TransactionStatus
  pub failure_code : String
  pub balance : MoneyView

pub record WagerTransactionPendingReferenceData : Type 0 where
  pub transaction_id : String
  pub external_transaction_id : String
  pub provider_id : String
  pub wallet_id : String
  pub reference_external_transaction_id : String
  pub status : TransactionStatus
  pub next_attempt_at : Option Time

pub record WalletBalanceChangedData : Type 0 where
  pub wallet_id : String
  pub transaction_id : String
  pub direction : LedgerDirection
  pub money : MoneyView
  pub balance_before : MoneyView
  pub balance_after : MoneyView
  pub wallet_version : ℤ

-- The type parameter of the envelope, at the types that the program gives it.
pub data EventData : Type 0 where
  processed_data : WagerTransactionProcessedData → EventData
  rejected_data : WagerTransactionRejectedData → EventData
  failed_data : WagerTransactionFailedData → EventData
  pending_reference_data : WagerTransactionPendingReferenceData → EventData
  balance_changed_data : WalletBalanceChangedData → EventData

pub record EventEnvelope : Type 0 where
  pub event_id : String
  pub event_type : IntegrationEventType
  pub aggregate_id : String
  pub correlation_id : String
  pub causation_id : String
  pub occurred_at : Time
  pub version : ℤ
  pub content : EventData

pub record OutboxEvent : Type 0 where
  pub event_id : String
  pub aggregate_id : String
  pub event_type : IntegrationEventType
  pub payload : EventEnvelope
  pub occurred_at : Time

-- `newEvent`; what `uuid.NewString` returns is the first argument.
unfoldable pub new_event :
    String → IntegrationEventType → String → EventMetadata → EventData → OutboxEvent
new_event event_id event_type aggregate_id metadata content = record {
  event_id = event_id;
  aggregate_id = aggregate_id;
  event_type = event_type;
  payload = record {
    event_id = event_id;
    event_type = event_type;
    aggregate_id = aggregate_id;
    correlation_id = metadata.correlation_id;
    causation_id = metadata.causation_id;
    occurred_at = metadata.occurred_at;
    version = pos 1;
    content = content;
  };
  occurred_at = metadata.occurred_at;
}
