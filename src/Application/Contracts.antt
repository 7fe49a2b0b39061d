-- ===== src/Application/Contracts.antt =====
-- internal/application/contracts.go and ports.go: what the use cases take and return. A view's
-- amount is the text that `Money.Amount` prints; an absent text is the empty one, as in the source.
use jungle_gaming_backend_te.Prelude.{String, Bool, Option, none, some, List, Bytes, if◌then◌else◌}
use jungle_gaming_backend_te.Prelude.Int.{ℤ}
use jungle_gaming_backend_te.Domain.Time.{Time}
use jungle_gaming_backend_te.Domain.Money.{Money}
use jungle_gaming_backend_te.Domain.Money.Text.{amount}
use jungle_gaming_backend_te.Domain.Wallet.{Wallet}
use jungle_gaming_backend_te.Domain.LedgerEntry.{LedgerDirection}
use jungle_gaming_backend_te.Domain.Transaction.{
  TransactionKind, TransactionStatus, WagerTransaction,
}

pub record MoneyView : Type 0 where
  pub amount : Bytes
  pub currency : String

unfoldable pub view_money : Money → MoneyView
view_money m = record { amount = amount m; currency = m.currency }

pub record CreateWalletCommand : Type 0 where
  pub player_id : String
  pub initial_balance : Money
  pub correlation_id : String

pub record WalletView : Type 0 where
  pub id : String
  pub player_id : String
  pub balance : MoneyView
  pub version : ℤ
  pub created_at : Time
  pub updated_at : Time

unfoldable pub wallet_view : Wallet → WalletView
wallet_view w = record {
  id = w.id;
  player_id = w.player_id;
  balance = view_money w.balance;
  version = w.version;
  created_at = w.created_at;
  updated_at = w.updated_at;
}

pub record InboxInput : Type 0 where
  pub consumer_name : String
  pub message_id : String
  pub payload_hash : String

pub record ProcessWagerCommand : Type 0 where
  pub provider_id : String
  pub external_transaction_id : String
  pub idempotency_key : String
  pub player_id : String
  pub wallet_id : String
  pub round_id : String
  pub game_id : String
  pub kind : TransactionKind
  pub money : Money
  pub reference_external_transaction_id : String
  pub correlation_id : String
  pub inbox : Option InboxInput

pub record ProcessWagerResult : Type 0 where
  pub transaction_id : String
  pub status : TransactionStatus
  pub balance : MoneyView
  pub failure_code : String
  pub idempotent_replay : Bool

pub record TransactionView : Type 0 where
  pub id : String
  pub provider_id : String
  pub external_transaction_id : String
  pub wallet_id : String
  pub player_id : String
  pub round_id : String
  pub game_id : String
  pub kind : TransactionKind
  pub money : MoneyView
  pub reference_external_transaction_id : String
  pub reference_transaction_id : String
  pub status : TransactionStatus
  pub failure_code : String
  pub result_balance : Option MoneyView
  pub attempt_count : ℤ
  pub next_attempt_at : Option Time
  pub created_at : Time
  pub updated_at : Time

unfoldable pub transaction_view : WagerTransaction → TransactionView
transaction_view t = record {
  id = t.id;
  provider_id = t.provider_id;
  external_transaction_id = t.external_id;
  wallet_id = t.wallet_id;
  player_id = t.player_id;
  round_id = t.round_id;
  game_id = t.game_id;
  kind = t.kind;
  money = view_money t.money;
  reference_external_transaction_id = t.reference_external_id;
  reference_transaction_id = t.reference_transaction_id;
  status = t.status;
  failure_code = t.failure_code;
  result_balance = if t.has_result_balance then some (view_money t.result_balance) else none;
  attempt_count = t.attempt_count;
  next_attempt_at = t.next_attempt_at;
  created_at = t.created_at;
  updated_at = t.updated_at;
}

pub record LedgerEntryView : Type 0 where
  pub id : String
  pub transaction_id : String
  pub direction : LedgerDirection
  pub money : MoneyView
  pub balance_before : MoneyView
  pub balance_after : MoneyView
  pub created_at : Time

pub record LedgerPage : Type 0 where
  pub items : List LedgerEntryView
  pub next_cursor : String

pub record ReconciliationView : Type 0 where
  pub wallet_id : String
  pub stored_balance : MoneyView
  pub calculated_balance : MoneyView
  pub difference : MoneyView
  pub consistent : Bool
  pub checked_entries : ℤ
