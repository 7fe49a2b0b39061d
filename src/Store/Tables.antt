-- ===== src/Store/Tables.antt =====
-- The tables (internal/infrastructure/postgres/migrations), and the actions of a transaction on them.
use jungle_gaming_backend_te.Prelude.{ℕ, String, Bool, true, false, Option, List}
use jungle_gaming_backend_te.Prelude.Int.{ℤ}
use jungle_gaming_backend_te.Errors.{Error, Result, ok, err}
use jungle_gaming_backend_te.Domain.Time.{Time}
use jungle_gaming_backend_te.Domain.LedgerEntry.{LedgerDirection}
use jungle_gaming_backend_te.Domain.Transaction.{TransactionKind, TransactionStatus}
use jungle_gaming_backend_te.Application.Events.{IntegrationEventType, EventEnvelope}

-- `wallets`
pub record WalletRow : Type 0 where
  pub id : String
  pub player_id : String
  pub balance_minor : ℤ
  pub currency : String
  pub version : ℤ
  pub created_at : Time
  pub updated_at : Time

pub data Origin : Type 0 where
  internal external : Origin

-- `wager_transactions`; a column that may be null is an option.
pub record TransactionRow : Type 0 where
  pub id : String
  pub origin : Origin
  pub provider_id : Option String
  pub external_transaction_id : Option String
  pub idempotency_key : Option String
  pub payload_hash : Option String
  pub wallet_id : String
  pub player_id : String
  pub round_id : Option String
  pub game_id : Option String
  pub kind : TransactionKind
  pub money_minor : ℤ
  pub currency : String
  pub reference_external_transaction_id : Option String
  pub reference_transaction_id : Option String
  pub status : TransactionStatus
  pub failure_code : Option String
  pub result_balance_minor : Option ℤ
  pub result_currency : Option String
  pub attempt_count : ℤ
  pub next_attempt_at : Option Time
  pub created_at : Time
  pub updated_at : Time

-- `wallet_ledger_entries`
pub record LedgerRow : Type 0 where
  pub id : String
  pub wallet_id : String
  pub transaction_id : String
  pub direction : LedgerDirection
  pub money_minor : ℤ
  pub currency : String
  pub balance_before_minor : ℤ
  pub balance_after_minor : ℤ
  pub created_at : Time

-- `inbox_messages`
pub record InboxRow : Type 0 where
  pub consumer_name : String
  pub message_id : String
  pub payload_hash : String
  pub received_at : Time
  pub completed_at : Option Time

-- `outbox_events`
pub record OutboxRow : Type 0 where
  pub event_id : String
  pub aggregate_id : String
  pub event_type : IntegrationEventType
  pub payload : EventEnvelope
  pub occurred_at : Time
  pub attempts : ℤ
  pub next_attempt_at : Time
  pub locked_by : Option String
  pub locked_until : Option Time
  pub published_at : Option Time
  pub last_error : Option String

pub record Db : Type 0 where
  pub wallets : List WalletRow
  pub transactions : List TransactionRow
  pub ledger : List LedgerRow
  pub inbox : List InboxRow
  pub outbox : List OutboxRow

-- What PostgreSQL itself brings to the queries.
pub record Postgres : Type 0 where
  -- the order of the type uuid
  pub uuid_leb : String → String → Bool
  -- the rows that another open transaction has locked, which `SKIP LOCKED` passes over
  pub held : String → Bool
  -- `left(text, n)`
  pub left : String → ℕ → String

abbrev pub Tx : Type 0 → Type 0
Tx A = Db → Result (A × Db)

module _ {A : Type 0} where
  abbrev pub pure : A → Tx A
  pure a db = ok (a, db)

  abbrev pub raise : Error → Tx A
  raise e db = err e

  -- A step that does not touch the tables.
  abbrev pub lift : Result A → Tx A
  lift (ok a) db = ok (a, db)
  lift (err e) db = err e

infixl 5 ◌>>=◌ ◌>>◌
abbrev pub ◌>>=◌ : {A B : Type 0} → Tx A → (A → Tx B) → Tx B
◌>>=◌ m f db = elim (m db) [ ok (a, db') ↦ f a db' | err e ↦ err e ]

abbrev pub ◌>>◌ : {B : Type 0} → Tx (Unit {0}) → Tx B → Tx B
m >> k = m >>= λ _. k

-- `WithinTransaction`: the tables of the commit, or those from before.
-- A commit succeeds: the error of one that fails is left out.
unfoldable pub within_transaction : {A : Type 0} → Tx A → Db → Result A × Db
within_transaction m db = elim (m db) [ ok (a, db') ↦ (ok a, db') | err e ↦ (err e, db) ]

-- A write that is refused because a key is taken, or else is made.
abbrev pub unless_taken : Bool → Error → Db → Tx (Unit {0})
unless_taken true e changed db = err e
unless_taken false e changed db = ok (tt, changed)
