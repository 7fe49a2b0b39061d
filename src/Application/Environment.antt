-- ===== src/Application/Environment.antt =====
-- What the use cases take from code outside the repository, and the settings that they are given.
use jungle_gaming_backend_te.Prelude.{String, Bool, Bytes}
use jungle_gaming_backend_te.Prelude.Int.{ℤ}
use jungle_gaming_backend_te.Domain.Time.{Time, Duration}
use jungle_gaming_backend_te.Domain.Transaction.{TransactionKind}
use jungle_gaming_backend_te.Application.Contracts.{CreateWalletCommand, ProcessWagerCommand}

-- `ReferencePolicy`
pub record ReferencePolicy : Type 0 where
  pub max_attempts : ℤ
  pub base_backoff : Duration
  pub max_backoff : Duration

-- The map that `wagerPayloadHash` marshals.
pub record PayloadFields : Type 0 where
  pub amount : Bytes
  pub currency : String
  pub external_transaction_id : String
  pub game_id : String
  pub kind : TransactionKind
  pub player_id : String
  pub provider_id : String
  pub reference_external_transaction_id : String
  pub round_id : String
  pub wallet_id : String

pub record Environment : Type 0 where
  -- `ParseISO` of golang.org/x/text/currency
  pub parse_iso : String → Bool
  -- `Validator.Struct`, of go-playground/validator, on the two commands
  pub valid_wager : ProcessWagerCommand → Bool
  pub valid_wallet : CreateWalletCommand → Bool
  -- the SHA-256, in hexadecimal, of the JSON object with these fields
  pub digest : PayloadFields → String
  pub policy : ReferencePolicy

-- What one call of a use case gets from the clock and from `uuid.NewString`, site by site.
pub record Call : Type 0 where
  pub now : Time
  pub correlation_id : String
  pub wallet_id : String
  pub transaction_id : String
  pub entry_id : String
  pub event_id : String
  pub changed_event_id : String
