-- ===== src/Transport/Http.antt =====
-- internal/transport/httpapi: the handlers of wagers, from the decoded request to the status
-- and the body of the response; of a problem, its status and its code.
use jungle_gaming_backend_te.Prelude.{
  ℕ, String, Bool, not, ◌||◌, Option, none, some, Bytes, str_eq, is_empty, if◌then◌else◌,
}
use jungle_gaming_backend_te.Prelude.Int.{ℤ}
use jungle_gaming_backend_te.Errors.{
  Error, Result, ok, err, not_found, idempotency_payload_conflict, external_transaction_conflict,
  conflict, invalid_cursor, invalid_money, invalid_wallet, invalid_transaction,
}
use jungle_gaming_backend_te.Domain.Money.{Money}
use jungle_gaming_backend_te.Domain.Money.Text.{parse_money}
use jungle_gaming_backend_te.Domain.Transaction.{
  TransactionKind, TransactionStatus, pending, pending_reference, rejected, failed, status_eq,
}
use jungle_gaming_backend_te.Application.Contracts.{
  ProcessWagerCommand, ProcessWagerResult, TransactionView,
}
use jungle_gaming_backend_te.Application.Environment.{Environment, Call}
use jungle_gaming_backend_te.Application.WagerService.Process.{process}
use jungle_gaming_backend_te.Application.QueryService.{transaction, provider_transaction}
use jungle_gaming_backend_te.Store.Tables.{Db}
use jungle_gaming_backend_te.Transport.Auth.{Principal}

pub data Response (A : Type 0) : Type 0 where
  problem : ℕ → String → Response A
  reply : ℕ → A → Response A

-- `WagerRequest`, with its `MoneyRequest`
pub record WagerRequest : Type 0 where
  pub external_transaction_id : String
  pub game_id : String
  pub kind : TransactionKind
  pub amount : Bytes
  pub currency : String
  pub player_id : String
  pub provider_id : String
  pub reference_external_transaction_id : String
  pub round_id : String
  pub wallet_id : String

pub record CreateWalletRequest : Type 0 where
  pub amount : Bytes
  pub currency : String
  pub player_id : String

-- The headers that the handlers read; an absent one is empty.
pub record Headers : Type 0 where
  pub authorization : String
  pub idempotency_key : String
  pub x_correlation_id : String
  pub x_request_id : String

-- What the handlers take from packages outside the repository.
pub record Decoders : Type 0 where
  -- `decodeJSON`, on encoding/json
  pub wager_json : String → Option WagerRequest
  pub wallet_json : String → Option CreateWalletRequest
  -- `Validator.Struct` and `Validator.Var`, of go-playground/validator
  pub valid_wager_request : WagerRequest → Bool
  pub valid_wallet_request : CreateWalletRequest → Bool
  pub valid_uuid : String → Bool
  pub valid_provider_id : String → Bool
  pub valid_external_id : String → Bool
  -- `strconv.Atoi`
  pub atoi : String → Option ℤ
  -- `strings.TrimSpace`
  pub trim_space : String → String

-- `writeError`
unfoldable pub write_error : {A : Type 0} → Error → Response A
write_error not_found = problem 404 "NOT_FOUND"
write_error idempotency_payload_conflict = problem 409 "IDEMPOTENCY_PAYLOAD_CONFLICT"
write_error external_transaction_conflict = problem 409 "EXTERNAL_TRANSACTION_CONFLICT"
write_error conflict = problem 409 "CONFLICT"
write_error invalid_cursor = problem 400 "INVALID_CURSOR"
write_error invalid_money = problem 400 "INVALID_REQUEST"
write_error invalid_wallet = problem 400 "INVALID_REQUEST"
write_error invalid_transaction = problem 400 "INVALID_REQUEST"
write_error _ = problem 503 "TEMPORARY_UNAVAILABLE"

unfoldable pub respond : {A : Type 0} → ℕ → Result A → Response A
respond status (ok a) = reply status a
respond status (err e) = write_error e

-- `requestContext`: a request without an identifier gets a new one.
unfoldable pub request_context : String → Headers → Headers
request_context fresh headers =
    if is_empty headers.x_request_id then record headers { x_request_id = fresh } else headers

-- `correlationID`
unfoldable pub correlation_id : Headers → String
correlation_id headers =
    if is_empty headers.x_correlation_id then headers.x_request_id else headers.x_correlation_id

-- The status of a wager that was processed.
unfoldable pub wager_status : TransactionStatus → ℕ
wager_status status =
    if status_eq status failed
    then 500
    else if status_eq status rejected
    then 422
    else if status_eq status pending_reference || status_eq status pending
    then 202
    else 200

unfoldable pub wager_response : Result ProcessWagerResult → Response ProcessWagerResult
wager_response (ok result) = reply (wager_status result.status) result
wager_response (err e) = write_error e

-- The command of a request.
unfoldable pub request_command : Headers → String → WagerRequest → Money → ProcessWagerCommand
request_command headers key request money = record {
  provider_id = request.provider_id;
  external_transaction_id = request.external_transaction_id;
  idempotency_key = key;
  player_id = request.player_id;
  wallet_id = request.wallet_id;
  round_id = request.round_id;
  game_id = request.game_id;
  kind = request.kind;
  money = money;
  reference_external_transaction_id = request.reference_external_transaction_id;
  correlation_id = correlation_id headers;
  inbox = none;
}

-- Whether the authenticated provider is another one than `provider_id`, or none.
unfoldable pub is_foreign : Principal → String → Bool
is_foreign p provider_id = is_empty p.provider_id || not (str_eq p.provider_id provider_id)

module _ (env : Environment) (decoders : Decoders) where
  module _ (call : Call) (headers : Headers) where
    unfoldable pub process_money :
        WagerRequest → Result Money → Db → Response ProcessWagerResult × Db
    process_money request (err e) db = (write_error e, db)
    process_money request (ok money) db =
        let (answer, db') =
          process env call
            (request_command headers (decoders.trim_space headers.idempotency_key) request money)
            db in
        (wager_response answer, db')

    unfoldable pub process_request :
        Principal → WagerRequest → Db → Response ProcessWagerResult × Db
    unfolding process_money
    process_request p request db =
        if not (decoders.valid_wager_request request)
        then (problem 400 "INVALID_REQUEST", db)
        else if is_foreign p request.provider_id
        then (problem 403 "PROVIDER_FORBIDDEN", db)
        else if is_empty (decoders.trim_space headers.idempotency_key)
        then (problem 400 "IDEMPOTENCY_KEY_REQUIRED", db)
        else process_money request (parse_money env.parse_iso request.amount request.currency) db

    unfoldable pub process_body :
        Principal → Option WagerRequest → Db → Response ProcessWagerResult × Db
    unfolding process_request
    process_body p none db = (problem 400 "INVALID_JSON", db)
    process_body p (some request) db = process_request p request db

    -- `processWager`
    unfoldable pub process_wager : Principal → String → Db → Response ProcessWagerResult × Db
    unfolding process_body
    process_wager p body db = process_body p (decoders.wager_json body) db

  -- `getTransaction`
  unfoldable pub get_transaction : String → Db → Response TransactionView
  get_transaction id db =
      if not (decoders.valid_uuid id)
      then problem 400 "INVALID_ID"
      else respond 200 (transaction env.parse_iso id db)

  -- `getProviderTransaction`
  unfoldable pub get_provider_transaction :
      Principal → String → String → Db → Response TransactionView
  get_provider_transaction p provider_id external_id db =
      if not (decoders.valid_provider_id provider_id)
        || not (decoders.valid_external_id external_id)
      then problem 400 "INVALID_ID"
      else if is_foreign p provider_id
      then problem 403 "PROVIDER_FORBIDDEN"
      else respond 200 (provider_transaction env.parse_iso provider_id external_id db)
