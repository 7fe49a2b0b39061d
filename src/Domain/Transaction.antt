-- ===== src/Domain/Transaction.antt =====
-- internal/domain/transaction.go: a wager transaction, and its life from pending to a terminal
-- status. A transition returns the new transaction, or an error and no change.
pub mod Rehydrate
pub mod Storable
pub mod Steps
pub mod Lifecycle
pub mod History
use jungle_gaming_backend_te.Prelude.{
  is_empty, String, Bool, true, false, not, ◌&&◌, ◌||◌, Option, none, some, str_eq,
}
use jungle_gaming_backend_te.Prelude.Int.{ℤ, pos}
use jungle_gaming_backend_te.Prelude.Word.{add64}
use jungle_gaming_backend_te.Errors.{
  Result, ok, ◌>>=◌, ◌>>◌, fail_if, is_ok, invalid_transaction, invalid_transition,
}
use jungle_gaming_backend_te.Domain.Time.{Time, is_zero_time, after}
use jungle_gaming_backend_te.Domain.Money.{
  Money, no_money, validate, is_zero, is_positive, is_negative,
}

-- The constants of the string type, and any other text.
pub data TransactionKind : Type 0 where
  opening bet win loss refund rollback : TransactionKind
  unknown : String → TransactionKind

pub data TransactionStatus : Type 0 where
  pending pending_reference processed rejected failed : TransactionStatus
  unknown_status : String → TransactionStatus

abbrev pub kind_eq : TransactionKind → TransactionKind → Bool
kind_eq opening opening = true
kind_eq bet bet = true
kind_eq win win = true
kind_eq loss loss = true
kind_eq refund refund = true
kind_eq rollback rollback = true
kind_eq (unknown s) (unknown t) = str_eq s t
kind_eq _ _ = false

abbrev pub status_eq : TransactionStatus → TransactionStatus → Bool
status_eq pending pending = true
status_eq pending_reference pending_reference = true
status_eq processed processed = true
status_eq rejected rejected = true
status_eq failed failed = true
status_eq (unknown_status s) (unknown_status t) = str_eq s t
status_eq _ _ = false

pub record WagerTransaction : Type 0 where
  pub id : String
  pub provider_id : String
  pub external_id : String
  pub idempotency_key : String
  pub payload_hash : String
  pub wallet_id : String
  pub player_id : String
  pub round_id : String
  pub game_id : String
  pub kind : TransactionKind
  pub money : Money
  pub reference_external_id : String
  pub reference_transaction_id : String
  pub status : TransactionStatus
  pub failure_code : String
  pub result_balance : Money
  pub has_result_balance : Bool
  pub attempt_count : ℤ
  pub next_attempt_at : Option Time
  pub created_at : Time
  pub updated_at : Time

pub record NewExternalTransaction : Type 0 where
  pub id : String
  pub provider_id : String
  pub external_id : String
  pub idempotency_key : String
  pub payload_hash : String
  pub wallet_id : String
  pub player_id : String
  pub round_id : String
  pub game_id : String
  pub kind : TransactionKind
  pub money : Money
  pub reference_external_id : String
  pub now : Time

-- `External`
unfoldable pub is_external : TransactionKind → Bool
is_external k =
    kind_eq k bet || (kind_eq k win || (kind_eq k loss || (kind_eq k refund || kind_eq k rollback)))

-- A kind that takes the money of another transaction back.
abbrev pub is_reversal : TransactionKind → Bool
is_reversal k = kind_eq k refund || kind_eq k rollback

abbrev pub is_terminal_status : TransactionStatus → Bool
is_terminal_status s = status_eq s processed || (status_eq s rejected || status_eq s failed)

unfoldable pub is_terminal : WagerTransaction → Bool
is_terminal t = is_terminal_status t.status

unfoldable pub mark_pending_reference : WagerTransaction → Time → Time → Result WagerTransaction
mark_pending_reference t next now = do
  fail_if
      (is_terminal t
        || ((not (status_eq t.status pending) && not (status_eq t.status pending_reference))
            || (is_empty t.reference_external_id || (is_zero_time now || not (after next now)))))
      invalid_transition
  ok (record t {
    status = pending_reference;
    attempt_count = add64 t.attempt_count (pos 1);
    next_attempt_at = some next;
    updated_at = now;
  })

unfoldable pub resolve_reference : WagerTransaction → String → Time → Result WagerTransaction
resolve_reference t reference_id now = do
  fail_if
      ((not (status_eq t.status pending) && not (status_eq t.status pending_reference))
        || (is_empty t.reference_external_id || (is_empty reference_id || is_zero_time now)))
      invalid_transition
  ok (record t {
    reference_transaction_id = reference_id;
    status = pending;
    next_attempt_at = none;
    updated_at = now;
  })

-- The test for required metadata in `NewWagerTransaction`.
unfoldable pub lacks_metadata : NewExternalTransaction → Bool
lacks_metadata input =
    is_empty input.id
    || (is_empty input.provider_id
        || (is_empty input.external_id
            || (is_empty input.idempotency_key
                || (is_empty input.payload_hash
                    || (is_empty input.wallet_id
                        || (is_empty input.player_id
                            || (is_empty input.round_id
                                || (is_empty input.game_id || is_zero_time input.now))))))))

unfoldable pub is_unsupported : TransactionKind → Bool
is_unsupported k = kind_eq k opening || not (is_external k)

unfoldable pub misses_reference : NewExternalTransaction → Bool
misses_reference input = is_reversal input.kind && is_empty input.reference_external_id

unfoldable pub refuses_reference : NewExternalTransaction → Bool
refuses_reference input =
    not (is_empty input.reference_external_id)
    && (not (kind_eq input.kind win)
        && (not (kind_eq input.kind refund) && not (kind_eq input.kind rollback)))

-- The transaction that `NewWagerTransaction` returns.
unfoldable pub created : NewExternalTransaction → WagerTransaction
created input = record {
  id = input.id;
  provider_id = input.provider_id;
  external_id = input.external_id;
  idempotency_key = input.idempotency_key;
  payload_hash = input.payload_hash;
  wallet_id = input.wallet_id;
  player_id = input.player_id;
  round_id = input.round_id;
  game_id = input.game_id;
  kind = input.kind;
  money = input.money;
  reference_external_id = input.reference_external_id;
  reference_transaction_id = "";
  status = pending;
  failure_code = "";
  result_balance = no_money;
  has_result_balance = false;
  attempt_count = pos 0;
  next_attempt_at = none;
  created_at = input.now;
  updated_at = input.now;
}

module _ (parse_iso : String → Bool) where
  unfoldable pub validate_amount_for_kind : TransactionKind → Money → Result (Unit {0})
  validate_amount_for_kind kind amount = do
    validate parse_iso amount
    fail_if (kind_eq kind loss && not (is_zero amount)) invalid_transaction
    fail_if (not (kind_eq kind loss) && not (is_positive amount)) invalid_transaction

  unfoldable pub new_wager_transaction : NewExternalTransaction → Result WagerTransaction
  new_wager_transaction input = do
    fail_if (lacks_metadata input) invalid_transaction
    fail_if (is_unsupported input.kind) invalid_transaction
    validate_amount_for_kind input.kind input.money
    fail_if (misses_reference input) invalid_transaction
    fail_if (refuses_reference input) invalid_transaction
    ok (created input)

  unfoldable pub mark_processed : WagerTransaction → Money → Time → Result WagerTransaction
  mark_processed t balance now = do
    fail_if
        (not (status_eq t.status pending)
          || (is_zero_time now
              || (is_negative balance
                  || (not (is_ok (validate parse_iso balance))
                      || not (str_eq balance.currency t.money.currency)))))
        invalid_transition
    ok (record t {
      status = processed;
      failure_code = "";
      result_balance = balance;
      has_result_balance = true;
      next_attempt_at = none;
      updated_at = now;
    })

  unfoldable pub reject : WagerTransaction → String → Money → Time → Result WagerTransaction
  reject t code balance now = do
    fail_if
        (is_terminal t
          || (is_empty code
              || (is_zero_time now
                  || (is_negative balance || not (is_ok (validate parse_iso balance))))))
        invalid_transition
    ok (record t {
      status = rejected;
      failure_code = code;
      result_balance = balance;
      has_result_balance = true;
      next_attempt_at = none;
      updated_at = now;
    })

  unfoldable pub fail : WagerTransaction → String → Money → Time → Result WagerTransaction
  fail t code balance now = do
    fail_if
        (is_terminal t
          || (is_empty code
              || (is_zero_time now
                  || (is_negative balance
                      || (not (is_ok (validate parse_iso balance))
                          || not (str_eq balance.currency t.money.currency))))))
        invalid_transition
    ok (record t {
      status = failed;
      failure_code = code;
      result_balance = balance;
      has_result_balance = true;
      next_attempt_at = none;
      updated_at = now;
    })
