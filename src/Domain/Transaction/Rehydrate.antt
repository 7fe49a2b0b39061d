-- ===== src/Domain/Transaction/Rehydrate.antt =====
-- internal/domain/transaction.go: `RehydrateWagerTransaction`, which checks what is read from storage.
-- Each test of the source is a function of its own, true where the state is refused.
use jungle_gaming_backend_te.Prelude.{
  is_empty, String, Bool, true, false, not, ◌&&◌, ◌||◌, Option, none, some, str_eq, if◌then◌else◌,
}
use jungle_gaming_backend_te.Prelude.Int.{ℤ, pos, ltb_ℤ}
use jungle_gaming_backend_te.Errors.{Result, ok, ◌>>◌, fail_if, is_ok, invalid_transaction}
use jungle_gaming_backend_te.Domain.Time.{Time, is_zero_time}
use jungle_gaming_backend_te.Domain.Money.{Money, validate, is_positive, is_negative}
use jungle_gaming_backend_te.Domain.Transaction.{
  TransactionKind, opening, TransactionStatus, pending, pending_reference, processed, rejected,
  failed, kind_eq, status_eq, WagerTransaction, is_external, is_terminal_status,
  validate_amount_for_kind,
}

pub record RehydratedTransaction : Type 0 where
  pub id : String
  pub provider_id : String
  pub external_id : String
  pub idempotency_key : String
  pub payload_hash : String
  pub wallet_id : String
  pub player_id : String
  pub round_id : String
  pub game_id : String
  pub kind : TransactionKind
  pub money : Money
  pub reference_external_id : String
  pub reference_transaction_id : String
  pub status : TransactionStatus
  pub failure_code : String
  pub result_balance : Money
  pub has_result_balance : Bool
  pub attempt_count : ℤ
  pub next_attempt_at : Option Time
  pub created_at : Time
  pub updated_at : Time

-- `p != q` on Booleans.
abbrev pub differ : Bool → Bool → Bool
differ p q = if p then not q else q

abbrev pub is_set : Option Time → Bool
is_set none = false
is_set (some _) = true

unfoldable pub lacks_identity : RehydratedTransaction → Bool
lacks_identity s =
    is_empty s.id
    || (is_empty s.wallet_id
        || (is_empty s.player_id
            || (is_zero_time s.created_at
                || (is_zero_time s.updated_at
                    || (not (is_external s.kind) && not (kind_eq s.kind opening))))))

unfoldable pub bad_opening : RehydratedTransaction → Bool
bad_opening s =
    kind_eq s.kind opening
    && (not (is_empty s.provider_id)
        || (not (is_empty s.external_id)
            || (not (status_eq s.status processed) || not (is_positive s.money))))

unfoldable pub bad_external : RehydratedTransaction → Bool
bad_external s =
    is_external s.kind
    && (is_empty s.provider_id
        || (is_empty s.external_id || (is_empty s.idempotency_key || is_empty s.payload_hash)))

unfoldable pub bad_status : RehydratedTransaction → Bool
bad_status s =
    not (status_eq s.status pending)
    && (not (status_eq s.status pending_reference)
        && (not (status_eq s.status processed)
            && (not (status_eq s.status rejected) && not (status_eq s.status failed))))

unfoldable pub bad_result : RehydratedTransaction → Bool
bad_result s = differ (is_terminal_status s.status) s.has_result_balance

unfoldable pub bad_result_currency : RehydratedTransaction → Bool
bad_result_currency s =
    (status_eq s.status processed || status_eq s.status failed)
    && not (str_eq s.result_balance.currency s.money.currency)

unfoldable pub bad_failure_code : RehydratedTransaction → Bool
bad_failure_code s =
    differ (status_eq s.status rejected || status_eq s.status failed)
      (not (is_empty s.failure_code))

unfoldable pub bad_schedule : RehydratedTransaction → Bool
bad_schedule s =
    if status_eq s.status pending_reference
    then is_empty s.reference_external_id
      || (not (is_set s.next_attempt_at) || ltb_ℤ s.attempt_count (pos 1))
    else is_set s.next_attempt_at

unfoldable pub bad_reference : RehydratedTransaction → Bool
bad_reference s = not (is_empty s.reference_transaction_id) && is_empty s.reference_external_id

-- The transaction that is built from the fields.
unfoldable pub restore : RehydratedTransaction → WagerTransaction
restore s = record {
  id = s.id;
  provider_id = s.provider_id;
  external_id = s.external_id;
  idempotency_key = s.idempotency_key;
  payload_hash = s.payload_hash;
  wallet_id = s.wallet_id;
  player_id = s.player_id;
  round_id = s.round_id;
  game_id = s.game_id;
  kind = s.kind;
  money = s.money;
  reference_external_id = s.reference_external_id;
  reference_transaction_id = s.reference_transaction_id;
  status = s.status;
  failure_code = s.failure_code;
  result_balance = s.result_balance;
  has_result_balance = s.has_result_balance;
  attempt_count = s.attempt_count;
  next_attempt_at = s.next_attempt_at;
  created_at = s.created_at;
  updated_at = s.updated_at;
}

module _ (parse_iso : String → Bool) where
  -- `if s.Kind.External() { if err := validateAmountForKind(…) }`
  unfoldable pub check_amount : RehydratedTransaction → Result (Unit {0})
  check_amount s =
      if is_external s.kind then validate_amount_for_kind parse_iso s.kind s.money else ok tt

  unfoldable pub bad_result_balance : RehydratedTransaction → Bool
  bad_result_balance s =
      s.has_result_balance
      && (not (is_ok (validate parse_iso s.result_balance)) || is_negative s.result_balance)

  unfoldable pub rehydrate_wager_transaction : RehydratedTransaction → Result WagerTransaction
  rehydrate_wager_transaction s = do
    fail_if (lacks_identity s) invalid_transaction
    fail_if (bad_opening s) invalid_transaction
    fail_if (bad_external s) invalid_transaction
    validate parse_iso s.money
    check_amount s
    fail_if (bad_status s) invalid_transaction
    fail_if (bad_result s) invalid_transaction
    fail_if (bad_result_balance s) invalid_transaction
    fail_if (bad_result_currency s) invalid_transaction
    fail_if (bad_failure_code s) invalid_transaction
    fail_if (bad_schedule s) invalid_transaction
    fail_if (bad_reference s) invalid_transaction
    ok (restore s)
