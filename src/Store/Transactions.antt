-- ===== src/Store/Transactions.antt =====
-- internal/infrastructure/postgres/store.go: the statements on `wager_transactions`.
pub mod RoundTrip
use jungle_gaming_backend_te.Prelude.{
  ℕ, ◌+◌, String, Bool, true, false, not, ◌&&◌, ◌||◌, Option, none, some, List, [], ◌∷◌, str_eq,
  ◌==◌, is_empty, if◌then◌else◌,
}
use jungle_gaming_backend_te.Prelude.Int.{ℤ, pos}
use jungle_gaming_backend_te.Errors
use jungle_gaming_backend_te.Errors.{Result, ok, err, not_found, conflict}
use jungle_gaming_backend_te.Domain.Time.{Time}
use jungle_gaming_backend_te.Domain.Money.{Money, no_money, new_money_from_minor}
use jungle_gaming_backend_te.Domain.Wallet.{Wallet}
use jungle_gaming_backend_te.Domain.Transaction.{
  WagerTransaction, TransactionKind, opening, processed, status_eq, is_reversal,
}
use jungle_gaming_backend_te.Domain.Transaction.Rehydrate.{
  RehydratedTransaction, rehydrate_wager_transaction,
}
use jungle_gaming_backend_te.Store.Tables.{
  Db, TransactionRow, Origin, internal, external, Tx, lift, pure, raise, ◌>>=◌, ◌>>◌, unless_taken,
}

-- `COALESCE(column, '')`
abbrev pub or_empty : Option String → String
or_empty none = ""
or_empty (some s) = s

-- `NULLIF(value, '')`
abbrev pub null_if_empty : String → Option String
null_if_empty s = if is_empty s then none else some s

-- Equality of two columns, which fails where one is null.
abbrev pub same_column : Option String → Option String → Bool
same_column (some a) (some b) = str_eq a b
same_column _ _ = false

-- `resultValues`
unfoldable pub result_minor : WagerTransaction → Option ℤ
result_minor t = if t.has_result_balance then some t.result_balance.minor else none

unfoldable pub result_currency : WagerTransaction → Option String
result_currency t = if t.has_result_balance then some t.result_balance.currency else none

-- The row that `InsertTransaction` writes.
unfoldable pub transaction_row : WagerTransaction → TransactionRow
transaction_row t = record {
  id = t.id;
  origin = external;
  provider_id = some t.provider_id;
  external_transaction_id = some t.external_id;
  idempotency_key = some t.idempotency_key;
  payload_hash = some t.payload_hash;
  wallet_id = t.wallet_id;
  player_id = t.player_id;
  round_id = some t.round_id;
  game_id = some t.game_id;
  kind = t.kind;
  money_minor = t.money.minor;
  currency = t.money.currency;
  reference_external_transaction_id = null_if_empty t.reference_external_id;
  reference_transaction_id = null_if_empty t.reference_transaction_id;
  status = t.status;
  failure_code = null_if_empty t.failure_code;
  result_balance_minor = result_minor t;
  result_currency = result_currency t;
  attempt_count = t.attempt_count;
  next_attempt_at = t.next_attempt_at;
  created_at = t.created_at;
  updated_at = t.updated_at;
}

-- The row that `InsertOpening` writes.
unfoldable pub opening_row : String → Wallet → Money → Time → TransactionRow
opening_row transaction_id wallet amount now = record {
  id = transaction_id;
  origin = internal;
  provider_id = none;
  external_transaction_id = none;
  idempotency_key = none;
  payload_hash = none;
  wallet_id = wallet.id;
  player_id = wallet.player_id;
  round_id = none;
  game_id = none;
  kind = opening;
  money_minor = amount.minor;
  currency = amount.currency;
  reference_external_transaction_id = none;
  reference_transaction_id = none;
  status = processed;
  failure_code = none;
  result_balance_minor = some amount.minor;
  result_currency = some amount.currency;
  attempt_count = pos 0;
  next_attempt_at = none;
  created_at = now;
  updated_at = now;
}

-- A refund or a rollback that was processed; only one may name a reference.
unfoldable pub is_successful_reversal : TransactionRow → Bool
is_successful_reversal r = is_reversal r.kind && status_eq r.status processed

abbrev pub is_external_row : TransactionRow → Bool
is_external_row r = elim (r.origin) [ internal ↦ false | external ↦ true ]

-- Whether two rows share a key: the primary key, the idempotency key or the external identity of a
-- provider, the opening of a wallet, the reference of a successful reversal.
unfoldable pub same_key : TransactionRow → TransactionRow → Bool
same_key a b =
    str_eq a.id b.id
    || ((is_external_row a
          && (is_external_row b
              && (same_column a.provider_id b.provider_id
                  && (same_column a.idempotency_key b.idempotency_key
                      || same_column a.external_transaction_id b.external_transaction_id))))
        || ((not (is_external_row a) && (not (is_external_row b) && str_eq a.wallet_id b.wallet_id))
            || (is_successful_reversal a
                && (is_successful_reversal b
                    && same_column a.reference_transaction_id b.reference_transaction_id))))

unfoldable pub transaction_taken : TransactionRow → List TransactionRow → Bool
transaction_taken new [] = false
transaction_taken new (r ∷ rows) = same_key r new || transaction_taken new rows

unfoldable pub insert_row : TransactionRow → Tx (Unit {0})
insert_row new db =
    unless_taken (transaction_taken new db.transactions) conflict
      (record db { transactions = new ∷ db.transactions }) db

unfoldable pub insert_transaction : WagerTransaction → Tx (Unit {0})
unfolding insert_row
insert_transaction t = insert_row (transaction_row t)

unfoldable pub insert_opening : String → Wallet → Money → Time → Tx (Unit {0})
unfolding insert_row
insert_opening transaction_id wallet amount now =
    insert_row (opening_row transaction_id wallet amount now)

-- The row of `UPDATE wager_transactions SET … WHERE id = $1`.
unfoldable pub updated_row : WagerTransaction → TransactionRow → TransactionRow
updated_row t r = record r {
  reference_transaction_id = null_if_empty t.reference_transaction_id;
  status = t.status;
  failure_code = null_if_empty t.failure_code;
  result_balance_minor = result_minor t;
  result_currency = result_currency t;
  attempt_count = t.attempt_count;
  next_attempt_at = t.next_attempt_at;
  updated_at = t.updated_at;
}

unfoldable pub update_rows : WagerTransaction → List TransactionRow → List TransactionRow
update_rows t [] = []
update_rows t (r ∷ rows) = (if str_eq r.id t.id then updated_row t r else r) ∷ update_rows t rows

unfoldable pub rows_affected : WagerTransaction → List TransactionRow → ℕ
rows_affected t [] = 0
rows_affected t (r ∷ rows) = (if str_eq r.id t.id then 1 else 0) + rows_affected t rows

-- Whether the update would make a second successful reversal of one reference.
unfoldable pub reversal_taken : WagerTransaction → List TransactionRow → Bool
reversal_taken t [] = false
reversal_taken t (r ∷ rows) =
    (not (str_eq r.id t.id)
      && (is_reversal t.kind
          && (status_eq t.status processed
              && (is_successful_reversal r
                  && same_column r.reference_transaction_id
                      (null_if_empty t.reference_transaction_id)))))
    || reversal_taken t rows

unfoldable pub update_transaction : WagerTransaction → Tx (Unit {0})
update_transaction t db =
    if not (rows_affected t db.transactions == 1)
    then err not_found
    else unless_taken (reversal_taken t db.transactions) conflict
        (record db { transactions = update_rows t db.transactions }) db

unfoldable pub find_row : (TransactionRow → Bool) → List TransactionRow → Option TransactionRow
find_row test [] = none
find_row test (r ∷ rows) = if test r then some r else find_row test rows

-- `SuccessfulReversalExists`
unfoldable pub successful_reversal_exists : String → Tx Bool
successful_reversal_exists reference_id db = ok (
  elim (find_row
      (λ r. same_column r.reference_transaction_id (some reference_id) && is_successful_reversal r)
      db.transactions) [ none ↦ false | some _ ↦ true ],
  db,
)

-- The fields that `scanTransaction` reads from a row.
unfoldable pub scanned : TransactionRow → Money → Money → Bool → RehydratedTransaction
scanned r money result_balance has_result_balance = record {
  id = r.id;
  provider_id = or_empty r.provider_id;
  external_id = or_empty r.external_transaction_id;
  idempotency_key = or_empty r.idempotency_key;
  payload_hash = or_empty r.payload_hash;
  wallet_id = r.wallet_id;
  player_id = r.player_id;
  round_id = or_empty r.round_id;
  game_id = or_empty r.game_id;
  kind = r.kind;
  money = money;
  reference_external_id = or_empty r.reference_external_transaction_id;
  reference_transaction_id = or_empty r.reference_transaction_id;
  status = r.status;
  failure_code = or_empty r.failure_code;
  result_balance = result_balance;
  has_result_balance = has_result_balance;
  attempt_count = r.attempt_count;
  next_attempt_at = r.next_attempt_at;
  created_at = r.created_at;
  updated_at = r.updated_at;
}

module _ (parse_iso : String → Bool) where
  -- The terminal balance, where both of its columns are there.
  unfoldable pub scan_result : Option ℤ → Option String → Result (Money × Bool)
  scan_result (some minor) (some currency) =
      Errors.◌>>=◌ (new_money_from_minor parse_iso minor currency) λ balance. ok (balance, true)
  scan_result _ _ = ok (no_money, false)

  unfoldable pub scan_transaction : TransactionRow → Result WagerTransaction
  scan_transaction r =
      Errors.◌>>=◌ (new_money_from_minor parse_iso r.money_minor r.currency) λ money.
        Errors.◌>>=◌ (scan_result r.result_balance_minor r.result_currency)
          λ result. rehydrate_wager_transaction parse_iso (scanned r money result.0 result.1)

  -- A row that is not there is `nil`, and no error.
  unfoldable pub scan_optional : Option TransactionRow → Result (Option WagerTransaction)
  scan_optional none = ok none
  scan_optional (some r) = Errors.◌>>=◌ (scan_transaction r) λ t. ok (some t)

  unfoldable pub scan_present : Option TransactionRow → Result WagerTransaction
  scan_present none = err not_found
  scan_present (some r) = scan_transaction r

  unfoldable pub find_by_idempotency : String → String → Tx (Option WagerTransaction)
  find_by_idempotency provider_id key db =
      lift
        (scan_optional (
          find_row
            (λ r.
              same_column r.provider_id (some provider_id)
              && same_column r.idempotency_key (some key))
            db.transactions))
        db

  unfoldable pub find_by_external_id : String → String → Tx (Option WagerTransaction)
  find_by_external_id provider_id external_id db =
      lift
        (scan_optional (
          find_row
            (λ r.
              same_column r.provider_id (some provider_id)
              && same_column r.external_transaction_id (some external_id))
            db.transactions))
        db

  unfoldable pub lock_transaction : String → Tx WagerTransaction
  lock_transaction id db = lift (scan_present (find_row (λ r. str_eq r.id id) db.transactions)) db

  -- `Store.GetTransaction` and `Store.GetProviderTransaction`
  unfoldable pub get_transaction : String → Db → Result WagerTransaction
  get_transaction id db = scan_present (find_row (λ r. str_eq r.id id) db.transactions)

  unfoldable pub get_provider_transaction : String → String → Db → Result WagerTransaction
  get_provider_transaction provider_id external_id db = scan_present (
      find_row
        (λ r.
          same_column r.provider_id (some provider_id)
          && same_column r.external_transaction_id (some external_id))
        db.transactions)
