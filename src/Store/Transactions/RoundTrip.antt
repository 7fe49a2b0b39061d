-- ===== src/Store/Transactions/RoundTrip.antt =====
-- `InsertTransaction` and `scanTransaction` of internal/infrastructure/postgres/store.go together.
use jungle_gaming_backend_te.Prelude.{
  Option, ◌⊎◌, String, ◌≡◌, refl, ◌∙◌, ap, inl, inr, Bool, true, false, none, some, arith,
  Bool-cases, eq_iff,
}
use jungle_gaming_backend_te.Errors
use jungle_gaming_backend_te.Errors.{Result, ok, err, is_ok}
use jungle_gaming_backend_te.Domain.Money.{Money, no_money, new_money_from_minor, validate}
use jungle_gaming_backend_te.Domain.Transaction.{WagerTransaction}
use jungle_gaming_backend_te.Domain.Transaction.Rehydrate.{
  bad_result_balance, rehydrate_wager_transaction, lacks_identity, bad_opening, bad_external,
  is_set, check_amount, bad_status, bad_result, bad_result_currency, bad_failure_code, bad_schedule,
  bad_reference,
}
use mathlib.Core.Option
use jungle_gaming_backend_te.Domain.Time.{Time, is_zero_time}
use jungle_gaming_backend_te.Store.Tables.{TransactionRow}
use jungle_gaming_backend_te.Domain.Transaction.Storable.{snapshot, IsStorable, rehydrate-snapshot}
use jungle_gaming_backend_te.Store.Transactions.{
  or_empty, null_if_empty, transaction_row, scanned, scan_result, scan_transaction, result_minor,
  result_currency,
}

or_empty-null_if_empty : (s : String) → or_empty (null_if_empty s) ≡ s
or_empty-null_if_empty s = ground (arith, eq_iff s "")

scanned-transaction_row :
    (t : WagerTransaction)
    → scanned (transaction_row t) t.money t.result_balance t.has_result_balance ≡ snapshot t
unfolding scanned transaction_row
scanned-transaction_row t = simp (
  or_empty-null_if_empty t.reference_external_id,
  or_empty-null_if_empty t.reference_transaction_id,
  or_empty-null_if_empty t.failure_code,
)

module _ (parse_iso : String → Bool) where
  new_money_of_valid :
      (m : Money)
      → validate parse_iso m ≡ ok tt
      → new_money_from_minor parse_iso m.minor m.currency ≡ ok m
  unfolding validate new_money_from_minor
  new_money_of_valid m h = ground (arith, h)

  valid_of_ok : (m : Money) → is_ok (validate parse_iso m) ≡ true → validate parse_iso m ≡ ok tt
  valid_of_ok m h = ground arith

  scan_money :
      (m : Money)
      → is_ok (validate parse_iso m) ≡ true
      → scan_result parse_iso (some m.minor) (some m.currency) ≡ ok (m, true)
  unfolding scan_result
  scan_money m h = rw (new_money_of_valid m (valid_of_ok m h))

  no_result : scan_result parse_iso none none ≡ ok (no_money, false)
  unfolding scan_result
  no_result = refl

  -- The stored columns of the terminal balance.
  scan_result-row :
      (t : WagerTransaction)
      → bad_result_balance parse_iso (snapshot t) ≡ false
      → (t.has_result_balance ≡ false → t.result_balance ≡ no_money)
      → scan_result parse_iso (result_minor t) (result_currency t)
        ≡ ok (t.result_balance, t.has_result_balance)
  unfolding result_minor result_currency bad_result_balance
  scan_result-row t h absent = elim (Bool-cases t.has_result_balance) [
    | inl has ↦ rw has (scan_money t.result_balance (ground (arith, has)))
    | inr has_not ↦ rw (has_not, absent has_not) no_result
  ]

  money_of_row :
      (t : WagerTransaction)
      → IsStorable parse_iso (snapshot t)
      → new_money_from_minor parse_iso (transaction_row t).money_minor (transaction_row t).currency
        ≡ ok t.money
  unfolding transaction_row
  money_of_row t s = new_money_of_valid t.money s.money_valid

  result_of_row :
      (t : WagerTransaction)
      → IsStorable parse_iso (snapshot t)
      → (t.has_result_balance ≡ false → t.result_balance ≡ no_money)
      → scan_result parse_iso
          (transaction_row t).result_balance_minor
          (transaction_row t).result_currency
        ≡ ok (t.result_balance, t.has_result_balance)
  unfolding transaction_row
  result_of_row t s absent = scan_result-row t s.balance_valid absent

  -- The row that is written for a storable transaction is read back as that transaction; a
  -- transaction without a terminal balance must hold the zero value there, as a new one does.
  pub scan_transaction-transaction_row :
      (t : WagerTransaction)
      → IsStorable parse_iso (snapshot t)
      → (t.has_result_balance ≡ false → t.result_balance ≡ no_money)
      → scan_transaction parse_iso (transaction_row t) ≡ ok t
  unfolding scan_transaction
  scan_transaction-transaction_row t s absent =
      ap
        (λ m. Errors.◌>>=◌ m λ money.
          Errors.◌>>=◌
            (scan_result parse_iso (transaction_row t).result_balance_minor
              (transaction_row t).result_currency)
            λ result.
              rehydrate_wager_transaction parse_iso
                (scanned (transaction_row t) money result.0 result.1))
        (money_of_row t s)
      ∙ (ap
            (λ m. Errors.◌>>=◌ m λ result.
              rehydrate_wager_transaction parse_iso
                (scanned (transaction_row t) t.money result.0 result.1))
            (result_of_row t s absent)
          ∙ (ap (rehydrate_wager_transaction parse_iso) (scanned-transaction_row t)
              ∙ rehydrate-snapshot parse_iso t s))

-- What the database makes of the times of a row, which it keeps with less precision.
abbrev pub stored_row : (Time → Time) → TransactionRow → TransactionRow
stored_row round r = record r {
  next_attempt_at = Option.map round r.next_attempt_at;
  created_at = round r.created_at;
  updated_at = round r.updated_at;
}

abbrev pub with_times : (Time → Time) → WagerTransaction → WagerTransaction
with_times round t = record t {
  next_attempt_at = Option.map round t.next_attempt_at;
  created_at = round t.created_at;
  updated_at = round t.updated_at;
}

stored_row-transaction_row :
    (round : Time → Time) (t : WagerTransaction)
    → stored_row round (transaction_row t) ≡ transaction_row (with_times round t)
unfolding transaction_row result_minor result_currency
stored_row-transaction_row round t = refl

is_set-map : (round : Time → Time) (o : Option Time) → is_set (Option.map round o) ≡ is_set o
is_set-map round none = refl
is_set-map round (some time) = refl

with_times-bad_schedule :
    (round : Time → Time) (t : WagerTransaction)
    → bad_schedule (snapshot (with_times round t)) ≡ bad_schedule (snapshot t)
unfolding bad_schedule
with_times-bad_schedule round t = rw (is_set-map round t.next_attempt_at) refl

with_times-lacks_identity :
    (round : Time → Time) (t : WagerTransaction)
    → lacks_identity (snapshot t) ≡ false
    → is_zero_time (round t.created_at) ≡ false
    → is_zero_time (round t.updated_at) ≡ false
    → lacks_identity (snapshot (with_times round t)) ≡ false
unfolding lacks_identity
with_times-lacks_identity round t h created updated = ground (arith, h, created, updated)

with_times-IsStorable :
    (parse_iso : String → Bool) (round : Time → Time) (t : WagerTransaction)
    → IsStorable parse_iso (snapshot t)
    → is_zero_time (round t.created_at) ≡ false
    → is_zero_time (round t.updated_at) ≡ false
    → IsStorable parse_iso (snapshot (with_times round t))
unfolding bad_opening bad_external check_amount bad_status bad_result bad_result_balance
    bad_result_currency bad_failure_code bad_reference
with_times-IsStorable parse_iso round t s created updated = record {
  identified = with_times-lacks_identity round t s.identified created updated;
  opening_fits = s.opening_fits;
  external_fits = s.external_fits;
  money_valid = s.money_valid;
  amount_fits = s.amount_fits;
  status_known = s.status_known;
  result_fits = s.result_fits;
  balance_valid = s.balance_valid;
  currency_fits = s.currency_fits;
  code_fits = s.code_fits;
  schedule_fits = with_times-bad_schedule round t ∙ s.schedule_fits;
  reference_fits = s.reference_fits;
}

no_balance_absent :
    (t : WagerTransaction)
    → (t.has_result_balance ≡ true) ⊎ (t.result_balance ≡ no_money)
    → t.has_result_balance ≡ false
    → t.result_balance ≡ no_money
no_balance_absent t (inl has) has_not = absurd (ground arith)
no_balance_absent t (inr no_balance) has_not = no_balance

-- The row of a storable transaction, which holds the zero money where it has no terminal balance, with
-- its times as the database keeps them: where the creation and the update do not become Go's zero time,
-- it is scanned as the same transaction with these times.
pub scan_transaction-stored_row :
    (parse_iso : String → Bool) (round : Time → Time) (t : WagerTransaction)
    → IsStorable parse_iso (snapshot t)
    → (t.has_result_balance ≡ true) ⊎ (t.result_balance ≡ no_money)
    → is_zero_time (round t.created_at) ≡ false
    → is_zero_time (round t.updated_at) ≡ false
    → scan_transaction parse_iso (stored_row round (transaction_row t)) ≡ ok (with_times round t)
scan_transaction-stored_row parse_iso round t s balance created updated =
    ap (scan_transaction parse_iso) (stored_row-transaction_row round t)
    ∙ scan_transaction-transaction_row parse_iso (with_times round t)
        (with_times-IsStorable parse_iso round t s created updated) (no_balance_absent t balance)
