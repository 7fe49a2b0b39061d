-- ===== src/Domain/Transaction/Steps.antt =====
-- What each transition of internal/domain/transaction.go leaves where it does not fail.
use jungle_gaming_backend_te.Prelude.{
  String, ◌≡◌, refl, Bool, true, false, not, ◌&&◌, ◌||◌, none, some, str_eq, arith, is_empty,
}
use jungle_gaming_backend_te.Prelude.Int.{ℤ, pos, ltb_ℤ, ◌≤ℤ◌, ◌<ℤ◌, ◌+ℤ◌}
use jungle_gaming_backend_te.Prelude.Word.{add64, add64_of_fits, max_int64}
use jungle_gaming_backend_te.Errors.{ok, is_ok}
use jungle_gaming_backend_te.Domain.Time.{Time, is_zero_time}
use jungle_gaming_backend_te.Domain.Money.{Money, validate, is_negative}
use jungle_gaming_backend_te.Domain.Transaction.{
  TransactionStatus, WagerTransaction, mark_pending_reference, resolve_reference, mark_processed,
  reject, fail, is_terminal, pending_reference, pending, processed, rejected, failed, status_eq,
  is_terminal_status,
}
use jungle_gaming_backend_te.Domain.Transaction.Rehydrate.{
  lacks_identity, bad_opening, bad_external, check_amount, bad_status, bad_result,
  bad_result_balance, bad_result_currency, bad_failure_code, bad_schedule, bad_reference, differ,
}
use jungle_gaming_backend_te.Domain.Transaction.Storable.{snapshot, IsStorable}

-- What a transition leaves, by name.
abbrev pub postponed : WagerTransaction → Time → Time → WagerTransaction
postponed t next now = record t {
  status = pending_reference;
  attempt_count = add64 t.attempt_count (pos 1);
  next_attempt_at = some next;
  updated_at = now;
}

abbrev pub resolved : WagerTransaction → String → Time → WagerTransaction
resolved t reference_id now = record t {
  reference_transaction_id = reference_id;
  status = pending;
  next_attempt_at = none;
  updated_at = now;
}

pub mark_pending_reference-made :
    (t u : WagerTransaction) (next now : Time)
    → mark_pending_reference t next now ≡ ok u
    → (is_terminal t ≡ false)
      × (is_empty t.reference_external_id ≡ false)
      × (is_zero_time now ≡ false)
      × (postponed t next now ≡ u)
unfolding mark_pending_reference
mark_pending_reference-made t u next now e = ground arith

pub resolve_reference-made :
    (t u : WagerTransaction) (reference_id : String) (now : Time)
    → resolve_reference t reference_id now ≡ ok u
    → (is_terminal t ≡ false)
      × (is_empty t.reference_external_id ≡ false)
      × (is_empty reference_id ≡ false)
      × (is_zero_time now ≡ false)
      × (resolved t reference_id now ≡ u)
unfolding resolve_reference is_terminal
resolve_reference-made t u reference_id now e = ground arith

abbrev pub settled : WagerTransaction → TransactionStatus → String → Money → Time → WagerTransaction
settled t status code balance now = record t {
  status = status;
  failure_code = code;
  result_balance = balance;
  has_result_balance = true;
  next_attempt_at = none;
  updated_at = now;
}

module _ (parse_iso : String → Bool) where
  pub mark_processed-made :
      (t u : WagerTransaction) (balance : Money) (now : Time)
      → mark_processed parse_iso t balance now ≡ ok u
      → (is_terminal t ≡ false)
        × (is_zero_time now ≡ false)
        × (is_negative balance ≡ false)
        × (is_ok (validate parse_iso balance) ≡ true)
        × (str_eq balance.currency t.money.currency ≡ true)
        × (settled t processed "" balance now ≡ u)
  unfolding mark_processed is_terminal
  mark_processed-made t u balance now e = ground arith

  pub reject-made :
      (t u : WagerTransaction) (code : String) (balance : Money) (now : Time)
      → reject parse_iso t code balance now ≡ ok u
      → (is_terminal t ≡ false)
        × (is_empty code ≡ false)
        × (is_zero_time now ≡ false)
        × (is_negative balance ≡ false)
        × (is_ok (validate parse_iso balance) ≡ true)
        × (settled t rejected code balance now ≡ u)
  unfolding reject
  reject-made t u code balance now e = ground arith

  pub fail-made :
      (t u : WagerTransaction) (code : String) (balance : Money) (now : Time)
      → fail parse_iso t code balance now ≡ ok u
      → (is_terminal t ≡ false)
        × (is_empty code ≡ false)
        × (is_zero_time now ≡ false)
        × (is_negative balance ≡ false)
        × (is_ok (validate parse_iso balance) ≡ true)
        × (str_eq balance.currency t.money.currency ≡ true)
        × (settled t failed code balance now ≡ u)
  unfolding fail
  fail-made t u code balance now e = ground arith

attempts_positive : (n : ℤ) → pos 0 ≤ℤ n → n <ℤ max_int64 → ltb_ℤ (add64 n (pos 1)) (pos 1) ≡ false
unfolding ◌+ℤ◌
attempts_positive n h k = rw (add64_of_fits n (pos 1) (ground arith)) (ground arith)

module _ (parse_iso : String → Bool) where
  pub postponed-IsStorable :
      (t : WagerTransaction) (next now : Time)
      → IsStorable parse_iso (snapshot t)
      → pos 0 ≤ℤ t.attempt_count
      → t.attempt_count <ℤ max_int64
      → is_terminal t ≡ false
      → is_empty t.reference_external_id ≡ false
      → is_zero_time now ≡ false
      → IsStorable parse_iso (snapshot (postponed t next now))
  postponed-IsStorable t next now s lo hi live ref timed = record {
    identified = unfold lacks_identity in ground (arith, s.identified);
    opening_fits = unfold bad_opening is_terminal in ground (arith, s.opening_fits);
    external_fits = unfold bad_external in s.external_fits;
    money_valid = s.money_valid;
    amount_fits = unfold check_amount in s.amount_fits;
    status_known = unfold bad_status in refl;
    result_fits = unfold bad_result is_terminal in ground (arith, s.result_fits);
    balance_valid = unfold bad_result_balance in s.balance_valid;
    currency_fits = unfold bad_result_currency in refl;
    code_fits = unfold bad_failure_code is_terminal in ground (arith, s.code_fits);
    schedule_fits = unfold bad_schedule in ground (arith, attempts_positive t.attempt_count lo hi);
    reference_fits = unfold bad_reference in s.reference_fits;
  }

  pub resolved-IsStorable :
      (t : WagerTransaction) (reference_id : String) (now : Time)
      → IsStorable parse_iso (snapshot t)
      → is_terminal t ≡ false
      → is_empty t.reference_external_id ≡ false
      → is_zero_time now ≡ false
      → IsStorable parse_iso (snapshot (resolved t reference_id now))
  resolved-IsStorable t reference_id now s live ref timed = record {
    identified = unfold lacks_identity in ground (arith, s.identified);
    opening_fits = unfold bad_opening is_terminal in ground (arith, s.opening_fits);
    external_fits = unfold bad_external in s.external_fits;
    money_valid = s.money_valid;
    amount_fits = unfold check_amount in s.amount_fits;
    status_known = unfold bad_status in refl;
    result_fits = unfold bad_result is_terminal in ground (arith, s.result_fits);
    balance_valid = unfold bad_result_balance in s.balance_valid;
    currency_fits = unfold bad_result_currency in refl;
    code_fits = unfold bad_failure_code is_terminal in ground (arith, s.code_fits);
    schedule_fits = unfold bad_schedule in refl;
    reference_fits = unfold bad_reference in ground arith;
  }

  pub settled-IsStorable :
      (t : WagerTransaction) (status : TransactionStatus) (code : String) (balance : Money)
      (now : Time)
      → IsStorable parse_iso (snapshot t)
      → is_terminal t ≡ false
      → is_terminal_status status ≡ true
      → differ (status_eq status rejected || status_eq status failed) (not (is_empty code)) ≡ false
      → ((status_eq status processed || status_eq status failed)
          && not (str_eq balance.currency t.money.currency))
        ≡ false
      → is_zero_time now ≡ false
      → is_negative balance ≡ false
      → is_ok (validate parse_iso balance) ≡ true
      → IsStorable parse_iso (snapshot (settled t status code balance now))
  settled-IsStorable t status code balance now s live done coded fits timed sign valid = record {
    identified = unfold lacks_identity in ground (arith, s.identified);
    opening_fits = unfold bad_opening is_terminal in ground (arith, s.opening_fits);
    external_fits = unfold bad_external in s.external_fits;
    money_valid = s.money_valid;
    amount_fits = unfold check_amount in s.amount_fits;
    status_known = unfold bad_status in ground (arith, done);
    result_fits = unfold bad_result in ground (arith, done);
    balance_valid = unfold bad_result_balance in rw (valid, sign);
    currency_fits = unfold bad_result_currency in fits;
    code_fits = unfold bad_failure_code in coded;
    schedule_fits = unfold bad_schedule in ground (arith, done);
    reference_fits = unfold bad_reference in s.reference_fits;
  }
