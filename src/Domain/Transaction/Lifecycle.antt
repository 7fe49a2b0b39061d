-- ===== src/Domain/Transaction/Lifecycle.antt =====
-- The life of a transaction (internal/domain/transaction.go), as a step relation: a step is a transition
-- that did not fail.
use jungle_gaming_backend_te.Prelude.{subst, String, ◌≡◌, refl, Bool, false, arith}
use jungle_gaming_backend_te.Prelude.Int.{pos, ◌≤ℤ◌, ◌<ℤ◌}
use jungle_gaming_backend_te.Prelude.Word.{max_int64}
use jungle_gaming_backend_te.Errors.{check-eq-ok, ok}
use jungle_gaming_backend_te.Domain.Time.{Time}
use jungle_gaming_backend_te.Domain.Money.{Money, validate}
use jungle_gaming_backend_te.Domain.Transaction.{
  WagerTransaction, TransactionKind, mark_pending_reference, resolve_reference, mark_processed,
  reject, fail, is_terminal, processed, rejected, failed, NewExternalTransaction, lacks_metadata,
  created, new_wager_transaction, validate_amount_for_kind, is_unsupported,
}
use jungle_gaming_backend_te.Domain.Transaction.Storable.{snapshot, IsStorable}
use jungle_gaming_backend_te.Domain.Transaction.Rehydrate.{
  lacks_identity, bad_opening, bad_external, check_amount, bad_status, bad_result,
  bad_result_balance, bad_result_currency, bad_failure_code, bad_schedule, bad_reference,
}
use jungle_gaming_backend_te.Domain.Transaction.Steps.{
  mark_pending_reference-made, resolve_reference-made, mark_processed-made, reject-made, fail-made,
  postponed-IsStorable, resolved-IsStorable, settled-IsStorable,
}

module _ (parse_iso : String → Bool) where
  pub data Transition (t u : WagerTransaction) : Type 0 where
    pend : (next now : Time) → mark_pending_reference t next now ≡ ok u → Transition t u
    resolve : (id : String) (now : Time) → resolve_reference t id now ≡ ok u → Transition t u
    process :
        (balance : Money) (now : Time)
        → mark_processed parse_iso t balance now ≡ ok u
        → Transition t u
    refuse :
        (code : String) (balance : Money) (now : Time)
        → reject parse_iso t code balance now ≡ ok u
        → Transition t u
    give_up :
        (code : String) (balance : Money) (now : Time)
        → fail parse_iso t code balance now ≡ ok u
        → Transition t u

  -- No transition leaves a terminal status.
  pub Transition-live : (t u : WagerTransaction) → Transition t u → is_terminal t ≡ false
  Transition-live t u (pend next now e) = (mark_pending_reference-made t u next now e).0
  Transition-live t u (resolve id now e) = (resolve_reference-made t u id now e).0
  Transition-live t u (process b now e) = (mark_processed-made parse_iso t u b now e).0
  Transition-live t u (refuse c b now e) = (reject-made parse_iso t u c b now e).0
  Transition-live t u (give_up c b now e) = (fail-made parse_iso t u c b now e).0

  -- A transition of a transaction that can be stored, whose attempts are not negative and below the
  -- largest int64, leaves a transaction that can be stored.
  pub Transition-IsStorable :
      (t u : WagerTransaction)
      → Transition t u
      → IsStorable parse_iso (snapshot t)
      → pos 0 ≤ℤ t.attempt_count
      → t.attempt_count <ℤ max_int64
      → IsStorable parse_iso (snapshot u)
  Transition-IsStorable t u (pend next now e) s lo hi =
      let (live, ref, timed, made) = mark_pending_reference-made t u next now e in
      subst (λ x. IsStorable parse_iso (snapshot x)) made
        (postponed-IsStorable parse_iso t next now s lo hi live ref timed)
  Transition-IsStorable t u (resolve id now e) s lo hi =
      let (live, ref, named, timed, made) = resolve_reference-made t u id now e in
      subst (λ x. IsStorable parse_iso (snapshot x)) made
        (resolved-IsStorable parse_iso t id now s live ref timed)
  Transition-IsStorable t u (process b now e) s lo hi =
      let (live, timed, sign, valid, fits, made) = mark_processed-made parse_iso t u b now e in
      subst (λ x. IsStorable parse_iso (snapshot x)) made
        (settled-IsStorable parse_iso t processed "" b now s live refl refl (rw fits) timed sign
          valid)
  Transition-IsStorable t u (refuse c b now e) s lo hi =
      let (live, coded, timed, sign, valid, made) = reject-made parse_iso t u c b now e in
      subst (λ x. IsStorable parse_iso (snapshot x)) made
        (settled-IsStorable parse_iso t rejected c b now s live refl (rw coded) refl timed sign
          valid)
  Transition-IsStorable t u (give_up c b now e) s lo hi =
      let (live, coded, timed, sign, valid, fits, made) = fail-made parse_iso t u c b now e in
      subst (λ x. IsStorable parse_iso (snapshot x)) made
        (settled-IsStorable parse_iso t failed c b now s live refl (rw coded) (rw fits) timed sign
          valid)

  pub new_wager_transaction-made :
      (input : NewExternalTransaction) (t : WagerTransaction)
      → new_wager_transaction parse_iso input ≡ ok t
      → (lacks_metadata input ≡ false)
        × (is_unsupported input.kind ≡ false)
        × (validate_amount_for_kind parse_iso input.kind input.money ≡ ok tt)
        × (created input ≡ t)
  unfolding new_wager_transaction
  new_wager_transaction-made input t e = ground arith

  valid_of_amount :
      (kind : TransactionKind) (m : Money)
      → validate_amount_for_kind parse_iso kind m ≡ ok tt
      → validate parse_iso m ≡ ok tt
  unfolding validate_amount_for_kind
  valid_of_amount kind m h = (check-eq-ok _ _ h).0

  pub created-IsStorable :
      (input : NewExternalTransaction)
      → lacks_metadata input ≡ false
      → is_unsupported input.kind ≡ false
      → validate_amount_for_kind parse_iso input.kind input.money ≡ ok tt
      → IsStorable parse_iso (snapshot (created input))
  unfolding created
  created-IsStorable input full supported amount = record {
    identified = unfold lacks_identity lacks_metadata is_unsupported in ground (arith, full);
    opening_fits = unfold bad_opening is_unsupported in ground (arith, supported);
    external_fits = unfold bad_external lacks_metadata in ground (arith, full);
    money_valid = valid_of_amount input.kind input.money amount;
    amount_fits = unfold check_amount is_unsupported in ground (arith, supported, amount);
    status_known = unfold bad_status in refl;
    result_fits = unfold bad_result in refl;
    balance_valid = unfold bad_result_balance in refl;
    currency_fits = unfold bad_result_currency in refl;
    code_fits = unfold bad_failure_code in refl;
    schedule_fits = unfold bad_schedule in refl;
    reference_fits = unfold bad_reference in refl;
  }
