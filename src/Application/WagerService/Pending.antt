-- ===== src/Application/WagerService/Pending.antt =====
-- `WagerService.ResolvePendingReference` and `RecordPendingReferenceFailure`.
use jungle_gaming_backend_te.Prelude.{
  String, false, not, Option, none, some, is_empty, if◌then◌else◌,
}
use jungle_gaming_backend_te.Prelude.Int.{pos, ltb_ℤ}
use jungle_gaming_backend_te.Prelude.Word.{add64}
use jungle_gaming_backend_te.Errors.{Result}
use jungle_gaming_backend_te.Domain.Time.{add_duration}
use jungle_gaming_backend_te.Domain.Wallet.{Wallet}
use jungle_gaming_backend_te.Domain.Transaction.{
  WagerTransaction, pending_reference, processed, status_eq, mark_pending_reference,
  resolve_reference, fail,
}
use jungle_gaming_backend_te.Application.Contracts.{view_money}
use jungle_gaming_backend_te.Application.Events.{wager_transaction_failed, failed_data, new_event}
use jungle_gaming_backend_te.Application.Environment.{Environment, Call}
use jungle_gaming_backend_te.Application.WagerService.Backoff.{backoff}
use jungle_gaming_backend_te.Application.WagerService.Settle.{
  Origin, reject_wager, reference_failure, finalize,
}
use jungle_gaming_backend_te.Application.WagerService.Process.{reference_is_pending}
use jungle_gaming_backend_te.Store.Tables.{Db, Tx, pure, lift, ◌>>=◌, ◌>>◌, within_transaction}
use jungle_gaming_backend_te.Store.Wallets.{lock_wallet}
use jungle_gaming_backend_te.Store.Transactions.{
  find_by_external_id, lock_transaction, update_transaction,
}
use jungle_gaming_backend_te.Store.Outbox.{insert_outbox}

module _ (env : Environment) (call : Call) where
  abbrev pub pending_origin : WagerTransaction → Origin
  pending_origin t = record { correlation_id = t.id; causation_id = ""; insert = false }

  -- One more attempt, after the next delay.
  unfoldable pub try_again : WagerTransaction → Tx (Unit {0})
  try_again t = do
    waiting ← lift (
        mark_pending_reference t
          (add_duration call.now (backoff env.policy (add64 t.attempt_count (pos 1)))) call.now)
    update_transaction waiting

  unfoldable pub reject_pending : String → WagerTransaction → Wallet → Tx (Unit {0})
  reject_pending code t wallet = do
    rejected ← reject_wager env.parse_iso call (pending_origin t) code t wallet
    pure tt

  -- From `referenceFailure` on.
  unfoldable pub settle_pending :
      WagerTransaction → Wallet → Option WagerTransaction → Tx (Unit {0})
  unfolding reject_pending
  settle_pending t wallet reference = do
    code ← reference_failure t reference
    if not (is_empty code)
        then reject_pending code t wallet
        else do done ← finalize env.parse_iso call (pending_origin t) t wallet reference; pure tt

  unfoldable pub use_pending_reference :
      WagerTransaction → Wallet → WagerTransaction → Tx (Unit {0})
  unfolding reject_pending settle_pending
  use_pending_reference t wallet reference =
      if not (status_eq reference.status processed)
      then reject_pending "REFERENCE_NOT_PROCESSED" t wallet
      else settle_pending t wallet (some reference)

  -- A reference that is not there, or not settled yet.
  unfoldable pub wait_or_give_up : WagerTransaction → Wallet → Tx (Unit {0})
  unfolding try_again reject_pending
  wait_or_give_up t wallet =
      if not (ltb_ℤ t.attempt_count env.policy.max_attempts)
      then reject_pending "REFERENCE_NOT_FOUND" t wallet
      else try_again t

  unfoldable pub resolve_with : WagerTransaction → Wallet → Option WagerTransaction → Tx (Unit {0})
  unfolding wait_or_give_up use_pending_reference
  resolve_with t wallet none = wait_or_give_up t wallet
  resolve_with t wallet (some reference) =
      if reference_is_pending (some reference) then wait_or_give_up t wallet else (do
        resolved ← lift (resolve_reference t reference.id call.now)
        use_pending_reference resolved wallet reference)

  -- Behind the lock of the transaction: one that waits no longer is left alone.
  unfoldable pub resolve_locked : WagerTransaction → Tx (Unit {0})
  unfolding resolve_with
  resolve_locked t = if not (status_eq t.status pending_reference) then pure tt else do
    wallet ← lock_wallet env.parse_iso t.wallet_id
    reference ← find_by_external_id env.parse_iso t.provider_id t.reference_external_id
    resolve_with t wallet reference

  -- `ResolvePendingReference`, inside its transaction.
  unfoldable pub within_resolve : String → Tx (Unit {0})
  unfolding resolve_locked
  within_resolve transaction_id = do
    t ← lock_transaction env.parse_iso transaction_id
    resolve_locked t

  unfoldable pub resolve_pending_reference : String → Db → Result (Unit {0}) × Db
  unfolding within_resolve
  resolve_pending_reference transaction_id = within_transaction (within_resolve transaction_id)

  -- The end of a transaction whose attempts are used up.
  unfoldable pub give_up_pending : WagerTransaction → Wallet → Tx (Unit {0})
  give_up_pending t wallet = do
    failed ← lift (fail env.parse_iso t "PROCESSING_ATTEMPTS_EXHAUSTED" wallet.balance call.now)
    update_transaction failed
    insert_outbox (
        new_event call.event_id wager_transaction_failed failed.id
          (record { correlation_id = failed.id; causation_id = ""; occurred_at = call.now })
          (failed_data (record {
            transaction_id = failed.id;
            external_transaction_id = failed.external_id;
            provider_id = failed.provider_id;
            wallet_id = failed.wallet_id;
            kind = failed.kind;
            status = failed.status;
            failure_code = failed.failure_code;
            balance = view_money wallet.balance;
          })))

  -- `RecordPendingReferenceFailure`, inside its transaction.
  unfoldable pub within_record_failure : String → Tx (Unit {0})
  unfolding try_again give_up_pending
  within_record_failure transaction_id = do
    t ← lock_transaction env.parse_iso transaction_id
    if not (status_eq t.status pending_reference) then pure tt else do
      wallet ← lock_wallet env.parse_iso t.wallet_id
      if ltb_ℤ t.attempt_count env.policy.max_attempts
          then try_again t
          else give_up_pending t wallet

  unfoldable pub record_pending_reference_failure : String → Db → Result (Unit {0}) × Db
  unfolding within_record_failure
  record_pending_reference_failure transaction_id =
      within_transaction (within_record_failure transaction_id)
