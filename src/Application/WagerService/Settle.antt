-- ===== src/Application/WagerService/Settle.antt =====
-- internal/application/wager_service.go: The ends of a wager: `finalize`, `reject`, `pendingEvent`, and the test `referenceFailure`.
use jungle_gaming_backend_te.Prelude.{
  String, Bool, false, not, ◌&&◌, ◌||◌, Option, none, some, str_eq, if◌then◌else◌,
}
use jungle_gaming_backend_te.Errors
use jungle_gaming_backend_te.Errors.{
  Error, Result, ok, err, insufficient_funds, reference_not_processed, invalid_transaction,
}
use jungle_gaming_backend_te.Domain.Money.{Money, equal}
use jungle_gaming_backend_te.Domain.Wallet
use jungle_gaming_backend_te.Domain.Wallet.{Wallet, Movement}
use jungle_gaming_backend_te.Domain.LedgerEntry.{LedgerDirection, new_wallet_ledger_entry}
use jungle_gaming_backend_te.Domain.Transaction.{
  TransactionKind, bet, win, loss, refund, rollback, WagerTransaction, kind_eq, is_reversal,
  mark_processed, reject,
}
use jungle_gaming_backend_te.Application.Contracts.{view_money}
use jungle_gaming_backend_te.Application.Events.{
  wager_transaction_processed, wager_transaction_rejected, wager_transaction_pending_reference,
  wallet_balance_changed, EventMetadata, processed_data, rejected_data, pending_reference_data,
  balance_changed_data, OutboxEvent, new_event,
}
use jungle_gaming_backend_te.Application.Environment.{Call}
use jungle_gaming_backend_te.Store.Tables.{Tx, pure, raise, lift, ◌>>=◌, ◌>>◌}
use jungle_gaming_backend_te.Store.Wallets.{update_wallet}
use jungle_gaming_backend_te.Store.Transactions.{
  insert_transaction, update_transaction, successful_reversal_exists,
}
use jungle_gaming_backend_te.Store.Ledger.{insert_ledger}
use jungle_gaming_backend_te.Store.Outbox.{insert_outbox}

-- Where an event comes from, and whether the transaction is new to the store.
pub record Origin : Type 0 where
  pub correlation_id : String
  pub causation_id : String
  pub insert : Bool

abbrev pub metadata : Call → Origin → EventMetadata
metadata call origin = record {
  correlation_id = origin.correlation_id;
  causation_id = origin.causation_id;
  occurred_at = call.now;
}

-- `if insert { InsertTransaction } else { UpdateTransaction }`
unfoldable pub save : Origin → WagerTransaction → Tx (Unit {0})
save origin t = if origin.insert then insert_transaction t else update_transaction t

unfoldable pub rejected_event : Call → Origin → String → WagerTransaction → Wallet → OutboxEvent
rejected_event call origin code t wallet =
    new_event call.event_id wager_transaction_rejected t.id (metadata call origin) (
      rejected_data (record {
        transaction_id = t.id;
        external_transaction_id = t.external_id;
        provider_id = t.provider_id;
        wallet_id = wallet.id;
        kind = t.kind;
        status = t.status;
        failure_code = code;
        balance = view_money wallet.balance;
      }))

unfoldable pub processed_event : Call → Origin → WagerTransaction → Wallet → Money → OutboxEvent
processed_event call origin t wallet after =
    new_event call.event_id wager_transaction_processed t.id (metadata call origin) (
      processed_data (record {
        transaction_id = t.id;
        external_transaction_id = t.external_id;
        provider_id = t.provider_id;
        wallet_id = wallet.id;
        player_id = t.player_id;
        round_id = t.round_id;
        game_id = t.game_id;
        kind = t.kind;
        money = view_money t.money;
        status = t.status;
        balance = view_money after;
        reference_transaction_id = t.reference_transaction_id;
        reference_external_id = t.reference_external_id;
      }))

unfoldable pub changed_event :
    Call → Origin → LedgerDirection → WagerTransaction → Movement → OutboxEvent
changed_event call origin direction t v =
    new_event call.changed_event_id wallet_balance_changed (v.wallet).id
      (record {
        correlation_id = origin.correlation_id;
        causation_id = t.id;
        occurred_at = call.now;
      })
      (balance_changed_data (record {
        wallet_id = (v.wallet).id;
        transaction_id = t.id;
        direction = direction;
        money = view_money t.money;
        balance_before = view_money v.before;
        balance_after = view_money v.after;
        wallet_version = (v.wallet).version;
      }))

-- `pendingEvent`
unfoldable pub pending_event : Call → Origin → WagerTransaction → Tx (Unit {0})
pending_event call origin t = insert_outbox (
    new_event call.event_id wager_transaction_pending_reference t.id (metadata call origin) (
      pending_reference_data (record {
        transaction_id = t.id;
        external_transaction_id = t.external_id;
        provider_id = t.provider_id;
        wallet_id = t.wallet_id;
        reference_external_transaction_id = t.reference_external_id;
        status = t.status;
        next_attempt_at = t.next_attempt_at;
      })))

-- The first tests of `referenceFailure`, on the two transactions alone; the empty code is none.
unfoldable pub reference_mismatch : WagerTransaction → WagerTransaction → Bool
reference_mismatch t reference =
    not (str_eq reference.provider_id t.provider_id)
    || (not (str_eq reference.player_id t.player_id)
        || (not (str_eq reference.wallet_id t.wallet_id)
            || (not (str_eq reference.round_id t.round_id)
                || not (str_eq reference.money.currency t.money.currency))))

-- The `switch` on the kinds.
unfoldable pub invalid_reference_kind : TransactionKind → TransactionKind → Bool
invalid_reference_kind win kind = not (kind_eq kind bet)
invalid_reference_kind refund kind = not (kind_eq kind bet)
invalid_reference_kind rollback kind =
    not (kind_eq kind bet) && (not (kind_eq kind win) && not (kind_eq kind refund))
invalid_reference_kind _ kind = false

-- The code of a reference that a refund or a rollback has taken back already.
unfoldable pub reversal_code : String → Tx String
reversal_code reference_id = do
  exists ← successful_reversal_exists reference_id
  pure (if exists then "REFERENCE_ALREADY_REVERSED" else "")

unfoldable pub reference_failure : WagerTransaction → Option WagerTransaction → Tx String
unfolding reversal_code
reference_failure t none = pure (if is_reversal t.kind then "REFERENCE_NOT_FOUND" else "")
reference_failure t (some reference) =
    if reference_mismatch t reference
    then pure "REFERENCE_MISMATCH"
    else if is_reversal t.kind && not (equal reference.money t.money)
    then pure "REFERENCE_AMOUNT_MISMATCH"
    else if invalid_reference_kind t.kind reference.kind
    then pure "INVALID_REFERENCE_KIND"
    else if is_reversal t.kind
    then reversal_code reference.id
    else pure ""

module _ (parse_iso : String → Bool) (call : Call) where
  -- `reject`: the transaction that it leaves.
  unfoldable pub reject_wager : Origin → String → WagerTransaction → Wallet → Tx WagerTransaction
  unfolding save rejected_event
  reject_wager origin code t wallet = do
    rejected ← lift (reject parse_iso t code wallet.balance call.now)
    save origin rejected
    insert_outbox (rejected_event call origin code rejected wallet)
    pure rejected

  abbrev pub debit_of : Wallet → Money → Result (Option LedgerDirection × Movement)
  debit_of wallet money =
      Errors.◌>>=◌ (Wallet.debit parse_iso wallet money call.now)
        λ v. ok (some LedgerDirection.debit, v)

  abbrev pub credit_of : Wallet → Money → Result (Option LedgerDirection × Movement)
  credit_of wallet money =
      Errors.◌>>=◌ (Wallet.credit parse_iso wallet money call.now)
        λ v. ok (some LedgerDirection.credit, v)

  -- The `switch` of `finalize`: the direction, where there is a movement, and the balances.
  unfoldable pub movement :
      TransactionKind
      → Money
      → Wallet
      → Option WagerTransaction
      → Result (Option LedgerDirection × Movement)
  movement bet money wallet reference = debit_of wallet money
  movement win money wallet reference = credit_of wallet money
  movement refund money wallet reference = credit_of wallet money
  movement rollback money wallet none = err reference_not_processed
  movement rollback money wallet (some reference) =
      if kind_eq reference.kind bet then credit_of wallet money else debit_of wallet money
  movement loss money wallet reference =
      ok (none, record { before = wallet.balance; after = wallet.balance; wallet = wallet })
  movement _ money wallet reference = err invalid_transaction

  -- The wallet and the ledger, where money moved.
  unfoldable pub record_movement :
      Option LedgerDirection → WagerTransaction → Movement → Tx (Unit {0})
  record_movement none t v = pure tt
  record_movement (some direction) t v = do
    update_wallet v.wallet
    entry ← lift (
        new_wallet_ledger_entry parse_iso call.entry_id (v.wallet).id t.id direction t.money
          v.before v.after call.now)
    insert_ledger entry

  unfoldable pub announce_movement :
      Origin → Option LedgerDirection → WagerTransaction → Movement → Tx (Unit {0})
  announce_movement origin none t v = pure tt
  announce_movement origin (some direction) t v =
      insert_outbox (changed_event call origin direction t v)

  -- `finalize` behind a movement that was made.
  unfoldable pub complete :
      Origin → WagerTransaction → Option LedgerDirection → Movement → Tx (WagerTransaction × Wallet)
  unfolding save record_movement announce_movement processed_event changed_event
  complete origin t direction v = do
    done ← lift (mark_processed parse_iso t v.after call.now)
    save origin done
    record_movement direction done v
    insert_outbox (processed_event call origin done v.wallet v.after)
    announce_movement origin direction done v
    pure (done, v.wallet)

  abbrev pub insufficient_code : TransactionKind → String
  insufficient_code kind =
      if kind_eq kind rollback then "INSUFFICIENT_FUNDS_REVERSAL" else "INSUFFICIENT_FUNDS"

  -- `finalize` behind the `switch`, by what the movement returned.
  unfoldable pub finish :
      Origin
      → WagerTransaction
      → Wallet
      → Result (Option LedgerDirection × Movement)
      → Tx (WagerTransaction × Wallet)
  finish origin t wallet (ok (direction, v)) = complete origin t direction v
  finish origin t wallet (err insufficient_funds) = do
    rejected ← reject_wager origin (insufficient_code t.kind) t wallet
    pure (rejected, wallet)
  finish origin t wallet (err e) = raise e

  unfoldable pub finalize :
      Origin → WagerTransaction → Wallet → Option WagerTransaction → Tx (WagerTransaction × Wallet)
  finalize origin t wallet reference =
      finish origin t wallet (movement t.kind t.money wallet reference)
