-- ===== src/Application/WagerService/Process.antt =====
-- internal/application/wager_service.go: `WagerService.Process`.
use jungle_gaming_backend_te.Prelude.{
  String, Bool, true, false, not, ◌||◌, Option, none, some, str_eq, is_empty, if◌then◌else◌,
}
use jungle_gaming_backend_te.Prelude.Int.{pos}
use jungle_gaming_backend_te.Prelude.Word.{add64}
use jungle_gaming_backend_te.Errors.{
  Result, err, invalid_transaction, idempotency_payload_conflict, external_transaction_conflict,
  inbox_payload_conflict,
}
use jungle_gaming_backend_te.Domain.Time.{Time, add_duration}
use jungle_gaming_backend_te.Domain.Money.{Money}
use jungle_gaming_backend_te.Domain.Money.Text.{amount}
use jungle_gaming_backend_te.Domain.Wallet.{Wallet}
use jungle_gaming_backend_te.Domain.Transaction.{
  WagerTransaction, NewExternalTransaction, pending, pending_reference, processed, status_eq,
  new_wager_transaction, mark_pending_reference, resolve_reference,
}
use jungle_gaming_backend_te.Application.Contracts.{
  InboxInput, ProcessWagerCommand, ProcessWagerResult, view_money,
}
use jungle_gaming_backend_te.Application.Environment.{Environment, PayloadFields, Call}
use jungle_gaming_backend_te.Application.WagerService.Backoff.{backoff}
use jungle_gaming_backend_te.Application.WagerService.Settle.{
  Origin, reject_wager, pending_event, reference_failure, finalize,
}
use jungle_gaming_backend_te.Store.Tables.{
  Db, Tx, pure, raise, lift, ◌>>=◌, ◌>>◌, within_transaction,
}
use jungle_gaming_backend_te.Store.Wallets.{lock_wallet}
use jungle_gaming_backend_te.Store.Transactions.{
  find_by_idempotency, find_by_external_id, insert_transaction,
}
use jungle_gaming_backend_te.Store.Inbox.{
  InboxDisposition, inserted, already_completed, claim_inbox, complete_inbox,
}

unfoldable pub result_from : WagerTransaction → Money → Bool → ProcessWagerResult
result_from t balance replay = record {
  transaction_id = t.id;
  status = t.status;
  balance = view_money balance;
  failure_code = t.failure_code;
  idempotent_replay = replay;
}

-- The fields that are hashed; the idempotency key and the correlation are not among them.
unfoldable pub payload_fields : ProcessWagerCommand → PayloadFields
payload_fields command = record {
  amount = amount command.money;
  currency = (command.money).currency;
  external_transaction_id = command.external_transaction_id;
  game_id = command.game_id;
  kind = command.kind;
  player_id = command.player_id;
  provider_id = command.provider_id;
  reference_external_transaction_id = command.reference_external_transaction_id;
  round_id = command.round_id;
  wallet_id = command.wallet_id;
}

-- `referenceIsPending`
unfoldable pub reference_is_pending : Option WagerTransaction → Bool
reference_is_pending none = true
reference_is_pending (some reference) =
    status_eq reference.status pending || status_eq reference.status pending_reference

-- `completeInbox`
unfoldable pub finish_inbox : Option InboxInput → Time → Tx (Unit {0})
finish_inbox none now = pure tt
finish_inbox (some input) now = complete_inbox input now

abbrev pub causation_of : Option InboxInput → String
causation_of none = ""
causation_of (some input) = input.message_id

module _ (env : Environment) where
  -- `wagerPayloadHash`
  unfoldable pub wager_payload_hash : ProcessWagerCommand → String
  wager_payload_hash command = env.digest (payload_fields command)

  -- `replayResult`
  unfoldable pub replay_result : WagerTransaction → Tx ProcessWagerResult
  replay_result t = if t.has_result_balance then pure (result_from t t.result_balance true) else (do
    wallet ← lock_wallet env.parse_iso t.wallet_id
    pure (result_from t wallet.balance true))

module _ (env : Environment) (call : Call) (command : ProcessWagerCommand) where
  abbrev pub origin_of : Origin
  origin_of = record {
    correlation_id =
        if is_empty command.correlation_id then call.correlation_id else command.correlation_id;
    causation_id = causation_of command.inbox;
    insert = true;
  }

  abbrev pub new_transaction_input : NewExternalTransaction
  new_transaction_input = record {
    id = call.transaction_id;
    provider_id = command.provider_id;
    external_id = command.external_transaction_id;
    idempotency_key = command.idempotency_key;
    payload_hash = wager_payload_hash env command;
    wallet_id = command.wallet_id;
    player_id = command.player_id;
    round_id = command.round_id;
    game_id = command.game_id;
    kind = command.kind;
    money = command.money;
    reference_external_id = command.reference_external_transaction_id;
    now = call.now;
  }

  -- `result = …; return s.completeInbox(…)`
  unfoldable pub conclude : WagerTransaction → Money → Bool → Tx ProcessWagerResult
  conclude t balance replay = do
    finish_inbox command.inbox call.now
    pure (result_from t balance replay)

  unfoldable pub reject_and_conclude : String → WagerTransaction → Wallet → Tx ProcessWagerResult
  unfolding conclude
  reject_and_conclude code t wallet = do
    rejected ← reject_wager env.parse_iso call origin_of code t wallet
    conclude rejected wallet.balance false

  -- The wait for a reference that is not there, or not settled yet.
  unfoldable pub postpone_and_conclude : WagerTransaction → Wallet → Tx ProcessWagerResult
  unfolding conclude
  postpone_and_conclude t wallet = do
    waiting ← lift (
        mark_pending_reference t
          (add_duration call.now (backoff env.policy (add64 t.attempt_count (pos 1)))) call.now)
    insert_transaction waiting
    pending_event call origin_of waiting
    conclude waiting wallet.balance false

  -- From `referenceFailure` on.
  unfoldable pub settle :
      WagerTransaction → Wallet → Option WagerTransaction → Tx ProcessWagerResult
  unfolding conclude reject_and_conclude
  settle t wallet reference = do
    code ← reference_failure t reference
    if not (is_empty code) then reject_and_conclude code t wallet else do
      (done, changed) ← finalize env.parse_iso call origin_of t wallet reference
      conclude done changed.balance false

  -- A reference that reached its end: it must have succeeded.
  unfoldable pub use_reference :
      WagerTransaction → Wallet → WagerTransaction → Tx ProcessWagerResult
  unfolding settle reject_and_conclude
  use_reference t wallet reference =
      if not (status_eq reference.status processed)
      then reject_and_conclude "REFERENCE_NOT_PROCESSED" t wallet
      else settle t wallet (some reference)

  -- The reference of the command, where it names one.
  unfoldable pub follow_reference :
      WagerTransaction → Wallet → Option WagerTransaction → Tx ProcessWagerResult
  unfolding use_reference postpone_and_conclude
  follow_reference t wallet none = postpone_and_conclude t wallet
  follow_reference t wallet (some reference) =
      if reference_is_pending (some reference) then postpone_and_conclude t wallet else (do
        resolved ← lift (resolve_reference t reference.id call.now)
        use_reference resolved wallet reference)

  unfoldable pub decide : WagerTransaction → Wallet → Tx ProcessWagerResult
  unfolding follow_reference
  decide t wallet =
      if not (str_eq wallet.player_id command.player_id)
        || not (str_eq (wallet.balance).currency (command.money).currency)
      then reject_and_conclude "WALLET_OWNERSHIP_OR_CURRENCY_MISMATCH" t wallet
      else if is_empty command.reference_external_transaction_id
      then settle t wallet none
      else (do
        reference ←
            find_by_external_id env.parse_iso command.provider_id
              command.reference_external_transaction_id
        follow_reference t wallet reference)

  -- A key that is not known yet. The external identity must not be known either.
  unfoldable pub admit : Option WagerTransaction → Tx ProcessWagerResult
  unfolding decide
  admit (some by_external) = raise external_transaction_conflict
  admit none = do
    wallet ← lock_wallet env.parse_iso command.wallet_id
    t ← lift (new_wager_transaction env.parse_iso new_transaction_input)
    decide t wallet

  -- What the idempotency key finds.
  unfoldable pub answer : Option WagerTransaction → Tx ProcessWagerResult
  unfolding admit
  answer (some existing) =
      if not (str_eq existing.payload_hash (wager_payload_hash env command))
      then raise idempotency_payload_conflict
      else (do
        result ← replay_result env existing
        finish_inbox command.inbox call.now
        pure result)
  answer none = do
    by_external ←
        find_by_external_id env.parse_iso command.provider_id command.external_transaction_id
    admit by_external

  unfoldable pub look_up : Tx ProcessWagerResult
  unfolding answer
  look_up = do
    existing ← find_by_idempotency env.parse_iso command.provider_id command.idempotency_key
    answer existing

  -- A message that was completed before.
  unfoldable pub replay_message : Option WagerTransaction → Tx ProcessWagerResult
  replay_message none = raise inbox_payload_conflict
  replay_message (some existing) =
      if not (str_eq existing.payload_hash (wager_payload_hash env command))
      then raise inbox_payload_conflict
      else replay_result env existing

  unfoldable pub dispatch : InboxDisposition → Tx ProcessWagerResult
  unfolding look_up replay_message
  dispatch inserted = look_up
  dispatch already_completed = do
    existing ← find_by_idempotency env.parse_iso command.provider_id command.idempotency_key
    replay_message existing

  unfoldable pub within_process : Option InboxInput → Tx ProcessWagerResult
  unfolding look_up dispatch
  within_process none = look_up
  within_process (some input) = do disposition ← claim_inbox input call.now; dispatch disposition

  unfoldable pub process : Db → Result ProcessWagerResult × Db
  unfolding within_process
  process db =
      if not (env.valid_wager command)
      then (err invalid_transaction, db)
      else within_transaction (within_process command.inbox) db
