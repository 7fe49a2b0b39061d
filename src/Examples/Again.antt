-- ===== src/Examples/Again.antt =====
-- A bet that comes with a message, processed twice.
use jungle_gaming_backend_te.Prelude.{
  String, ◌≢◌, none, eq_iff, arith, ◌≡◌, refl, ap, some, true, false,
}
use jungle_gaming_backend_te.Prelude.Int.{pos}
use jungle_gaming_backend_te.Errors.{
  ok, err, idempotency_payload_conflict, external_transaction_conflict,
}
use jungle_gaming_backend_te.Application.Idempotence.Conflicts.{
  process-payload_conflict, process-identity_conflict,
}
use jungle_gaming_backend_te.Domain.Transaction.{processed}
use jungle_gaming_backend_te.Application.Contracts.{
  ProcessWagerCommand, ProcessWagerResult, view_money,
}
use jungle_gaming_backend_te.Application.Environment.{Call}
use jungle_gaming_backend_te.Application.Idempotence.Again.{process-again}
use jungle_gaming_backend_te.Application.WagerService.Process.{
  result_from, payload_fields, reference_is_pending, finish_inbox, wager_payload_hash,
  replay_result, conclude, reject_and_conclude, postpone_and_conclude, settle, use_reference,
  follow_reference, decide, admit, answer, look_up, replay_message, dispatch, within_process,
  process,
}
use jungle_gaming_backend_te.Application.WagerService.Settle.{
  save, rejected_event, processed_event, changed_event, pending_event, reference_mismatch,
  invalid_reference_kind, reversal_code, reference_failure, reject_wager, movement, record_movement,
  announce_movement, complete, finish, finalize,
}
use jungle_gaming_backend_te.Application.Events.{new_event}
use jungle_gaming_backend_te.Application.Contracts.{view_money, wallet_view, transaction_view}
use jungle_gaming_backend_te.Store.Tables.{Db, within_transaction}
use jungle_gaming_backend_te.Store.Wallets.{
  wallet_row, find_wallet_row, wallet_taken, insert_wallet, updates_wallet, update_wallet_rows,
  wallet_rows_affected, update_wallet, scan_wallet, scan_found, read_wallet, lock_wallet,
}
use jungle_gaming_backend_te.Store.Transactions.{
  result_minor, result_currency, transaction_row, opening_row, is_successful_reversal, same_key,
  transaction_taken, insert_row, insert_transaction, insert_opening, updated_row, update_rows,
  rows_affected, reversal_taken, update_transaction, find_row, successful_reversal_exists, scanned,
  scan_result, scan_transaction, scan_optional, scan_present, find_by_idempotency,
  find_by_external_id, lock_transaction, get_transaction, get_provider_transaction,
}
use jungle_gaming_backend_te.Store.Ledger.{
  ledger_row, ledger_taken, insert_ledger, sum_where, count_where, sum_ledger,
}
use jungle_gaming_backend_te.Store.Inbox.{
  find_message, known_message, claim_inbox, complete_rows, messages_affected, complete_inbox,
}
use jungle_gaming_backend_te.Store.Outbox.{outbox_row, outbox_taken, insert_outbox}
use jungle_gaming_backend_te.Domain.Money.{
  is_zero, is_positive, is_negative, equal, all_upper, parse_currency, validate,
  new_money_from_minor, zero_money, compatible, add, negate, subtract, compare_money,
}
use jungle_gaming_backend_te.Domain.Wallet.{apply, new_wallet, rehydrate_wallet, debit, credit}
use jungle_gaming_backend_te.Domain.Transaction.{
  is_external, is_terminal, mark_pending_reference, resolve_reference, lacks_metadata,
  is_unsupported, misses_reference, refuses_reference, created, validate_amount_for_kind,
  new_wager_transaction, mark_processed, reject, fail,
}
use jungle_gaming_backend_te.Domain.LedgerEntry.{expected_balance, new_wallet_ledger_entry}
use jungle_gaming_backend_te.Prelude.Word.{to_uint64, to_int64, wrap64, add64, sub64}
use jungle_gaming_backend_te.Prelude.Int.{◌+ℤ◌, ◌-ℤ◌}
use jungle_gaming_backend_te.Examples.Data.{a_bet, a_call, a_db, environment, reais}

abbrev a_message : ProcessWagerCommand
a_message = record a_bet {
  inbox = some (record { consumer_name = "wagers"; message_id = "m1"; payload_hash = "h1" });
}

abbrev first_result : ProcessWagerResult
first_result = record {
  transaction_id = "t2";
  status = processed;
  balance = view_money (reais (pos 700));
  failure_code = "";
  idempotent_replay = false;
}

abbrev after_first : Db
after_first = (process environment a_call a_message a_db).1

-- With the message, and without.
accepted :
    ((process environment a_call a_message a_db).0 ≡ ok first_result)
    × ((process environment a_call a_bet a_db).0 ≡ ok first_result)
unfolding process
accepted =
    unfold result_from payload_fields reference_is_pending finish_inbox wager_payload_hash
      replay_result conclude reject_and_conclude postpone_and_conclude settle use_reference
      follow_reference decide admit answer look_up replay_message dispatch within_process save
      rejected_event processed_event changed_event pending_event reference_mismatch
      invalid_reference_kind reversal_code reference_failure reject_wager movement record_movement
      announce_movement complete finish finalize new_event view_money wallet_view transaction_view
      within_transaction wallet_row find_wallet_row wallet_taken insert_wallet updates_wallet
      update_wallet_rows wallet_rows_affected update_wallet scan_wallet scan_found read_wallet
      lock_wallet result_minor result_currency transaction_row opening_row is_successful_reversal
      same_key transaction_taken insert_row insert_transaction insert_opening updated_row
      update_rows rows_affected reversal_taken update_transaction find_row
      successful_reversal_exists scanned scan_result scan_transaction scan_optional scan_present
      find_by_idempotency find_by_external_id lock_transaction get_transaction
      get_provider_transaction ledger_row ledger_taken insert_ledger sum_where count_where
      sum_ledger find_message known_message claim_inbox complete_rows messages_affected
      complete_inbox outbox_row outbox_taken insert_outbox is_zero is_positive is_negative equal
      all_upper parse_currency validate new_money_from_minor zero_money compatible add negate
      subtract compare_money apply new_wallet rehydrate_wallet debit credit is_external is_terminal
      mark_pending_reference resolve_reference lacks_metadata is_unsupported misses_reference
      refuses_reference created validate_amount_for_kind new_wager_transaction mark_processed reject
      fail expected_balance new_wallet_ledger_entry to_uint64 to_int64 wrap64 add64 sub64 ◌+ℤ◌
      ◌-ℤ◌ in
    (refl, refl)

abbrev later : Call
later = record a_call { now = 20; transaction_id = "t9"; event_id = "e9" }

process-again_example :
    process environment later a_message after_first
    ≡ (ok (record first_result { idempotent_replay = true }), after_first)
process-again_example =
    process-again environment a_call later a_message a_db first_result after_first
      (ap (λ r. (r, after_first)) accepted.0)

-- The same key for another external transaction, and another key for the same one.
abbrev other_payload : ProcessWagerCommand
other_payload = record a_bet { external_transaction_id = "x9" }

abbrev other_key : ProcessWagerCommand
other_key = record a_bet { idempotency_key = "k2" }

differs : wager_payload_hash environment other_payload ≢ wager_payload_hash environment a_message
unfolding wager_payload_hash payload_fields
differs same = ground (arith, (eq_iff "x9" "x1").1 same)

process-payload_conflict_example :
    process environment later other_payload after_first
    ≡ (err idempotency_payload_conflict, after_first)
process-payload_conflict_example =
    process-payload_conflict environment a_call later a_message other_payload a_db first_result
      after_first (ap (λ r. (r, after_first)) accepted.0) refl refl refl refl differs

abbrev after_direct : Db
after_direct = (process environment a_call a_bet a_db).1

new_key :
    (key : String) → find_by_idempotency environment.parse_iso "acme" key a_db ≡ ok (none, a_db)
unfolding find_by_idempotency find_row scan_optional
new_key key = refl

keys_differ : ◌≢◌ {A = String} "k2" "k1"
keys_differ same = ground (arith, (eq_iff "k2" "k1").1 same)

process-identity_conflict_example :
    process environment later other_key after_direct
    ≡ (err external_transaction_conflict, after_direct)
process-identity_conflict_example =
    process-identity_conflict environment a_call later a_bet other_key a_db first_result
      after_direct refl (new_key "k1") (ap (λ r. (r, after_direct)) accepted.1) refl refl refl refl
      keys_differ (new_key "k2")
