-- ===== src/Examples/Delivery.antt =====
-- A message with a bet, handled twice.
use jungle_gaming_backend_te.Prelude.{
  ◌≡◌, refl, some, none, true, false, codes, str_eq, ◌*◌, if◌then◌else◌, arith,
}
use jungle_gaming_backend_te.Prelude.Int.{pos}
use jungle_gaming_backend_te.Domain.Transaction.{bet}
use jungle_gaming_backend_te.Application.Environment.{Call}
use jungle_gaming_backend_te.Messaging.Consumer.{
  WagerEnvelope, QueueMessage, Decoding, ConsumerSettings, Shutdown, visible_in, handle_message,
  a_second,
}
use jungle_gaming_backend_te.Messaging.Consumer.Delays.{seconds_of, schedule_retry_lem}
use jungle_gaming_backend_te.Messaging.Consumer.Delivery.{
  is_retry, IsCommitted, handle_message-IsCommitted, handle_message-retry,
  handle_message-redelivered,
}
use jungle_gaming_backend_te.Examples.Data.{a_call, a_db, environment}
use jungle_gaming_backend_te.Messaging.Consumer.{
  approximate_receive_count, retry_rounds, retry_delay, to_int32, schedule_retry, is_permanent,
  command_of, after_commit, after_process, handle_wager, handle_envelope,
}
use jungle_gaming_backend_te.Application.WagerService.Process.{
  result_from, payload_fields, reference_is_pending, finish_inbox, wager_payload_hash,
  replay_result, conclude, reject_and_conclude, postpone_and_conclude, settle, use_reference,
  follow_reference, decide, admit, answer, look_up, replay_message, dispatch, within_process,
  process,
}
use jungle_gaming_backend_te.Application.WagerService.Settle.{
  save, rejected_event, processed_event, changed_event, pending_event, reference_mismatch,
  invalid_reference_kind, reversal_code, reference_failure, reject_wager, movement, record_movement,
  announce_movement, complete, finish, finalize,
}
use jungle_gaming_backend_te.Application.Events.{new_event}
use jungle_gaming_backend_te.Application.Contracts.{view_money, wallet_view, transaction_view}
use jungle_gaming_backend_te.Store.Tables.{within_transaction}
use jungle_gaming_backend_te.Store.Wallets.{
  wallet_row, find_wallet_row, wallet_taken, insert_wallet, updates_wallet, update_wallet_rows,
  wallet_rows_affected, update_wallet, scan_wallet, scan_found, read_wallet, lock_wallet,
}
use jungle_gaming_backend_te.Store.Transactions.{
  result_minor, result_currency, transaction_row, opening_row, is_successful_reversal, same_key,
  transaction_taken, insert_row, insert_transaction, insert_opening, updated_row, update_rows,
  rows_affected, reversal_taken, update_transaction, find_row, successful_reversal_exists, scanned,
  scan_result, scan_transaction, scan_optional, scan_present, find_by_idempotency,
  find_by_external_id, lock_transaction, get_transaction, get_provider_transaction,
}
use jungle_gaming_backend_te.Store.Ledger.{
  ledger_row, ledger_taken, insert_ledger, sum_where, count_where, sum_ledger,
}
use jungle_gaming_backend_te.Store.Inbox.{
  find_message, known_message, claim_inbox, complete_rows, messages_affected, complete_inbox,
}
use jungle_gaming_backend_te.Store.Outbox.{outbox_row, outbox_taken, insert_outbox}
use jungle_gaming_backend_te.Domain.Money.{
  is_zero, is_positive, is_negative, equal, all_upper, parse_currency, validate,
  new_money_from_minor, zero_money, compatible, add, negate, subtract, compare_money,
}
use jungle_gaming_backend_te.Domain.Money.Text.{
  digits, format_uint, magnitude, format_minor, amount, span_digits, match_major, match_cents,
  match_amount, scan_uint, parse_uint, parse_non_negative_minor, starts_negative, without_sign,
  parse_money, marshal_money, unmarshal_negative, unmarshal_money,
}
use jungle_gaming_backend_te.Domain.Wallet.{apply, new_wallet, rehydrate_wallet, debit, credit}
use jungle_gaming_backend_te.Domain.Transaction.{
  is_external, is_terminal, mark_pending_reference, resolve_reference, lacks_metadata,
  is_unsupported, misses_reference, refuses_reference, created, validate_amount_for_kind,
  new_wager_transaction, mark_processed, reject, fail,
}
use jungle_gaming_backend_te.Domain.LedgerEntry.{expected_balance, new_wallet_ledger_entry}
use jungle_gaming_backend_te.Prelude.Word.{to_uint64, to_int64, wrap64, add64, sub64}
use jungle_gaming_backend_te.Prelude.Int.{◌+ℤ◌, ◌-ℤ◌}

abbrev an_envelope : WagerEnvelope
an_envelope = record {
  message_id = "m1";
  type = "WagerTransactionRequested";
  occurred_at = 3;
  content = record {
    provider_id = "acme";
    external_transaction_id = "x1";
    idempotency_key = "k1";
    player_id = "p1";
    wallet_id = "w1";
    round_id = "r1";
    game_id = "g1";
    kind = bet;
    amount = codes "3.00";
    currency = "BRL";
    reference_external_transaction_id = "";
  };
}

abbrev decoding : Decoding
decoding = record {
  unmarshal = λ body. if str_eq body "bet" then some an_envelope else none;
  valid_envelope = λ _. true;
  sha256_hex = λ body. body;
  atoi = λ _. some (pos 2);
}

abbrev settings : ConsumerSettings
settings = record {
  retry_base = 2 * a_second;
  retry_max = 120 * a_second;
  max_receives = pos 5;
  post_commit_delay = 0;
}

abbrev running : Shutdown
running = record { after_process = false; after_delay = false }

abbrev message : QueueMessage
message = record { body = "bet"; receive_count = "1" }

abbrev noise : QueueMessage
noise = record { body = "?"; receive_count = "2" }

abbrev later : Call
later = record a_call { now = 20; transaction_id = "t9"; event_id = "e9" }

committed :
    is_retry (handle_message environment decoding settings a_call running message a_db).0 ≡ false
unfolding handle_message
committed =
    unfold approximate_receive_count retry_rounds retry_delay to_int32 schedule_retry is_permanent
      command_of after_commit after_process handle_wager handle_envelope result_from payload_fields
      reference_is_pending finish_inbox wager_payload_hash replay_result conclude
      reject_and_conclude postpone_and_conclude settle use_reference follow_reference decide admit
      answer look_up replay_message dispatch within_process process save rejected_event
      processed_event changed_event pending_event reference_mismatch invalid_reference_kind
      reversal_code reference_failure reject_wager movement record_movement announce_movement
      complete finish finalize new_event view_money wallet_view transaction_view within_transaction
      wallet_row find_wallet_row wallet_taken insert_wallet updates_wallet update_wallet_rows
      wallet_rows_affected update_wallet scan_wallet scan_found read_wallet lock_wallet result_minor
      result_currency transaction_row opening_row is_successful_reversal same_key transaction_taken
      insert_row insert_transaction insert_opening updated_row update_rows rows_affected
      reversal_taken update_transaction find_row successful_reversal_exists scanned scan_result
      scan_transaction scan_optional scan_present find_by_idempotency find_by_external_id
      lock_transaction get_transaction get_provider_transaction ledger_row ledger_taken
      insert_ledger sum_where count_where sum_ledger find_message known_message claim_inbox
      complete_rows messages_affected complete_inbox outbox_row outbox_taken insert_outbox is_zero
      is_positive is_negative equal all_upper parse_currency validate new_money_from_minor
      zero_money compatible add negate subtract compare_money digits format_uint magnitude
      format_minor amount span_digits match_major match_cents match_amount scan_uint parse_uint
      parse_non_negative_minor starts_negative without_sign parse_money marshal_money
      unmarshal_negative unmarshal_money apply new_wallet rehydrate_wallet debit credit is_external
      is_terminal mark_pending_reference resolve_reference lacks_metadata is_unsupported
      misses_reference refuses_reference created validate_amount_for_kind new_wager_transaction
      mark_processed reject fail expected_balance new_wallet_ledger_entry to_uint64 to_int64 wrap64
      add64 sub64 ◌+ℤ◌ ◌-ℤ◌ in
    refl

unreadable :
    is_retry (handle_message environment decoding settings a_call running noise a_db).0 ≡ true
unfolding handle_message handle_envelope schedule_retry
unreadable = refl

handle_message-IsCommitted_example :
    IsCommitted environment decoding settings a_call message a_db
      (handle_message environment decoding settings a_call running message a_db).1
handle_message-IsCommitted_example =
    handle_message-IsCommitted environment decoding settings a_call running message a_db committed

handle_message-retry_example :
    (handle_message environment decoding settings a_call running noise a_db).1 ≡ a_db
handle_message-retry_example =
    handle_message-retry environment decoding settings a_call running noise a_db unreadable

handle_message-redelivered_example :
    handle_message environment decoding settings later running
      (record message { receive_count = "2" })
      (handle_message environment decoding settings a_call running message a_db).1
    ≡ (
      after_commit settings running,
      (handle_message environment decoding settings a_call running message a_db).1,
    )
handle_message-redelivered_example =
    handle_message-redelivered environment decoding settings a_call later running running message
      "2" a_db committed

schedule_retry_lem_example :
    schedule_retry settings (pos 3) false ≡ visible_in (pos (seconds_of (8 * a_second)))
schedule_retry_lem_example = schedule_retry_lem settings (pos 3) false (omega arith)
