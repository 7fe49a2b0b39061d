-- ===== src/Examples/Transactions.antt =====
-- The life of a bet of 3.00 BRL: made, processed, stored and read back.
use jungle_gaming_backend_te.Prelude.{◌/◌, ◌*◌, inr, ℕ, arith, ◌≡◌, refl}
use jungle_gaming_backend_te.Prelude.Int.{pos}
use jungle_gaming_backend_te.Errors.{ok}
use jungle_gaming_backend_te.Domain.Money.{
  validate, parse_currency, all_upper, is_positive, is_negative, is_zero,
}
use jungle_gaming_backend_te.Domain.Transaction.{
  created, new_wager_transaction, lacks_metadata, is_unsupported, misses_reference,
  refuses_reference, validate_amount_for_kind, mark_processed, is_terminal, is_external,
}
use jungle_gaming_backend_te.Domain.Transaction.Rehydrate.{
  rehydrate_wager_transaction, lacks_identity, bad_opening, bad_external, check_amount, bad_status,
  bad_result, bad_result_balance, bad_result_currency, bad_failure_code, bad_schedule,
  bad_reference, restore,
}
use jungle_gaming_backend_te.Domain.Transaction.Storable.{
  snapshot, IsStorable, rehydrate-IsStorable,
}
use jungle_gaming_backend_te.Domain.Transaction.Lifecycle.{
  Transition, process, Transition-IsStorable,
}
use jungle_gaming_backend_te.Domain.Transaction.History.{
  Reach, here, onward, SameWager, history-rehydrates, Reach-SameWager, Reach-final,
}
use jungle_gaming_backend_te.Store.Transactions.{transaction_row, scan_transaction}
use jungle_gaming_backend_te.Store.Transactions.RoundTrip.{
  stored_row, with_times, scan_transaction-stored_row,
}
use jungle_gaming_backend_te.Domain.Time.{Time}
use jungle_gaming_backend_te.Examples.Data.{every_code, reais, bet_input, new_bet, done_bet}

made : new_wager_transaction every_code bet_input ≡ ok new_bet
unfolding new_wager_transaction created lacks_metadata is_unsupported validate_amount_for_kind
    misses_reference refuses_reference
made = unfold validate parse_currency all_upper is_positive is_negative is_zero is_external in refl

marked : mark_processed every_code new_bet (reais (pos 700)) 9 ≡ ok done_bet
unfolding mark_processed is_terminal
marked = unfold validate parse_currency all_upper is_negative in refl

move : Transition every_code new_bet done_bet
move = process (reais (pos 700)) 9 marked

reached : Reach every_code new_bet 1 done_bet
reached = onward here move

read : rehydrate_wager_transaction every_code (snapshot new_bet) ≡ ok new_bet
unfolding rehydrate_wager_transaction restore lacks_identity bad_opening bad_external check_amount
    bad_status bad_result
read =
    unfold bad_result_balance bad_result_currency bad_failure_code bad_schedule bad_reference
      validate parse_currency all_upper is_positive is_negative is_zero is_external
      validate_amount_for_kind in
    refl

stored : IsStorable every_code (snapshot new_bet)
stored = (rehydrate-IsStorable every_code (snapshot new_bet) new_bet read).0

Transition-IsStorable_example : IsStorable every_code (snapshot done_bet)
Transition-IsStorable_example =
    Transition-IsStorable every_code new_bet done_bet move stored (omega arith) (omega arith)

history-rehydrates_example :
    rehydrate_wager_transaction every_code (snapshot done_bet) ≡ ok done_bet
history-rehydrates_example = history-rehydrates every_code bet_input made reached (omega arith)

Reach-SameWager_example : SameWager new_bet done_bet
Reach-SameWager_example = Reach-SameWager every_code reached

at_end : Reach every_code done_bet 0 done_bet
at_end = here

Reach-final_example : (◌≡◌ {A = ℕ} 0 0) × (done_bet ≡ done_bet)
Reach-final_example = Reach-final every_code at_end (unfold is_terminal in refl)

-- A database that keeps every fifth tick.
abbrev fifths : Time → Time
fifths t = t / 5 * 5

scan_transaction-stored_row_example :
    scan_transaction every_code (stored_row fifths (transaction_row new_bet))
    ≡ ok (with_times fifths new_bet)
scan_transaction-stored_row_example =
    scan_transaction-stored_row every_code fifths new_bet stored (inr refl) refl refl
