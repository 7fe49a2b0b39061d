-- ===== src/Examples/Books.antt =====
-- The books at one wallet: a bet, a wager that is pending, a new wallet, the reconciliation.
use jungle_gaming_backend_te.Prelude.{arith, ◌≡◌, refl, false, some, List, [], ◌∷◌}
use jungle_gaming_backend_te.Prelude.Int.{pos, ◌+ℤ◌}
use jungle_gaming_backend_te.Errors.{ok}
use jungle_gaming_backend_te.Domain.Money.{
  parse_currency, all_upper, new_money_from_minor, validate, is_negative,
}
use jungle_gaming_backend_te.Domain.Wallet.{rehydrate_wallet}
use jungle_gaming_backend_te.Domain.Transaction.{WagerTransaction, refund, pending_reference}
use jungle_gaming_backend_te.Store.Tables.{Db}
use jungle_gaming_backend_te.Store.Transactions.{transaction_row}
use jungle_gaming_backend_te.Application.WagerService.Process.{process}
use jungle_gaming_backend_te.Application.WagerService.Pending.{
  resolve_pending_reference, record_pending_reference_failure,
}
use jungle_gaming_backend_te.Application.WalletService.{create, reconcile}
use jungle_gaming_backend_te.Store.Books.{IsBooked}
use jungle_gaming_backend_te.Store.Wallets.{find_wallet_row, wallet_row, scan_wallet}
use jungle_gaming_backend_te.Store.Ledger.{sum_where, count_where}
use jungle_gaming_backend_te.Application.Bookkeeping.Process.{process-IsBooked}
use jungle_gaming_backend_te.Application.Bookkeeping.Pending.{
  resolve_pending_reference-IsBooked, record_pending_reference_failure-Keeps,
}
use jungle_gaming_backend_te.Application.Bookkeeping.Create.{create-IsBooked}
use jungle_gaming_backend_te.Application.Bookkeeping.Reconcile.{reconcile-IsBooked, agreeing}
use jungle_gaming_backend_te.Domain.Time.{Time}
use jungle_gaming_backend_te.Messaging.ReferenceWorker.{
  Round, resolve_references, found_ids, find_due_pending_references, is_due, due_before,
}
use jungle_gaming_backend_te.Messaging.ReferenceWorker.Rounds.{IsSound, resolve_references-IsSound}
use jungle_gaming_backend_te.Examples.Order.{by_text}
use jungle_gaming_backend_te.Examples.Data.{
  environment, a_call, a_bet, a_db, a_db-IsBooked, a_new_wallet, every_code, wallet_one, new_bet,
}

process-IsBooked_example :
    IsBooked
      (process environment a_call a_bet a_db).1.wallets
      (process environment a_call a_bet a_db).1.ledger
process-IsBooked_example =
    process-IsBooked environment a_call a_bet (omega arith) a_db a_db-IsBooked

-- A refund whose reference is not there, after one attempt.
abbrev a_waiting_refund : WagerTransaction
a_waiting_refund = record new_bet {
  kind = refund;
  reference_external_id = "x0";
  status = pending_reference;
  attempt_count = pos 1;
  next_attempt_at = some 8;
}

abbrev waiting_db : Db
waiting_db = record a_db { transactions = transaction_row a_waiting_refund ∷ [] }

resolve_pending_reference-IsBooked_example :
    IsBooked
      (resolve_pending_reference environment a_call "t1" waiting_db).1.wallets
      (resolve_pending_reference environment a_call "t1" waiting_db).1.ledger
resolve_pending_reference-IsBooked_example =
    resolve_pending_reference-IsBooked environment a_call "t1" waiting_db
      (unfold transaction_row in (omega arith, tt)) a_db-IsBooked

abbrev round_at : Time → Round
round_at now = record {
  now = now;
  lookup_fails = false;
  attempt =
      λ _. record { resolving = record a_call { now = now }; recording = a_call; stopped = false };
}

-- Two rounds of the worker: at 9, when the refund is due, and at 12.
abbrev two_rounds : List Round
two_rounds = round_at 9 ∷ round_at 12 ∷ []

resolve_references-IsSound_example :
    IsSound waiting_db.transactions
      (resolve_references environment by_text 10 two_rounds waiting_db)
resolve_references-IsSound_example =
    resolve_references-IsSound environment by_text 10 two_rounds waiting_db
      (unfold transaction_row in (omega arith, tt)) a_db-IsBooked

found_at_nine : found_ids by_text 10 (round_at 9) waiting_db.transactions ≡ "t1" ∷ []
unfolding found_ids find_due_pending_references is_due due_before transaction_row
found_at_nine = refl

record_pending_reference_failure-Keeps_example :
    ((record_pending_reference_failure environment a_call "t1" waiting_db).1.wallets
      ≡ waiting_db.wallets)
    × ((record_pending_reference_failure environment a_call "t1" waiting_db).1.ledger
        ≡ waiting_db.ledger)
record_pending_reference_failure-Keeps_example =
    record_pending_reference_failure-Keeps environment a_call "t1" waiting_db

create-IsBooked_example :
    IsBooked
      (create environment a_call a_new_wallet a_db).1.wallets
      (create environment a_call a_new_wallet a_db).1.ledger
create-IsBooked_example =
    create-IsBooked environment a_call a_new_wallet a_db (omega arith) a_db-IsBooked

read_back : scan_wallet every_code (wallet_row wallet_one) ≡ ok wallet_one
unfolding scan_wallet wallet_row new_money_from_minor parse_currency all_upper rehydrate_wallet
    validate is_negative
read_back = refl

reconcile-IsBooked_example :
    reconcile every_code "w1" a_db
    ≡ (ok (agreeing wallet_one (pos (count_where "w1" "BRL" a_db.ledger))), a_db)
reconcile-IsBooked_example =
    reconcile-IsBooked every_code "w1" a_db (wallet_row wallet_one) wallet_one a_db-IsBooked
      (unfold find_wallet_row wallet_row in refl) read_back (unfold sum_where ◌+ℤ◌ in refl)
      (unfold sum_where ◌+ℤ◌ in refl)
