-- ===== src/Examples/Wagers.antt =====
-- A bet that is known already, a rollback of it, and the delays between attempts.
use jungle_gaming_backend_te.Prelude.{◌*◌, ◌^◌, ◌-◌, ◌≡◌, refl, some, [], ◌∷◌, ltb, if◌then◌else◌}
use jungle_gaming_backend_te.Prelude.Int.{pos}
use jungle_gaming_backend_te.Errors.{ok}
use jungle_gaming_backend_te.Domain.Money.{equal}
use jungle_gaming_backend_te.Domain.Transaction.{WagerTransaction, rollback}
use jungle_gaming_backend_te.Store.Tables.{Db}
use jungle_gaming_backend_te.Store.Transactions.{
  transaction_row, find_row, successful_reversal_exists, is_successful_reversal,
}
use jungle_gaming_backend_te.Application.WagerService.Settle.{
  reference_failure, reference_mismatch, invalid_reference_kind, reversal_code,
}
use jungle_gaming_backend_te.Application.WagerService.References.{
  IsFollowed, reference_failure-IsFollowed,
}
use jungle_gaming_backend_te.Application.WagerService.Backoff.{backoff, backoff_lem}
use jungle_gaming_backend_te.Examples.Data.{a_db, new_bet, done_bet, policy}

abbrev known_db : Db
known_db = record a_db { transactions = transaction_row done_bet ∷ [] }

abbrev a_rollback : WagerTransaction
a_rollback = record new_bet {
  id = "t2";
  external_id = "x2";
  kind = rollback;
  reference_external_id = "x1";
}

passed : reference_failure a_rollback (some done_bet) known_db ≡ ok ("", known_db)
unfolding reference_failure reference_mismatch equal invalid_reference_kind reversal_code
    successful_reversal_exists
passed = unfold find_row transaction_row is_successful_reversal in refl

reference_failure-IsFollowed_example : IsFollowed a_rollback done_bet known_db
reference_failure-IsFollowed_example =
    reference_failure-IsFollowed a_rollback done_bet known_db passed

backoff_lem_example :
    backoff policy (pos 3) ≡ (if ltb 1000 (100 * 2 ^ (3 - 1)) then 1000 else 100 * 2 ^ (3 - 1))
backoff_lem_example = backoff_lem policy (pos 3)
