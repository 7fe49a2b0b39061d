-- ===== src/Messaging/ReferenceWorker/Rounds.antt =====
-- The books and the wagers across the rounds of
-- internal/infrastructure/messaging/reference_worker.go.
use jungle_gaming_backend_te.Prelude.{
  ℕ, String, ◌≡◌, refl, ◌∙◌, sym, subst, List, [], ◌∷◌, map, Bool-cases, inl, inr,
}
use jungle_gaming_backend_te.Errors.{Result, ok, err}
use jungle_gaming_backend_te.Application.Environment.{Environment}
use jungle_gaming_backend_te.Application.WagerService.Pending.{
  resolve_pending_reference, record_pending_reference_failure,
}
use jungle_gaming_backend_te.Application.Bookkeeping.Columns.{
  fixed_columns, resolve_pending_reference-Fixes, record_pending_reference_failure-Fixes,
}
use jungle_gaming_backend_te.Application.Bookkeeping.Pending.{
  HasSmallAmounts, resolve_pending_reference-IsBooked, record_pending_reference_failure-Keeps,
}
use jungle_gaming_backend_te.Store.Books.{IsBooked}
use jungle_gaming_backend_te.Store.Tables.{Db, TransactionRow, Postgres}
use jungle_gaming_backend_te.Messaging.ReferenceWorker.{
  Attempt, Round, after_resolve, resolve_each, resolve_references, found_ids,
}

-- The amounts are among the columns that stay.
small_in_columns :
    (rows : List TransactionRow) → HasSmallAmounts rows → HasSmallAmounts (map fixed_columns rows)
small_in_columns [] small = tt
small_in_columns (r ∷ rows) (here, rest) = (here, small_in_columns rows rest)

small_by_columns :
    (rows : List TransactionRow) → HasSmallAmounts (map fixed_columns rows) → HasSmallAmounts rows
small_by_columns [] small = tt
small_by_columns (r ∷ rows) (here, rest) = (here, small_by_columns rows rest)

small_of_same :
    (rows rows' : List TransactionRow)
    → map fixed_columns rows' ≡ map fixed_columns rows
    → HasSmallAmounts rows
    → HasSmallAmounts rows'
small_of_same rows rows' same small =
    small_by_columns rows' (subst HasSmallAmounts (sym same) (small_in_columns rows small))

-- The books are kept, and the wagers are those of `rows`.
pub record IsSound (rows : List TransactionRow) (db : Db) : Type 0 where
  pub booked : IsBooked db.wallets db.ledger
  pub same_wagers : map fixed_columns db.transactions ≡ map fixed_columns rows

module _ (env : Environment) (rows : List TransactionRow) (small : HasSmallAmounts rows) where
  resolved-IsSound :
      (attempt : Attempt) (id : String) (db : Db)
      → IsSound rows db
      → IsSound rows (resolve_pending_reference env attempt.resolving id db).1
  resolved-IsSound attempt id db sound = record {
    booked =
        resolve_pending_reference-IsBooked env attempt.resolving id db
          (small_of_same rows db.transactions sound.same_wagers small) sound.booked;
    same_wagers = resolve_pending_reference-Fixes env attempt.resolving id db ∙ sound.same_wagers;
  }

  recorded-IsSound :
      (attempt : Attempt) (id : String) (db : Db)
      → IsSound rows db
      → IsSound rows (record_pending_reference_failure env attempt.recording id db).1
  recorded-IsSound attempt id db sound =
      let (w, l) = record_pending_reference_failure-Keeps env attempt.recording id db in
      record {
        booked = rw (w, l) sound.booked;
        same_wagers =
            record_pending_reference_failure-Fixes env attempt.recording id db ∙ sound.same_wagers;
      }

  after_resolve-IsSound :
      (attempt : Attempt) (id : String) (r : Result (Unit {0}) × Db)
      → IsSound rows r.1
      → IsSound rows (after_resolve env attempt id r)
  unfolding after_resolve
  after_resolve-IsSound attempt id (ok done, db) sound = sound
  after_resolve-IsSound attempt id (err e, db) sound = elim (Bool-cases attempt.stopped) [
    | inl stopped ↦ rw stopped sound
    | inr going ↦ rw going (recorded-IsSound attempt id db sound)
  ]

  resolve_each-IsSound :
      (attempt : String → Attempt) (ids : List String) (db : Db)
      → IsSound rows db
      → IsSound rows (resolve_each env attempt ids db)
  unfolding resolve_each
  resolve_each-IsSound attempt [] db sound = sound
  resolve_each-IsSound attempt (id ∷ ids) db sound =
      resolve_each-IsSound attempt ids _
        (after_resolve-IsSound (attempt id) id _ (resolved-IsSound (attempt id) id db sound))

  rounds-IsSound :
      (postgres : Postgres) (batch_size : ℕ) (rounds : List Round) (db : Db)
      → IsSound rows db
      → IsSound rows (resolve_references env postgres batch_size rounds db)
  unfolding resolve_references
  rounds-IsSound postgres batch_size [] db sound = sound
  rounds-IsSound postgres batch_size (round ∷ rounds) db sound =
      rounds-IsSound postgres batch_size rounds _ (
        resolve_each-IsSound round.attempt (found_ids postgres batch_size round db.transactions) db
          sound)

-- Where the amounts of the stored transactions are int64 and the tables hold distinct wallets with
-- int64 balances that are, in every currency, the credits of the ledger less its debits: after any
-- number of rounds of the worker, with calls that fail in between, the tables are again so, and they
-- hold the same transactions with the same identities, parties, amounts and named references.
pub resolve_references-IsSound :
    (env : Environment) (postgres : Postgres) (batch_size : ℕ) (rounds : List Round) (db : Db)
    → HasSmallAmounts db.transactions
    → IsBooked db.wallets db.ledger
    → IsSound db.transactions (resolve_references env postgres batch_size rounds db)
resolve_references-IsSound env postgres batch_size rounds db small booked =
    rounds-IsSound env db.transactions small postgres batch_size rounds db
      (record { booked = booked; same_wagers = refl })
