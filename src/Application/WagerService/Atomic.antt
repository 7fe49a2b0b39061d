-- ===== src/Application/WagerService/Atomic.antt =====
-- Failed calls of internal/application/wager_service.go, and the tables (`WithinTransaction`).
use jungle_gaming_backend_te.Prelude.{◌≡◌, refl, inl, inr, Bool-cases, arith}
use jungle_gaming_backend_te.Errors.{Error, err}
use jungle_gaming_backend_te.Application.Contracts.{ProcessWagerCommand}
use jungle_gaming_backend_te.Application.Environment.{Environment, Call}
use jungle_gaming_backend_te.Application.WagerService.Process.{process}
use jungle_gaming_backend_te.Store.Tables.{Db, Tx, within_transaction}

within_transaction-err :
    {A : Type 0} (m : Tx A) (db : Db) (e : Error)
    → (within_transaction m db).0 ≡ err e
    → (within_transaction m db).1 ≡ db
unfolding within_transaction
within_transaction-err m db e h = ground arith

module _ (env : Environment) (call : Call) (db : Db) where
  -- A call of `Process` that returns an error leaves all tables as they were.
  pub process-err :
      (command : ProcessWagerCommand) (e : Error)
      → (process env call command db).0 ≡ err e
      → (process env call command db).1 ≡ db
  unfolding process
  process-err command e h = elim (Bool-cases (env.valid_wager command)) [
    | inl valid ↦ rw valid (within_transaction-err _ db e (rw valid at h))
    | inr invalid ↦ rw invalid refl
  ]
