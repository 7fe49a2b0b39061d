-- ===== src/Application/Idempotence/Known.antt =====
-- A command that the store knows (internal/application/wager_service.go): its transaction is found by
-- the idempotency key, and gives the result again.
use jungle_gaming_backend_te.Prelude.{
  ◌≡◌, true, false, Option, some, List, ◌∷◌, arith, inl, inr, str_eq, eq_refl, ◌&&◌, Bool-cases,
}
use jungle_gaming_backend_te.Errors.{Result-cases, ok}
use jungle_gaming_backend_te.Domain.Money.{no_money}
use jungle_gaming_backend_te.Domain.Transaction.{WagerTransaction}
use jungle_gaming_backend_te.Domain.Transaction.Storable.{snapshot, IsStorable}
use jungle_gaming_backend_te.Application.Contracts.{ProcessWagerCommand, ProcessWagerResult}
use jungle_gaming_backend_te.Application.Environment.{Environment, Call}
use jungle_gaming_backend_te.Application.WagerService.Process.{
  replay_result, wager_payload_hash, result_from,
}
use jungle_gaming_backend_te.Store.Tables.{Db, TransactionRow, InboxRow}
use jungle_gaming_backend_te.Store.Wallets.{lock_wallet, scan_found, find_wallet_row}
use jungle_gaming_backend_te.Store.Transactions.{
  same_column, transaction_row, find_row, scan_optional, find_by_idempotency,
}
use jungle_gaming_backend_te.Store.Transactions.RoundTrip.{scan_transaction-transaction_row}
use jungle_gaming_backend_te.Application.Idempotence.Answers.{IsAnswered}

module _ (env : Environment) (command : ProcessWagerCommand) where
  -- The command has a transaction, and the transaction gives the result `r`, marked as a replay.
  pub record IsKnown (r : ProcessWagerResult) (db : Db) : Type 0 where
    pub t : WagerTransaction
    pub found :
        find_by_idempotency env.parse_iso command.provider_id command.idempotency_key db
        ≡ ok (some t, db)
    pub same_hash : str_eq t.payload_hash (wager_payload_hash env command) ≡ true
    pub replays : replay_result env t db ≡ ok (record r { idempotent_replay = true }, db)

  find_row-transaction_row :
      (t : WagerTransaction) (rows : List TransactionRow)
      → find_row
          (λ r.
            same_column r.provider_id (some t.provider_id)
            && same_column r.idempotency_key (some t.idempotency_key))
          (transaction_row t ∷ rows)
        ≡ some (transaction_row t)
  unfolding find_row transaction_row
  find_row-transaction_row t rows = rw (eq_refl t.provider_id, eq_refl t.idempotency_key)

  pub scan_optional-transaction_row :
      (t : WagerTransaction)
      → IsStorable env.parse_iso (snapshot t)
      → (t.has_result_balance ≡ false → t.result_balance ≡ no_money)
      → scan_optional env.parse_iso (some (transaction_row t)) ≡ ok (some t)
  unfolding scan_optional
  scan_optional-transaction_row t storable absent =
      rw (scan_transaction-transaction_row env.parse_iso t storable absent)

  find_head :
      (t : WagerTransaction) (rows : List TransactionRow)
      → t.provider_id ≡ command.provider_id
      → t.idempotency_key ≡ command.idempotency_key
      → IsStorable env.parse_iso (snapshot t)
      → (t.has_result_balance ≡ false → t.result_balance ≡ no_money)
      → (db : Db) → db.transactions ≡ transaction_row t ∷ rows
      → find_by_idempotency env.parse_iso command.provider_id command.idempotency_key db
        ≡ ok (some t, db)
  unfolding find_by_idempotency
  find_head t rows provider key storable absent db stored =
      rw (stored, ← provider, ← key)
        (rw (find_row-transaction_row t rows)
          (rw (scan_optional-transaction_row t storable absent)))

  module _ (call : Call) where
    pub IsAnswered-IsKnown :
        (r : ProcessWagerResult) (rows : List TransactionRow) (box : List InboxRow) (db : Db)
        → IsAnswered env command call r rows box db
        → IsKnown r db
    IsAnswered-IsKnown r rows box db answered =
        let of = answered.of_command in
        record {
          t = answered.t;
          found =
              find_head answered.t rows of.provider_id of.idempotency_key of.storable
                answered.absent db answered.stored;
          same_hash = rw of.payload_hash (eq_refl (wager_payload_hash env command));
          replays = answered.replays;
        }

  replayed_wallet :
      (t : WagerTransaction) (db : Db) (r : ProcessWagerResult) (mid db' : Db)
      → t.has_result_balance ≡ false
      → replay_result env t db ≡ ok (r, mid)
      → db'.wallets ≡ db.wallets
      → (mid ≡ db)
        × (record r { idempotent_replay = true } ≡ r)
        × (replay_result env t db' ≡ ok (r, db'))
  unfolding replay_result result_from lock_wallet
  replayed_wallet t db r mid db' has_not h kept =
      elim (Result-cases (scan_found env.parse_iso (find_wallet_row t.wallet_id db.wallets))) [
        | inl (w, e) ↦ rw kept (ground (arith, has_not, e))
        | inr (x, e) ↦ ground (arith, has_not, e)
      ]

  -- The replay depends on the wallets alone.
  pub replay_result-eq-ok :
      (t : WagerTransaction) (db : Db) (r : ProcessWagerResult) (mid db' : Db)
      → replay_result env t db ≡ ok (r, mid)
      → db'.wallets ≡ db.wallets
      → (mid ≡ db)
        × (record r { idempotent_replay = true } ≡ r)
        × (replay_result env t db' ≡ ok (r, db'))
  unfolding replay_result result_from lock_wallet
  replay_result-eq-ok t db r mid db' h kept = elim (Bool-cases t.has_result_balance) [
    | inl has ↦ ground (arith, has)
    | inr has_not ↦ replayed_wallet t db r mid db' has_not h kept
  ]

  pub find_by_idempotency-eq-ok :
      (t : Option WagerTransaction) (db mid db' : Db)
      → find_by_idempotency env.parse_iso command.provider_id command.idempotency_key db
        ≡ ok (t, mid)
      → db'.transactions ≡ db.transactions
      → find_by_idempotency env.parse_iso command.provider_id command.idempotency_key db'
        ≡ ok (t, db')
  unfolding find_by_idempotency
  find_by_idempotency-eq-ok t db mid db' h kept =
      elim (Result-cases (
        scan_optional env.parse_iso (
          find_row
            (λ r.
              same_column r.provider_id (some command.provider_id)
              && same_column r.idempotency_key (some command.idempotency_key))
            db.transactions))) [
              | inl (w, e) ↦ rw kept (ground (arith, e))
              | inr (x, e) ↦ ground (arith, e)
            ]
