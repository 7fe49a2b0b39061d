-- ===== src/Application/Bookkeeping/Columns.antt =====
-- The columns of transactions that the steps on a wager that waits leave alone
-- (`ResolvePendingReference` and `RecordPendingReferenceFailure` of
-- internal/application/wager_service.go).
use jungle_gaming_backend_te.Prelude.{
  String, ◌≡◌, refl, ◌∙◌, ap, inl, inr, Bool, true, false, Option, none, some, arith, Bool-cases,
  List, [], ◌∷◌, str_eq, map, if◌then◌else◌,
}
use jungle_gaming_backend_te.Prelude.Int.{pos}
use jungle_gaming_backend_te.Errors.{Error, Result, ok, err, insufficient_funds, Result-cases}
use jungle_gaming_backend_te.Domain.Wallet.{Wallet, Movement}
use jungle_gaming_backend_te.Domain.LedgerEntry.{LedgerDirection}
use jungle_gaming_backend_te.Domain.Transaction.{WagerTransaction, pending}
use jungle_gaming_backend_te.Application.Environment.{Environment, Call}
use jungle_gaming_backend_te.Application.WagerService.Settle.{
  save, reject_wager, complete, finish, finalize,
}
use jungle_gaming_backend_te.Application.WagerService.Pending.{
  pending_origin, try_again, reject_pending, settle_pending, use_pending_reference, wait_or_give_up,
  resolve_with, resolve_locked, within_resolve, resolve_pending_reference, give_up_pending,
  within_record_failure, record_pending_reference_failure,
}
use jungle_gaming_backend_te.Store.Tables.{
  Db, TransactionRow, Tx, pure, raise, lift, ◌>>=◌, within_transaction,
}
use jungle_gaming_backend_te.Store.Transactions.{
  updated_row, update_rows, update_transaction, lock_transaction,
}
use jungle_gaming_backend_te.Application.Bookkeeping.Keeps.{bind-eq-ok}
use jungle_gaming_backend_te.Application.Bookkeeping.Leads.{within-ok, within-err}
use jungle_gaming_backend_te.Application.Idempotence.Steps.{
  Reads, Spares, pure-Spares, lift-Spares, insert_outbox-Spares, record_movement-Spares,
  announce_movement-Spares, reference_failure-Reads, find_by_external_id-Reads, lock_wallet-Reads,
}

-- A row without the columns that an update sets: its identity, its parties, its amount and the
-- reference that it names.
abbrev pub fixed_columns : TransactionRow → TransactionRow
fixed_columns r = record r {
  reference_transaction_id = none;
  status = pending;
  failure_code = none;
  result_balance_minor = none;
  result_currency = none;
  attempt_count = pos 0;
  next_attempt_at = none;
  updated_at = 0;
}

-- A step that changes no other columns and neither adds nor removes a transaction.
abbrev pub Fixes : {A : Type 0} → Tx A → Type 0
Fixes {A = A} m =
    (db : Db) (a : A) (db' : Db)
    → m db ≡ ok (a, db')
    → map fixed_columns db'.transactions ≡ map fixed_columns db.transactions

module _ {A : Type 0} where
  Reads-Fixes : (m : Tx A) → Reads m → Fixes m
  Reads-Fixes m reads db a db' h = ap (λ x. map fixed_columns x.transactions) (reads db a db' h)

  Spares-Fixes : (m : Tx A) → Spares m → Fixes m
  Spares-Fixes m spares db a db' h = ap (map fixed_columns) (spares db a db' h).0

  raise-Fixes : (e : Error) → Fixes (raise {A = A} e)
  raise-Fixes e db a db' h = cc

  if-Fixes : (b : Bool) (m n : Tx A) → Fixes m → Fixes n → Fixes (if b then m else n)
  if-Fixes true m n hm hn = hm
  if-Fixes false m n hm hn = hn

module _ {A B : Type 0} where
  bind-Fixes : (m : Tx A) (f : A → Tx B) → Fixes m → ((a : A) → Fixes (f a)) → Fixes (m >>= f)
  bind-Fixes m f hm hf db b db' h =
      let (a, mid, first, second) = bind-eq-ok m f db b db' h in
      hf a mid b db' second ∙ hm db a mid first

lifted : {A : Type 0} (r : Result A) → Fixes (lift r)
lifted r = Spares-Fixes _ (lift-Spares r)

returned : {A : Type 0} (a : A) → Fixes (pure a)
returned a = Spares-Fixes _ (pure-Spares a)

updated_columns :
    (t : WagerTransaction) (rows : List TransactionRow)
    → map fixed_columns (update_rows t rows) ≡ map fixed_columns rows
unfolding update_rows updated_row
updated_columns t [] = refl
updated_columns t (r ∷ rows) = elim (Bool-cases (str_eq r.id t.id)) [
  | inl hit ↦ rw hit (ap (◌∷◌ (fixed_columns r)) (updated_columns t rows))
  | inr miss ↦ rw miss (ap (◌∷◌ (fixed_columns r)) (updated_columns t rows))
]

update_transaction-Fixes : (t : WagerTransaction) → Fixes (update_transaction t)
unfolding update_transaction
update_transaction-Fixes t db a db' h =
    let same : db'.transactions ≡ update_rows t db.transactions = ground arith in
    rw same (updated_columns t db.transactions)

module _ (env : Environment) (call : Call) where
  save-Fixes : (t u : WagerTransaction) → Fixes (save (pending_origin env call t) u)
  unfolding save
  save-Fixes t u = update_transaction-Fixes u

  reject_wager-Fixes :
      (t u : WagerTransaction) (code : String) (wallet : Wallet)
      → Fixes (reject_wager env.parse_iso call (pending_origin env call t) code u wallet)
  unfolding reject_wager
  reject_wager-Fixes t u code wallet = bind-Fixes _ _ (lifted _) λ rejected.
      bind-Fixes _ _ (save-Fixes t rejected)
        λ _. bind-Fixes _ _ (Spares-Fixes _ (insert_outbox-Spares _)) λ _. returned rejected

  complete-Fixes :
      (t u : WagerTransaction) (direction : Option LedgerDirection) (v : Movement)
      → Fixes (complete env.parse_iso call (pending_origin env call t) u direction v)
  unfolding complete
  complete-Fixes t u direction v = bind-Fixes _ _ (lifted _) λ done.
      bind-Fixes _ _ (save-Fixes t done) λ _.
        bind-Fixes _ _ (Spares-Fixes _ (record_movement-Spares env.parse_iso call direction done v))
          λ _. bind-Fixes _ _ (Spares-Fixes _ (insert_outbox-Spares _)) λ _.
            bind-Fixes _ _
              (Spares-Fixes _ (
                announce_movement-Spares env.parse_iso call (pending_origin env call t) direction
                  done v))
              λ _. returned (done, v.wallet)

  finish-Fixes :
      (t u : WagerTransaction) (wallet : Wallet) (r : Result (Option LedgerDirection × Movement))
      → Fixes (finish env.parse_iso call (pending_origin env call t) u wallet r)
  unfolding finish
  finish-Fixes t u wallet (ok (direction, v)) = complete-Fixes t u direction v
  finish-Fixes t u wallet (err insufficient_funds) =
      bind-Fixes _ _ (reject_wager-Fixes t u _ wallet) λ rejected. returned (rejected, wallet)
  finish-Fixes t u wallet (err e) = raise-Fixes e

  finalize-Fixes :
      (t : WagerTransaction) (wallet : Wallet) (reference : Option WagerTransaction)
      → Fixes (finalize env.parse_iso call (pending_origin env call t) t wallet reference)
  unfolding finalize
  finalize-Fixes t wallet reference = finish-Fixes t t wallet _

  reject_pending-Fixes :
      (code : String) (t : WagerTransaction) (wallet : Wallet)
      → Fixes (reject_pending env call code t wallet)
  unfolding reject_pending
  reject_pending-Fixes code t wallet =
      bind-Fixes _ _ (reject_wager-Fixes t t code wallet) λ _. returned tt

  try_again-Fixes : (t : WagerTransaction) → Fixes (try_again env call t)
  unfolding try_again
  try_again-Fixes t = bind-Fixes _ _ (lifted _) λ waiting. update_transaction-Fixes waiting

  settle_pending-Fixes :
      (t : WagerTransaction) (wallet : Wallet) (reference : Option WagerTransaction)
      → Fixes (settle_pending env call t wallet reference)
  unfolding settle_pending
  settle_pending-Fixes t wallet reference =
      bind-Fixes _ _ (Reads-Fixes _ (reference_failure-Reads t reference)) λ code.
        if-Fixes _ _ _ (reject_pending-Fixes code t wallet)
          (bind-Fixes _ _ (finalize-Fixes t wallet reference) λ _. returned tt)

  use_pending_reference-Fixes :
      (t : WagerTransaction) (wallet : Wallet) (reference : WagerTransaction)
      → Fixes (use_pending_reference env call t wallet reference)
  unfolding use_pending_reference
  use_pending_reference-Fixes t wallet reference =
      if-Fixes _ _ _ (reject_pending-Fixes _ t wallet)
        (settle_pending-Fixes t wallet (some reference))

  wait_or_give_up-Fixes :
      (t : WagerTransaction) (wallet : Wallet) → Fixes (wait_or_give_up env call t wallet)
  unfolding wait_or_give_up
  wait_or_give_up-Fixes t wallet =
      if-Fixes _ _ _ (reject_pending-Fixes _ t wallet) (try_again-Fixes t)

  resolve_with-Fixes :
      (t : WagerTransaction) (wallet : Wallet) (reference : Option WagerTransaction)
      → Fixes (resolve_with env call t wallet reference)
  unfolding resolve_with
  resolve_with-Fixes t wallet none = wait_or_give_up-Fixes t wallet
  resolve_with-Fixes t wallet (some reference) =
      if-Fixes _ _ _ (wait_or_give_up-Fixes t wallet) (
        bind-Fixes _ _ (lifted _) λ resolved. use_pending_reference-Fixes resolved wallet reference)

  resolve_locked-Fixes : (t : WagerTransaction) → Fixes (resolve_locked env call t)
  unfolding resolve_locked
  resolve_locked-Fixes t = if-Fixes _ _ _ (returned tt) (
      bind-Fixes _ _ (Reads-Fixes _ (lock_wallet-Reads env.parse_iso _)) λ wallet.
        bind-Fixes _ _ (Reads-Fixes _ (find_by_external_id-Reads env.parse_iso _ _))
          λ reference. resolve_with-Fixes t wallet reference)

  lock_transaction-Fixes : (id : String) → Fixes (lock_transaction env.parse_iso id)
  unfolding lock_transaction
  lock_transaction-Fixes id db = lifted _ db

  within_resolve-Fixes : (id : String) → Fixes (within_resolve env call id)
  unfolding within_resolve
  within_resolve-Fixes id = bind-Fixes _ _ (lock_transaction-Fixes id) resolve_locked-Fixes

  give_up_pending-Fixes :
      (t : WagerTransaction) (wallet : Wallet) → Fixes (give_up_pending env call t wallet)
  unfolding give_up_pending
  give_up_pending-Fixes t wallet = bind-Fixes _ _ (lifted _) λ failed.
      bind-Fixes _ _ (update_transaction-Fixes failed) λ _. Spares-Fixes _ (insert_outbox-Spares _)

  within_record_failure-Fixes : (id : String) → Fixes (within_record_failure env call id)
  unfolding within_record_failure
  within_record_failure-Fixes id = bind-Fixes _ _ (lock_transaction-Fixes id) λ t.
      if-Fixes _ _ _ (returned tt) (
        bind-Fixes _ _ (Reads-Fixes _ (lock_wallet-Reads env.parse_iso _))
          λ wallet. if-Fixes _ _ _ (try_again-Fixes t) (give_up_pending-Fixes t wallet))

within-Fixes :
    {A : Type 0} (m : Tx A) (db : Db)
    → Fixes m
    → map fixed_columns (within_transaction m db).1.transactions ≡ map fixed_columns db.transactions
within-Fixes m db fixes = elim (Result-cases (m db)) [
  | inl ((a, db'), e) ↦
      ap (λ x. map fixed_columns x.1.transactions) (within-ok m db a db' e) ∙ fixes db a db' e
  | inr (x, e) ↦ ap (λ x. map fixed_columns x.1.transactions) (within-err m db x e)
]

module _ (env : Environment) (call : Call) (id : String) (db : Db) where
  pub resolve_pending_reference-Fixes :
      map fixed_columns (resolve_pending_reference env call id db).1.transactions
      ≡ map fixed_columns db.transactions
  unfolding resolve_pending_reference
  resolve_pending_reference-Fixes = within-Fixes _ db (within_resolve-Fixes env call id)

  pub record_pending_reference_failure-Fixes :
      map fixed_columns (record_pending_reference_failure env call id db).1.transactions
      ≡ map fixed_columns db.transactions
  unfolding record_pending_reference_failure
  record_pending_reference_failure-Fixes =
      within-Fixes _ db (within_record_failure-Fixes env call id)
