-- ===== src/Application/Bookkeeping/Keeps.antt =====
-- The steps of internal/application/wager_service.go that touch neither wallets nor ledger.
use jungle_gaming_backend_te.Prelude.{
  String, ◌≡◌, ◌∙◌, inl, inr, Bool, true, false, arith, if◌then◌else◌,
}
use jungle_gaming_backend_te.Errors.{Error, Result, ok, err, Result-cases}
use jungle_gaming_backend_te.Domain.Transaction.{WagerTransaction}
use jungle_gaming_backend_te.Domain.Time.{Time}
use jungle_gaming_backend_te.Application.Contracts.{InboxInput}
use jungle_gaming_backend_te.Application.Events.{OutboxEvent}
use jungle_gaming_backend_te.Store.Tables.{Db, TransactionRow, Tx, pure, raise, lift, ◌>>=◌}
use jungle_gaming_backend_te.Store.Transactions.{
  insert_row, insert_transaction, update_transaction, successful_reversal_exists,
  find_by_external_id, find_by_idempotency, lock_transaction,
}
use jungle_gaming_backend_te.Store.Wallets.{lock_wallet}
use jungle_gaming_backend_te.Store.Inbox.{claim_inbox, complete_inbox}
use jungle_gaming_backend_te.Store.Outbox.{insert_outbox}

-- A step that leaves the wallets and the ledger as they are, wherever it succeeds.
abbrev pub Keeps : {A : Type 0} → Tx A → Type 0
Keeps {A = A} m =
    (db : Db) (a : A) (db' : Db)
    → m db ≡ ok (a, db')
    → (db'.wallets ≡ db.wallets) × (db'.ledger ≡ db.ledger)

module _ {A B : Type 0} where
  pub bind-eq-ok :
      (m : Tx A) (f : A → Tx B) (db : Db) (b : B) (db' : Db)
      → (m >>= f) db ≡ ok (b, db')
      → (a : A) × (mid : Db) × (m db ≡ ok (a, mid)) × (f a mid ≡ ok (b, db'))
  bind-eq-ok m f db b db' h = elim (Result-cases (m db)) [
    | inl ((a, mid), e) ↦ (a, mid, e, ground (arith, e))
    | inr (x, e) ↦ ground (arith, e)
  ]

  pub bind_ok :
      (m : Tx A) (f : A → Tx B) (db : Db) (a : A) (mid : Db)
      → m db ≡ ok (a, mid)
      → (m >>= f) db ≡ f a mid
  bind_ok m f db a mid h = ground (arith, h)

  pub bind-Keeps : (m : Tx A) (f : A → Tx B) → Keeps m → ((a : A) → Keeps (f a)) → Keeps (m >>= f)
  bind-Keeps m f hm hf db b db' h =
      let (a, mid, first, second) = bind-eq-ok m f db b db' h in
      let (w, l) = hm db a mid first in let (w', l') = hf a mid b db' second in (w' ∙ w, l' ∙ l)

module _ {A : Type 0} where
  pub pure-Keeps : (a : A) → Keeps (pure a)
  pure-Keeps a db x db' h = ground arith

  pub raise-Keeps : (e : Error) → Keeps (raise {A = A} e)
  raise-Keeps e db x db' h = cc

  pub lift-Keeps : (r : Result A) → Keeps (lift r)
  lift-Keeps (ok a) db x db' h = ground arith
  lift-Keeps (err e) db x db' h = cc

pub insert_row-Keeps : (r : TransactionRow) → Keeps (insert_row r)
unfolding insert_row
insert_row-Keeps r db a db' h = ground arith

pub insert_transaction-Keeps : (t : WagerTransaction) → Keeps (insert_transaction t)
unfolding insert_transaction
insert_transaction-Keeps t = insert_row-Keeps _

pub update_transaction-Keeps : (t : WagerTransaction) → Keeps (update_transaction t)
unfolding update_transaction
update_transaction-Keeps t db a db' h = ground arith

pub insert_outbox-Keeps : (e : OutboxEvent) → Keeps (insert_outbox e)
unfolding insert_outbox
insert_outbox-Keeps e db a db' h = ground arith

pub complete_inbox-Keeps : (input : InboxInput) (now : Time) → Keeps (complete_inbox input now)
unfolding complete_inbox
complete_inbox-Keeps input now db a db' h = ground arith

pub claim_inbox-Keeps : (input : InboxInput) (now : Time) → Keeps (claim_inbox input now)
unfolding claim_inbox
claim_inbox-Keeps input now db a db' h = ground arith

pub successful_reversal_exists-Keeps : (id : String) → Keeps (successful_reversal_exists id)
unfolding successful_reversal_exists
successful_reversal_exists-Keeps id db a db' h = ground arith

module _ (parse_iso : String → Bool) where
  pub find_by_external_id-Keeps :
      (provider_id id : String) → Keeps (find_by_external_id parse_iso provider_id id)
  unfolding find_by_external_id
  find_by_external_id-Keeps provider_id id db = lift-Keeps _ db

  pub find_by_idempotency-Keeps :
      (provider_id id : String) → Keeps (find_by_idempotency parse_iso provider_id id)
  unfolding find_by_idempotency
  find_by_idempotency-Keeps provider_id id db = lift-Keeps _ db

  pub lock_transaction-Keeps : (id : String) → Keeps (lock_transaction parse_iso id)
  unfolding lock_transaction
  lock_transaction-Keeps id db = lift-Keeps _ db

  pub lock_wallet-Keeps : (id : String) → Keeps (lock_wallet parse_iso id)
  unfolding lock_wallet
  lock_wallet-Keeps id db = lift-Keeps _ db

-- A guard on a step.
pub if-Keeps : {A : Type 0} (b : Bool) (m n : Tx A) → Keeps m → Keeps n → Keeps (if b then m else n)
if-Keeps true m n hm hn = hm
if-Keeps false m n hm hn = hn
