-- ===== src/Application/Idempotence/Steps.antt =====
-- The steps of internal/application/wager_service.go by what they leave of the transactions and of the
-- inbox.
use jungle_gaming_backend_te.Prelude.{String, ◌≡◌, ◌∙◌, Bool, Option, none, some, ◌∷◌, arith}
use jungle_gaming_backend_te.Errors.{Result, ok, err}
use jungle_gaming_backend_te.Domain.Wallet.{Wallet, Movement}
use jungle_gaming_backend_te.Domain.LedgerEntry.{LedgerDirection, WalletLedgerEntry}
use jungle_gaming_backend_te.Domain.Transaction.{WagerTransaction}
use jungle_gaming_backend_te.Application.Events.{OutboxEvent}
use jungle_gaming_backend_te.Application.Environment.{Call}
use jungle_gaming_backend_te.Application.WagerService.Settle.{
  Origin, record_movement, announce_movement, reference_failure, reversal_code, pending_event,
}
use jungle_gaming_backend_te.Store.Tables.{Db, Tx, pure, lift, ◌>>=◌}
use jungle_gaming_backend_te.Store.Wallets.{lock_wallet, update_wallet}
use jungle_gaming_backend_te.Store.Ledger.{insert_ledger}
use jungle_gaming_backend_te.Store.Transactions.{
  find_by_external_id, find_by_idempotency, successful_reversal_exists, insert_transaction,
  insert_row, transaction_row,
}
use jungle_gaming_backend_te.Store.Outbox.{insert_outbox}
use jungle_gaming_backend_te.Application.Bookkeeping.Keeps.{bind-eq-ok}

-- A step that changes no table, wherever it succeeds.
abbrev pub Reads : {A : Type 0} → Tx A → Type 0
Reads {A = A} m = (db : Db) (a : A) (db' : Db) → m db ≡ ok (a, db') → db' ≡ db

-- A step that leaves the transactions and the inbox.
abbrev pub Spares : {A : Type 0} → Tx A → Type 0
Spares {A = A} m =
    (db : Db) (a : A) (db' : Db)
    → m db ≡ ok (a, db')
    → (db'.transactions ≡ db.transactions) × (db'.inbox ≡ db.inbox)

module _ {A : Type 0} where
  pub lift-Reads : (r : Result A) → Reads (lift r)
  lift-Reads (ok a) db x db' h = ground arith
  lift-Reads (err e) db x db' h = cc

  pub pure-Spares : (a : A) → Spares (pure a)
  pure-Spares a db x db' h = ground arith

  pub lift-Spares : (r : Result A) → Spares (lift r)
  lift-Spares (ok a) db x db' h = ground arith
  lift-Spares (err e) db x db' h = cc

module _ {A B : Type 0} where
  pub bind-Spares :
      (m : Tx A) (f : A → Tx B) → Spares m → ((a : A) → Spares (f a)) → Spares (m >>= f)
  bind-Spares m f hm hf db b db' h =
      let (a, mid, first, second) = bind-eq-ok m f db b db' h in
      let (t, i) = hm db a mid first in let (t', i') = hf a mid b db' second in (t' ∙ t, i' ∙ i)

module _ {A : Type 0} (x : A) where
  -- A step that returns `x` and leaves the transactions and the inbox.
  abbrev pub Ends : Tx A → Type 0
  Ends m =
      (db : Db) (a : A) (db' : Db)
      → m db ≡ ok (a, db')
      → (x ≡ a) × (db'.transactions ≡ db.transactions) × (db'.inbox ≡ db.inbox)

  pub pure-Ends : Ends (pure x)
  pure-Ends db a db' h = ground arith

  pub bind-Ends :
      {B : Type 0} (m : Tx B) (f : B → Tx A) → Spares m → ((b : B) → Ends (f b)) → Ends (m >>= f)
  bind-Ends m f hm hf db a db' h =
      let (b, mid, first, second) = bind-eq-ok m f db a db' h in
      let (t, i) = hm db b mid first in
      let (same, t', i') = hf b mid a db' second in (same, t' ∙ t, i' ∙ i)

-- A step that returns `x` and puts a transaction in front of the others.
abbrev pub Stores : WagerTransaction → {A : Type 0} → A → Tx A → Type 0
Stores t {A = A} x m =
    (db : Db) (a : A) (db' : Db)
    → m db ≡ ok (a, db')
    → (x ≡ a) × (db'.transactions ≡ transaction_row t ∷ db.transactions) × (db'.inbox ≡ db.inbox)

pub insert_transaction-eq-ok :
    (t : WagerTransaction) (db db' : Db)
    → insert_transaction t db ≡ ok (tt, db')
    → (db'.transactions ≡ transaction_row t ∷ db.transactions) × (db'.inbox ≡ db.inbox)
unfolding insert_transaction insert_row
insert_transaction-eq-ok t db db' h = ground arith

pub insert-Stores :
    (t : WagerTransaction) {A : Type 0} (x : A) (f : Unit {0} → Tx A)
    → ((u : Unit {0}) → Ends x (f u))
    → Stores t x (insert_transaction t >>= f)
insert-Stores t x f ends db a db' h =
    let (u, mid, first, second) = bind-eq-ok (insert_transaction t) f db a db' h in
    let (ts, ib) = insert_transaction-eq-ok t db mid first in
    let (same, ts', ib') = ends u mid a db' second in (same, ts' ∙ ts, ib' ∙ ib)

pub insert_outbox-Spares : (e : OutboxEvent) → Spares (insert_outbox e)
unfolding insert_outbox
insert_outbox-Spares e db a db' h = ground arith

pub pending_event-Spares :
    (call : Call) (origin : Origin) (t : WagerTransaction) → Spares (pending_event call origin t)
unfolding pending_event
pending_event-Spares call origin t = insert_outbox-Spares _

update_wallet-Spares : (w : Wallet) → Spares (update_wallet w)
unfolding update_wallet
update_wallet-Spares w db a db' h = ground arith

insert_ledger-Spares : (e : WalletLedgerEntry) → Spares (insert_ledger e)
unfolding insert_ledger
insert_ledger-Spares e db a db' h = ground arith

pub reference_failure-Reads :
    (t : WagerTransaction) (reference : Option WagerTransaction)
    → Reads (reference_failure t reference)
unfolding reference_failure reversal_code successful_reversal_exists
reference_failure-Reads t none db a db' h = ground arith
reference_failure-Reads t (some reference) db a db' h = ground arith

module _ (parse_iso : String → Bool) where
  pub find_by_external_id-Reads :
      (provider_id id : String) → Reads (find_by_external_id parse_iso provider_id id)
  unfolding find_by_external_id
  find_by_external_id-Reads provider_id id db = lift-Reads _ db

  pub find_by_idempotency-Reads :
      (provider_id id : String) → Reads (find_by_idempotency parse_iso provider_id id)
  unfolding find_by_idempotency
  find_by_idempotency-Reads provider_id id db = lift-Reads _ db

  pub lock_wallet-Reads : (id : String) → Reads (lock_wallet parse_iso id)
  unfolding lock_wallet
  lock_wallet-Reads id db = lift-Reads _ db

  module _ (call : Call) where
    pub record_movement-Spares :
        (direction : Option LedgerDirection) (t : WagerTransaction) (v : Movement)
        → Spares (record_movement parse_iso call direction t v)
    unfolding record_movement
    record_movement-Spares none t v = pure-Spares tt
    record_movement-Spares (some d) t v =
        bind-Spares _ _ (update_wallet-Spares v.wallet)
          λ _. bind-Spares _ _ (lift-Spares _) λ entry. insert_ledger-Spares entry

    pub announce_movement-Spares :
        (origin : Origin) (direction : Option LedgerDirection) (t : WagerTransaction) (v : Movement)
        → Spares (announce_movement parse_iso call origin direction t v)
    unfolding announce_movement
    announce_movement-Spares origin none t v = pure-Spares tt
    announce_movement-Spares origin (some d) t v = insert_outbox-Spares _

pub lock_wallet-eq-ok :
    (parse_iso : String → Bool) (id : String) (w : Wallet) (db db' : Db)
    → lock_wallet parse_iso id db ≡ ok (w, db)
    → db'.wallets ≡ db.wallets
    → lock_wallet parse_iso id db' ≡ ok (w, db')
unfolding lock_wallet
lock_wallet-eq-ok parse_iso id w db db' h same = rw same (ground (arith, h))
