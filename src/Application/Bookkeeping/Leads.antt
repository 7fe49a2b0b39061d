-- ===== src/Application/Bookkeeping/Leads.antt =====
-- Steps between conditions on the wallets and the ledger.
use jungle_gaming_backend_te.Prelude.{
  ◌≡◌, refl, sym, subst, inl, inr, Bool, true, false, List, arith, if◌then◌else◌,
}
use jungle_gaming_backend_te.Errors.{Result, ok, err, Error, Result-cases}
use jungle_gaming_backend_te.Store.Tables.{
  Db, WalletRow, LedgerRow, Tx, raise, lift, ◌>>=◌, within_transaction,
}
use jungle_gaming_backend_te.Application.Bookkeeping.Keeps.{Keeps, bind-eq-ok}

abbrev pub Books : Type 1
Books = List WalletRow → List LedgerRow → Type 0

-- A step that ends in `Q` where it starts in `P` and succeeds.
abbrev pub Leads : {A : Type 0} → Books → Books → Tx A → Type 0
Leads {A = A} P Q m =
    (db : Db) (a : A) (db' : Db)
    → P db.wallets db.ledger
    → m db ≡ ok (a, db')
    → Q db'.wallets db'.ledger

module _ (P : Books) where
  pub Keeps-Leads : {A : Type 0} (m : Tx A) → Keeps m → Leads P P m
  Keeps-Leads m keeps db a db' p h = let (w, l) = keeps db a db' h in rw (w, l) p

  module _ {A B : Type 0} (Q R : Books) (m : Tx A) (f : A → Tx B) where
    pub bind-Leads : Leads P R m → ((a : A) → Leads R Q (f a)) → Leads P Q (m >>= f)
    bind-Leads first second db b db' p h =
        let (a, mid, h1, h2) = bind-eq-ok m f db b db' h in
        second a mid b db' (first db a mid p h1) h2

  module _ (Q : Books) where
    pub raise-Leads : {A : Type 0} (e : Error) → Leads P Q (raise {A = A} e)
    raise-Leads e db a db' p h = cc

    pub if-Leads :
        {A : Type 0} (b : Bool) (m n : Tx A)
        → Leads P Q m
        → Leads P Q n
        → Leads P Q (if b then m else n)
    if-Leads true m n hm hn = hm
    if-Leads false m n hm hn = hn

    pub kept-Leads :
        {A B : Type 0} (m : Tx A) (f : A → Tx B)
        → Keeps m
        → ((a : A) → Leads P Q (f a))
        → Leads P Q (m >>= f)
    kept-Leads m f keeps next = bind-Leads Q P m f (Keeps-Leads m keeps) next

    pub then-Keeps-Leads :
        {A B : Type 0} (m : Tx A) (f : A → Tx B)
        → Leads P Q m
        → ((a : A) → Keeps (f a))
        → Leads P Q (m >>= f)
    then-Keeps-Leads m f first keeps db b db' p h =
        let (a, mid, h1, h2) = bind-eq-ok m f db b db' h in
        let (w, l) = keeps a mid b db' h2 in rw (w, l) (first db a mid p h1)

    pub lift-Leads :
        {A B : Type 0} (r : Result A) (f : A → Tx B)
        → ((a : A) → r ≡ ok a → Leads P Q (f a))
        → Leads P Q (lift r >>= f)
    lift-Leads (ok a) f next db b db' p h = next a refl db b db' p h
    lift-Leads (err e) f next db b db' p h = cc

-- A condition that holds already is met by a step that keeps the tables.
pub Keeps-into :
    (P Q : Books) {A : Type 0} (m : Tx A)
    → ((wallets : List WalletRow) (ledger : List LedgerRow) → P wallets ledger → Q wallets ledger)
    → Keeps m
    → Leads P Q m
Keeps-into P Q m weaker keeps db a db' p h =
    let (w, l) = keeps db a db' h in rw (w, l) (weaker db.wallets db.ledger p)

pub within-ok :
    {A : Type 0} (m : Tx A) (db : Db) (a : A) (db' : Db)
    → m db ≡ ok (a, db')
    → within_transaction m db ≡ (ok a, db')
unfolding within_transaction
within-ok m db a db' e = ground (arith, e)

pub within-err :
    {A : Type 0} (m : Tx A) (db : Db) (x : Error)
    → m db ≡ err x
    → within_transaction m db ≡ (err x, db)
unfolding within_transaction
within-err m db x e = ground (arith, e)

-- What a step keeps, its transaction keeps, committed or not.
pub within-Leads :
    (P : Books) {A : Type 0} (m : Tx A)
    → Leads P P m
    → (db : Db) → P db.wallets db.ledger
    → P (within_transaction m db).1.wallets (within_transaction m db).1.ledger
within-Leads P m leads db p = elim (Result-cases (m db)) [
  | inl ((a, db'), e) ↦
      subst (λ x. P x.1.wallets x.1.ledger) (sym (within-ok m db a db' e)) (leads db a db' p e)
  | inr (x, e) ↦ subst (λ x. P x.1.wallets x.1.ledger) (sym (within-err m db x e)) p
]
