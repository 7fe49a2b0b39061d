-- ===== src/Application/Bookkeeping/Recording.antt =====
-- What `finalize` of internal/application/wager_service.go writes to the wallets and the ledger.
use jungle_gaming_backend_te.Prelude.{
  String, ◌≡◌, refl, ◌∙◌, sym, ap, subst, Bool, Option, none, some, arith, if◌then◌else◌, List, ◌∷◌,
}
use jungle_gaming_backend_te.Prelude.Int.{ℤ, pos, ◌+ℤ◌, ◌-ℤ◌, int_laws, parts_of_eq}
use jungle_gaming_backend_te.Prelude.Word.{InInt64}
use jungle_gaming_backend_te.Errors.{Result, ok, err}
use jungle_gaming_backend_te.Domain.Time.{Time}
use jungle_gaming_backend_te.Domain.Money.{Money}
use jungle_gaming_backend_te.Domain.Wallet.{Wallet, Movement, apply}
use jungle_gaming_backend_te.Domain.Wallet.Movements.{IsMovement}
use jungle_gaming_backend_te.Domain.LedgerEntry.{
  LedgerDirection, debit, credit, unknown, WalletLedgerEntry, new_wallet_ledger_entry,
}
use jungle_gaming_backend_te.Domain.Transaction.{WagerTransaction}
use jungle_gaming_backend_te.Application.Environment.{Call}
use jungle_gaming_backend_te.Store.Tables.{Db, WalletRow, LedgerRow, lift, ◌>>=◌}
use jungle_gaming_backend_te.Store.Wallets.{
  find_wallet_row, update_wallet, update_wallet_rows, wallet_rows_affected,
}
use jungle_gaming_backend_te.Store.Ledger.{ledger_row, insert_ledger, is_credit, is_debit}
use jungle_gaming_backend_te.Store.Books.{IsBooked}
use jungle_gaming_backend_te.Store.Books.Posting.{IsPosting, posted-IsBooked}
use jungle_gaming_backend_te.Application.WagerService.Settle.{record_movement}
use jungle_gaming_backend_te.Application.Bookkeeping.Keeps.{bind-eq-ok}
use jungle_gaming_backend_te.Application.Bookkeeping.Movements.{IsHeld, Changes}

-- An update that was made met one row.
update_wallet-made :
    (w : Wallet) (db db' : Db)
    → update_wallet w db ≡ ok (tt, db')
    → (wallet_rows_affected w db.wallets ≡ 1)
      × (db'.wallets ≡ update_wallet_rows w db.wallets)
      × (db'.ledger ≡ db.ledger)
unfolding update_wallet
update_wallet-made w db db' h = ground arith

pub insert_ledger-made :
    (e : WalletLedgerEntry) (db db' : Db)
    → insert_ledger e db ≡ ok (tt, db')
    → (db'.wallets ≡ db.wallets) × (db'.ledger ≡ ledger_row e ∷ db.ledger)
unfolding insert_ledger
insert_ledger-made e db db' h = ground arith

-- A step that does not touch the tables, taken apart.
lift-made :
    {A : Type 0} (r : Result A) (db db' : Db) (a : A)
    → lift r db ≡ ok (a, db')
    → (r ≡ ok a) × (db' ≡ db)
lift-made (ok x) db db' a h = ground arith
lift-made (err e) db db' a h = cc

module _ (parse_iso : String → Bool) where
  -- An entry that was accepted holds what it was made from.
  pub new_wallet_ledger_entry-made :
      (id wallet_id transaction_id : String) (d : LedgerDirection) (money before after : Money)
      (now : Time) (e : WalletLedgerEntry)
      → new_wallet_ledger_entry parse_iso id wallet_id transaction_id d money before after now
        ≡ ok e
      → (e.wallet_id ≡ wallet_id) × (e.direction ≡ d) × (e.money ≡ money)
  unfolding new_wallet_ledger_entry
  new_wallet_ledger_entry-made id wallet_id transaction_id d money before after now e h =
      ground arith

debit_exact : (b a m : ℤ) → a ≡ b -ℤ m → b +ℤ pos 0 ≡ a +ℤ m
debit_exact b a m h = omega (int_laws, parts_of_eq h)

credit_exact : (b a m : ℤ) → a ≡ b +ℤ m → b +ℤ m ≡ a +ℤ pos 0
credit_exact b a m h = omega (int_laws, parts_of_eq h)

pub IsBooked-at :
    {wallets wallets' : List WalletRow} {ledger ledger' : List LedgerRow}
    → wallets' ≡ wallets
    → ledger' ≡ ledger
    → IsBooked wallets ledger
    → IsBooked wallets' ledger'
IsBooked-at w l b = rw (w, l) b

exact_of :
    (d : LedgerDirection) (money : Money) (before after : ℤ)
    → Changes d before money after
    → before +ℤ (if is_credit d then money.minor else pos 0)
      ≡ after +ℤ (if is_debit d then money.minor else pos 0)
exact_of debit money before after h = debit_exact before after money.minor h
exact_of credit money before after h = credit_exact before after money.minor h
exact_of (unknown s) money before after h = absurd (omega arith)

module _ (parse_iso : String → Bool) (call : Call) (wallet : Wallet) (t : WagerTransaction)
    (v : Movement) where
  movement-IsPosting :
      IsMovement parse_iso wallet t.money call.now v
      → (d : LedgerDirection) (e : WalletLedgerEntry) (r : WalletRow)
      → Changes d wallet.balance.minor t.money v.after.minor
      → r.balance_minor ≡ wallet.balance.minor
      → r.currency ≡ wallet.balance.currency
      → e.wallet_id ≡ v.wallet.id
      → e.direction ≡ d
      → e.money ≡ t.money
      → IsPosting r v.wallet (ledger_row e)
  unfolding ledger_row apply
  movement-IsPosting made d e r changes minor currency owner direction money = record {
    wallet = owner;
    currency = ap (λ m. m.currency) money ∙ (made.amount_currency ∙ sym currency);
    small = subst (λ w. InInt64 w.balance.minor) (sym made.wallet) made.is_balance.small;
    exact = rw (direction, money, minor, made.wallet) (exact_of d t.money _ _ changes);
  }

  abbrev entry_of : LedgerDirection → Result WalletLedgerEntry
  entry_of d =
      new_wallet_ledger_entry parse_iso call.entry_id v.wallet.id t.id d t.money v.before v.after
        call.now

  -- The tables behind the two writes.
  pub record_movement-IsBooked :
      (direction : Option LedgerDirection) (db db' : Db)
      → ((d : LedgerDirection)
          → direction ≡ some d
          → IsMovement parse_iso wallet t.money call.now v
            × Changes d wallet.balance.minor t.money v.after.minor)
      → IsBooked db.wallets db.ledger
      → IsHeld parse_iso wallet db.wallets
      → record_movement parse_iso call direction t v db ≡ ok (tt, db')
      → IsBooked db'.wallets db'.ledger
  unfolding record_movement apply
  record_movement-IsBooked none db db' facts b held h =
      let same : db ≡ db' = ground arith in subst (λ x. IsBooked x.wallets x.ledger) same b
  record_movement-IsBooked (some d) db db' facts b held h =
      let (made, changes) = facts d refl in
      let (_, one, h1, h2) =
        bind-eq-ok (update_wallet v.wallet) (λ _. lift (entry_of d) >>= insert_ledger) db tt db'
          h in
      let (e, two, h3, h4) = bind-eq-ok (lift (entry_of d)) insert_ledger one tt db' h2 in
      let (affected, wallets, ledger) = update_wallet-made v.wallet db one h1 in
      let (entry, same) = lift-made (entry_of d) one two e h3 in
      let (kept, added) = insert_ledger-made e two db' h4 in
      let (owner, direction, money) =
        new_wallet_ledger_entry-made parse_iso call.entry_id v.wallet.id t.id d t.money v.before
          v.after call.now e entry in
      let found : find_wallet_row v.wallet.id db.wallets ≡ some held.row =
        rw made.wallet held.found in
      IsBooked-at (kept ∙ (ap (λ x. x.wallets) same ∙ wallets))
        (added ∙ ap (λ x. ledger_row e ∷ x) (ap (λ x. x.ledger) same ∙ ledger))
        (posted-IsBooked db.wallets db.ledger held.row v.wallet (ledger_row e) b affected found (
          movement-IsPosting made d e held.row changes held.minor held.currency owner direction
            money))
