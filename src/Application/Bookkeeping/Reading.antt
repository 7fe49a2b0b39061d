-- ===== src/Application/Bookkeeping/Reading.antt =====
-- What `LockWallet` of internal/infrastructure/postgres/store.go returns, and the tables.
use jungle_gaming_backend_te.Prelude.{
  String, ◌≡◌, ◌∙◌, sym, subst, inl, inr, Bool, false, some, arith, Option-cases,
}
use jungle_gaming_backend_te.Prelude.Int.{ℤ, pos, ltb_ℤ, ◌≤ℤ◌}
use jungle_gaming_backend_te.Prelude.Word.{InInt64}
use jungle_gaming_backend_te.Errors.{ok}
use jungle_gaming_backend_te.Domain.Money.{validate, new_money_from_minor, is_negative}
use jungle_gaming_backend_te.Domain.Wallet.{Wallet, rehydrate_wallet}
use jungle_gaming_backend_te.Store.Tables.{Db, WalletRow, Tx, ◌>>=◌}
use jungle_gaming_backend_te.Store.Wallets.{find_wallet_row, lock_wallet, scan_wallet, scan_found}
use jungle_gaming_backend_te.Store.Books.{IsBooked, find_wallet_row-id}
use jungle_gaming_backend_te.Application.Bookkeeping.Keeps.{bind-eq-ok}
use jungle_gaming_backend_te.Application.Bookkeeping.Leads.{Books, Leads}
use jungle_gaming_backend_te.Application.Bookkeeping.Movements.{IsHeld}

-- The books, and a wallet that is the one of the tables.
abbrev pub Holding : (String → Bool) → Wallet → Books
Holding parse_iso w wallets ledger = IsBooked wallets ledger × IsHeld parse_iso w wallets

nonneg_of : (z : ℤ) → ltb_ℤ z (pos 0) ≡ false → pos 0 ≤ℤ z
nonneg_of z h = ground arith

module _ (parse_iso : String → Bool) where
  pub scan_wallet-made :
      (r : WalletRow) (w : Wallet)
      → scan_wallet parse_iso r ≡ ok w
      → (w.id ≡ r.id)
        × (w.balance.minor ≡ r.balance_minor)
        × (w.balance.currency ≡ r.currency)
        × (ltb_ℤ w.balance.minor (pos 0) ≡ false)
        × (validate parse_iso w.balance ≡ ok tt)
  unfolding scan_wallet new_money_from_minor rehydrate_wallet is_negative validate
  scan_wallet-made r w h = ground arith

  lock_wallet-made :
      (id : String) (w : Wallet) (db db' : Db)
      → lock_wallet parse_iso id db ≡ ok (w, db')
      → (r : WalletRow) × (find_wallet_row id db.wallets ≡ some r)
        × (scan_wallet parse_iso r ≡ ok w)
        × (db ≡ db')
  unfolding lock_wallet scan_found
  lock_wallet-made id w db db' h = elim (Option-cases (find_wallet_row id db.wallets)) [
    | inl e ↦ ground (arith, e)
    | inr (r, e) ↦
        let rest : (scan_wallet parse_iso r ≡ ok w) × (db ≡ db') = ground (arith, e) in
        (r, e, rest.0, rest.1)
  ]

  pub scanned-IsHeld :
      (id : String) (w : Wallet) (db : Db) (r : WalletRow)
      → IsBooked db.wallets db.ledger
      → find_wallet_row id db.wallets ≡ some r
      → scan_wallet parse_iso r ≡ ok w
      → IsHeld parse_iso w db.wallets
  scanned-IsHeld id w db r b found scanned =
      let (same, minor, currency, sign, valid) = scan_wallet-made r w scanned in
      let known = find_wallet_row-id id db.wallets r found in
      record {
        row = r;
        found = subst (λ x. find_wallet_row x db.wallets ≡ some r) (sym known ∙ sym same) found;
        minor = sym minor;
        currency = sym currency;
        is_balance = record {
          nonneg = nonneg_of _ sign;
          small = subst InInt64 (sym minor) (b.small id r found);
          valid = valid;
        };
      }

  pub lock-Leads :
      {A : Type 0} (Q : Books) (id : String) (f : Wallet → Tx A)
      → ((w : Wallet) → Leads (Holding parse_iso w) Q (f w))
      → Leads IsBooked Q (lock_wallet parse_iso id >>= f)
  lock-Leads Q id f next db a db' b h =
      let (w, mid, h1, h2) = bind-eq-ok (lock_wallet parse_iso id) f db a db' h in
      let (r, found, scanned, same) = lock_wallet-made id w db mid h1 in
      next w mid a db'
        (subst (λ x. Holding parse_iso w x.wallets x.ledger) same
          (b, scanned-IsHeld id w db r b found scanned))
        h2
