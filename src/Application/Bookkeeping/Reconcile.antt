-- ===== src/Application/Bookkeeping/Reconcile.antt =====
-- The books and `Reconcile` of internal/application/wallet_service.go.
use jungle_gaming_backend_te.Prelude.{
  String, ◌≡◌, ◌∙◌, sym, ap, subst, Bool, true, false, some, arith, eq_refl,
}
use jungle_gaming_backend_te.Prelude.Int.{ℤ, pos, ◌+ℤ◌, ◌-ℤ◌, int_laws, parts_of_eq, eqb_ℤ, ◌≤ℤ◌}
use jungle_gaming_backend_te.Prelude.Word.{InInt64, fits, sub64, sub64_of_fits, min_int64}
use jungle_gaming_backend_te.Errors.{ok}
use jungle_gaming_backend_te.Domain.Money.{
  Money, is_zero, new_money_from_minor, subtract, validate, compatible,
}
use jungle_gaming_backend_te.Domain.Money.Arith.{subtract_lem}
use jungle_gaming_backend_te.Domain.Wallet.{Wallet}
use jungle_gaming_backend_te.Domain.Wallet.Movements.{IsBalance}
use jungle_gaming_backend_te.Application.Contracts.{ReconciliationView, view_money}
use jungle_gaming_backend_te.Application.WalletService.{compared, reconcile}
use jungle_gaming_backend_te.Store.Tables.{Db, WalletRow, lift}
use jungle_gaming_backend_te.Store.Wallets.{find_wallet_row, read_wallet, scan_wallet, scan_found}
use jungle_gaming_backend_te.Store.Ledger.{sum_where, is_credit, is_debit, sum_ledger, count_where}
use jungle_gaming_backend_te.Store.Books.{IsBooked, balance_in}
use jungle_gaming_backend_te.Application.Bookkeeping.Keeps.{bind_ok}
use jungle_gaming_backend_te.Application.Bookkeeping.Leads.{within-ok}
use jungle_gaming_backend_te.Application.Bookkeeping.Reading.{scanned-IsHeld, scan_wallet-made}

difference_of : (c b d : ℤ) → c ≡ b +ℤ d → c -ℤ d ≡ b
difference_of c b d h = omega (int_laws, parts_of_eq h)

no_difference : (b : ℤ) → b -ℤ b ≡ pos 0
no_difference b = omega int_laws

not_least : (b : ℤ) → pos 0 ≤ℤ b → eqb_ℤ b min_int64 ≡ false
not_least b h = ground arith

-- The view of a wallet that agrees with its ledger.
abbrev pub agreeing : Wallet → ℤ → ReconciliationView
agreeing w count = record {
  wallet_id = w.id;
  stored_balance = view_money w.balance;
  calculated_balance = view_money w.balance;
  difference = view_money (record { minor = pos 0; currency = w.balance.currency });
  consistent = true;
  checked_entries = count;
}

module _ (parse_iso : String → Bool) where
  compatible_itself : (m : Money) → validate parse_iso m ≡ ok tt → compatible parse_iso m m ≡ ok tt
  unfolding compatible
  compatible_itself m h = rw (h, eq_refl m.currency)

  subtract_itself :
      (m : Money)
      → IsBalance parse_iso m
      → subtract parse_iso m m ≡ ok (record { minor = pos 0; currency = m.currency })
  subtract_itself m b =
      rw (subtract_lem parse_iso m m b.small b.small) (
        rw
          (b.valid, not_least m.minor b.nonneg, compatible_itself m b.valid, no_difference m.minor))

  new_money_of_valid :
      (m : Money)
      → validate parse_iso m ≡ ok tt
      → new_money_from_minor parse_iso m.minor m.currency ≡ ok m
  unfolding validate new_money_from_minor
  new_money_of_valid m h = ground (arith, h)

  -- Sums whose difference is the balance compare as consistent.
  compared-agreeing :
      (w : Wallet) (credits debits count : ℤ)
      → IsBalance parse_iso w.balance
      → credits -ℤ debits ≡ w.balance.minor
      → compared parse_iso w (credits, debits, count) ≡ ok (agreeing w count)
  unfolding compared is_zero
  compared-agreeing w credits debits count b h =
      let exact : sub64 credits debits ≡ w.balance.minor =
        sub64_of_fits credits debits (subst InInt64 (sym h) b.small) ∙ h in
      rw exact (rw (new_money_of_valid w.balance b.valid) (rw (subtract_itself w.balance b)))

  own_balance :
      (currency : String) (r : WalletRow)
      → r.currency ≡ currency
      → balance_in currency (some r) ≡ r.balance_minor
  unfolding balance_in
  own_balance currency r h = rw (h, eq_refl currency)

  read_ok :
      (id : String) (db : Db) (r : WalletRow) (w : Wallet)
      → find_wallet_row id db.wallets ≡ some r
      → scan_wallet parse_iso r ≡ ok w
      → read_wallet parse_iso id db ≡ ok (w, db)
  unfolding read_wallet scan_found
  read_ok id db r w found scanned = rw (found, scanned)

  sum_ok :
      (id currency : String) (db : Db)
      → fits (sum_where is_credit id currency db.ledger) ≡ true
      → fits (sum_where is_debit id currency db.ledger) ≡ true
      → sum_ledger id currency db
        ≡ ok (
          (
            sum_where is_credit id currency db.ledger,
            sum_where is_debit id currency db.ledger,
            pos (count_where id currency db.ledger),
          ),
          db,
        )
  unfolding sum_ledger
  sum_ok id currency db c d = ground (arith, c, d)

  -- Where the books are kept, `Reconcile` of a wallet that can be read, with sums of its ledger that
  -- fit an int64, returns the view that finds no difference, and changes nothing.
  pub reconcile-IsBooked :
      (id : String) (db : Db) (r : WalletRow) (w : Wallet)
      → IsBooked db.wallets db.ledger
      → find_wallet_row id db.wallets ≡ some r
      → scan_wallet parse_iso r ≡ ok w
      → fits (sum_where is_credit id w.balance.currency db.ledger) ≡ true
      → fits (sum_where is_debit id w.balance.currency db.ledger) ≡ true
      → reconcile parse_iso id db
        ≡ (ok (agreeing w (pos (count_where id w.balance.currency db.ledger))), db)
  unfolding reconcile
  reconcile-IsBooked id db r w b found scanned small_credits small_debits =
      let held = scanned-IsHeld parse_iso id w db r b found scanned in
      let (same, minor, currency, sign, valid) = scan_wallet-made parse_iso r w scanned in
      let balance : balance_in w.balance.currency (find_wallet_row id db.wallets)
          ≡ w.balance.minor =
        ap (balance_in w.balance.currency) found
        ∙ (own_balance w.balance.currency r (sym currency) ∙ sym minor) in
      let exact = difference_of _ w.balance.minor _ (
        b.balanced id w.balance.currency
        ∙ ap (λ x. x +ℤ sum_where is_debit id w.balance.currency db.ledger) balance) in
      let sums : ℤ × ℤ × ℤ = (_, _, pos (count_where id w.balance.currency db.ledger)) in
      let last = compared-agreeing w _ _ sums.2 held.is_balance exact in
      within-ok _ db _ db (
        bind_ok (read_wallet parse_iso id) _ db w db (read_ok id db r w found scanned)
        ∙ (bind_ok (sum_ledger id w.balance.currency) _ db sums db
              (sum_ok id _ db small_credits small_debits)
            ∙ ap (λ x. lift x db) last))
