-- ===== src/Store/Books/Posting.antt =====
-- A posting: the row of a wallet and the entry of its ledger that are written together
-- (`UpdateWallet` and `InsertLedger`).
use jungle_gaming_backend_te.Prelude.{
  String, ◌≡◌, refl, ◌∙◌, sym, ap, inl, inr, true, false, ◌&&◌, some, List, ◌∷◌, str_eq, eq_iff,
  eq_refl, arith, if◌then◌else◌, Bool-cases,
}
use jungle_gaming_backend_te.Prelude.Int.{ℤ, pos, ◌+ℤ◌, int_laws, parts_of_eq}
use jungle_gaming_backend_te.Prelude.Word.{InInt64}
use jungle_gaming_backend_te.Domain.Wallet.{Wallet}
use jungle_gaming_backend_te.Store.Tables.{WalletRow, LedgerRow}
use jungle_gaming_backend_te.Store.Wallets.{
  find_wallet_row, update_wallet_rows, wallet_rows_affected,
}
use jungle_gaming_backend_te.Store.Ledger.{sum_where, is_credit, is_debit, is_counted}
use jungle_gaming_backend_te.Store.Books.{
  balance_in, IsBooked, find_updated, find_not_updated, update_wallet_rows-Distinct,
}

abbrev pub credited : LedgerRow → ℤ
credited e = if is_credit e.direction then e.money_minor else pos 0

abbrev pub debited : LedgerRow → ℤ
debited e = if is_debit e.direction then e.money_minor else pos 0

-- An entry that says how a wallet's balance changes.
pub record IsPosting (r : WalletRow) (w : Wallet) (e : LedgerRow) : Type 0 where
  pub wallet : e.wallet_id ≡ w.id
  pub currency : e.currency ≡ r.currency
  pub small : InInt64 w.balance.minor
  pub exact : r.balance_minor +ℤ credited e ≡ w.balance.minor +ℤ debited e

-- One equation is kept when both sides move by the entry.
moved_equation : (c b d b' x y : ℤ) → c ≡ b +ℤ d → b +ℤ x ≡ b' +ℤ y → x +ℤ c ≡ b' +ℤ (y +ℤ d)
moved_equation c b d b' x y h k = omega (int_laws, parts_of_eq h, parts_of_eq k)

kept_equation : (c b d : ℤ) → c ≡ b +ℤ d → pos 0 +ℤ c ≡ b +ℤ (pos 0 +ℤ d)
kept_equation c b d h = omega (int_laws, parts_of_eq h)

sums_counted :
    (id currency : String) (e : LedgerRow) (ledger : List LedgerRow)
    → is_counted id currency e ≡ true
    → (sum_where is_credit id currency (e ∷ ledger)
        ≡ credited e +ℤ sum_where is_credit id currency ledger)
      × (sum_where is_debit id currency (e ∷ ledger)
          ≡ debited e +ℤ sum_where is_debit id currency ledger)
unfolding sum_where
sums_counted id currency e ledger h = rw h (refl, refl)

sums_not_counted :
    (id currency : String) (e : LedgerRow) (ledger : List LedgerRow)
    → is_counted id currency e ≡ false
    → (sum_where is_credit id currency (e ∷ ledger)
        ≡ pos 0 +ℤ sum_where is_credit id currency ledger)
      × (sum_where is_debit id currency (e ∷ ledger)
          ≡ pos 0 +ℤ sum_where is_debit id currency ledger)
unfolding sum_where
sums_not_counted id currency e ledger h = rw h (refl, refl)

module _ (wallets : List WalletRow) (ledger : List LedgerRow) (r : WalletRow) (w : Wallet)
    (e : LedgerRow) (b : IsBooked wallets ledger) (one : wallet_rows_affected w wallets ≡ 1)
    (found : find_wallet_row w.id wallets ≡ some r) (p : IsPosting r w e) where
  posted_small :
      (id : String) (x : WalletRow)
      → find_wallet_row id (update_wallet_rows w wallets) ≡ some x
      → InInt64 x.balance_minor
  posted_small id x h = elim (Bool-cases (str_eq w.id id)) [
    | inl same ↦
        ground (arith, eq_iff w.id id, find_updated w wallets r b.distinct one found, p.small)
    | inr other ↦ b.small id x (sym (find_not_updated w id wallets other) ∙ h)
  ]

  counted_own : is_counted w.id r.currency e ≡ true
  counted_own =
      ground (arith, eq_iff e.wallet_id w.id, eq_iff e.currency r.currency, p.wallet, p.currency)

  own_before : balance_in r.currency (find_wallet_row w.id wallets) ≡ r.balance_minor
  unfolding balance_in
  own_before = rw (found, eq_refl r.currency)

  own_after :
      balance_in r.currency (find_wallet_row w.id (update_wallet_rows w wallets)) ≡ w.balance.minor
  unfolding balance_in
  own_after = rw (find_updated w wallets r b.distinct one found, eq_refl r.currency)

  posted_own :
      sum_where is_credit w.id r.currency (e ∷ ledger)
      ≡ balance_in r.currency (find_wallet_row w.id (update_wallet_rows w wallets))
        +ℤ sum_where is_debit w.id r.currency (e ∷ ledger)
  posted_own =
      let (credits, debits) = sums_counted w.id r.currency e ledger counted_own in
      rw (credits, debits, own_after)
        (moved_equation _ r.balance_minor _ _ (credited e) (debited e)
          (b.balanced w.id r.currency
            ∙ ap (λ x. x +ℤ sum_where is_debit w.id r.currency ledger) own_before)
          p.exact)

  other_balance :
      (id currency : String)
      → (str_eq w.id id && str_eq r.currency currency) ≡ false
      → balance_in currency (find_wallet_row id (update_wallet_rows w wallets))
        ≡ balance_in currency (find_wallet_row id wallets)
  unfolding balance_in
  other_balance id currency other = elim (Bool-cases (str_eq w.id id)) [
    | inl same ↦
        ground (arith, eq_iff w.id id, other, found, find_updated w wallets r b.distinct one found)
    | inr differs ↦ rw (find_not_updated w id wallets differs)
  ]

  posted_other :
      (id currency : String)
      → (str_eq w.id id && str_eq r.currency currency) ≡ false
      → sum_where is_credit id currency (e ∷ ledger)
        ≡ balance_in currency (find_wallet_row id (update_wallet_rows w wallets))
          +ℤ sum_where is_debit id currency (e ∷ ledger)
  posted_other id currency other =
      let apart : is_counted id currency e ≡ false = rw (p.wallet, p.currency) other in
      let (credits, debits) = sums_not_counted id currency e ledger apart in
      rw (credits, debits, other_balance id currency other)
        (kept_equation _ _ _ (b.balanced id currency))

  posted_balanced :
      (id currency : String)
      → sum_where is_credit id currency (e ∷ ledger)
        ≡ balance_in currency (find_wallet_row id (update_wallet_rows w wallets))
          +ℤ sum_where is_debit id currency (e ∷ ledger)
  posted_balanced id currency = elim (Bool-cases (str_eq w.id id && str_eq r.currency currency)) [
    | inl same ↦
        let is_own : (w.id ≡ id) × (r.currency ≡ currency) =
          ground (arith, eq_iff w.id id, eq_iff r.currency currency) in
        rw (← is_own.0, ← is_own.1) posted_own
    | inr other ↦ posted_other id currency other
  ]

  pub posted-IsBooked : IsBooked (update_wallet_rows w wallets) (e ∷ ledger)
  posted-IsBooked = record {
    distinct = update_wallet_rows-Distinct w wallets b.distinct;
    small = posted_small;
    balanced = posted_balanced;
  }
