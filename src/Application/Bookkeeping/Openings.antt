-- ===== src/Application/Bookkeeping/Openings.antt =====
-- The books while `Create` of internal/application/wallet_service.go has written the wallet, and not
-- yet its opening.
use jungle_gaming_backend_te.Prelude.{
  String, ◌≡◌, subst, inl, inr, Bool, true, false, ◌&&◌, none, some, arith, if◌then◌else◌, eq_iff,
  Bool-cases, List, ◌∷◌, str_eq,
}
use jungle_gaming_backend_te.Prelude.Int.{ℤ, pos, ◌+ℤ◌, int_laws, parts_of_eq, eqb_ℤ, eqb_ℤ_iff}
use jungle_gaming_backend_te.Prelude.Word.{InInt64}
use jungle_gaming_backend_te.Domain.Money.{is_zero}
use jungle_gaming_backend_te.Domain.Wallet.{Wallet}
use jungle_gaming_backend_te.Domain.LedgerEntry.{credit}
use jungle_gaming_backend_te.Store.Tables.{WalletRow, LedgerRow}
use jungle_gaming_backend_te.Store.Wallets.{find_wallet_row, wallet_row, wallet_taken}
use jungle_gaming_backend_te.Store.Ledger.{sum_where, is_credit, is_debit}
use jungle_gaming_backend_te.Store.Books.{IsBooked, balance_in, wallet_taken-find, Distinct}

-- The books of a wallet that is new: its row is there, and the ledger still lacks its balance.
pub record IsOpening (w : Wallet) (wallets : List WalletRow) (ledger : List LedgerRow)
    : Type 0 where
  pub distinct : Distinct wallets
  pub small :
      (id : String) (r : WalletRow) → find_wallet_row id wallets ≡ some r → InInt64 r.balance_minor
  pub lacking :
      (id currency : String)
      → (if str_eq w.id id && str_eq w.balance.currency currency then w.balance.minor else pos 0)
          +ℤ sum_where is_credit id currency ledger
        ≡ balance_in currency (find_wallet_row id wallets) +ℤ sum_where is_debit id currency ledger

lacking_equation : (c d x : ℤ) → c ≡ pos 0 +ℤ d → x +ℤ c ≡ x +ℤ d
lacking_equation c d x h = omega (int_laws, parts_of_eq h)

kept_equation : (c b d : ℤ) → c ≡ b +ℤ d → pos 0 +ℤ c ≡ b +ℤ d
kept_equation c b d h = omega (int_laws, parts_of_eq h)

module _ (w : Wallet) (wallets : List WalletRow) (ledger : List LedgerRow)
    (b : IsBooked wallets ledger) (small : InInt64 w.balance.minor)
    (free : wallet_taken (wallet_row w) wallets ≡ false) where
  fresh : find_wallet_row w.id wallets ≡ none
  unfolding wallet_row
  fresh = wallet_taken-find (wallet_row w) wallets free

  settled_before :
      (id currency : String)
      → str_eq w.id id ≡ true
      → sum_where is_credit id currency ledger ≡ pos 0 +ℤ sum_where is_debit id currency ledger
  unfolding balance_in
  settled_before id currency same =
      let none_found : find_wallet_row id wallets ≡ none =
        subst (λ x. find_wallet_row x wallets ≡ none) ((eq_iff w.id id).0 same) fresh in
      subst
        (λ x.
          sum_where is_credit id currency ledger
          ≡ balance_in currency x +ℤ sum_where is_debit id currency ledger)
        none_found (b.balanced id currency)

  new_lacking :
      (id currency : String)
      → (if str_eq w.id id && str_eq w.balance.currency currency then w.balance.minor else pos 0)
          +ℤ sum_where is_credit id currency ledger
        ≡ balance_in currency (find_wallet_row id (wallet_row w ∷ wallets))
          +ℤ sum_where is_debit id currency ledger
  unfolding find_wallet_row balance_in wallet_row
  new_lacking id currency = elim (Bool-cases (str_eq w.id id)) [
    | inl same ↦ rw same (
        lacking_equation _ _ (if str_eq w.balance.currency currency then w.balance.minor else pos 0)
          (settled_before id currency same))
    | inr other ↦ rw other (kept_equation _ _ _ (b.balanced id currency))
  ]

  new_small :
      (id : String) (r : WalletRow)
      → find_wallet_row id (wallet_row w ∷ wallets) ≡ some r
      → InInt64 r.balance_minor
  unfolding find_wallet_row wallet_row
  new_small id r h = elim (Bool-cases (str_eq w.id id)) [
    | inl same ↦ ground (arith, same, small)
    | inr other ↦ b.small id r (ground (arith, other))
  ]

  pub inserted-IsOpening : IsOpening w (wallet_row w ∷ wallets) ledger
  unfolding wallet_row
  inserted-IsOpening = record {
    distinct = (fresh, b.distinct);
    small = new_small;
    lacking = new_lacking;
  }

opened_equation : (l b d : ℤ) → l ≡ b +ℤ d → l ≡ b +ℤ (pos 0 +ℤ d)
opened_equation l b d h = omega (int_laws, parts_of_eq h)

zero_equation : (c b d x : ℤ) → eqb_ℤ x (pos 0) ≡ true → x +ℤ c ≡ b +ℤ d → c ≡ b +ℤ d
zero_equation c b d x z h = omega (int_laws, parts_of_eq h, parts_of_eq ((eqb_ℤ_iff x (pos 0)).0 z))

plain_equation : (c b d : ℤ) → pos 0 +ℤ c ≡ b +ℤ d → c ≡ b +ℤ d
plain_equation c b d h = omega (int_laws, parts_of_eq h)

module _ (w : Wallet) (wallets : List WalletRow) (ledger : List LedgerRow)
    (o : IsOpening w wallets ledger) where
  lacking_at :
      (id currency : String) (b : Bool)
      → (str_eq w.id id && str_eq w.balance.currency currency) ≡ b
      → (if b then w.balance.minor else pos 0) +ℤ sum_where is_credit id currency ledger
        ≡ balance_in currency (find_wallet_row id wallets) +ℤ sum_where is_debit id currency ledger
  lacking_at id currency b e =
      subst
        (λ x.
          (if x then w.balance.minor else pos 0) +ℤ sum_where is_credit id currency ledger
          ≡ balance_in currency (find_wallet_row id wallets)
            +ℤ sum_where is_debit id currency ledger)
        e (o.lacking id currency)

  opened_balanced :
      (e : LedgerRow) (id currency : String)
      → e.wallet_id ≡ w.id
      → e.currency ≡ w.balance.currency
      → e.money_minor ≡ w.balance.minor
      → e.direction ≡ credit
      → sum_where is_credit id currency (e ∷ ledger)
        ≡ balance_in currency (find_wallet_row id wallets)
          +ℤ sum_where is_debit id currency (e ∷ ledger)
  unfolding sum_where
  opened_balanced e id currency owner same_currency money direction =
      elim (Bool-cases (str_eq w.id id && str_eq w.balance.currency currency)) [
        | inl own ↦
            rw (owner, same_currency, money, direction, own)
              (opened_equation _ _ _ (lacking_at id currency true own))
        | inr other ↦
            rw (owner, same_currency, money, direction, other)
              (opened_equation _ _ _ (lacking_at id currency false other))
      ]

  -- The entry of the opening makes the books whole.
  pub opened-IsBooked :
      (e : LedgerRow)
      → e.wallet_id ≡ w.id
      → e.currency ≡ w.balance.currency
      → e.money_minor ≡ w.balance.minor
      → e.direction ≡ credit
      → IsBooked wallets (e ∷ ledger)
  opened-IsBooked e owner currency money direction = record {
    distinct = o.distinct;
    small = o.small;
    balanced = λ id c. opened_balanced e id c owner currency money direction;
  }

  -- A wallet that starts empty lacks nothing.
  pub empty-IsBooked : is_zero w.balance ≡ true → IsBooked wallets ledger
  unfolding is_zero
  empty-IsBooked zero = record {
    distinct = o.distinct;
    small = o.small;
    balanced = λ id c. elim (Bool-cases (str_eq w.id id && str_eq w.balance.currency c)) [
      | inl own ↦ zero_equation _ _ _ w.balance.minor zero (lacking_at id c true own)
      | inr other ↦ plain_equation _ _ _ (lacking_at id c false other)
    ];
  }
