-- ===== src/Store/Books.antt =====
-- The books: the balance of each wallet beside the entries of its ledger, in the tables of
-- internal/infrastructure/postgres.
pub mod Posting
use jungle_gaming_backend_te.Prelude.{
  ℕ, zero, suc, ◌+◌, ◌≤◌, String, ◌≡◌, refl, ◌∙◌, sym, inl, inr, Bool, true, false, not, ◌&&◌, ◌||◌,
  Option, none, some, List, [], ◌∷◌, str_eq, eq_iff, eq_refl, arith, ◌==◌, if◌then◌else◌,
  Bool-cases,
}
use jungle_gaming_backend_te.Prelude.Int.{
  ℤ, pos, ◌+ℤ◌, ◌-ℤ◌, eqb_ℤ, int_laws, pos_part, neg_part, +ℤ_parts, -ℤ_parts,
}
use jungle_gaming_backend_te.Prelude.Word.{InInt64}
use jungle_gaming_backend_te.Domain.Wallet.{Wallet}
use jungle_gaming_backend_te.Store.Tables.{WalletRow, LedgerRow}
use jungle_gaming_backend_te.Store.Wallets.{
  find_wallet_row, updates_wallet, update_wallet_rows, wallet_rows_affected, wallet_row,
  wallet_taken,
}
use jungle_gaming_backend_te.Store.Ledger.{sum_where, is_credit, is_debit}

-- The balance that the tables record for a wallet in a currency; none is zero.
unfoldable pub balance_in : String → Option WalletRow → ℤ
balance_in currency none = pos 0
balance_in currency (some r) = if str_eq r.currency currency then r.balance_minor else pos 0

-- The primary key: no two rows have one id.
abbrev pub Distinct : List WalletRow → Type 0
Distinct [] = Unit
Distinct (r ∷ rows) = (find_wallet_row r.id rows ≡ none) × Distinct rows

-- The credits of every wallet are its balance and its debits, in every currency.
pub record IsBooked (wallets : List WalletRow) (ledger : List LedgerRow) : Type 0 where
  pub distinct : Distinct wallets
  pub small :
      (id : String) (r : WalletRow) → find_wallet_row id wallets ≡ some r → InInt64 r.balance_minor
  pub balanced :
      (id currency : String)
      → sum_where is_credit id currency ledger
        ≡ balance_in currency (find_wallet_row id wallets) +ℤ sum_where is_debit id currency ledger

-- The row that an update leaves.
abbrev pub written : Wallet → WalletRow → WalletRow
written w r = record r {
  balance_minor = w.balance.minor;
  version = w.version;
  updated_at = w.updated_at;
}

pub find_wallet_row-id :
    (id : String) (rows : List WalletRow) (r : WalletRow)
    → find_wallet_row id rows ≡ some r
    → r.id ≡ id
unfolding find_wallet_row
find_wallet_row-id id [] r h = cc
find_wallet_row-id id (x ∷ rows) r h = ground (arith, eq_iff x.id id, find_wallet_row-id id rows r)

-- A wallet that is not there is not updated.
affected_none :
    (w : Wallet) (rows : List WalletRow)
    → find_wallet_row w.id rows ≡ none
    → wallet_rows_affected w rows ≡ 0
unfolding find_wallet_row wallet_rows_affected updates_wallet
affected_none w [] h = refl
affected_none w (x ∷ rows) h = ground (arith, affected_none w rows)

pub find_updated :
    (w : Wallet) (rows : List WalletRow) (r : WalletRow)
    → Distinct rows
    → wallet_rows_affected w rows ≡ 1
    → find_wallet_row w.id rows ≡ some r
    → find_wallet_row w.id (update_wallet_rows w rows) ≡ some (written w r)
unfolding find_wallet_row wallet_rows_affected update_wallet_rows updates_wallet
find_updated w [] r d one h = cc
find_updated w (x ∷ rows) r d one h =
    ground (arith, eq_iff x.id w.id, affected_none w rows, find_updated w rows r d.1)

pub find_not_updated :
    (w : Wallet) (id : String) (rows : List WalletRow)
    → str_eq w.id id ≡ false
    → find_wallet_row id (update_wallet_rows w rows) ≡ find_wallet_row id rows
unfolding find_wallet_row update_wallet_rows updates_wallet
find_not_updated w id [] h = refl
find_not_updated w id (x ∷ rows) h = ground (arith, eq_iff x.id w.id, find_not_updated w id rows)

find_none_updated :
    (w : Wallet) (id : String) (rows : List WalletRow)
    → find_wallet_row id rows ≡ none
    → find_wallet_row id (update_wallet_rows w rows) ≡ none
unfolding find_wallet_row update_wallet_rows updates_wallet
find_none_updated w id [] h = refl
find_none_updated w id (x ∷ rows) h = ground (arith, find_none_updated w id rows)

pub update_wallet_rows-Distinct :
    (w : Wallet) (rows : List WalletRow) → Distinct rows → Distinct (update_wallet_rows w rows)
unfolding update_wallet_rows
update_wallet_rows-Distinct w [] d = tt
update_wallet_rows-Distinct w (x ∷ rows) d = elim (Bool-cases (updates_wallet w x)) [
  | inl e ↦ rw e (find_none_updated w x.id rows d.0, update_wallet_rows-Distinct w rows d.1)
  | inr e ↦ rw e (find_none_updated w x.id rows d.0, update_wallet_rows-Distinct w rows d.1)
]

-- A new wallet's id is not there.
pub wallet_taken-find :
    (new : WalletRow) (rows : List WalletRow)
    → wallet_taken new rows ≡ false
    → find_wallet_row new.id rows ≡ none
unfolding find_wallet_row wallet_taken
wallet_taken-find new [] h = refl
wallet_taken-find new (x ∷ rows) h = ground (arith, wallet_taken-find new rows)
