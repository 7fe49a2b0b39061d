-- ===== src/Store/Wallets.antt =====
-- internal/infrastructure/postgres/store.go: the statements on `wallets`.
use jungle_gaming_backend_te.Prelude.{
  ℕ, ◌+◌, String, Bool, false, not, ◌&&◌, ◌||◌, Option, none, some, List, [], ◌∷◌, str_eq, ◌==◌,
  if◌then◌else◌,
}
use jungle_gaming_backend_te.Prelude.Int.{pos, ◌-ℤ◌, eqb_ℤ}
use jungle_gaming_backend_te.Errors
use jungle_gaming_backend_te.Errors.{Result, ok, err, not_found, conflict}
use jungle_gaming_backend_te.Domain.Money.{new_money_from_minor}
use jungle_gaming_backend_te.Domain.Wallet.{Wallet, rehydrate_wallet}
use jungle_gaming_backend_te.Store.Tables.{WalletRow, Tx, lift, unless_taken}

-- The row of a wallet, as `InsertWallet` writes it.
unfoldable pub wallet_row : Wallet → WalletRow
wallet_row w = record {
  id = w.id;
  player_id = w.player_id;
  balance_minor = w.balance.minor;
  currency = w.balance.currency;
  version = w.version;
  created_at = w.created_at;
  updated_at = w.updated_at;
}

-- `WHERE id = $1`
unfoldable pub find_wallet_row : String → List WalletRow → Option WalletRow
find_wallet_row id [] = none
find_wallet_row id (r ∷ rows) = if str_eq r.id id then some r else find_wallet_row id rows

-- The primary key, and `UNIQUE (player_id, currency)`.
unfoldable pub wallet_taken : WalletRow → List WalletRow → Bool
wallet_taken new [] = false
wallet_taken new (r ∷ rows) =
    str_eq r.id new.id
    || ((str_eq r.player_id new.player_id && str_eq r.currency new.currency)
        || wallet_taken new rows)

unfoldable pub insert_wallet : Wallet → Tx (Unit {0})
unfolding wallet_taken wallet_row
insert_wallet w db =
    unless_taken (wallet_taken (wallet_row w) db.wallets) conflict
      (record db { wallets = wallet_row w ∷ db.wallets }) db

-- The rows that `UPDATE wallets … WHERE id = $1 AND version = $3 - 1` meets.
unfoldable pub updates_wallet : Wallet → WalletRow → Bool
updates_wallet w r = str_eq r.id w.id && eqb_ℤ r.version (w.version -ℤ pos 1)

unfoldable pub update_wallet_rows : Wallet → List WalletRow → List WalletRow
update_wallet_rows w [] = []
update_wallet_rows w (r ∷ rows) =
    (if updates_wallet w r
      then record r {
        balance_minor = w.balance.minor;
        version = w.version;
        updated_at = w.updated_at;
      }
      else r)
    ∷ update_wallet_rows w rows

-- `tag.RowsAffected()`
unfoldable pub wallet_rows_affected : Wallet → List WalletRow → ℕ
wallet_rows_affected w [] = 0
wallet_rows_affected w (r ∷ rows) =
    (if updates_wallet w r then 1 else 0) + wallet_rows_affected w rows

unfoldable pub update_wallet : Wallet → Tx (Unit {0})
update_wallet w db =
    unless_taken (not (wallet_rows_affected w db.wallets == 1)) conflict
      (record db { wallets = update_wallet_rows w db.wallets }) db

module _ (parse_iso : String → Bool) where
  unfoldable pub scan_wallet : WalletRow → Result Wallet
  scan_wallet r =
      Errors.◌>>=◌ (new_money_from_minor parse_iso r.balance_minor r.currency) λ balance.
        rehydrate_wallet parse_iso r.id r.player_id balance r.version r.created_at r.updated_at

  -- `ErrNotFound` in place of `pgx.ErrNoRows`.
  unfoldable pub scan_found : Option WalletRow → Result Wallet
  scan_found none = err not_found
  scan_found (some r) = scan_wallet r

  -- `ReadWallet`; `LockWallet` and `Store.GetWallet` differ in the lock that they take.
  unfoldable pub read_wallet : String → Tx Wallet
  unfolding scan_found
  read_wallet id db = lift (scan_found (find_wallet_row id db.wallets)) db

  unfoldable pub lock_wallet : String → Tx Wallet
  unfolding scan_found
  lock_wallet id db = lift (scan_found (find_wallet_row id db.wallets)) db
