-- ===== src/Domain/Wallet.antt =====
-- internal/domain/wallet.go: a wallet, and the two movements that change its balance. A method that
-- changes the wallet returns the new one; no method changes anything before it returns an error.
pub mod Movements
use jungle_gaming_backend_te.Prelude.{String, Bool, not, ◌||◌, is_empty}
use jungle_gaming_backend_te.Prelude.Int.{ℤ, pos, ltb_ℤ}
use jungle_gaming_backend_te.Prelude.Word.{add64}
use jungle_gaming_backend_te.Errors.{
  Result, ok, ◌>>=◌, ◌>>◌, fail_if, or_error, invalid_money, insufficient_funds, invalid_wallet,
}
use jungle_gaming_backend_te.Domain.Time.{Time, is_zero_time}
use jungle_gaming_backend_te.Domain.Money.{Money, validate, add, subtract, is_positive, is_negative}

pub record Wallet : Type 0 where
  pub id : String
  pub player_id : String
  pub balance : Money
  pub version : ℤ
  pub created_at : Time
  pub updated_at : Time

-- What `Debit` and `Credit` return, with the wallet that they leave.
pub record Movement : Type 0 where
  pub before : Money
  pub after : Money
  pub wallet : Wallet

unfoldable pub apply : Wallet → Money → Time → Wallet
apply w balance now = record w {
  balance = balance;
  version = add64 w.version (pos 1);
  updated_at = now;
}

module _ (parse_iso : String → Bool) where
  unfoldable pub new_wallet : String → String → Money → Time → Result Wallet
  new_wallet id player_id initial_balance now = do
    fail_if
        (is_empty id || (is_empty player_id || (is_zero_time now || is_negative initial_balance)))
        invalid_wallet
    or_error (validate parse_iso initial_balance) invalid_wallet
    ok (record {
      id = id;
      player_id = player_id;
      balance = initial_balance;
      version = pos 1;
      created_at = now;
      updated_at = now;
    })

  unfoldable pub rehydrate_wallet : String → String → Money → ℤ → Time → Time → Result Wallet
  rehydrate_wallet id player_id balance version created_at updated_at = do
    fail_if
        (is_empty id
          || (is_empty player_id
              || (ltb_ℤ version (pos 1)
                  || (is_zero_time created_at
                      || (is_zero_time updated_at || is_negative balance)))))
        invalid_wallet
    or_error (validate parse_iso balance) invalid_wallet
    ok (record {
      id = id;
      player_id = player_id;
      balance = balance;
      version = version;
      created_at = created_at;
      updated_at = updated_at;
    })

  unfoldable pub debit : Wallet → Money → Time → Result Movement
  debit w amount now = do
    fail_if (not (is_positive amount) || is_zero_time now) invalid_money
    after ← subtract parse_iso w.balance amount
    fail_if (is_negative after) insufficient_funds
    ok (record { before = w.balance; after = after; wallet = apply w after now })

  unfoldable pub credit : Wallet → Money → Time → Result Movement
  credit w amount now = do
    fail_if (not (is_positive amount) || is_zero_time now) invalid_money
    after ← add parse_iso w.balance amount
    ok (record { before = w.balance; after = after; wallet = apply w after now })
