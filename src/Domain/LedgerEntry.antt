-- ===== src/Domain/LedgerEntry.antt =====
-- internal/domain/ledger.go: one line of a wallet's ledger.
use jungle_gaming_backend_te.Prelude.{is_empty, Bool, String, not, ◌||◌}
use jungle_gaming_backend_te.Errors.{
  Result, ok, err, ◌>>=◌, ◌>>◌, fail_if, or_error, invalid_ledger_entry,
}
use jungle_gaming_backend_te.Domain.Time.{Time, is_zero_time}
use jungle_gaming_backend_te.Domain.Money.{Money, add, subtract, equal, is_positive, is_negative}

-- The two constants of the string type, and any other text.
pub data LedgerDirection : Type 0 where
  debit credit : LedgerDirection
  unknown : String → LedgerDirection

pub record WalletLedgerEntry : Type 0 where
  pub id : String
  pub wallet_id : String
  pub transaction_id : String
  pub direction : LedgerDirection
  pub money : Money
  pub balance_before : Money
  pub balance_after : Money
  pub created_at : Time

module _ (parse_iso : String → Bool) where
  -- The `switch` on the direction.
  unfoldable pub expected_balance : LedgerDirection → Money → Money → Result Money
  expected_balance debit money before = subtract parse_iso before money
  expected_balance credit money before = add parse_iso before money
  expected_balance (unknown _) money before = err invalid_ledger_entry

  unfoldable pub new_wallet_ledger_entry :
      String
      → String
      → String
      → LedgerDirection
      → Money
      → Money
      → Money
      → Time
      → Result WalletLedgerEntry
  unfolding expected_balance
  new_wallet_ledger_entry id wallet_id transaction_id direction money before after now = do
    fail_if
        (is_empty id
          || (is_empty wallet_id
              || (is_empty transaction_id || (is_zero_time now || not (is_positive money)))))
        invalid_ledger_entry
    expected ← or_error (expected_balance direction money before) invalid_ledger_entry
    fail_if (not (equal expected after) || is_negative after) invalid_ledger_entry
    ok (record {
      id = id;
      wallet_id = wallet_id;
      transaction_id = transaction_id;
      direction = direction;
      money = money;
      balance_before = before;
      balance_after = after;
      created_at = now;
    })
