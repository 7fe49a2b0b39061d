-- ===== src/Store/Ledger/Listing.antt =====
-- internal/infrastructure/postgres/store.go: `ListLedger`, the entries of a wallet, the newest first, or
-- those behind a cursor.
use jungle_gaming_backend_te.Prelude.{
  ℕ, String, Bool, true, not, ◌&&◌, ◌||◌, Option, none, some, List, [], ◌∷◌, str_eq, ltb, ◌==◌,
}
use jungle_gaming_backend_te.Prelude.Ordered.{keep_if, limit_to, order_by}
use jungle_gaming_backend_te.Errors.{Result, ok, ◌>>=◌}
use jungle_gaming_backend_te.Domain.Time.{Time}
use jungle_gaming_backend_te.Domain.Money.{Money, new_money_from_minor}
use jungle_gaming_backend_te.Domain.LedgerEntry.{LedgerDirection}
use jungle_gaming_backend_te.Store.Tables.{LedgerRow, Postgres}

-- `LedgerCursor`
pub record LedgerCursor : Type 0 where
  pub created_at : Time
  pub id : String

-- `LedgerRecord`
pub record LedgerRecord : Type 0 where
  pub id : String
  pub transaction_id : String
  pub direction : LedgerDirection
  pub money : Money
  pub before : Money
  pub after : Money
  pub created_at : Time

module _ (postgres : Postgres) where
  -- `ORDER BY created_at DESC, id DESC`
  unfoldable pub newer_first : LedgerRow → LedgerRow → Bool
  newer_first a b =
      ltb b.created_at a.created_at || (a.created_at == b.created_at && postgres.uuid_leb b.id a.id)

  -- `(created_at, id) < ($2, $3::uuid)`
  unfoldable pub is_behind : LedgerCursor → LedgerRow → Bool
  is_behind c r =
      ltb r.created_at c.created_at
      || (r.created_at == c.created_at && not (postgres.uuid_leb c.id r.id))

  unfoldable pub behind : Option LedgerCursor → LedgerRow → Bool
  behind none r = true
  behind (some c) r = is_behind c r

  -- The rows of the query.
  unfoldable pub ledger_rows : String → Option LedgerCursor → ℕ → List LedgerRow → List LedgerRow
  ledger_rows wallet_id cursor limit rows =
      limit_to limit
        (order_by newer_first (keep_if (λ r. str_eq r.wallet_id wallet_id && behind cursor r) rows))

  module _ (parse_iso : String → Bool) where
    unfoldable pub scan_record : LedgerRow → Result LedgerRecord
    scan_record r = do
      money ← new_money_from_minor parse_iso r.money_minor r.currency
      before ← new_money_from_minor parse_iso r.balance_before_minor r.currency
      after ← new_money_from_minor parse_iso r.balance_after_minor r.currency
      ok (record {
        id = r.id;
        transaction_id = r.transaction_id;
        direction = r.direction;
        money = money;
        before = before;
        after = after;
        created_at = r.created_at;
      })

    unfoldable pub scan_records : List LedgerRow → Result (List LedgerRecord)
    unfolding scan_record
    scan_records [] = ok []
    scan_records (r ∷ rows) = do first ← scan_record r; rest ← scan_records rows; ok (first ∷ rest)

    -- `ListLedger`
    unfoldable pub list_ledger :
        String → Option LedgerCursor → ℕ → List LedgerRow → Result (List LedgerRecord)
    unfolding scan_records
    list_ledger wallet_id cursor limit rows = scan_records (ledger_rows wallet_id cursor limit rows)
