-- ===== src/Store/Ledger.antt =====
-- internal/infrastructure/postgres/store.go: the statements on `wallet_ledger_entries`.
pub mod Listing
use jungle_gaming_backend_te.Prelude.{
  ℕ, ◌+◌, String, Bool, true, false, ◌&&◌, ◌||◌, List, [], ◌∷◌, str_eq, if◌then◌else◌,
}
use jungle_gaming_backend_te.Prelude.Int.{ℤ, pos, ◌+ℤ◌}
use jungle_gaming_backend_te.Errors.{ok, err, conflict, dependency}
use jungle_gaming_backend_te.Prelude.Word.{fits}
use jungle_gaming_backend_te.Domain.LedgerEntry.{LedgerDirection, debit, credit, WalletLedgerEntry}
use jungle_gaming_backend_te.Store.Tables.{LedgerRow, Tx, unless_taken}

unfoldable pub ledger_row : WalletLedgerEntry → LedgerRow
ledger_row e = record {
  id = e.id;
  wallet_id = e.wallet_id;
  transaction_id = e.transaction_id;
  direction = e.direction;
  money_minor = e.money.minor;
  currency = e.money.currency;
  balance_before_minor = e.balance_before.minor;
  balance_after_minor = e.balance_after.minor;
  created_at = e.created_at;
}

-- The primary key, and `UNIQUE (wallet_id, transaction_id)`.
unfoldable pub ledger_taken : LedgerRow → List LedgerRow → Bool
ledger_taken new [] = false
ledger_taken new (r ∷ rows) =
    str_eq r.id new.id
    || ((str_eq r.wallet_id new.wallet_id && str_eq r.transaction_id new.transaction_id)
        || ledger_taken new rows)

unfoldable pub insert_ledger : WalletLedgerEntry → Tx (Unit {0})
insert_ledger e db =
    unless_taken (ledger_taken (ledger_row e) db.ledger) conflict
      (record db { ledger = ledger_row e ∷ db.ledger }) db

abbrev pub is_credit : LedgerDirection → Bool
is_credit credit = true
is_credit _ = false

abbrev pub is_debit : LedgerDirection → Bool
is_debit debit = true
is_debit _ = false

-- `WHERE wallet_id = $1 AND currency = $2`
abbrev pub is_counted : String → String → LedgerRow → Bool
is_counted wallet_id currency r = str_eq r.wallet_id wallet_id && str_eq r.currency currency

-- `SUM(money_minor) FILTER (WHERE direction = …)` over the rows of the wallet.
unfoldable pub sum_where : (LedgerDirection → Bool) → String → String → List LedgerRow → ℤ
sum_where test wallet_id currency [] = pos 0
sum_where test wallet_id currency (r ∷ rows) =
    (if is_counted wallet_id currency r && test r.direction then r.money_minor else pos 0)
    +ℤ sum_where test wallet_id currency rows

-- `COUNT(*)`
unfoldable pub count_where : String → String → List LedgerRow → ℕ
count_where wallet_id currency [] = 0
count_where wallet_id currency (r ∷ rows) =
    (if is_counted wallet_id currency r then 1 else 0) + count_where wallet_id currency rows

-- `SumLedger`: credits, debits and the number of entries. A sum that is no bigint is refused.
unfoldable pub sum_ledger : String → String → Tx (ℤ × ℤ × ℤ)
sum_ledger wallet_id currency db =
    let credits = sum_where is_credit wallet_id currency db.ledger in
    let debits = sum_where is_debit wallet_id currency db.ledger in
    if fits credits && fits debits
    then ok ((credits, debits, pos (count_where wallet_id currency db.ledger)), db)
    else err dependency
