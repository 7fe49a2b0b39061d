-- ===== src/Application/WalletService/Ledger.antt =====
-- internal/application/wallet_service.go: `WalletService.Ledger`, a page of the entries of a wallet.
use jungle_gaming_backend_te.Prelude.{
  ℕ, zero, suc, ◌+◌, String, Bool, Option, none, some, List, [], ◌∷◌, is_empty, if◌then◌else◌,
}
use jungle_gaming_backend_te.Prelude.Int.{ℤ, pos, pos_part, ltb_ℤ}
use jungle_gaming_backend_te.Errors.{Result, ok, ◌>>=◌}
use jungle_gaming_backend_te.Application.Contracts.{LedgerEntryView, LedgerPage, view_money}
use jungle_gaming_backend_te.Application.WalletService.Cursor.{
  CursorFormat, encode_ledger_cursor, decode_ledger_cursor,
}
use jungle_gaming_backend_te.Store.Tables.{Db, Postgres}
use jungle_gaming_backend_te.Store.Wallets.{scan_found, find_wallet_row}
use jungle_gaming_backend_te.Store.Ledger.Listing.{LedgerCursor, LedgerRecord, list_ledger}

-- `if limit <= 0 { limit = 50 }; if limit > 100 { limit = 100 }`
unfoldable pub page_limit : ℤ → ℕ
page_limit limit =
    if ltb_ℤ limit (pos 1) then 50 else if ltb_ℤ (pos 100) limit then 100 else pos_part limit

unfoldable pub entry_view : LedgerRecord → LedgerEntryView
entry_view r = record {
  id = r.id;
  transaction_id = r.transaction_id;
  direction = r.direction;
  money = view_money r.money;
  balance_before = view_money r.before;
  balance_after = view_money r.after;
  created_at = r.created_at;
}

abbrev pub cursor_at : LedgerRecord → LedgerCursor
cursor_at r = record { created_at = r.created_at; id = r.id }

-- The loop over the records, with the number of items that may still come: the items, and the record
-- before the one that is too many.
unfoldable pub fill_page :
    ℕ → LedgerRecord → List LedgerRecord → List LedgerEntryView × Option LedgerRecord
fill_page room last [] = ([], none)
fill_page zero last (r ∷ rs) = ([], some last)
fill_page (suc room) last (r ∷ rs) =
    let (items, next) = fill_page room r rs in (entry_view r ∷ items, next)

-- The loop starts with no record before the first, since the limit is positive.
unfoldable pub page_records : ℕ → List LedgerRecord → List LedgerEntryView × Option LedgerRecord
unfolding fill_page
page_records limit [] = ([], none)
page_records limit (r ∷ rs) = fill_page limit r (r ∷ rs)

module _ (postgres : Postgres) (parse_iso : String → Bool) (format : CursorFormat) where
  unfoldable pub next_cursor : Option LedgerRecord → String
  next_cursor none = ""
  next_cursor (some last) = encode_ledger_cursor format (cursor_at last)

  unfoldable pub page_of : List LedgerEntryView × Option LedgerRecord → LedgerPage
  unfolding next_cursor
  page_of (items, last) = record { items = items; next_cursor = next_cursor last }

  -- The cursor of a request, which may be empty.
  unfoldable pub request_cursor : String → Result (Option LedgerCursor)
  request_cursor value =
      if is_empty value
      then ok none
      else do cursor ← decode_ledger_cursor format value; ok (some cursor)

  -- `Ledger`
  unfoldable pub ledger : String → String → ℤ → Db → Result LedgerPage
  ledger wallet_id cursor_value limit db = do
    wallet ← scan_found parse_iso (find_wallet_row wallet_id db.wallets)
    cursor ← request_cursor cursor_value
    records ← list_ledger postgres parse_iso wallet_id cursor (page_limit limit + 1) db.ledger
    ok (page_of (page_records (page_limit limit) records))
