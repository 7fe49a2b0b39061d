-- ===== src/Examples/Pages.antt =====
-- A ledger of three entries, read in pages of two.
use jungle_gaming_backend_te.Prelude.{
  ◌≡◌, refl, true, false, List, [], ◌∷◌, map, arith, is_empty, String, ◌≢◌, str_eq, eq_iff,
}
use mathlib.Core.List.{Memᴰ}
use jungle_gaming_backend_te.Prelude.Int.{pos}
use jungle_gaming_backend_te.Errors.{ok, is_ok}
use jungle_gaming_backend_te.Domain.Money.{
  new_money_from_minor, parse_currency, all_upper, validate, is_negative,
}
use jungle_gaming_backend_te.Domain.Wallet.{rehydrate_wallet}
use jungle_gaming_backend_te.Store.Tables.{Db, LedgerRow}
use jungle_gaming_backend_te.Store.Wallets.{scan_found, scan_wallet, find_wallet_row, wallet_row}
use jungle_gaming_backend_te.Store.Ledger.Listing.{LedgerCursor, scan_record, newer_first}
use jungle_gaming_backend_te.Application.WalletService.Cursor.{
  decode_ledger_cursor, encode_ledger_cursor, decode-encode_ledger_cursor,
}
use jungle_gaming_backend_te.Application.WalletService.Rows.{row_view, HasDistinctIds}
use jungle_gaming_backend_te.Application.WalletService.Pages.{
  IsListable, read_pages, read_pages_lem, all_rows,
}
use jungle_gaming_backend_te.Examples.Data.{a_db, every_code, opening_entry, wallet_one}
use jungle_gaming_backend_te.Examples.Order.{
  by_text, by_text-IsUuidOrder, by_strokes, by_strokes-IsFormat, text_leb,
}

abbrev second_entry : LedgerRow
second_entry = record opening_entry { id = "l2"; transaction_id = "t2"; created_at = 9 }

abbrev third_entry : LedgerRow
third_entry = record opening_entry { id = "l3"; transaction_id = "t3"; created_at = 9 }

abbrev rows : List LedgerRow
rows = second_entry ∷ third_entry ∷ opening_entry ∷ []

abbrev full_db : Db
full_db = record a_db { ledger = rows }

readable : (r : LedgerRow) → Memᴰ r rows → is_ok (scan_record by_text every_code r) ≡ true
unfolding scan_record new_money_from_minor parse_currency all_upper
readable r (Memᴰ.head e) = rw e refl
readable r (Memᴰ.tail (Memᴰ.head e)) = rw e refl
readable r (Memᴰ.tail (Memᴰ.tail (Memᴰ.head e))) = rw e refl
readable r (Memᴰ.tail (Memᴰ.tail (Memᴰ.tail m))) = elim m [ ]

named : (r : LedgerRow) → Memᴰ r rows → (is_empty r.id ≡ false) × (true ≡ true)
named r (Memᴰ.head e) = rw e (refl, refl)
named r (Memᴰ.tail (Memᴰ.head e)) = rw e (refl, refl)
named r (Memᴰ.tail (Memᴰ.tail (Memᴰ.head e))) = rw e (refl, refl)
named r (Memᴰ.tail (Memᴰ.tail (Memᴰ.tail m))) = elim m [ ]

ids_differ : (a b : String) → str_eq a b ≡ false → a ≢ b
ids_differ a b h e = ground (arith, h, (eq_iff a b).1 e)

distinct : HasDistinctIds rows
distinct = (
  λ s m. elim m [
    | Memᴰ.head e ↦ rw e (ids_differ "l2" "l3" refl)
    | Memᴰ.tail (Memᴰ.head e) ↦ rw e (ids_differ "l2" "l1" refl)
    | Memᴰ.tail (Memᴰ.tail n) ↦ elim n [ ]
  ],
  (
    λ s m. elim m [ Memᴰ.head e ↦ rw e (ids_differ "l3" "l1" refl) | Memᴰ.tail n ↦ elim n [ ] ],
    (λ s m. elim m [ ], tt),
  ),
)

rows-IsListable : IsListable by_text every_code by_strokes rows
rows-IsListable = record {
  order = by_text-IsUuidOrder;
  format_fits = by_strokes-IsFormat;
  distinct = distinct;
  readable = readable;
  named = named;
}

found : scan_found every_code (find_wallet_row "w1" full_db.wallets) ≡ ok wallet_one
unfolding scan_found scan_wallet find_wallet_row wallet_row rehydrate_wallet new_money_from_minor
    parse_currency all_upper validate is_negative
found = refl

read_pages_lem_example :
    read_pages by_text every_code by_strokes "w1" (pos 2) full_db 4 ""
    ≡ ok (map row_view (all_rows by_text every_code by_strokes "w1" (pos 2) full_db))
unfolding newer_first
read_pages_lem_example =
    read_pages_lem by_text every_code by_strokes "w1" (pos 2) full_db wallet_one 4 rows-IsListable
      found (unfold text_leb in omega arith)

abbrev a_cursor : LedgerCursor
a_cursor = record { created_at = 3; id = "l2" }

decode-encode_ledger_cursor_example :
    decode_ledger_cursor by_strokes (encode_ledger_cursor by_strokes a_cursor) ≡ ok a_cursor
decode-encode_ledger_cursor_example =
    decode-encode_ledger_cursor by_strokes a_cursor by_strokes-IsFormat refl refl
