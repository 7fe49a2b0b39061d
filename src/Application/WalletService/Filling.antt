-- ===== src/Application/WalletService/Filling.antt =====
-- The loop of `WalletService.Ledger` (internal/application/wallet_service.go) that fills a page.
use jungle_gaming_backend_te.Prelude.{
  ℕ, zero, suc, ◌+◌, ◌≤◌, ◌<◌, String, ◌≡◌, refl, ap, Bool, ◌⊎◌, inl, inr, none, some, List, [],
  ◌∷◌, ◌++◌, map, length, arith,
}
use jungle_gaming_backend_te.Prelude.Int.{ℤ}
use jungle_gaming_backend_te.Prelude.Ordered.{limit_to, limit_to-length}
use jungle_gaming_backend_te.Application.WalletService.Cursor.{CursorFormat, encode_ledger_cursor}
use jungle_gaming_backend_te.Application.WalletService.Ledger.{
  page_limit, cursor_at, fill_page, page_records, next_cursor, page_of,
}
use jungle_gaming_backend_te.Store.Tables.{LedgerRow, Postgres}
use jungle_gaming_backend_te.Store.Ledger.Listing.{LedgerRecord}
use jungle_gaming_backend_te.Application.WalletService.Rows.{record_of, row_view}

-- The rooms of a page: all rows fit, or the last one that fits is known.
pub rooms :
    (room : ℕ) (rows : List LedgerRow)
    → 1 ≤ room
    → (length rows ≤ room)
      ⊎ ((front : List LedgerRow) × (x : LedgerRow) × (y : LedgerRow) × (back : List LedgerRow)
          × (rows ≡ front ++ x ∷ y ∷ back)
          × (suc (length front) ≡ room))
rooms zero rows h = omega arith
rooms (suc room) [] h = inl (omega arith)
rooms (suc room) (r ∷ []) h = inl (omega arith)
rooms (suc zero) (r ∷ s ∷ rows) h = inr ([], r, s, rows, refl, refl)
rooms (suc (suc room)) (r ∷ s ∷ rows) h = elim (rooms (suc room) (s ∷ rows) (omega arith)) [
  | inl fits ↦ inl (omega (arith, fits))
  | inr (front, x, y, back, same, size) ↦
      inr (r ∷ front, x, y, back, ap (◌∷◌ r) same, omega (arith, size))
]

fill_short :
    (room : ℕ) (last : LedgerRecord) (rows : List LedgerRow)
    → length rows ≤ room
    → fill_page room last (map record_of rows) ≡ (map row_view rows, none)
unfolding fill_page
fill_short room last [] h = refl
fill_short zero last (r ∷ rows) h = ground (arith, h)
fill_short (suc room) last (r ∷ rows) h =
    rw (fill_short room (record_of r) rows (omega (arith, h))) refl

fill_long :
    (front : List LedgerRow) (last : LedgerRecord) (x y : LedgerRow)
    → fill_page (suc (length front)) last (map record_of (front ++ x ∷ y ∷ []))
      ≡ (map row_view (front ++ x ∷ []), some (record_of x))
unfolding fill_page
fill_long [] last x y = refl
fill_long (r ∷ front) last x y = rw (fill_long front (record_of r) x y) refl

limit_front :
    (front : List LedgerRow) (x y : LedgerRow) (back : List LedgerRow)
    → limit_to (suc (suc (length front))) (front ++ x ∷ y ∷ back) ≡ front ++ x ∷ y ∷ []
limit_front [] x y back = refl
limit_front (r ∷ front) x y back = ap (◌∷◌ r) (limit_front front x y back)

pub one_more : (n : ℕ) → n + 1 ≡ suc n
one_more n = omega arith

pub limit_positive : (limit : ℤ) → 1 ≤ page_limit limit
unfolding page_limit
limit_positive limit = ground arith

-- A page without a cursor, and a page with one.
module _ (postgres : Postgres) (parse_iso : String → Bool) (format : CursorFormat) where
  pub short_page :
      (room : ℕ) (rows : List LedgerRow)
      → length rows ≤ room
      → page_of postgres parse_iso format
          (page_records room (map record_of (limit_to (suc room) rows)))
        ≡ record { items = map row_view rows; next_cursor = "" }
  unfolding page_of page_records next_cursor
  short_page room [] h = refl
  short_page room (r ∷ rows) h =
      rw (limit_to-length room rows (omega (arith, h)), fill_short room (record_of r) (r ∷ rows) h)
        refl

  first_page :
      (front : List LedgerRow) (x y : LedgerRow)
      → page_records (suc (length front)) (map record_of (front ++ x ∷ y ∷ []))
        ≡ (map row_view (front ++ x ∷ []), some (record_of x))
  unfolding page_records
  first_page [] x y = fill_long [] (record_of x) x y
  first_page (r ∷ front) x y = fill_long (r ∷ front) (record_of r) x y

  long_page :
      (front : List LedgerRow) (x y : LedgerRow) (back : List LedgerRow)
      → page_of postgres parse_iso format (
          page_records
            (suc (length front))
            (map record_of (limit_to (suc (suc (length front))) (front ++ x ∷ y ∷ back))))
        ≡ record {
          items = map row_view (front ++ x ∷ []);
          next_cursor = encode_ledger_cursor format (cursor_at (record_of x));
        }
  unfolding page_of next_cursor
  long_page front x y back = rw (limit_front front x y back, first_page front x y) refl

  pub full_page :
      (room : ℕ) (rows front : List LedgerRow) (x y : LedgerRow) (back : List LedgerRow)
      → rows ≡ front ++ x ∷ y ∷ back
      → suc (length front) ≡ room
      → page_of postgres parse_iso format
          (page_records room (map record_of (limit_to (suc room) rows)))
        ≡ record {
          items = map row_view (front ++ x ∷ []);
          next_cursor = encode_ledger_cursor format (cursor_at (record_of x));
        }
  full_page room rows front x y back same size = rw (same, ← size) (long_page front x y back)

pub length_behind :
    (front : List LedgerRow) (x y : LedgerRow) (back : List LedgerRow)
    → length (y ∷ back) < length (front ++ x ∷ y ∷ back)
length_behind [] x y back = omega arith
length_behind (r ∷ front) x y back = omega (arith, length_behind front x y back)

-- The rows of a page and those behind it.
pub pages_joined :
    (front : List LedgerRow) (x y : LedgerRow) (back : List LedgerRow)
    → map row_view (front ++ x ∷ []) ++ map row_view (y ∷ back)
      ≡ map row_view (front ++ x ∷ y ∷ back)
pages_joined [] x y back = refl
pages_joined (r ∷ front) x y back = ap (◌∷◌ (row_view r)) (pages_joined front x y back)
