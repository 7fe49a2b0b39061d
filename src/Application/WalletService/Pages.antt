-- ===== src/Application/WalletService/Pages.antt =====
-- The pages of `WalletService.Ledger` (internal/application/wallet_service.go), read one behind the other
-- from each page's cursor.
use jungle_gaming_backend_te.Prelude.{
  ℕ, zero, suc, ◌+◌, ◌<◌, String, ◌≡◌, refl, sym, ◌∙◌, ap, subst, Bool, true, false, not, ◌&&◌, inl,
  inr, Option, none, some, List, [], ◌∷◌, ◌++◌, map, length, is_empty, str_eq, if◌then◌else◌, arith,
}
use mathlib.Core.List.{Memᴰ, append_assoc}
use mathlib.Core.List.Memᴰ
use jungle_gaming_backend_te.Prelude.Int.{ℤ}
use jungle_gaming_backend_te.Prelude.Ordered.{
  keep_if, limit_to, order_by, keep_if-Mem, order_by-Mem, limit_to-Mem, Mem-between,
}
use jungle_gaming_backend_te.Prelude.Sorted.{
  IsApart, IsInOrder, keep_if-IsApart, order_by-IsApart, order_by-IsInOrder, order_by-keep_if,
  keep_if_behind,
}
use jungle_gaming_backend_te.Errors.{Result, ok, ◌>>=◌, is_ok}
use jungle_gaming_backend_te.Domain.Money.{new_money_from_minor}
use jungle_gaming_backend_te.Domain.Wallet.{Wallet}
use jungle_gaming_backend_te.Application.Contracts.{LedgerEntryView, LedgerPage}
use jungle_gaming_backend_te.Application.WalletService.Cursor.{
  CursorFormat, IsFormat, encode_ledger_cursor, decode-encode_ledger_cursor,
}
use jungle_gaming_backend_te.Application.WalletService.Ledger.{
  page_limit, cursor_at, page_records, page_of, request_cursor, ledger,
}
use jungle_gaming_backend_te.Store.Tables.{Db, LedgerRow, Postgres}
use jungle_gaming_backend_te.Store.Wallets.{scan_found, find_wallet_row}
use jungle_gaming_backend_te.Store.Ledger.Listing.{
  LedgerCursor, newer_first, is_behind, behind, ledger_rows, scan_record, scan_records, list_ledger,
}
use jungle_gaming_backend_te.Application.WalletService.Rows.{
  IsUuidOrder, HasDistinctIds, record_of, row_view, newer_total, newer_trans, distinct-IsApart,
  is_behind_lem, keep_if_ext, keep_if_both,
}
use jungle_gaming_backend_te.Application.WalletService.Filling.{
  rooms, one_more, limit_positive, short_page, full_page, length_behind, pages_joined,
}

-- What a listing relies on: the order of the identifiers, the formats of a cursor, and rows that can be
-- read, whose identifiers differ and can be put into a cursor.
pub record IsListable (postgres : Postgres) (parse_iso : String → Bool) (format : CursorFormat)
    (rows : List LedgerRow) : Type 0 where
  pub order : IsUuidOrder postgres
  pub format_fits : IsFormat format
  pub distinct : HasDistinctIds rows
  pub readable : (r : LedgerRow) → Memᴰ r rows → is_ok (scan_record postgres parse_iso r) ≡ true
  pub named : (r : LedgerRow) → Memᴰ r rows → (is_empty r.id ≡ false) × (format.is_uuid r.id ≡ true)

-- A page, and the ones behind it, if it has a cursor.
unfoldable pub with_rest :
    LedgerPage → Result (List LedgerEntryView) → Result (List LedgerEntryView)
with_rest page rest =
    if is_empty page.next_cursor then ok page.items else rest >>= λ items. ok (page.items ++ items)

module _ (postgres : Postgres) (parse_iso : String → Bool) (format : CursorFormat)
    (wallet_id : String) (limit : ℤ) (db : Db) where
  -- All entries of the wallet, the newest first.
  abbrev pub all_rows : List LedgerRow
  all_rows =
      order_by (newer_first postgres)
        (keep_if (λ r. str_eq r.wallet_id wallet_id && true) db.ledger)

  -- The pages from a cursor on, as often as a number says, until there is no next cursor.
  unfoldable pub read_pages : ℕ → String → Result (List LedgerEntryView)
  read_pages zero cursor = ok []
  read_pages (suc rounds) cursor =
      ledger postgres parse_iso format wallet_id cursor limit db >>= λ page.
      with_rest page (read_pages rounds page.next_cursor)

  module _ (wallet : Wallet) (listable : IsListable postgres parse_iso format db.ledger)
      (found : scan_found parse_iso (find_wallet_row wallet_id db.wallets) ≡ ok wallet) where
    all_rows-Mem : (r : LedgerRow) → Memᴰ r all_rows → Memᴰ r db.ledger
    all_rows-Mem r m = (keep_if-Mem _ r db.ledger (order_by-Mem (newer_first postgres) r _ m)).0

    scan_record_lem :
        (r : LedgerRow)
        → is_ok (scan_record postgres parse_iso r) ≡ true
        → scan_record postgres parse_iso r ≡ ok (record_of r)
    unfolding scan_record new_money_from_minor
    scan_record_lem r h = ground arith

    scan_records_lem :
        (rows : List LedgerRow)
        → ((r : LedgerRow) → Memᴰ r rows → Memᴰ r db.ledger)
        → scan_records postgres parse_iso rows ≡ ok (map record_of rows)
    unfolding scan_records
    scan_records_lem [] inside = refl
    scan_records_lem (r ∷ rows) inside =
        rw
          (
            scan_record_lem r (listable.readable r (inside r (Memᴰ.head refl))),
            scan_records_lem rows λ s m. inside s (Memᴰ.tail m),
          )
          refl

    -- A cursor stands for the rows that are still to come.
    record Denotes (value : String) (rows : List LedgerRow) : Type 0 where
      cursor : Option LedgerCursor
      decoded : request_cursor postgres parse_iso format value ≡ ok cursor
      selected :
          order_by
            (newer_first postgres)
            (keep_if (λ r. str_eq r.wallet_id wallet_id && behind postgres cursor r) db.ledger)
          ≡ rows

    first_Denotes : Denotes "" all_rows
    unfolding request_cursor behind
    first_Denotes = record { cursor = none; decoded = refl; selected = refl }

    all_rows-IsInOrder : IsInOrder (newer_first postgres) all_rows
    all_rows-IsInOrder =
        order_by-IsInOrder (newer_first postgres) (newer_total postgres listable.order)
          (newer_trans postgres listable.order)
          (keep_if (λ r. str_eq r.wallet_id wallet_id && true) db.ledger)

    all_rows-IsApart : IsApart (newer_first postgres) all_rows
    all_rows-IsApart = order_by-IsApart (newer_first postgres) _ (
        keep_if-IsApart (newer_first postgres) _ db.ledger
          (distinct-IsApart postgres listable.order db.ledger listable.distinct))

    -- The rows behind one of them.
    behind_row :
        (before : List LedgerRow) (x : LedgerRow) (after : List LedgerRow)
        → all_rows ≡ before ++ x ∷ after
        → order_by (newer_first postgres) (
            keep_if
              (λ r.
                str_eq r.wallet_id wallet_id && behind postgres (some (cursor_at (record_of x))) r)
              db.ledger)
          ≡ after
    unfolding behind
    behind_row before x after split =
        ap (order_by (newer_first postgres)) (
          keep_if_both (λ r. str_eq r.wallet_id wallet_id)
            (is_behind postgres (cursor_at (record_of x))) db.ledger)
        ∙ (order_by-keep_if (newer_first postgres) (newer_total postgres listable.order)
              (newer_trans postgres listable.order) (is_behind postgres (cursor_at (record_of x)))
              (keep_if (λ r. str_eq r.wallet_id wallet_id && true) db.ledger)
            ∙ (keep_if_ext (is_behind postgres (cursor_at (record_of x)))
                  (λ r. not (newer_first postgres r x)) all_rows
                  (is_behind_lem postgres listable.order x)
                ∙ (ap (keep_if (λ r. not (newer_first postgres r x))) split
                    ∙ keep_if_behind (newer_first postgres) (newer_total postgres listable.order)
                        (newer_trans postgres listable.order) x before after
                        (subst (IsInOrder (newer_first postgres)) split all_rows-IsInOrder)
                        (subst (IsApart (newer_first postgres)) split all_rows-IsApart))))

    present_cursor : (c : LedgerCursor) → is_empty (encode_ledger_cursor format c) ≡ false
    unfolding encode_ledger_cursor
    present_cursor c = listable.format_fits.present (format.format_time c.created_at) c.id

    requested :
        (c : LedgerCursor)
        → is_empty c.id ≡ false
        → format.is_uuid c.id ≡ true
        → request_cursor postgres parse_iso format (encode_ledger_cursor format c) ≡ ok (some c)
    unfolding request_cursor
    requested c named valid =
        rw (present_cursor c, decode-encode_ledger_cursor format c listable.format_fits named valid)
          refl

    next_Denotes :
        (before : List LedgerRow) (x : LedgerRow) (after : List LedgerRow)
        → all_rows ≡ before ++ x ∷ after
        → Denotes (encode_ledger_cursor format (cursor_at (record_of x))) after
    next_Denotes before x after split =
        let inside = all_rows-Mem x (subst (Memᴰ x) (sym split) (Mem-between x before after)) in
        let (named, valid) = listable.named x inside in
        record {
          cursor = some (cursor_at (record_of x));
          decoded = requested (cursor_at (record_of x)) named valid;
          selected = behind_row before x after split;
        }

    listed :
        (cursor : Option LedgerCursor) (rows : List LedgerRow)
        → order_by
            (newer_first postgres)
            (keep_if (λ r. str_eq r.wallet_id wallet_id && behind postgres cursor r) db.ledger)
          ≡ rows
        → ((r : LedgerRow) → Memᴰ r rows → Memᴰ r db.ledger)
        → list_ledger postgres parse_iso wallet_id cursor (page_limit limit + 1) db.ledger
          ≡ ok (map record_of (limit_to (suc (page_limit limit)) rows))
    unfolding list_ledger ledger_rows
    listed cursor rows selected inside =
        rw (selected, one_more (page_limit limit))
          (scan_records_lem (limit_to (suc (page_limit limit)) rows)
            λ r m. inside r (limit_to-Mem (suc (page_limit limit)) r rows m))

    -- The page of the rows that are still to come.
    page_lem :
        (value : String) (rows : List LedgerRow)
        → Denotes value rows
        → ((r : LedgerRow) → Memᴰ r rows → Memᴰ r db.ledger)
        → ledger postgres parse_iso format wallet_id value limit db
          ≡ ok (
              page_of postgres parse_iso format (
                page_records
                  (page_limit limit)
                  (map record_of (limit_to (suc (page_limit limit)) rows))))
    unfolding ledger
    page_lem value rows d inside =
        rw (found, d.decoded, listed d.cursor rows d.selected inside) refl

    -- Enough rounds read all rows that are still to come.
    read_rest :
        (rounds : ℕ) (before : List LedgerRow) (value : String) (rows : List LedgerRow)
        → all_rows ≡ before ++ rows
        → Denotes value rows
        → length rows < rounds
        → read_pages rounds value ≡ ok (map row_view rows)
    unfolding read_pages with_rest
    read_rest zero before value rows split d enough = ground (arith, enough)
    read_rest (suc rounds) before value rows split d enough =
        let inside : (r : LedgerRow) → Memᴰ r rows → Memᴰ r db.ledger =
          λ r m. all_rows-Mem r (subst (Memᴰ r) (sym split) (Memᴰ.append_right before m)) in
        elim (rooms (page_limit limit) rows (limit_positive limit)) [
          | inl fits ↦
              rw
                (
                  page_lem value rows d inside,
                  short_page postgres parse_iso format (page_limit limit) rows fits,
                )
                refl
          | inr (front, x, y, back, same, size) ↦
              let here = split ∙ ap (◌++◌ before) same in
              let next =
                next_Denotes (before ++ front) x (y ∷ back)
                  (here ∙ sym (append_assoc before front (x ∷ y ∷ back))) in
              let rest =
                read_rest rounds (before ++ (front ++ x ∷ []))
                  (encode_ledger_cursor format (cursor_at (record_of x))) (y ∷ back)
                  (here
                    ∙ (ap (◌++◌ before) (sym (append_assoc front (x ∷ []) (y ∷ back)))
                        ∙ sym (append_assoc before (front ++ x ∷ []) (y ∷ back))))
                  next (omega (arith, length_behind front x y back, enough, ap length same)) in
              rw
                (
                  page_lem value rows d inside,
                  full_page postgres parse_iso format (page_limit limit) rows front x y back same
                      size,
                  present_cursor (cursor_at (record_of x)),
                  rest,
                )
                (ap ok (pages_joined front x y back ∙ ap (map row_view) (sym same)))
        ]

  -- Where the wallet is found, every entry of the ledger can be read and the identifiers differ: reading
  -- the pages of a wallet one behind the other, each from the cursor of the one before, ends after at
  -- most as many calls as there are entries and one, whatever the limit, and returns every entry of the
  -- wallet exactly once, the newest first.
  pub read_pages_lem :
      (wallet : Wallet) (rounds : ℕ)
      → IsListable postgres parse_iso format db.ledger
      → scan_found parse_iso (find_wallet_row wallet_id db.wallets) ≡ ok wallet
      → length all_rows < rounds
      → read_pages rounds "" ≡ ok (map row_view all_rows)
  read_pages_lem wallet rounds listable found enough =
      read_rest wallet listable found rounds [] "" all_rows refl
        (first_Denotes wallet listable found) enough
