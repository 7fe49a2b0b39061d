-- ===== src/Application/WalletService/Rows.antt =====
-- The rows of the ledger that `ListLedger` (internal/infrastructure/postgres/store.go) orders and
-- selects, and what they say.
use jungle_gaming_backend_te.Prelude.{
  String, ◌≡◌, ◌≢◌, refl, sym, Bool, true, not, ◌&&◌, ◌||◌, List, [], ◌∷◌, arith,
}
use mathlib.Core.List.{Memᴰ}
use jungle_gaming_backend_te.Prelude.Int.{ℤ}
use jungle_gaming_backend_te.Prelude.Ordered.{keep_if}
use jungle_gaming_backend_te.Prelude.Sorted.{IsApart, apart}
use jungle_gaming_backend_te.Domain.Money.{Money}
use jungle_gaming_backend_te.Application.Contracts.{LedgerEntryView}
use jungle_gaming_backend_te.Application.WalletService.Ledger.{entry_view, cursor_at}
use jungle_gaming_backend_te.Store.Tables.{LedgerRow, Postgres}
use jungle_gaming_backend_te.Store.Ledger.Listing.{LedgerRecord, newer_first, is_behind}

-- The order of PostgreSQL's uuid: total, transitive and antisymmetric.
pub record IsUuidOrder (postgres : Postgres) : Type 0 where
  pub total : (a b : String) → (postgres.uuid_leb a b || postgres.uuid_leb b a) ≡ true
  pub trans :
      (a b c : String)
      → postgres.uuid_leb a b ≡ true
      → postgres.uuid_leb b c ≡ true
      → postgres.uuid_leb a c ≡ true
  pub antisym : (a b : String) → postgres.uuid_leb a b ≡ true → postgres.uuid_leb b a ≡ true → a ≡ b

abbrev pub HasDistinctIds : List LedgerRow → Type 0
HasDistinctIds [] = Unit {0}
HasDistinctIds (r ∷ rows) = ((s : LedgerRow) → Memᴰ s rows → r.id ≢ s.id) × HasDistinctIds rows

-- What a row says, read without a check.
abbrev pub amount_in : LedgerRow → ℤ → Money
amount_in r minor = record { minor = minor; currency = r.currency }

abbrev pub record_of : LedgerRow → LedgerRecord
record_of r = record {
  id = r.id;
  transaction_id = r.transaction_id;
  direction = r.direction;
  money = amount_in r r.money_minor;
  before = amount_in r r.balance_before_minor;
  after = amount_in r r.balance_after_minor;
  created_at = r.created_at;
}

abbrev pub row_view : LedgerRow → LedgerEntryView
row_view r = entry_view (record_of r)

module _ (postgres : Postgres) (order : IsUuidOrder postgres) where
  pub newer_total :
      (a b : LedgerRow) → (newer_first postgres a b || newer_first postgres b a) ≡ true
  unfolding newer_first
  newer_total a b = ground (arith, order.total b.id a.id)

  pub newer_trans :
      (a b c : LedgerRow)
      → newer_first postgres a b ≡ true
      → newer_first postgres b c ≡ true
      → newer_first postgres a c ≡ true
  unfolding newer_first
  newer_trans a b c h k = ground (arith, order.trans c.id b.id a.id)

  newer_apart : (a b : LedgerRow) → a.id ≢ b.id → apart (newer_first postgres) a b ≡ true
  unfolding newer_first
  newer_apart a b h = ground (arith, order.antisym a.id b.id)

  pub distinct-IsApart :
      (rows : List LedgerRow) → HasDistinctIds rows → IsApart (newer_first postgres) rows
  distinct-IsApart [] h = tt
  distinct-IsApart (r ∷ rows) (here, rest) = (
    λ s m. (newer_apart r s (here s m), newer_apart s r (λ e. here s m (sym e))),
    distinct-IsApart rows rest,
  )

  pub is_behind_lem :
      (x r : LedgerRow)
      → is_behind postgres (cursor_at (record_of x)) r ≡ not (newer_first postgres r x)
  unfolding is_behind newer_first
  is_behind_lem x r = ground arith

pub keep_if_ext :
    (p q : LedgerRow → Bool) (rows : List LedgerRow)
    → ((r : LedgerRow) → p r ≡ q r)
    → keep_if p rows ≡ keep_if q rows
keep_if_ext p q [] h = refl
keep_if_ext p q (r ∷ rows) h = rw (h r, keep_if_ext p q rows h) refl

pub keep_if_both :
    (p q : LedgerRow → Bool) (rows : List LedgerRow)
    → keep_if (λ r. p r && q r) rows ≡ keep_if q (keep_if (λ r. p r && true) rows)
keep_if_both p q [] = refl
keep_if_both p q (r ∷ rows) = ground (arith, keep_if_both p q rows)
