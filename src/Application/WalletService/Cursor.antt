-- ===== src/Application/WalletService/Cursor.antt =====
-- internal/application/cursor.go: the opaque text of a ledger cursor.
use Prim.Native.Char.{Char, code}
use jungle_gaming_backend_te.Prelude.{
  String, ◌≡◌, refl, ap, Bool, true, false, not, ◌||◌, Option, none, some, ◌==◌, is_empty,
  if◌then◌else◌,
}
use jungle_gaming_backend_te.Errors.{Result, ok, err, invalid_cursor}
use jungle_gaming_backend_te.Domain.Time.{Time}
use jungle_gaming_backend_te.Store.Ledger.Listing.{LedgerCursor}

-- What the cursor takes from packages outside the repository.
pub record CursorFormat : Type 0 where
  -- `base64.RawURLEncoding`
  pub encode_base64 : String → String
  pub decode_base64 : String → Option String
  -- `Format` and `Parse` with `time.RFC3339Nano`
  pub format_time : Time → String
  pub parse_time : String → Option Time
  -- `uuid.Parse`
  pub is_uuid : String → Bool

abbrev pub is_bar : Char → Bool
is_bar c = code c == 124

-- `s + "|" + t`
unfoldable pub with_bar : String → String → String
with_bar String.[] t = String.◌∷◌ "|" t
with_bar (String.◌∷◌ c s) t = String.◌∷◌ c (with_bar s t)

abbrev pub put_first : Char → Option (String × String) → Option (String × String)
put_first c none = none
put_first c (some (s, t)) = some (String.◌∷◌ c s, t)

-- `strings.SplitN(s, "|", 2)`, where it makes two parts
unfoldable pub split_bar : String → Option (String × String)
split_bar String.[] = none
split_bar (String.◌∷◌ c s) = if is_bar c then some (String.[], s) else put_first c (split_bar s)

module _ (format : CursorFormat) where
  -- `encodeLedgerCursor`
  unfoldable pub encode_ledger_cursor : LedgerCursor → String
  unfolding with_bar
  encode_ledger_cursor c = format.encode_base64 (with_bar (format.format_time c.created_at) c.id)

  -- The second part must be an identifier, the first a time.
  unfoldable pub cursor_of : Option (String × String) → Result LedgerCursor
  cursor_of none = err invalid_cursor
  cursor_of (some (time, id)) =
      if is_empty id || not (format.is_uuid id)
      then err invalid_cursor
      else elim (format.parse_time time) [
        | none ↦ err invalid_cursor
        | some t ↦ ok (record { created_at = t; id = id })
      ]

  unfoldable pub decode_raw : Option String → Result LedgerCursor
  unfolding cursor_of split_bar
  decode_raw none = err invalid_cursor
  decode_raw (some raw) = cursor_of (split_bar raw)

  -- `decodeLedgerCursor`; the use case wraps its errors as `ErrInvalidCursor`.
  unfoldable pub decode_ledger_cursor : String → Result LedgerCursor
  unfolding decode_raw
  decode_ledger_cursor value = decode_raw (format.decode_base64 value)

-- A text without the bar.
abbrev pub NoBar : String → Type 0
NoBar String.[] = Unit {0}
NoBar (String.◌∷◌ c s) = (is_bar c ≡ false) × NoBar s

split_bar-with_bar : (s t : String) → NoBar s → split_bar (with_bar s t) ≡ some (s, t)
unfolding split_bar with_bar
split_bar-with_bar String.[] t h = refl
split_bar-with_bar (String.◌∷◌ c s) t (here, rest) =
    rw here (ap (put_first c) (split_bar-with_bar s t rest))

-- How the formats of the packages behave, as far as cursors need it.
pub record IsFormat (format : CursorFormat) : Type 0 where
  pub base64 : (s : String) → format.decode_base64 (format.encode_base64 s) ≡ some s
  pub time : (t : Time) → format.parse_time (format.format_time t) ≡ some t
  pub barless : (t : Time) → NoBar (format.format_time t)
  -- an encoding of what is not empty is not empty
  pub present : (s t : String) → is_empty (format.encode_base64 (with_bar s t)) ≡ false

-- A cursor is read back from its text, where its identifier is one that `uuid.Parse` accepts and is
-- not empty.
pub decode-encode_ledger_cursor :
    (format : CursorFormat) (c : LedgerCursor)
    → IsFormat format
    → is_empty c.id ≡ false
    → format.is_uuid c.id ≡ true
    → decode_ledger_cursor format (encode_ledger_cursor format c) ≡ ok c
unfolding decode_ledger_cursor encode_ledger_cursor decode_raw cursor_of
decode-encode_ledger_cursor format c good named valid =
    rw (good.base64 (with_bar (format.format_time c.created_at) c.id)) (
      rw (split_bar-with_bar (format.format_time c.created_at) c.id (good.barless c.created_at))
        (rw (named, valid) (rw (good.time c.created_at))))
