-- ===== src/Examples/Order.antt =====
-- An order of identifiers and a format of cursors, as the listing of a ledger needs them.
use Prim.Native.Char.{Char, code}
use Prim.Native.Nat.{compare, Ordering}
use text.Mathlib.TextEquality.{codes_equal}
use jungle_gaming_backend_te.Prelude.{
  ℕ, zero, suc, String, ◌≡◌, refl, ap, ap₂, Bool, true, false, ◌&&◌, ◌||◌, some, ltb, ◌==◌,
  is_empty, arith, inl, inr, Bool-cases, eq_iff,
}
use jungle_gaming_backend_te.Domain.Time.{Time}
use jungle_gaming_backend_te.Store.Tables.{Postgres}
use jungle_gaming_backend_te.Application.WalletService.Rows.{IsUuidOrder}
use jungle_gaming_backend_te.Application.WalletService.Cursor.{
  CursorFormat, IsFormat, NoBar, with_bar,
}

-- The order of texts by their code points.
unfoldable pub text_leb : String → String → Bool
text_leb String.[] t = true
text_leb (String.◌∷◌ c s) String.[] = false
text_leb (String.◌∷◌ c s) (String.◌∷◌ d t) =
    ltb (code c) (code d) || (code c == code d && text_leb s t)

same_code : (m n : ℕ) → (m == n) ≡ true → compare m n ≡ Ordering.eq
same_code m n h = ground (arith, h)

text_total : (a b : String) → (text_leb a b || text_leb b a) ≡ true
unfolding text_leb
text_total String.[] b = refl
text_total (String.◌∷◌ c s) String.[] = refl
text_total (String.◌∷◌ c s) (String.◌∷◌ d t) = ground (arith, text_total s t)

text_trans : (a b c : String) → text_leb a b ≡ true → text_leb b c ≡ true → text_leb a c ≡ true
unfolding text_leb
text_trans String.[] b c h k = refl
text_trans (String.◌∷◌ x s) String.[] c h k = cc
text_trans (String.◌∷◌ x s) (String.◌∷◌ y t) String.[] h k = cc
text_trans (String.◌∷◌ x s) (String.◌∷◌ y t) (String.◌∷◌ z u) h k = ground (arith, text_trans s t u)

text_parts :
    (c d : Char) (s t : String)
    → text_leb (String.◌∷◌ c s) (String.◌∷◌ d t) ≡ true
    → text_leb (String.◌∷◌ d t) (String.◌∷◌ c s) ≡ true
    → ((code c == code d) ≡ true) × (text_leb s t ≡ true) × (text_leb t s ≡ true)
unfolding text_leb
text_parts c d s t h k = ground arith

text_antisym : (a b : String) → text_leb a b ≡ true → text_leb b a ≡ true → a ≡ b
text_antisym String.[] String.[] h k = refl
text_antisym String.[] (String.◌∷◌ d t) h k = unfold text_leb in cc
text_antisym (String.◌∷◌ c s) String.[] h k = unfold text_leb in cc
text_antisym (String.◌∷◌ c s) (String.◌∷◌ d t) h k =
    let (same, there, back) = text_parts c d s t h k in
    ap₂ String.◌∷◌ (codes_equal c d (same_code (code c) (code d) same))
      (text_antisym s t there back)

abbrev pub by_text : Postgres
by_text = record { uuid_leb = text_leb; held = λ _. false; left = λ s n. s }

pub by_text-IsUuidOrder : IsUuidOrder by_text
by_text-IsUuidOrder = record { total = text_total; trans = text_trans; antisym = text_antisym }

-- A time as that many strokes.
abbrev strokes : Time → String
strokes zero = String.[]
strokes (suc n) = String.◌∷◌ "I" (strokes n)

abbrev count : String → ℕ
count String.[] = 0
count (String.◌∷◌ c s) = suc (count s)

count-strokes : (t : Time) → count (strokes t) ≡ t
count-strokes zero = refl
count-strokes (suc t) = ap suc (count-strokes t)

strokes-NoBar : (t : Time) → NoBar (strokes t)
strokes-NoBar zero = tt
strokes-NoBar (suc t) = (refl, strokes-NoBar t)

abbrev pub by_strokes : CursorFormat
by_strokes = record {
  encode_base64 = λ s. s;
  decode_base64 = λ s. some s;
  format_time = strokes;
  parse_time = λ s. some (count s);
  is_uuid = λ _. true;
}

not_empty : (c : Char) (s : String) → is_empty (String.◌∷◌ c s) ≡ false
not_empty c s = elim (Bool-cases (is_empty (String.◌∷◌ c s))) [
  | inl h ↦
      let clash : suc (count s) ≡ 0 = ap count ((eq_iff (String.◌∷◌ c s) "").0 h) in
      ground (arith, clash)
  | inr h ↦ h
]

barred : (s t : String) → is_empty (with_bar s t) ≡ false
unfolding with_bar
barred String.[] t = not_empty "|" t
barred (String.◌∷◌ c s) t = not_empty c (with_bar s t)

pub by_strokes-IsFormat : IsFormat by_strokes
by_strokes-IsFormat = record {
  base64 = λ s. refl;
  time = λ t. ap some (count-strokes t);
  barless = strokes-NoBar;
  present = barred;
}
