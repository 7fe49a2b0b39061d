-- ===== src/Domain/Money/Digits.antt =====
-- Decimal numbers of internal/domain/money.go: `FormatUint`, the amount pattern and `ParseUint`.
use native.Mathlib.Nat.{pow-suc}
use native.Mathlib.Decide.{dec_lt}
use mathlib.Core.List.{append_assoc, append-nil}
use jungle_gaming_backend_te.Prelude.{
  ℕ, zero, suc, ◌+◌, ◌/◌, ◌%◌, ◌^◌, ◌≤◌, ◌<◌, ◌≡◌, refl, ◌∙◌, [], ◌∷◌, ◌++◌, some, Bytes, ltb, leb,
  ◌==◌, if◌then◌else◌, arith, All, Bool-cases, inl, inr,
}
use jungle_gaming_backend_te.Domain.Money.Text.{
  digits, format_uint, format_minor, span_digits, match_major, match_cents, match_amount, scan_uint,
  parse_uint, parse_non_negative_minor,
}
use jungle_gaming_backend_te.Prelude.Word.{max_uint64}
use jungle_gaming_backend_te.Errors.{ok, err, money_overflow}

-- Reading the last digit of `n` behind the digits before it gives `n`.
scan_last :
    (n : ℕ) (out : Bytes)
    → n ≤ max_uint64
    → scan_uint ((b'0' + n % 10) ∷ out) (n / 10) ≡ scan_uint out n
unfolding scan_uint
scan_last n out h = ground arith

scan_uint-digits :
    (fuel n : ℕ) (out : Bytes)
    → n < 10 ^ fuel
    → n ≤ max_uint64
    → scan_uint (digits fuel n out) 0 ≡ scan_uint out n
unfolding digits
scan_uint-digits zero n out h fits = let e : n ≡ 0 = omega arith in rw e
scan_uint-digits (suc fuel) n out h fits = ground (
  arith,
  pow-suc 10 fuel,
  scan_uint-digits fuel (n / 10) ((b'0' + n % 10) ∷ out),
  scan_last n out,
)

abbrev pub IsDigit : ℕ → Type 0
IsDigit c = (b'0' ≤ c) × (c ≤ b'9')

-- A text that begins with a digit other than zero, more digits, and then `out`.
pub record Leads (s out : Bytes) : Type 0 where
  pub first : ℕ
  pub others : Bytes
  pub shape : s ≡ first ∷ (others ++ out)
  pub is_first : (b'1' ≤ first) × (first ≤ b'9')
  pub are_digits : All IsDigit others

All-append : (xs ys : Bytes) → All IsDigit xs → All IsDigit ys → All IsDigit (xs ++ ys)
All-append [] ys _ hy = hy
All-append (x ∷ xs) ys (hx, hxs) hy = (hx, All-append xs ys hxs hy)

-- One more digit behind the leading ones.
Leads-cons : (s out : Bytes) (d : ℕ) → IsDigit d → Leads s (d ∷ out) → Leads s out
Leads-cons s out d hd l = record {
  first = l.first;
  others = l.others ++ d ∷ [];
  shape = rw append_assoc l.shape;
  is_first = l.is_first;
  are_digits = All-append l.others (d ∷ []) l.are_digits (hd, tt);
}

digits_step :
    (fuel n : ℕ) (out : Bytes)
    → 0 < n
    → digits (suc fuel) n out ≡ digits fuel (n / 10) ((b'0' + n % 10) ∷ out)
unfolding digits
digits_step fuel n out p = ground arith

digits-zero : (fuel : ℕ) (out : Bytes) → digits fuel 0 out ≡ out
unfolding digits
digits-zero zero out = refl
digits-zero (suc fuel) out = refl

-- A positive number begins with a digit that is not zero.
pub digits-Leads :
    (fuel n : ℕ) (out : Bytes) → 0 < n → n < 10 ^ fuel → Leads (digits fuel n out) out
digits-Leads zero n out p h = absurd (omega (arith))
digits-Leads (suc fuel) n out p h = elim (dec_lt 0 (n / 10)) [
  | yes q ↦ rw (digits_step fuel n out p) (
      Leads-cons _ out (b'0' + n % 10) (omega arith)
        (digits-Leads fuel (n / 10) ((b'0' + n % 10) ∷ out) q (omega (arith, pow-suc 10 fuel))))
  | no q ↦
      let e : n / 10 ≡ 0 = omega arith in
      rw (digits_step fuel n out p) (
        rw (e, digits-zero)
          (record {
            first = b'0' + n % 10;
            others = [];
            shape = refl;
            is_first = (omega arith, omega arith);
            are_digits = tt;
          }))
]

-- The run of digits ends at a point.
span_digits-append : (ds s : Bytes) → All IsDigit ds → span_digits (ds ++ b'.' ∷ s) ≡ (ds, b'.' ∷ s)
unfolding span_digits
span_digits-append [] s h = refl
span_digits-append (d ∷ ds) s (hd, h) = ground (arith, span_digits-append ds s h)

match_major-Leads : (t s : Bytes) → Leads t [] → match_major (t ++ b'.' ∷ s) ≡ some (t, b'.' ∷ s)
unfolding match_major
match_major-Leads t s l =
    rw (l.shape, append-nil) (ground (arith, span_digits-append l.others s l.are_digits))

-- The printed integer part is matched as a whole.
match_major-format_uint :
    (n : ℕ) (s : Bytes)
    → n ≤ max_uint64
    → match_major (format_uint n ++ b'.' ∷ s) ≡ some (format_uint n, b'.' ∷ s)
unfolding format_uint match_major
match_major-format_uint n s h = elim (Bool-cases (n == 0)) [
  | inl e ↦ rw e
  | inr e ↦ rw e (match_major-Leads _ s (digits-Leads 20 n [] (ground arith) (omega arith)))
]

parse_uint-Leads : (t out : Bytes) → Leads t out → parse_uint t ≡ scan_uint t 0
unfolding parse_uint
parse_uint-Leads t out l = rw l.shape

parse_uint-zero : parse_uint (b'0' ∷ []) ≡ some 0
unfolding parse_uint scan_uint
parse_uint-zero = refl

scan_uint-nil : (n : ℕ) → scan_uint [] n ≡ some n
unfolding scan_uint
scan_uint-nil n = refl

parse_uint-format_uint : (n : ℕ) → n ≤ max_uint64 → parse_uint (format_uint n) ≡ some n
unfolding format_uint
parse_uint-format_uint n h = elim (Bool-cases (n == 0)) [
  | inl e ↦ let z : n ≡ 0 = ground arith in rw z parse_uint-zero
  | inr e ↦ rw e (
      parse_uint-Leads _ [] (digits-Leads 20 n [] (ground arith) (omega arith))
      ∙ scan_uint-digits 20 n [] (omega arith) h
      ∙ scan_uint-nil n)
]

-- The cents are printed with two digits.
two_digits :
    (c : ℕ)
    → c < 100
    → ((if ltb c 10 then b'0' ∷ [] else []) ++ format_uint c)
      ≡ (b'0' + c / 10) ∷ (b'0' + c % 10) ∷ []
unfolding format_uint
two_digits c h = ground (
  arith,
  digits_step 19 c [],
  digits_step 18 (c / 10) ((b'0' + c % 10) ∷ []),
  digits-zero 19 ((b'0' + c % 10) ∷ []),
  digits-zero 18 ((b'0' + c / 10) ∷ (b'0' + c % 10) ∷ []),
)

parse_uint-two : (c : ℕ) → c < 100 → parse_uint ((b'0' + c / 10) ∷ (b'0' + c % 10) ∷ []) ≡ some c
unfolding parse_uint scan_uint
parse_uint-two c h = ground arith

match_cents-two :
    (c : ℕ)
    → c < 100
    → match_cents (b'.' ∷ (b'0' + c / 10) ∷ (b'0' + c % 10) ∷ [])
      ≡ some ((b'0' + c / 10) ∷ (b'0' + c % 10) ∷ [])
unfolding match_cents
match_cents-two c h = ground arith

-- The pattern takes a printed amount apart into its integer part and its cents.
match_amount-format_minor :
    (a : ℕ)
    → a ≤ max_uint64
    → match_amount (format_minor a)
      ≡ some (format_uint (a / 100), (b'0' + a % 100 / 10) ∷ (b'0' + a % 100 % 10) ∷ [])
unfolding match_amount format_minor
match_amount-format_minor a h = rw (two_digits (a % 100) (omega arith)) (
    rw (match_major-format_uint (a / 100) _ (omega arith), match_amount)
      (rw (match_cents-two (a % 100) (omega arith), match_amount)))

-- A printed magnitude below 2^64 is read back exactly where it is within the bound, and is refused as
-- an overflow else, for every bound from 99 to 2^64 - 1.
pub parse_minor-format_minor :
    (a maximum : ℕ)
    → a ≤ max_uint64
    → 99 ≤ maximum
    → maximum ≤ max_uint64
    → parse_non_negative_minor (format_minor a) maximum
      ≡ (if leb a maximum then ok a else err money_overflow)
unfolding parse_non_negative_minor
parse_minor-format_minor a maximum h lo hi =
    rw (match_amount-format_minor a h, parse_non_negative_minor)
      (rw (parse_uint-format_uint (a / 100) (omega arith), parse_non_negative_minor)
        (rw (parse_uint-two (a % 100) (omega arith)) (ground arith)))
