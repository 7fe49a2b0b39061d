-- ===== src/Domain/Money/Text.antt =====
-- internal/domain/money.go: the decimal text of an amount, its parser, and the JSON form. A text is
-- the list of its bytes. `json.Marshal` and `json.Unmarshal` carry a `SerializedMoney` to bytes and
-- back; an error of `json.Unmarshal` is the argument `none`.
use jungle_gaming_backend_te.Prelude.{
  ℕ, zero, suc, ◌+◌, ◌-◌, ◌*◌, ◌/◌, ◌%◌, ◌^◌, String, Bool, false, not, ◌&&◌, [], ◌∷◌, ◌++◌, Option,
  none, some, Bytes, ltb, leb, ◌==◌, if◌then◌else◌,
}
use jungle_gaming_backend_te.Prelude.Int.{ℤ, pos, ltb_ℤ}
use jungle_gaming_backend_te.Prelude.Word.{max_uint64, min_int64, add64, sub64, to_uint64, to_int64}
use jungle_gaming_backend_te.Errors.{
  Result, ok, err, ◌>>=◌, ◌>>◌, fail_if, or_error, invalid_money, money_overflow,
}
use jungle_gaming_backend_te.Domain.Money.{Money, parse_currency, validate, is_negative}

-- The digits of `n` in front of `out`, at most as many as the fuel.
unfoldable pub digits : ℕ → ℕ → Bytes → Bytes
digits zero n out = out
digits (suc fuel) n out =
    let more = digits fuel (n / 10) ((b'0' + n % 10) ∷ out) in if n == 0 then out else more

-- `strconv.FormatUint(n, 10)`: a uint64 has at most twenty digits.
unfoldable pub format_uint : ℕ → Bytes
format_uint n = if n == 0 then b'0' ∷ [] else digits 20 n []

-- `uint64(-(minor + 1)) + 1` of a negative amount, else `uint64(minor)`.
unfoldable pub magnitude : ℤ → ℕ
magnitude minor =
    if ltb_ℤ minor (pos 0)
    then (to_uint64 (sub64 (pos 0) (add64 minor (pos 1))) + 1) % 2 ^ 64
    else to_uint64 minor

unfoldable pub format_minor : ℕ → Bytes
format_minor absolute =
    let cents = absolute % 100 in
    format_uint (absolute / 100)
    ++ (b'.' ∷ ((if ltb cents 10 then b'0' ∷ [] else []) ++ format_uint cents))

-- `Money.Amount`
unfoldable pub amount : Money → Bytes
amount m =
    let value = format_minor (magnitude m.minor) in if is_negative m then b'-' ∷ value else value

abbrev pub is_digit : ℕ → Bool
is_digit c = leb b'0' c && leb c b'9'

-- The longest run of digits, and what follows it.
unfoldable pub span_digits : Bytes → Bytes × Bytes
span_digits [] = ([], [])
span_digits (c ∷ s) =
    let (ds, rest) = span_digits s in if is_digit c then (c ∷ ds, rest) else ([], c ∷ s)

-- `0|[1-9][0-9]*`
unfoldable pub match_major : Bytes → Option (Bytes × Bytes)
match_major [] = none
match_major (c ∷ s) =
    if c == b'0'
    then some (c ∷ [], s)
    else if is_digit c
    then (let (ds, rest) = span_digits s in some (c ∷ ds, rest))
    else none

-- `\.([0-9]{2})$`
unfoldable pub match_cents : Bytes → Option Bytes
match_cents (dot ∷ a ∷ b ∷ []) =
    if dot == b'.' && (is_digit a && is_digit b) then some (a ∷ b ∷ []) else none
match_cents _ = none

-- `_amountPattern.FindStringSubmatch`: the two groups.
unfoldable pub match_amount : Bytes → Option (Bytes × Bytes)
match_amount text = elim (match_major text) [
  | none ↦ none
  | some (major, rest) ↦ elim (match_cents rest) [ none ↦ none | some cents ↦ some (major, cents) ]
]

-- `strconv.ParseUint(s, 10, 64)` behind the digits that `n` stands for.
unfoldable pub scan_uint : Bytes → ℕ → Option ℕ
scan_uint [] n = some n
scan_uint (c ∷ s) n =
    let next = n * 10 + (c - b'0') in
    let rest = scan_uint s next in
    if not (is_digit c) then none else if ltb max_uint64 next then none else rest

unfoldable pub parse_uint : Bytes → Option ℕ
unfolding scan_uint
parse_uint [] = none
parse_uint (c ∷ s) = scan_uint (c ∷ s) 0

-- The value beside an ignored error: `ParseUint` returns 0 or the largest value.
abbrev pub cents_of : Option ℕ → ℕ
cents_of (some n) = n
cents_of none = 0

unfoldable pub parse_non_negative_minor : Bytes → ℕ → Result ℕ
parse_non_negative_minor text maximum = elim (match_amount text) [
  | none ↦ err invalid_money
  | some (major_text, cents_text) ↦ elim (parse_uint major_text) [
    | none ↦ err money_overflow
    | some major ↦
        let cents = cents_of (parse_uint cents_text) in
        if ltb ((maximum + 2 ^ 64 - cents) % 2 ^ 64 / 100) major
        then err money_overflow
        else ok ((major * 100 + cents) % 2 ^ 64)
  ]
]

pub record SerializedMoney : Type 0 where
  pub amount : Bytes
  pub currency : String

-- Whether the text begins with a minus sign, and what follows the sign.
unfoldable pub starts_negative : Bytes → Bool
starts_negative [] = false
starts_negative (c ∷ s) = c == b'-'

unfoldable pub without_sign : Bytes → Bytes
without_sign [] = []
without_sign (c ∷ s) = if c == b'-' then s else c ∷ s

module _ (parse_iso : String → Bool) where
  unfoldable pub parse_money : Bytes → String → Result Money
  parse_money text currency = do
    or_error (parse_currency parse_iso currency) invalid_money
    minor ← parse_non_negative_minor text (2 ^ 63 - 1)
    ok (record { minor = to_int64 minor; currency = currency })

  unfoldable pub marshal_money : Money → Result SerializedMoney
  marshal_money m = do
    validate parse_iso m
    ok (record { amount = amount m; currency = m.currency })

  -- The branch for a text with a minus sign, which reaches down to the least int64.
  unfoldable pub unmarshal_negative : Bytes → String → Result Money
  unmarshal_negative text currency = do
    or_error (parse_currency parse_iso currency) invalid_money
    absolute ← parse_non_negative_minor text (2 ^ 63)
    fail_if (absolute == 0) invalid_money
    ok (record {
      minor = if absolute == 2 ^ 63 then min_int64 else sub64 (pos 0) (to_int64 absolute);
      currency = currency;
    })

  unfoldable pub unmarshal_money : Option SerializedMoney → Result Money
  unmarshal_money none = err invalid_money
  unmarshal_money (some encoded) =
      if starts_negative encoded.amount
      then unmarshal_negative (without_sign encoded.amount) encoded.currency
      else parse_money encoded.amount encoded.currency
