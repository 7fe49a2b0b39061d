-- ===== src/Domain/Money/RoundTrip.antt =====
-- Amounts of internal/domain/money.go and their texts: printing and reading together.
use jungle_gaming_backend_te.Prelude.{
  subst, ℕ, ◌+◌, ◌-◌, ◌/◌, ◌^◌, ◌≤◌, String, ◌≡◌, refl, Bool, true, false, ◌∙◌, [], ◌∷◌, some,
  Bytes, leb, ◌==◌, if◌then◌else◌, arith, Bool-cases, inl, inr,
}
use jungle_gaming_backend_te.Domain.Money.Text.{
  format_uint, format_minor, amount, match_major, match_amount, parse_non_negative_minor,
}
use jungle_gaming_backend_te.Prelude.Int.{ℤ, pos, negsuc, ◌-ℤ◌}
use jungle_gaming_backend_te.Prelude.Word.{
  max_uint64, InInt64, to_uint64_of_nonneg, negated_below_zero, to_int64_of_fits, min_int64, sub64,
  to_int64, wrap64,
}
use jungle_gaming_backend_te.Errors.{fail_if, ok, err, invalid_money, ◌>>◌, >>=-eq-ok, or_error}
use jungle_gaming_backend_te.Domain.Money.{Money, validate, parse_currency, is_negative}
use jungle_gaming_backend_te.Domain.Money.Text.{
  magnitude, SerializedMoney, marshal_money, unmarshal_money, unmarshal_negative, parse_money,
  starts_negative, without_sign,
}
use jungle_gaming_backend_te.Domain.Money.Digits.{digits-Leads, parse_minor-format_minor}

magnitude-pos : (n : ℕ) → n ≤ 2 ^ 63 - 1 → magnitude (pos n) ≡ n
unfolding magnitude
magnitude-pos n h = ground (arith, to_uint64_of_nonneg n)

magnitude-negsuc : (n : ℕ) → n ≤ 2 ^ 63 - 1 → magnitude (negsuc n) ≡ n + 1
unfolding magnitude
magnitude-negsuc n h =
    rw (negated_below_zero n h) (rw (to_uint64_of_nonneg n (omega arith)) (ground arith))

amount-pos :
    (n : ℕ) (currency : String)
    → n ≤ 2 ^ 63 - 1
    → amount (record { minor = pos n; currency = currency }) ≡ format_minor n
unfolding amount is_negative
amount-pos n currency h = rw (magnitude-pos n h) (ground arith)

amount-negsuc :
    (n : ℕ) (currency : String)
    → n ≤ 2 ^ 63 - 1
    → amount (record { minor = negsuc n; currency = currency }) ≡ b'-' ∷ format_minor (n + 1)
unfolding amount is_negative
amount-negsuc n currency h = rw (magnitude-negsuc n h) (ground arith)

-- What is printed begins with a digit, so a sign is never mistaken for one.
format_minor-unsigned : (a : ℕ) → a ≤ max_uint64 → (starts_negative (format_minor a) ≡ false)
unfolding format_minor format_uint starts_negative
format_minor-unsigned a h = elim (Bool-cases (a / 100 == 0)) [
  | inl e ↦ rw e
  | inr e ↦
      let l = digits-Leads 20 (a / 100) [] (ground arith) (omega arith) in
      rw e (rw l.shape (ground arith))
]

leb_of_le : (a b : ℕ) → a ≤ b → leb a b ≡ true
leb_of_le a b h = ground arith

-- The two ways in which `UnmarshalJSON` negates a magnitude agree on what the value is.
negative_minor :
    (n : ℕ) (currency : String)
    → n ≤ 2 ^ 63 - 1
    → ◌>>◌ {B = Money} (fail_if (n + 1 == 0) invalid_money) (
        ok (record {
          minor = if n + 1 == 2 ^ 63 then min_int64 else sub64 (pos 0) (to_int64 (n + 1));
          currency = currency;
        }))
      ≡ ok (record { minor = negsuc n; currency = currency })
unfolding sub64 wrap64 to_int64 ◌-ℤ◌
negative_minor n currency h = ground arith

module _ (parse_iso : String → Bool) where
  -- A printed amount of zero or more is parsed as what it was, where the currency is valid.
  parse_money-unsigned :
      (n : ℕ) (currency : String)
      → n ≤ 2 ^ 63 - 1
      → parse_money parse_iso (format_minor n) currency ≡ (
          or_error (parse_currency parse_iso currency) invalid_money
          >> ok (record { minor = pos n; currency = currency }))
  unfolding parse_money
  parse_money-unsigned n currency h =
      rw (parse_minor-format_minor n (2 ^ 63 - 1) (omega arith) (omega arith) (omega arith))
        (rw (leb_of_le n _ h) (rw (to_int64_of_fits n h)))

  unmarshal_negative-format_minor :
      (n : ℕ) (currency : String)
      → n ≤ 2 ^ 63 - 1
      → unmarshal_negative parse_iso (format_minor (n + 1)) currency ≡ (
          or_error (parse_currency parse_iso currency) invalid_money
          >> ok (record { minor = negsuc n; currency = currency }))
  unfolding unmarshal_negative
  unmarshal_negative-format_minor n currency h =
      rw (parse_minor-format_minor (n + 1) (2 ^ 63) (omega arith) (omega arith) (omega arith))
        (rw (leb_of_le (n + 1) (2 ^ 63) (omega arith)) (rw (negative_minor n currency h)))

  read_back :
      (v : ℤ) (currency : String)
      → InInt64 v
      → or_error (parse_currency parse_iso currency) invalid_money ≡ ok tt
      → unmarshal_money parse_iso (
          some (record {
            amount = amount (record { minor = v; currency = currency });
            currency = currency;
          }))
        ≡ ok (record { minor = v; currency = currency })
  unfolding unmarshal_money
  read_back (pos n) currency h valid = rw (amount-pos n currency h.0) (
      rw (format_minor-unsigned n (omega (arith, h.0)))
        (parse_money-unsigned n currency h.0 ∙ rw valid))
  read_back (negsuc n) currency h valid = rw (amount-negsuc n currency (omega (arith, h.1))) (
      unfold starts_negative without_sign in
      (unmarshal_negative-format_minor n currency (omega (arith, h.1)) ∙ rw valid))

  -- What marshalling makes of an int64 amount, where it makes something, is unmarshalled as the same
  -- money; the least int64 is included.
  pub unmarshal_money-marshal_money :
      (m : Money) {encoded : SerializedMoney}
      → InInt64 m.minor
      → marshal_money parse_iso m ≡ ok encoded
      → unmarshal_money parse_iso (some encoded) ≡ ok m
  unfolding marshal_money validate
  unmarshal_money-marshal_money m {encoded} h e =
      let (valid, v, shape) =
        >>=-eq-ok (validate parse_iso m)
          (λ _. ok (record { amount = amount m; currency = m.currency })) e in
      subst (λ x. unmarshal_money parse_iso (some x) ≡ ok m) (cc) (read_back m.minor m.currency h v)

  parse_money-signed :
      (text : Bytes) (currency : String)
      → parse_money parse_iso (b'-' ∷ text) currency
        ≡ (or_error (parse_currency parse_iso currency) invalid_money >> err invalid_money)
  unfolding parse_money parse_non_negative_minor match_amount match_major
  parse_money-signed text currency = refl

  parse_back :
      (v : ℤ) (currency : String)
      → InInt64 v
      → let m : Money = record { minor = v; currency = currency } in
        parse_money parse_iso (amount m) currency ≡ (
          or_error (parse_currency parse_iso currency) invalid_money
          >> (if is_negative m then err invalid_money else ok m))
  parse_back (pos n) currency h =
      rw (amount-pos n currency h.0)
        (unfold is_negative in (parse_money-unsigned n currency h.0 ∙ ground arith))
  parse_back (negsuc n) currency h =
      rw (amount-negsuc n currency (omega (arith, h.1)))
        (unfold is_negative in (parse_money-signed (format_minor (n + 1)) currency ∙ ground arith))

  -- `ParseMoney` reads back a printed int64 amount that is not negative, and refuses a negative one; an
  -- invalid currency is refused first.
  pub parse_money-amount :
      (m : Money)
      → InInt64 m.minor
      → parse_money parse_iso (amount m) m.currency
        ≡ (validate parse_iso m >> (if is_negative m then err invalid_money else ok m))
  unfolding validate
  parse_money-amount m h = parse_back m.minor m.currency h
