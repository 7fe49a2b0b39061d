-- ===== src/Domain/Money/Arith.antt =====
-- `Add` and `Subtract` of internal/domain/money.go, branch by branch.
use jungle_gaming_backend_te.Prelude.{
  ◌≢◌, ℕ, suc, ◌≤◌, ◌^◌, ◌-◌, String, ◌≡◌, refl, inl, inr, Bool, not, ◌&&◌, ◌||◌, arith, Bool-cases,
  if◌then◌else◌,
}
use jungle_gaming_backend_te.Prelude.Int.{
  ℤ, pos, negsuc, sub_ℕ, ◌+ℤ◌, ◌-ℤ◌, ltb_ℤ, eqb_ℤ, eqb_ℤ_iff, int_laws,
}
use jungle_gaming_backend_te.Prelude.Word.{
  fits, InInt64-fits, max_int64, min_int64, add64, sub64, InInt64, wrap64, add64_of_fits,
  sub64_of_fits,
}
use jungle_gaming_backend_te.Errors.{ok, err, ◌>>◌, fail_if, money_overflow}
use jungle_gaming_backend_te.Domain.Money.{Money, validate, compatible, add, negate, subtract}

-- The bounds that the overflow test of `Add` compares with.
sub_max : (n : ℕ) → n ≤ 2 ^ 63 - 1 → sub64 max_int64 (pos n) ≡ pos (2 ^ 63 - 1 - n)
unfolding sub64 wrap64 ◌-ℤ◌
sub_max n h = ground arith

sub_min : (n : ℕ) → n ≤ 2 ^ 63 - 1 → sub64 min_int64 (negsuc n) ≡ sub_ℕ (suc n) (2 ^ 63)
unfolding sub64 wrap64 ◌-ℤ◌
sub_min n h = ground arith

-- The overflow test of `Add`, in numbers.
overflow_test :
    (a b : ℤ)
    → InInt64 a
    → InInt64 b
    → ((ltb_ℤ (pos 0) b && ltb_ℤ (sub64 max_int64 b) a)
        || (ltb_ℤ b (pos 0) && ltb_ℤ a (sub64 min_int64 b)))
      ≡ not (fits (a +ℤ b))
unfolding ◌+ℤ◌
overflow_test a (pos n) ha hb = rw (sub_max n hb.0) (ground arith)
overflow_test a (negsuc n) ha hb = rw (sub_min n (omega arith)) (ground arith)

-- The difference as a sum with the negated operand, as `Subtract` computes it.
negate_fits : (b : ℤ) → InInt64 b → b ≢ min_int64 → InInt64 (pos 0 -ℤ b)
unfolding ◌-ℤ◌
negate_fits b h ne = ground arith

add_negated : (a b : ℤ) → a +ℤ (pos 0 -ℤ b) ≡ a -ℤ b
add_negated a b = omega int_laws

-- Behind the tests the wrapping sum is the exact one.
sum_or_overflow :
    (a b : ℤ) (currency : String)
    → ◌>>◌ {B = Money}
        (fail_if (not (fits (a +ℤ b))) money_overflow)
        (ok (record { minor = add64 a b; currency = currency }))
      ≡ (if fits (a +ℤ b)
          then ok (record { minor = a +ℤ b; currency = currency })
          else err money_overflow)
sum_or_overflow a b currency = elim (Bool-cases (fits (a +ℤ b))) [
  | inl e ↦ rw (e, add64_of_fits a b (InInt64-fits _ e))
  | inr e ↦ rw e
]

module _ (parse_iso : String → Bool) where
  -- `Add` on every branch, for int64 amounts: the error of incompatible operands, the overflow error exactly where the
  -- sum is no int64, and else the exact sum in the currency of the receiver.
  pub add_lem :
      (m other : Money)
      → InInt64 m.minor
      → InInt64 other.minor
      → add parse_iso m other ≡ (
          compatible parse_iso m other
          >> (if fits (m.minor +ℤ other.minor)
              then ok (record { minor = m.minor +ℤ other.minor; currency = m.currency })
              else err money_overflow))
  unfolding add
  add_lem m other hm ho =
      rw (overflow_test m.minor other.minor hm ho)
        (rw (sum_or_overflow m.minor other.minor m.currency))

  -- Only the currency of an operand decides whether it fits the receiver.
  compatible_of_currency :
      (m other : Money) (v : ℤ)
      → compatible parse_iso m (record other { minor = v }) ≡ compatible parse_iso m other
  unfolding compatible validate
  compatible_of_currency m other v = refl

  add_of_negated :
      (m other : Money)
      → InInt64 m.minor
      → InInt64 other.minor
      → other.minor ≢ min_int64
      → add parse_iso m (record { minor = sub64 (pos 0) other.minor; currency = other.currency })
        ≡ (compatible parse_iso m other
            >> (if fits (m.minor -ℤ other.minor)
                then ok (record { minor = m.minor -ℤ other.minor; currency = m.currency })
                else err money_overflow))
  add_of_negated m other hm ho ne =
      let small = negate_fits other.minor ho ne in
      rw (sub64_of_fits (pos 0) other.minor small) (
        rw (← add_negated m.minor other.minor) (
          rw (← compatible_of_currency m other (pos 0 -ℤ other.minor)) (
            add_lem m (record { minor = pos 0 -ℤ other.minor; currency = other.currency }) hm
              small)))

  -- `Subtract` on every branch, for int64 amounts: an invalid subtrahend or the least int64 is refused first, then the
  -- operands that do not fit together; the difference is exact, or refused where it is no int64.
  pub subtract_lem :
      (m other : Money)
      → InInt64 m.minor
      → InInt64 other.minor
      → subtract parse_iso m other ≡ (
          validate parse_iso other
          >> (fail_if (eqb_ℤ other.minor min_int64) money_overflow
              >> (compatible parse_iso m other
                  >> (if fits (m.minor -ℤ other.minor)
                      then ok (record { minor = m.minor -ℤ other.minor; currency = m.currency })
                      else err money_overflow))))
  unfolding subtract negate
  subtract_lem m other hm ho = elim (Bool-cases (eqb_ℤ other.minor min_int64)) [
    | inl least ↦ rw least (ground arith)
    | inr more ↦
        rw more (ground (arith, add_of_negated m other hm ho (λ e. cc ((eqb_ℤ_iff _ _).1 e))))
  ]
