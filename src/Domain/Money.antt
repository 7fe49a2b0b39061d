-- ===== src/Domain/Money.antt =====
-- internal/domain/money.go: amounts of money in minor units, an `int64`, with a currency. What
-- `ParseISO` of golang.org/x/text/currency accepts is the parameter `parse_iso`.
pub mod Arith
pub mod Text
pub mod Digits
pub mod RoundTrip
use Prim.Native.String.{len}
use jungle_gaming_backend_te.Prelude.{
  ℕ, ◌+◌, ◌≤◌, String, ◌≡◌, Bool, true, false, not, ◌&&◌, ◌||◌, [], ◌∷◌, Bytes, codes, ltb, ◌==◌,
  str_eq, if◌then◌else◌,
}
use jungle_gaming_backend_te.Prelude.Int.{ℤ, pos, negsuc, ◌+ℤ◌, ltb_ℤ, eqb_ℤ}
use jungle_gaming_backend_te.Prelude.Word.{max_int64, min_int64, add64, sub64, InInt64}
use jungle_gaming_backend_te.Errors.{
  Result, ok, err, ◌>>=◌, ◌>>◌, fail_if, or_error, is_ok, invalid_money, currency_mismatch,
  money_overflow, dependency,
}

pub record Money : Type 0 where
  pub minor : ℤ
  pub currency : String

-- Go's zero value `Money{}`.
abbrev pub no_money : Money
no_money = record { minor = pos 0; currency = "" }

unfoldable pub is_zero : Money → Bool
is_zero m = eqb_ℤ m.minor (pos 0)

unfoldable pub is_positive : Money → Bool
is_positive m = ltb_ℤ (pos 0) m.minor

unfoldable pub is_negative : Money → Bool
is_negative m = ltb_ℤ m.minor (pos 0)

unfoldable pub equal : Money → Money → Bool
equal m other = eqb_ℤ m.minor other.minor && str_eq m.currency other.currency

-- The loop of `parseCurrency` over the letters of the code.
unfoldable pub all_upper : Bytes → Bool
all_upper [] = true
all_upper (value ∷ rest) = if ltb value b'A' || ltb b'Z' value then false else all_upper rest

module _ (parse_iso : String → Bool) where
  unfoldable pub parse_currency : String → Result (Unit {0})
  unfolding all_upper
  parse_currency code =
      if not (len code == 3)
      then err invalid_money
      else if not (all_upper (codes code))
      then err invalid_money
      else if parse_iso code
      then ok tt
      else err dependency

  unfoldable pub validate : Money → Result (Unit {0})
  validate m = or_error (parse_currency m.currency) invalid_money

  unfoldable pub new_money_from_minor : ℤ → String → Result Money
  new_money_from_minor minor currency = do
    or_error (parse_currency currency) invalid_money
    ok (record { minor = minor; currency = currency })

  unfoldable pub zero_money : String → Result Money
  unfolding new_money_from_minor
  zero_money currency = new_money_from_minor (pos 0) currency

  unfoldable pub compatible : Money → Money → Result (Unit {0})
  compatible m other = do
    validate m
    validate other
    fail_if (not (str_eq m.currency other.currency)) currency_mismatch

  unfoldable pub add : Money → Money → Result Money
  add m other = do
    compatible m other
    fail_if
        ((ltb_ℤ (pos 0) other.minor && ltb_ℤ (sub64 max_int64 other.minor) m.minor)
          || (ltb_ℤ other.minor (pos 0) && ltb_ℤ m.minor (sub64 min_int64 other.minor)))
        money_overflow
    ok (record { minor = add64 m.minor other.minor; currency = m.currency })

  unfoldable pub negate : Money → Result Money
  negate m = do
    validate m
    fail_if (eqb_ℤ m.minor min_int64) money_overflow
    ok (record { minor = sub64 (pos 0) m.minor; currency = m.currency })

  unfoldable pub subtract : Money → Money → Result Money
  subtract m other = do negated ← negate other; add m negated

  unfoldable pub compare_money : Money → Money → Result ℤ
  compare_money m other = do
    compatible m other
    ok (
        if ltb_ℤ m.minor other.minor
        then negsuc 0
        else if ltb_ℤ other.minor m.minor
        then pos 1
        else pos 0)
