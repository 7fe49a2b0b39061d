-- ===== src/Examples/Money.antt =====
-- Money at concrete amounts.
use jungle_gaming_backend_te.Prelude.{arith, ◌≡◌, refl, some, leb, if◌then◌else◌}
use jungle_gaming_backend_te.Prelude.Int.{pos, negsuc, ◌+ℤ◌, ◌-ℤ◌, eqb_ℤ}
use jungle_gaming_backend_te.Prelude.Word.{fits, max_int64, min_int64}
use jungle_gaming_backend_te.Errors.{ok, err, ◌>>◌, fail_if, money_overflow, invalid_money}
use jungle_gaming_backend_te.Domain.Money.{
  Money, add, subtract, compatible, validate, parse_currency, all_upper, is_negative,
}
use jungle_gaming_backend_te.Domain.Money.Arith.{add_lem, subtract_lem}
use jungle_gaming_backend_te.Domain.Money.Text.{
  amount, marshal_money, unmarshal_money, parse_money, parse_non_negative_minor, format_minor,
  SerializedMoney,
}
use jungle_gaming_backend_te.Domain.Money.Digits.{parse_minor-format_minor}
use jungle_gaming_backend_te.Domain.Money.RoundTrip.{
  unmarshal_money-marshal_money, parse_money-amount,
}
use jungle_gaming_backend_te.Examples.Data.{every_code, reais}

add_lem_example : add every_code (reais max_int64) (reais (pos 1)) ≡ (
    compatible every_code (reais max_int64) (reais (pos 1))
    >> (if fits (max_int64 +ℤ pos 1) then ok (reais (max_int64 +ℤ pos 1)) else err money_overflow))
add_lem_example = add_lem every_code (reais max_int64) (reais (pos 1)) (omega arith) (omega arith)

subtract_lem_example : subtract every_code (reais (pos 5)) (reais (pos 7)) ≡ (
    validate every_code (reais (pos 7))
    >> (fail_if (eqb_ℤ (pos 7) min_int64) money_overflow
        >> (compatible every_code (reais (pos 5)) (reais (pos 7))
            >> (if fits (pos 5 -ℤ pos 7)
                then ok (reais (pos 5 -ℤ pos 7))
                else err money_overflow))))
subtract_lem_example =
    subtract_lem every_code (reais (pos 5)) (reais (pos 7)) (omega arith) (omega arith)

abbrev debt : Money
debt = reais (negsuc 1233)

abbrev encoded_debt : SerializedMoney
encoded_debt = record { amount = amount debt; currency = "BRL" }

marshalled : marshal_money every_code debt ≡ ok encoded_debt
unfolding marshal_money validate parse_currency all_upper
marshalled = refl

unmarshal_money-marshal_money_example : unmarshal_money every_code (some encoded_debt) ≡ ok debt
unmarshal_money-marshal_money_example =
    unmarshal_money-marshal_money every_code debt (omega arith) marshalled

parse_money-amount_example : parse_money every_code (amount (reais (pos 1234))) "BRL" ≡ (
    validate every_code (reais (pos 1234))
    >> (if is_negative (reais (pos 1234)) then err invalid_money else ok (reais (pos 1234))))
parse_money-amount_example = parse_money-amount every_code (reais (pos 1234)) (omega arith)

parse_minor-format_minor_example :
    parse_non_negative_minor (format_minor 1234) 1000
    ≡ (if leb 1234 1000 then ok 1234 else err money_overflow)
parse_minor-format_minor_example =
    parse_minor-format_minor 1234 1000 (omega arith) (omega arith) (omega arith)
