-- ===== src/Examples/Wallets.antt =====
-- A debit and a credit of a wallet of 10.00 BRL.
use jungle_gaming_backend_te.Prelude.{arith, ◌≡◌, refl, not, ◌||◌, if◌then◌else◌}
use jungle_gaming_backend_te.Prelude.Int.{pos, ltb_ℤ, ◌+ℤ◌, ◌-ℤ◌}
use jungle_gaming_backend_te.Prelude.Word.{fits, sub64, add64, wrap64, to_int64, to_uint64}
use jungle_gaming_backend_te.Errors.{
  ok, err, ◌>>◌, invalid_money, insufficient_funds, money_overflow,
}
use jungle_gaming_backend_te.Domain.Time.{is_zero_time}
use jungle_gaming_backend_te.Domain.Money.{
  validate, compatible, parse_currency, all_upper, is_positive, is_negative, add, subtract, negate,
}
use jungle_gaming_backend_te.Domain.Wallet.{debit, credit, apply}
use jungle_gaming_backend_te.Domain.Wallet.Movements.{
  IsBalance, IsMovement, moved, debit_lem, credit_lem, debit-IsMovement, credit-IsMovement,
}
use jungle_gaming_backend_te.Examples.Data.{every_code, reais, wallet_one}

one-IsBalance : IsBalance every_code wallet_one.balance
one-IsBalance = record {
  nonneg = omega arith;
  small = omega arith;
  valid = unfold validate parse_currency all_upper in refl;
}

debit_lem_example : debit every_code wallet_one (reais (pos 300)) 9 ≡ (
    if not (is_positive (reais (pos 300))) || is_zero_time 9
    then err invalid_money
    else validate every_code (reais (pos 300))
      >> (compatible every_code wallet_one.balance (reais (pos 300))
          >> (if ltb_ℤ (pos 1000) (pos 300)
              then err insufficient_funds
              else ok (moved wallet_one (pos 1000 -ℤ pos 300) 9))))
debit_lem_example = debit_lem every_code wallet_one (reais (pos 300)) 9 one-IsBalance (omega arith)

credit_lem_example : credit every_code wallet_one (reais (pos 300)) 9 ≡ (
    if not (is_positive (reais (pos 300))) || is_zero_time 9
    then err invalid_money
    else compatible every_code wallet_one.balance (reais (pos 300))
      >> (if fits (pos 1000 +ℤ pos 300)
          then ok (moved wallet_one (pos 1000 +ℤ pos 300) 9)
          else err money_overflow))
credit_lem_example =
    credit_lem every_code wallet_one (reais (pos 300)) 9 one-IsBalance (omega arith)

debited : debit every_code wallet_one (reais (pos 300)) 9 ≡ ok (moved wallet_one (pos 700) 9)
unfolding debit is_positive subtract negate add compatible validate parse_currency all_upper
    is_negative
debited = unfold sub64 add64 wrap64 to_int64 to_uint64 ◌+ℤ◌ ◌-ℤ◌ apply in refl

credited : credit every_code wallet_one (reais (pos 300)) 9 ≡ ok (moved wallet_one (pos 1300) 9)
unfolding credit is_positive add compatible validate parse_currency all_upper is_negative
credited = unfold sub64 add64 wrap64 to_int64 to_uint64 ◌+ℤ◌ ◌-ℤ◌ apply in refl

debit-IsMovement_example :
    IsMovement every_code wallet_one (reais (pos 300)) 9 (moved wallet_one (pos 700) 9)
    × (pos 700 ≡ pos 1000 -ℤ pos 300)
debit-IsMovement_example =
    debit-IsMovement every_code wallet_one (reais (pos 300)) 9 (moved wallet_one (pos 700) 9)
      one-IsBalance (omega arith) debited

credit-IsMovement_example :
    IsMovement every_code wallet_one (reais (pos 300)) 9 (moved wallet_one (pos 1300) 9)
    × (pos 1300 ≡ pos 1000 +ℤ pos 300)
credit-IsMovement_example =
    credit-IsMovement every_code wallet_one (reais (pos 300)) 9 (moved wallet_one (pos 1300) 9)
      one-IsBalance (omega arith) credited
