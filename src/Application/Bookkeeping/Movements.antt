-- ===== src/Application/Bookkeeping/Movements.antt =====
-- The movement of a wager (`finalize` of internal/application/wager_service.go) and the wallet that
-- was read.
use jungle_gaming_backend_te.Prelude.{
  ◌≤◌, String, ◌≡◌, ap, inl, inr, Bool, Option, none, some, arith, Bool-cases, List,
}
use jungle_gaming_backend_te.Prelude.Int.{ℤ, ◌+ℤ◌, ◌-ℤ◌}
use jungle_gaming_backend_te.Prelude.Word.{InInt64}
use jungle_gaming_backend_te.Errors
use jungle_gaming_backend_te.Errors.{Result, ok, err}
use jungle_gaming_backend_te.Domain.Money.{Money}
use jungle_gaming_backend_te.Domain.Wallet
use jungle_gaming_backend_te.Domain.Wallet.{Wallet, Movement, apply, rehydrate_wallet}
use jungle_gaming_backend_te.Domain.Wallet.Movements.{
  IsBalance, IsMovement, debit-IsMovement, credit-IsMovement,
}
use jungle_gaming_backend_te.Domain.LedgerEntry.{LedgerDirection, debit, credit, unknown}
use jungle_gaming_backend_te.Domain.Transaction.{
  TransactionKind, opening, bet, win, loss, refund, rollback, unknown as unknown_kind,
  WagerTransaction, kind_eq,
}
use jungle_gaming_backend_te.Application.Environment.{Call}
use jungle_gaming_backend_te.Store.Tables.{WalletRow}
use jungle_gaming_backend_te.Store.Wallets.{find_wallet_row}
use jungle_gaming_backend_te.Application.WagerService.Settle.{movement, debit_of, credit_of}

-- A wallet that is the one of the tables.
pub record IsHeld (parse_iso : String → Bool) (w : Wallet) (wallets : List WalletRow) : Type 0 where
  pub row : WalletRow
  pub found : find_wallet_row w.id wallets ≡ some row
  pub minor : row.balance_minor ≡ w.balance.minor
  pub currency : row.currency ≡ w.balance.currency
  pub is_balance : IsBalance parse_iso w.balance

-- The change of a balance, by the direction of its entry.
abbrev pub Changes : LedgerDirection → ℤ → Money → ℤ → Type 0
Changes debit before money after = after ≡ before -ℤ money.minor
Changes credit before money after = after ≡ before +ℤ money.minor
Changes (unknown s) before money after = 1 ≤ 0

module _ (parse_iso : String → Bool) (call : Call) (money : Money) (wallet : Wallet)
    (balance : IsBalance parse_iso wallet.balance) (small : InInt64 money.minor) where
  debited_of :
      (d : LedgerDirection) (v : Movement)
      → ((m : Movement) × (Wallet.debit parse_iso wallet money call.now ≡ ok m)
          × (◌≡◌ {A = Result (Option LedgerDirection × Movement)}
              (ok (some debit, m))
              (ok (some d, v))))
      → IsMovement parse_iso wallet money call.now v
        × Changes d wallet.balance.minor money v.after.minor
  debited_of debit v (m, made, e) =
      let same : m ≡ v = ground arith in
      debit-IsMovement parse_iso wallet money call.now v balance small (rw made (ap ok same))
  debited_of credit v (m, made, e) = cc
  debited_of (unknown s) v (m, made, e) = cc

  credited_of :
      (d : LedgerDirection) (v : Movement)
      → ((m : Movement) × (Wallet.credit parse_iso wallet money call.now ≡ ok m)
          × (◌≡◌ {A = Result (Option LedgerDirection × Movement)}
              (ok (some credit, m))
              (ok (some d, v))))
      → IsMovement parse_iso wallet money call.now v
        × Changes d wallet.balance.minor money v.after.minor
  credited_of credit v (m, made, e) =
      let same : m ≡ v = ground arith in
      credit-IsMovement parse_iso wallet money call.now v balance small (rw made (ap ok same))
  credited_of debit v (m, made, e) = cc
  credited_of (unknown s) v (m, made, e) = cc

  debit_of-Changes :
      (d : LedgerDirection) (v : Movement)
      → debit_of parse_iso call wallet money ≡ ok (some d, v)
      → IsMovement parse_iso wallet money call.now v
        × Changes d wallet.balance.minor money v.after.minor
  debit_of-Changes d v h = debited_of d v (Errors.>>=-eq-ok _ _ h)

  credit_of-Changes :
      (d : LedgerDirection) (v : Movement)
      → credit_of parse_iso call wallet money ≡ ok (some d, v)
      → IsMovement parse_iso wallet money call.now v
        × Changes d wallet.balance.minor money v.after.minor
  credit_of-Changes d v h = credited_of d v (Errors.>>=-eq-ok _ _ h)

  pub movement-Changes :
      (kind : TransactionKind) (reference : Option WagerTransaction) (d : LedgerDirection)
      (v : Movement)
      → movement parse_iso call kind money wallet reference ≡ ok (some d, v)
      → IsMovement parse_iso wallet money call.now v
        × Changes d wallet.balance.minor money v.after.minor
  unfolding movement
  movement-Changes bet reference d v h = debit_of-Changes d v h
  movement-Changes win reference d v h = credit_of-Changes d v h
  movement-Changes refund reference d v h = credit_of-Changes d v h
  movement-Changes rollback none d v h = cc
  movement-Changes rollback (some r) d v h = elim (Bool-cases (kind_eq r.kind bet)) [
    | inl is_bet ↦ credit_of-Changes d v (ground arith)
    | inr no_bet ↦ debit_of-Changes d v (ground arith)
  ]
  movement-Changes loss reference d v h = cc
  movement-Changes opening reference d v h = cc
  movement-Changes (unknown_kind s) reference d v h = cc
