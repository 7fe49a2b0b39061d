-- ===== src/Application/Bookkeeping/Pending.antt =====
-- The books across `ResolvePendingReference` and `RecordPendingReferenceFailure` of
-- internal/application/wager_service.go.
use jungle_gaming_backend_te.Prelude.{
  String, ◌≡◌, refl, ◌∙◌, sym, ap, subst, inl, inr, Bool, Option, none, some, arith, Bool-cases,
  Option-cases, List, [], ◌∷◌, str_eq, All,
}
use jungle_gaming_backend_te.Prelude.Word.{InInt64}
use jungle_gaming_backend_te.Errors
use jungle_gaming_backend_te.Errors.{Error, Result, ok, err, Result-cases}
use jungle_gaming_backend_te.Domain.Money.{Money, new_money_from_minor}
use jungle_gaming_backend_te.Domain.Wallet.{Wallet}
use jungle_gaming_backend_te.Domain.Transaction.{WagerTransaction}
use jungle_gaming_backend_te.Domain.Transaction.Rehydrate.{rehydrate_wager_transaction}
use jungle_gaming_backend_te.Domain.Transaction.Storable.{rehydrate-IsStorable}
use jungle_gaming_backend_te.Domain.Transaction.Steps.{resolve_reference-made}
use jungle_gaming_backend_te.Application.Environment.{Environment, Call}
use jungle_gaming_backend_te.Store.Tables.{Db, TransactionRow}
use jungle_gaming_backend_te.Store.Books.{IsBooked}
use jungle_gaming_backend_te.Store.Transactions.{
  find_row, lock_transaction, scan_present, scan_transaction, scan_result, scanned,
}
use jungle_gaming_backend_te.Application.WagerService.Pending.{
  settle_pending, use_pending_reference, resolve_with, resolve_locked, within_resolve,
  resolve_pending_reference, record_pending_reference_failure,
}
use jungle_gaming_backend_te.Application.Bookkeeping.Keeps.{
  bind-eq-ok, pure-Keeps, find_by_external_id-Keeps,
}
use jungle_gaming_backend_te.Application.Bookkeeping.Leads.{
  within-ok, within-Leads, Keeps-Leads, within-err, Books, Leads, kept-Leads, then-Keeps-Leads,
  lift-Leads, Keeps-into, if-Leads,
}
use jungle_gaming_backend_te.Application.Bookkeeping.Reading.{Holding, lock-Leads}
use jungle_gaming_backend_te.Application.Bookkeeping.Rejections.{
  reference_failure-Keeps, reject_pending-Keeps, wait_or_give_up-Keeps, within_record_failure-Keeps,
}
use jungle_gaming_backend_te.Application.Bookkeeping.Wagers.{finalize-Leads}

-- The column `money_minor` is a bigint.
abbrev pub HasSmallAmounts : List TransactionRow → Type 0
HasSmallAmounts rows = All (λ r. InInt64 r.money_minor) rows

found_small :
    (test : TransactionRow → Bool) (rows : List TransactionRow) (r : TransactionRow)
    → HasSmallAmounts rows
    → find_row test rows ≡ some r
    → InInt64 r.money_minor
unfolding find_row
found_small test [] r all h = cc
found_small test (x ∷ rows) r all h = elim (Bool-cases (test x)) [
  | inl e ↦ let same : x ≡ r = ground (arith, e) in subst (λ y. InInt64 y.money_minor) same all.0
  | inr e ↦ found_small test rows r all.1 (ground (arith, e))
]

module _ (parse_iso : String → Bool) where
  new_money_from_minor-made :
      (r : TransactionRow) (m : Money)
      → new_money_from_minor parse_iso r.money_minor r.currency ≡ ok m
      → m.minor ≡ r.money_minor
  unfolding new_money_from_minor
  new_money_from_minor-made r m h = ground arith

  scan_transaction-money :
      (r : TransactionRow) (t : WagerTransaction)
      → scan_transaction parse_iso r ≡ ok t
      → t.money.minor ≡ r.money_minor
  unfolding scan_transaction scanned
  scan_transaction-money r t h =
      let (money, h1, h2) = Errors.>>=-eq-ok _ _ h in
      let (result, h3, h4) =
        Errors.>>=-eq-ok (scan_result parse_iso r.result_balance_minor r.result_currency)
          (λ x. rehydrate_wager_transaction parse_iso (scanned r money x.0 x.1)) h2 in
      let (_, same) = rehydrate-IsStorable parse_iso (scanned r money result.0 result.1) t h4 in
      ap (λ x. x.money.minor) same ∙ new_money_from_minor-made r money h1

  lock_transaction-made :
      (id : String) (t : WagerTransaction) (db db' : Db)
      → HasSmallAmounts db.transactions
      → lock_transaction parse_iso id db ≡ ok (t, db')
      → (db ≡ db') × InInt64 t.money.minor
  unfolding lock_transaction scan_present
  lock_transaction-made id t db db' small h =
      elim (Option-cases (find_row (λ r. str_eq r.id id) db.transactions)) [
        | inl e ↦ ground (arith, e)
        | inr (r, e) ↦
            let rest : (scan_transaction parse_iso r ≡ ok t) × (db ≡ db') = ground (arith, e) in
            (
              rest.1,
              subst InInt64 (sym (scan_transaction-money r t rest.0))
                  (found_small _ db.transactions r small e),
            )
      ]

module _ (env : Environment) (call : Call) where
  module _ (wallet : Wallet) where
    abbrev Held : Books
    Held = Holding env.parse_iso wallet

    settle_pending-Leads :
        (t : WagerTransaction) (reference : Option WagerTransaction)
        → InInt64 t.money.minor
        → Leads Held IsBooked (settle_pending env call t wallet reference)
    unfolding settle_pending
    settle_pending-Leads t reference small =
        kept-Leads _ _ _ _ (reference_failure-Keeps t reference) λ code.
          if-Leads _ _ _ _ _
            (Keeps-into _ _ _ (λ wallets ledger p. p.0)
              (reject_pending-Keeps env call code t wallet))
            (then-Keeps-Leads _ _ _ _ (finalize-Leads env.parse_iso call _ t wallet reference small)
              λ x. pure-Keeps tt)

    use_pending_reference-Leads :
        (t reference : WagerTransaction)
        → InInt64 t.money.minor
        → Leads Held IsBooked (use_pending_reference env call t wallet reference)
    unfolding use_pending_reference
    use_pending_reference-Leads t reference small =
        if-Leads _ _ _ _ _
          (Keeps-into _ _ _ (λ wallets ledger p. p.0) (reject_pending-Keeps env call _ t wallet))
          (settle_pending-Leads t (some reference) small)

    resolve_with-Leads :
        (t : WagerTransaction) (reference : Option WagerTransaction)
        → InInt64 t.money.minor
        → Leads Held IsBooked (resolve_with env call t wallet reference)
    unfolding resolve_with
    resolve_with-Leads t none small =
        Keeps-into _ _ _ (λ wallets ledger p. p.0) (wait_or_give_up-Keeps env call t wallet)
    resolve_with-Leads t (some reference) small =
        if-Leads _ _ _ _ _
          (Keeps-into _ _ _ (λ wallets ledger p. p.0) (wait_or_give_up-Keeps env call t wallet))
          (lift-Leads _ _ _ _ λ resolved is_resolved.
            use_pending_reference-Leads resolved reference (
              subst (λ x. InInt64 x.money.minor)
                (resolve_reference-made t resolved reference.id call.now is_resolved).4 small))

  -- Behind the lock of the transaction.
  locked-Leads :
      (t : WagerTransaction)
      → InInt64 t.money.minor
      → Leads IsBooked IsBooked (resolve_locked env call t)
  unfolding resolve_locked
  locked-Leads t small = if-Leads _ _ _ _ _ (Keeps-Leads _ _ (pure-Keeps tt)) (
      lock-Leads env.parse_iso _ _ _ λ wallet.
        kept-Leads _ _ _ _ (find_by_external_id-Keeps env.parse_iso _ _)
          λ reference. resolve_with-Leads wallet t reference small)

  -- Where the amounts of the stored transactions are int64: if the tables hold distinct wallets with
  -- int64 balances that are, in every currency, the credits of the ledger less its debits, then so do
  -- the tables after a call of `ResolvePendingReference`, whether it commits or not.
  pub resolve_pending_reference-IsBooked :
      (transaction_id : String) (db : Db)
      → HasSmallAmounts db.transactions
      → IsBooked db.wallets db.ledger
      → (let after = (resolve_pending_reference env call transaction_id db).1 in
          IsBooked after.wallets after.ledger)
  unfolding resolve_pending_reference within_resolve
  resolve_pending_reference-IsBooked transaction_id db small booked =
      elim (Result-cases (within_resolve env call transaction_id db)) [
        | inl ((u, db'), e) ↦
            let (t, mid, h1, h2) =
              bind-eq-ok (lock_transaction env.parse_iso transaction_id) (resolve_locked env call)
                db u db' e in
            let (same, amount) =
              lock_transaction-made env.parse_iso transaction_id t db mid small h1 in
            subst (λ x. IsBooked x.1.wallets x.1.ledger) (sym (within-ok _ db u db' e))
              (locked-Leads t amount mid u db'
                (subst (λ x. IsBooked x.wallets x.ledger) same booked) h2)
        | inr (x, e) ↦
            subst (λ x. IsBooked x.1.wallets x.1.ledger) (sym (within-err _ db x e)) booked
      ]

  -- A call of `RecordPendingReferenceFailure` changes no wallet and no entry of the ledger.
  pub record_pending_reference_failure-Keeps :
      (transaction_id : String) (db : Db)
      → ((record_pending_reference_failure env call transaction_id db).1.wallets ≡ db.wallets)
        × ((record_pending_reference_failure env call transaction_id db).1.ledger ≡ db.ledger)
  unfolding record_pending_reference_failure
  record_pending_reference_failure-Keeps transaction_id db =
      within-Leads (λ wallets ledger. (wallets ≡ db.wallets) × (ledger ≡ db.ledger)) _
        (Keeps-Leads _ _ (within_record_failure-Keeps env call transaction_id)) db (refl, refl)
