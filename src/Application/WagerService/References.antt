-- ===== src/Application/WagerService/References.antt =====
-- `referenceFailure` of internal/application/wager_service.go: which references a wager may follow.
use jungle_gaming_backend_te.Prelude.{
  ap₂, All, ◌≢◌, eq_refl, String, ◌≡◌, refl, inl, inr, Bool, true, false, not, ◌&&◌, none, some,
  List, [], ◌∷◌, arith, if◌then◌else◌, Bool-cases, is_empty, eq_iff,
}
use jungle_gaming_backend_te.Prelude.Int.{eqb_ℤ_iff}
use jungle_gaming_backend_te.Errors.{ok}
use jungle_gaming_backend_te.Domain.Money.{equal}
use jungle_gaming_backend_te.Domain.Transaction.{
  WagerTransaction, is_reversal, TransactionKind, opening, bet, win, loss, refund, rollback,
  unknown, processed,
}
use jungle_gaming_backend_te.Store.Tables.{Db, TransactionRow, Tx, pure}
use jungle_gaming_backend_te.Store.Transactions.{
  find_row, successful_reversal_exists, is_successful_reversal, same_column,
}
use jungle_gaming_backend_te.Application.WagerService.Settle.{
  reference_failure, reference_mismatch, invalid_reference_kind, reversal_code,
}

-- The rows that `SuccessfulReversalExists` looks for.
abbrev reverses : String → TransactionRow → Bool
reverses id r = same_column r.reference_transaction_id (some id) && is_successful_reversal r

-- A row of a processed refund or rollback of a transaction.
pub data IsReversal (id : String) (r : TransactionRow) : Type 0 where
  refunded :
      r.kind ≡ refund
      → r.status ≡ processed
      → r.reference_transaction_id ≡ some id
      → IsReversal id r
  rolled_back :
      r.kind ≡ rollback
      → r.status ≡ processed
      → r.reference_transaction_id ≡ some id
      → IsReversal id r

-- Which kind of a wager may follow which: a win or a refund a bet; a rollback a bet, a win or a refund;
-- any other kind any.
pub data MayFollow : TransactionKind → TransactionKind → Type 0 where
  win_of_bet : MayFollow win bet
  refund_of_bet : MayFollow refund bet
  rollback_of_bet : MayFollow rollback bet
  rollback_of_win : MayFollow rollback win
  rollback_of_refund : MayFollow rollback refund
  bet_of_any : (kind : TransactionKind) → MayFollow bet kind
  loss_of_any : (kind : TransactionKind) → MayFollow loss kind
  opening_of_any : (kind : TransactionKind) → MayFollow opening kind
  unknown_of_any : (name : String) (kind : TransactionKind) → MayFollow (unknown name) kind

-- What a wager that takes another one back must meet.
pub data IsReversible (db : Db) (reference : WagerTransaction) : WagerTransaction → Type 0 where
  no_reversal :
      (t : WagerTransaction) → t.kind ≢ refund → t.kind ≢ rollback → IsReversible db reference t
  reversal :
      (t : WagerTransaction)
      → reference.money ≡ t.money
      → All (λ r. ¬ IsReversal reference.id r) db.transactions
      → IsReversible db reference t

row_reverses : (id : String) (r : TransactionRow) → IsReversal id r → reverses id r ≡ true
unfolding is_successful_reversal
row_reverses id r (refunded kind status names) =
    rw (kind, status, names) (ground (arith, eq_refl id))
row_reverses id r (rolled_back kind status names) =
    rw (kind, status, names) (ground (arith, eq_refl id))

none-reverses :
    (id : String) (rows : List TransactionRow)
    → find_row (reverses id) rows ≡ none
    → All (λ r. ¬ IsReversal id r) rows
unfolding find_row
none-reverses id [] h = tt
none-reverses id (r ∷ rows) h = elim (Bool-cases (reverses id r)) [
  | inl hit ↦ ground (arith, hit)
  | inr miss ↦ (
    λ reversed. ground (arith, miss, row_reverses id r reversed),
    none-reverses id rows (ground (arith, miss)),
  )
]

kind-MayFollow :
    (kind other : TransactionKind)
    → invalid_reference_kind kind other ≡ false
    → MayFollow kind other
unfolding invalid_reference_kind
kind-MayFollow bet other h = bet_of_any other
kind-MayFollow loss other h = loss_of_any other
kind-MayFollow opening other h = opening_of_any other
kind-MayFollow (unknown name) other h = unknown_of_any name other
kind-MayFollow win bet h = win_of_bet
kind-MayFollow win opening h = cc
kind-MayFollow win win h = cc
kind-MayFollow win loss h = cc
kind-MayFollow win refund h = cc
kind-MayFollow win rollback h = cc
kind-MayFollow win (unknown name) h = cc
kind-MayFollow refund bet h = refund_of_bet
kind-MayFollow refund opening h = cc
kind-MayFollow refund win h = cc
kind-MayFollow refund loss h = cc
kind-MayFollow refund refund h = cc
kind-MayFollow refund rollback h = cc
kind-MayFollow refund (unknown name) h = cc
kind-MayFollow rollback bet h = rollback_of_bet
kind-MayFollow rollback win h = rollback_of_win
kind-MayFollow rollback refund h = rollback_of_refund
kind-MayFollow rollback opening h = cc
kind-MayFollow rollback loss h = cc
kind-MayFollow rollback rollback h = cc
kind-MayFollow rollback (unknown name) h = cc

not_reversal :
    (kind : TransactionKind) → is_reversal kind ≡ false → (kind ≢ refund) × (kind ≢ rollback)
not_reversal kind h = (λ e. ground (arith, e), λ e. ground (arith, e))

exists_none :
    (id : String) (db : Db)
    → successful_reversal_exists id db ≡ ok (false, db)
    → find_row (reverses id) db.transactions ≡ none
unfolding successful_reversal_exists
exists_none id db h = ground arith

-- What a reference says that a wager may follow.
pub record IsFollowed (t reference : WagerTransaction) (db : Db) : Type 0 where
  pub provider : reference.provider_id ≡ t.provider_id
  pub player : reference.player_id ≡ t.player_id
  pub wallet : reference.wallet_id ≡ t.wallet_id
  pub round : reference.round_id ≡ t.round_id
  pub currency : reference.money.currency ≡ t.money.currency
  pub kind : MayFollow t.kind reference.kind
  pub reversible : IsReversible db reference t

matches :
    (t reference : WagerTransaction)
    → reference_mismatch t reference ≡ false
    → (reference.provider_id ≡ t.provider_id)
      × (reference.player_id ≡ t.player_id)
      × (reference.wallet_id ≡ t.wallet_id)
      × (reference.round_id ≡ t.round_id)
      × (reference.money.currency ≡ t.money.currency)
unfolding reference_mismatch
matches t reference h = ground (
  arith,
  eq_iff reference.provider_id t.provider_id,
  eq_iff reference.player_id t.player_id,
  eq_iff reference.wallet_id t.wallet_id,
  eq_iff reference.round_id t.round_id,
  eq_iff reference.money.currency t.money.currency,
)

-- A test of the chain that was passed.
passed :
    (b : Bool) (code : String) (m : Tx String) (db : Db)
    → is_empty code ≡ false
    → (if b then pure code else m) db ≡ ok ("", db)
    → (b ≡ false) × (m db ≡ ok ("", db))
passed true code m db named h = ground (arith, eq_iff code "")
passed false code m db named h = (refl, h)

-- The last test, which only a reversal makes.
never_reversed :
    (b : Bool) (id : String) (db : Db)
    → (if b then reversal_code id else pure "") db ≡ ok ("", db)
    → b ≡ true
    → successful_reversal_exists id db ≡ ok (false, db)
unfolding successful_reversal_exists reversal_code
never_reversed true id db h e = ground (arith, eq_iff "REFERENCE_ALREADY_REVERSED" "")
never_reversed false id db h e = cc

guards :
    (t reference : WagerTransaction) (db : Db)
    → reference_failure t (some reference) db ≡ ok ("", db)
    → (reference_mismatch t reference ≡ false)
      × ((is_reversal t.kind && not (equal reference.money t.money)) ≡ false)
      × (invalid_reference_kind t.kind reference.kind ≡ false)
      × (is_reversal t.kind ≡ true → successful_reversal_exists reference.id db ≡ ok (false, db))
unfolding reference_failure
guards t reference db h =
    let last : Tx String = (if is_reversal t.kind then reversal_code reference.id else pure "") in
    let third : Tx String =
      (if invalid_reference_kind t.kind reference.kind
        then pure "INVALID_REFERENCE_KIND"
        else last) in
    let second : Tx String =
      (if is_reversal t.kind && not (equal reference.money t.money)
        then pure "REFERENCE_AMOUNT_MISMATCH"
        else third) in
    let (same, h1) =
      passed (reference_mismatch t reference) "REFERENCE_MISMATCH" second db refl h in
    let (amount, h2) =
      passed (is_reversal t.kind && not (equal reference.money t.money)) "REFERENCE_AMOUNT_MISMATCH"
        third db refl h1 in
    let (kind, h3) =
      passed (invalid_reference_kind t.kind reference.kind) "INVALID_REFERENCE_KIND" last db refl
        h2 in
    (same, amount, kind, never_reversed (is_reversal t.kind) reference.id db h3)

same_money : (m t : WagerTransaction) → equal m.money t.money ≡ true → m.money ≡ t.money
unfolding equal
same_money m t h =
    let same_minor : m.money.minor ≡ t.money.minor =
      (eqb_ℤ_iff m.money.minor t.money.minor).0 (ground (arith, h)) in
    let same_currency : m.money.currency ≡ t.money.currency =
      (eq_iff m.money.currency t.money.currency).0 (ground (arith, h)) in
    ap₂ (λ minor currency. record { minor = minor; currency = currency }) same_minor same_currency

-- A reference for which `referenceFailure` returns no code is of the same provider, player, wallet,
-- round and currency. A win or a refund has a bet as its reference, and a rollback a bet, a win or a
-- refund. The reference of a refund or a rollback has the same amount, and no stored refund or rollback
-- of it is processed.
pub reference_failure-IsFollowed :
    (t reference : WagerTransaction) (db : Db)
    → reference_failure t (some reference) db ≡ ok ("", db)
    → IsFollowed t reference db
reference_failure-IsFollowed t reference db h =
    let (same, equal_amount, kind, free) = guards t reference db h in
    let (provider, player, wallet, round, currency) = matches t reference same in
    record {
      provider = provider;
      player = player;
      wallet = wallet;
      round = round;
      currency = currency;
      kind = kind-MayFollow t.kind reference.kind kind;
      reversible = elim (Bool-cases (is_reversal t.kind)) [
        | inl is ↦
            reversal t (same_money reference t (ground (arith, is)))
              (none-reverses reference.id db.transactions (exists_none reference.id db (free is)))
        | inr other ↦
            let (no_refund, no_rollback) = not_reversal t.kind other in
            no_reversal t no_refund no_rollback
      ];
    }
