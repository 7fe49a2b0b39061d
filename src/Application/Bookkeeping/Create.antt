-- ===== src/Application/Bookkeeping/Create.antt =====
-- The books across `Create` of internal/application/wallet_service.go.
use jungle_gaming_backend_te.Prelude.{
  String, ◌≡◌, ap, subst, inl, inr, false, not, arith, if◌then◌else◌, Bool-cases, ◌∷◌,
}
use jungle_gaming_backend_te.Prelude.Word.{InInt64}
use jungle_gaming_backend_te.Errors
use jungle_gaming_backend_te.Errors.{Error, Result, ok, err, Result-cases}
use jungle_gaming_backend_te.Domain.Time.{Time}
use jungle_gaming_backend_te.Domain.Money.{Money, is_negative, is_zero, zero_money}
use jungle_gaming_backend_te.Domain.Wallet.{Wallet, new_wallet}
use jungle_gaming_backend_te.Domain.LedgerEntry.{WalletLedgerEntry, credit, new_wallet_ledger_entry}
use jungle_gaming_backend_te.Application.Contracts.{CreateWalletCommand}
use jungle_gaming_backend_te.Application.Environment.{Environment, Call}
use jungle_gaming_backend_te.Application.WalletService.{
  opened, within_create, record_opening, record_entry, store_new, create,
}
use jungle_gaming_backend_te.Store.Tables.{Db, pure}
use jungle_gaming_backend_te.Store.Wallets.{insert_wallet, wallet_row, wallet_taken}
use jungle_gaming_backend_te.Store.Ledger.{ledger_row, insert_ledger}
use jungle_gaming_backend_te.Store.Books.{IsBooked}
use jungle_gaming_backend_te.Application.Bookkeeping.Keeps.{
  Keeps, bind-Keeps, pure-Keeps, insert_row-Keeps, insert_outbox-Keeps,
}
use jungle_gaming_backend_te.Application.Bookkeeping.Leads.{
  kept-Leads, Leads, bind-Leads, lift-Leads, then-Keeps-Leads, within-Leads,
}
use jungle_gaming_backend_te.Application.Bookkeeping.Openings.{
  IsOpening, inserted-IsOpening, opened-IsBooked, empty-IsBooked,
}
use jungle_gaming_backend_te.Application.Bookkeeping.Recording.{
  IsBooked-at, insert_ledger-made, new_wallet_ledger_entry-made,
}
use jungle_gaming_backend_te.Store.Transactions.{insert_opening}

insert_wallet-Leads :
    (w : Wallet) → InInt64 w.balance.minor → Leads IsBooked (IsOpening w) (insert_wallet w)
unfolding insert_wallet
insert_wallet-Leads w small db u db' b h =
    let made : (wallet_taken (wallet_row w) db.wallets ≡ false)
        × (wallet_row w ∷ db.wallets ≡ db'.wallets)
        × (db.ledger ≡ db'.ledger) =
      ground arith in
    subst (λ x. IsOpening w x db'.ledger) made.1
      (subst (λ x. IsOpening w (wallet_row w ∷ db.wallets) x) made.2
        (inserted-IsOpening w db.wallets db.ledger b small made.0))

insert_opening-Keeps :
    (id : String) (w : Wallet) (m : Money) (now : Time) → Keeps (insert_opening id w m now)
unfolding insert_opening
insert_opening-Keeps id w m now = insert_row-Keeps _

module _ (env : Environment) (call : Call) where
  IsOpening-entry-Leads :
      (w : Wallet) (zero : Money) (e : WalletLedgerEntry)
      → new_wallet_ledger_entry env.parse_iso call.entry_id w.id call.transaction_id credit
          w.balance zero w.balance call.now
        ≡ ok e
      → Leads (IsOpening w) IsBooked (insert_ledger e)
  unfolding ledger_row
  IsOpening-entry-Leads w zero e made db u db' o h =
      let (wallets, ledger) = insert_ledger-made e db db' h in
      let (owner, direction, money) =
        new_wallet_ledger_entry-made env.parse_iso _ _ _ _ _ _ _ _ e made in
      IsBooked-at wallets ledger (
        opened-IsBooked w db.wallets db.ledger o (ledger_row e) owner (ap (λ x. x.currency) money)
          (ap (λ x. x.minor) money) direction)

  record_entry-Leads :
      (correlation_id : String) (w : Wallet) (zero : Money)
      → Leads (IsOpening w) IsBooked (record_entry env call correlation_id w w.balance zero)
  unfolding record_entry
  record_entry-Leads correlation_id w zero = lift-Leads _ _ _ _ λ e is_e.
      then-Keeps-Leads _ _ _ _ (IsOpening-entry-Leads w zero e is_e)
        λ _. bind-Keeps _ _ (insert_outbox-Keeps _) λ _. insert_outbox-Keeps _

  record_opening-Leads :
      (correlation_id : String) (w : Wallet)
      → Leads (IsOpening w) IsBooked (record_opening env call correlation_id w w.balance)
  unfolding record_opening
  record_opening-Leads correlation_id w = kept-Leads _ _ _ _ (insert_opening-Keeps _ w _ _) λ _.
      lift-Leads _ _ (zero_money env.parse_iso w.balance.currency)
        (record_entry env call correlation_id w w.balance)
        λ zero is_zero. record_entry-Leads correlation_id w zero

  empty_or_recorded :
      (correlation_id : String) (w : Wallet)
      → Leads (IsOpening w) IsBooked (
          if is_zero w.balance then pure tt else record_opening env call correlation_id w w.balance)
  empty_or_recorded correlation_id w = elim (Bool-cases (is_zero w.balance)) [
    | inl zero ↦ rw zero λ db u db' o h.
        IsBooked-at (pure-Keeps tt db u db' h).0 (pure-Keeps tt db u db' h).1
          (empty-IsBooked w db.wallets db.ledger o zero)
    | inr some_money ↦ rw some_money (record_opening-Leads correlation_id w)
  ]

  new_wallet-made :
      (id player_id : String) (m : Money) (now : Time) (w : Wallet)
      → new_wallet env.parse_iso id player_id m now ≡ ok w
      → m ≡ w.balance
  unfolding new_wallet
  new_wallet-made id player_id m now w h = ground arith

  within_create-Leads :
      (correlation_id : String) (w : Wallet)
      → InInt64 w.balance.minor
      → Leads IsBooked IsBooked (within_create env call correlation_id w w.balance)
  unfolding within_create
  within_create-Leads correlation_id w small =
      bind-Leads _ _ _ _ _ (insert_wallet-Leads w small) λ _. empty_or_recorded correlation_id w

  store_new-Leads :
      (command : CreateWalletCommand) (w : Wallet)
      → InInt64 w.balance.minor
      → command.initial_balance ≡ w.balance
      → Leads IsBooked IsBooked (store_new env call command w)
  unfolding store_new
  store_new-Leads command w small same =
      rw same (then-Keeps-Leads _ _ _ _ (within_create-Leads _ w small) λ _. pure-Keeps _)

  opened-balance :
      (command : CreateWalletCommand) (w : Wallet)
      → opened env call command ≡ ok w
      → command.initial_balance ≡ w.balance
  unfolding opened
  opened-balance command w h =
      let opening =
        new_wallet env.parse_iso call.wallet_id command.player_id command.initial_balance
          call.now in
      let (_, h1) =
        Errors.fail_if-eq-ok (not (env.valid_wallet command)) Errors.invalid_wallet
          (Errors.◌>>◌ (Errors.fail_if (is_negative command.initial_balance) Errors.invalid_wallet)
            opening)
          h in
      let (_, h2) =
        Errors.fail_if-eq-ok (is_negative command.initial_balance) Errors.invalid_wallet opening
          h1 in
      new_wallet-made call.wallet_id command.player_id command.initial_balance call.now w h2

  -- For an initial balance that is an int64: if the tables hold distinct wallets with int64 balances
  -- that are, in every currency, the credits of the ledger less its debits, then so do the tables
  -- after a call of `Create`, whether it commits or not.
  pub create-IsBooked :
      (command : CreateWalletCommand) (db : Db)
      → InInt64 command.initial_balance.minor
      → IsBooked db.wallets db.ledger
      → (let after = (create env call command db).1 in IsBooked after.wallets after.ledger)
  unfolding create
  create-IsBooked command db small booked =
      within-Leads IsBooked _
        (lift-Leads _ _ _ _ λ w is_w.
          let same = opened-balance command w is_w in
          store_new-Leads command w (subst (λ m. InInt64 m.minor) same small) same)
        db booked
