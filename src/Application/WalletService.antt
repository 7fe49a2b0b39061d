-- ===== src/Application/WalletService.antt =====
-- internal/application/wallet_service.go: a new wallet with its opening, the view of a wallet, and
-- the reconciliation of a wallet with its ledger. Metrics, logs and spans are left out.
pub mod Cursor
pub mod Ledger
pub mod Rows
pub mod Filling
pub mod Pages
use jungle_gaming_backend_te.Prelude.{String, Bool, not, is_empty, if◌then◌else◌}
use jungle_gaming_backend_te.Prelude.Int.{ℤ}
use jungle_gaming_backend_te.Prelude.Word.{sub64}
use jungle_gaming_backend_te.Errors
use jungle_gaming_backend_te.Errors.{Result, ok, err, fail_if, invalid_wallet}
use jungle_gaming_backend_te.Domain.Money.{
  Money, is_negative, is_zero, zero_money, new_money_from_minor, subtract,
}
use jungle_gaming_backend_te.Domain.Wallet.{Wallet, new_wallet}
use jungle_gaming_backend_te.Domain.LedgerEntry.{credit, new_wallet_ledger_entry}
use jungle_gaming_backend_te.Domain.Transaction.{opening, processed}
use jungle_gaming_backend_te.Application.Contracts.{
  CreateWalletCommand, WalletView, wallet_view, view_money, ReconciliationView,
}
use jungle_gaming_backend_te.Application.Events.{
  OutboxEvent, new_event, wager_transaction_processed, wallet_balance_changed, processed_data,
  balance_changed_data,
}
use jungle_gaming_backend_te.Application.Environment.{Environment, Call}
use jungle_gaming_backend_te.Store.Tables.{Db, Tx, pure, lift, ◌>>=◌, ◌>>◌, within_transaction}
use jungle_gaming_backend_te.Store.Wallets.{insert_wallet, read_wallet}
use jungle_gaming_backend_te.Store.Transactions.{insert_opening}
use jungle_gaming_backend_te.Store.Ledger.{insert_ledger, sum_ledger}
use jungle_gaming_backend_te.Store.Outbox.{insert_outbox}

-- The two events of an opening.
unfoldable pub opening_processed : Call → String → Wallet → Money → OutboxEvent
opening_processed call correlation_id wallet amount =
    new_event call.event_id wager_transaction_processed call.transaction_id
      (record { correlation_id = correlation_id; causation_id = ""; occurred_at = call.now })
      (processed_data (record {
        transaction_id = call.transaction_id;
        external_transaction_id = "";
        provider_id = "";
        wallet_id = wallet.id;
        player_id = wallet.player_id;
        round_id = "";
        game_id = "";
        kind = opening;
        money = view_money amount;
        status = processed;
        balance = view_money amount;
        reference_transaction_id = "";
        reference_external_id = "";
      }))

unfoldable pub opening_changed : Call → String → Wallet → Money → Money → OutboxEvent
opening_changed call correlation_id wallet zero amount =
    new_event call.changed_event_id wallet_balance_changed wallet.id
      (record {
        correlation_id = correlation_id;
        causation_id = call.transaction_id;
        occurred_at = call.now;
      })
      (balance_changed_data (record {
        wallet_id = wallet.id;
        transaction_id = call.transaction_id;
        direction = credit;
        money = view_money amount;
        balance_before = view_money zero;
        balance_after = view_money amount;
        wallet_version = wallet.version;
      }))

module _ (env : Environment) (call : Call) where
  -- The entry of an opening, from zero, and its events.
  unfoldable pub record_entry : String → Wallet → Money → Money → Tx (Unit {0})
  record_entry correlation_id wallet amount zero = do
    entry ← lift (
        new_wallet_ledger_entry env.parse_iso call.entry_id wallet.id call.transaction_id credit
          amount zero amount call.now)
    insert_ledger entry
    insert_outbox (opening_processed call correlation_id wallet amount)
    insert_outbox (opening_changed call correlation_id wallet zero amount)

  -- The opening of a wallet that does not start empty.
  unfoldable pub record_opening : String → Wallet → Money → Tx (Unit {0})
  unfolding record_entry
  record_opening correlation_id wallet amount = do
    insert_opening call.transaction_id wallet amount call.now
    zero ← lift (zero_money env.parse_iso amount.currency)
    record_entry correlation_id wallet amount zero

  -- The transaction of `Create`.
  unfoldable pub within_create : String → Wallet → Money → Tx (Unit {0})
  unfolding record_opening
  within_create correlation_id wallet amount = do
    insert_wallet wallet
    if is_zero amount then pure tt else record_opening correlation_id wallet amount

  -- `Create`, up to its transaction.
  unfoldable pub opened : CreateWalletCommand → Result Wallet
  opened command = Errors.◌>>◌ (fail_if (not (env.valid_wallet command)) invalid_wallet) (
      Errors.◌>>◌ (fail_if (is_negative command.initial_balance) invalid_wallet) (
        new_wallet env.parse_iso call.wallet_id command.player_id command.initial_balance call.now))

  unfoldable pub store_new : CreateWalletCommand → Wallet → Tx WalletView
  unfolding within_create
  store_new command wallet = do
    within_create
        (if is_empty command.correlation_id then call.correlation_id else command.correlation_id)
        wallet command.initial_balance
    pure (wallet_view wallet)

  -- `Create`
  unfoldable pub create : CreateWalletCommand → Db → Result WalletView × Db
  unfolding opened store_new
  create command = within_transaction do wallet ← lift (opened command); store_new command wallet

module _ (parse_iso : String → Bool) where
  -- `Get`
  unfoldable pub get : String → Db → Result WalletView × Db
  get wallet_id =
      within_transaction do wallet ← read_wallet parse_iso wallet_id; pure (wallet_view wallet)

  -- The comparison of a wallet's balance with the sums of its ledger.
  unfoldable pub compared : Wallet → ℤ × ℤ × ℤ → Result ReconciliationView
  compared wallet (credits, debits, count) =
      Errors.◌>>=◌ (new_money_from_minor parse_iso (sub64 credits debits) wallet.balance.currency)
        λ calculated. Errors.◌>>=◌ (subtract parse_iso wallet.balance calculated) λ difference.
          ok (record {
            wallet_id = wallet.id;
            stored_balance = view_money wallet.balance;
            calculated_balance = view_money calculated;
            difference = view_money difference;
            consistent = is_zero difference;
            checked_entries = count;
          })

  -- `Reconcile`
  unfoldable pub reconcile : String → Db → Result ReconciliationView × Db
  unfolding compared
  reconcile wallet_id = within_transaction do
    wallet ← read_wallet parse_iso wallet_id
    sums ← sum_ledger wallet_id wallet.balance.currency
    lift (compared wallet sums)
