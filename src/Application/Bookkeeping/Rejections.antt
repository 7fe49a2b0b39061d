-- ===== src/Application/Bookkeeping/Rejections.antt =====
-- The ends of a wager that move no money: `reject`, `pendingEvent`, the waits and the failure of
-- internal/application/wager_service.go.
use jungle_gaming_backend_te.Prelude.{String, Bool, false, Option, none, some, arith}
use jungle_gaming_backend_te.Domain.Transaction.{WagerTransaction}
use jungle_gaming_backend_te.Domain.Wallet.{Wallet}
use jungle_gaming_backend_te.Application.Contracts.{ProcessWagerCommand}
use jungle_gaming_backend_te.Application.Environment.{Environment, Call}
use jungle_gaming_backend_te.Application.WagerService.Settle.{
  Origin, save, reject_wager, pending_event, reference_failure, reversal_code,
}
use jungle_gaming_backend_te.Store.Transactions.{successful_reversal_exists}
use jungle_gaming_backend_te.Domain.Time.{Time}
use jungle_gaming_backend_te.Domain.Money.{Money}
use jungle_gaming_backend_te.Application.Contracts.{InboxInput}
use jungle_gaming_backend_te.Application.WagerService.Process.{
  finish_inbox, replay_result, conclude, reject_and_conclude, postpone_and_conclude, replay_message,
}
use jungle_gaming_backend_te.Application.WagerService.Pending.{
  try_again, reject_pending, wait_or_give_up, give_up_pending, within_record_failure,
}
use jungle_gaming_backend_te.Application.Bookkeeping.Keeps.{
  raise-Keeps, complete_inbox-Keeps, lock_wallet-Keeps, lock_transaction-Keeps, Keeps, bind-Keeps,
  pure-Keeps, lift-Keeps, insert_transaction-Keeps, update_transaction-Keeps, insert_outbox-Keeps,
  if-Keeps,
}

pub save-Keeps : (origin : Origin) (t : WagerTransaction) → Keeps (save origin t)
unfolding save
save-Keeps origin t =
    if-Keeps origin.insert _ _ (insert_transaction-Keeps t) (update_transaction-Keeps t)

pub reject_wager-Keeps :
    (parse_iso : String → Bool) (call : Call) (origin : Origin) (code : String)
    (t : WagerTransaction) (wallet : Wallet)
    → Keeps (reject_wager parse_iso call origin code t wallet)
unfolding reject_wager
reject_wager-Keeps parse_iso call origin code t wallet = bind-Keeps _ _ (lift-Keeps _) λ rejected.
    bind-Keeps _ _ (save-Keeps origin rejected)
      λ _. bind-Keeps _ _ (insert_outbox-Keeps _) λ _. pure-Keeps rejected

pub pending_event-Keeps :
    (call : Call) (origin : Origin) (t : WagerTransaction) → Keeps (pending_event call origin t)
unfolding pending_event
pending_event-Keeps call origin t = insert_outbox-Keeps _

pub reference_failure-Keeps :
    (t : WagerTransaction) (reference : Option WagerTransaction)
    → Keeps (reference_failure t reference)
unfolding reference_failure reversal_code successful_reversal_exists
reference_failure-Keeps t none db a db' h = ground arith
reference_failure-Keeps t (some reference) db a db' h = ground arith

pub finish_inbox-Keeps : (input : Option InboxInput) (now : Time) → Keeps (finish_inbox input now)
unfolding finish_inbox
finish_inbox-Keeps none now = pure-Keeps tt
finish_inbox-Keeps (some input) now = complete_inbox-Keeps input now

module _ (env : Environment) where
  pub replay_result-Keeps : (t : WagerTransaction) → Keeps (replay_result env t)
  unfolding replay_result
  replay_result-Keeps t =
      if-Keeps _ _ _ (pure-Keeps _)
        (bind-Keeps _ _ (lock_wallet-Keeps env.parse_iso _) λ wallet. pure-Keeps _)

module _ (env : Environment) (call : Call) (command : ProcessWagerCommand) where
  pub conclude-Keeps :
      (t : WagerTransaction) (balance : Money) (replay : Bool)
      → Keeps (conclude env call command t balance replay)
  unfolding conclude
  conclude-Keeps t balance replay =
      bind-Keeps _ _ (finish_inbox-Keeps command.inbox call.now) λ _. pure-Keeps _

  -- A refused wager moves no money.
  pub reject_and_conclude-Keeps :
      (code : String) (t : WagerTransaction) (wallet : Wallet)
      → Keeps (reject_and_conclude env call command code t wallet)
  unfolding reject_and_conclude
  reject_and_conclude-Keeps code t wallet =
      bind-Keeps _ _ (reject_wager-Keeps env.parse_iso call _ code t wallet)
        λ rejected. conclude-Keeps rejected wallet.balance false

  -- Nor does a wager that waits.
  pub postpone_and_conclude-Keeps :
      (t : WagerTransaction) (wallet : Wallet)
      → Keeps (postpone_and_conclude env call command t wallet)
  unfolding postpone_and_conclude
  postpone_and_conclude-Keeps t wallet = bind-Keeps _ _ (lift-Keeps _) λ waiting.
      bind-Keeps _ _ (insert_transaction-Keeps waiting) λ _.
        bind-Keeps _ _ (pending_event-Keeps call _ waiting)
          λ _. conclude-Keeps waiting wallet.balance false

  pub replay_message-Keeps :
      (existing : Option WagerTransaction) → Keeps (replay_message env call command existing)
  unfolding replay_message
  replay_message-Keeps none = raise-Keeps _
  replay_message-Keeps (some existing) =
      if-Keeps _ _ _ (raise-Keeps _) (replay_result-Keeps env existing)

module _ (env : Environment) (call : Call) where
  pub try_again-Keeps : (t : WagerTransaction) → Keeps (try_again env call t)
  unfolding try_again
  try_again-Keeps t = bind-Keeps _ _ (lift-Keeps _) λ waiting. update_transaction-Keeps waiting

  pub reject_pending-Keeps :
      (code : String) (t : WagerTransaction) (wallet : Wallet)
      → Keeps (reject_pending env call code t wallet)
  unfolding reject_pending
  reject_pending-Keeps code t wallet =
      bind-Keeps _ _ (reject_wager-Keeps env.parse_iso call _ code t wallet)
        λ rejected. pure-Keeps tt

  pub wait_or_give_up-Keeps :
      (t : WagerTransaction) (wallet : Wallet) → Keeps (wait_or_give_up env call t wallet)
  unfolding wait_or_give_up
  wait_or_give_up-Keeps t wallet =
      if-Keeps _ _ _ (reject_pending-Keeps _ t wallet) (try_again-Keeps t)

  give_up_pending-Keeps :
      (t : WagerTransaction) (wallet : Wallet) → Keeps (give_up_pending env call t wallet)
  unfolding give_up_pending
  give_up_pending-Keeps t wallet =
      bind-Keeps _ _ (lift-Keeps _)
        λ failed. bind-Keeps _ _ (update_transaction-Keeps failed) λ _. insert_outbox-Keeps _

  -- `RecordPendingReferenceFailure` changes neither the wallets nor the ledger.
  pub within_record_failure-Keeps :
      (transaction_id : String) → Keeps (within_record_failure env call transaction_id)
  unfolding within_record_failure
  within_record_failure-Keeps transaction_id =
      bind-Keeps _ _ (lock_transaction-Keeps env.parse_iso transaction_id) λ t.
        if-Keeps _ _ _ (pure-Keeps tt) (
          bind-Keeps _ _ (lock_wallet-Keeps env.parse_iso t.wallet_id)
            λ wallet. if-Keeps _ _ _ (try_again-Keeps t) (give_up_pending-Keeps t wallet))
