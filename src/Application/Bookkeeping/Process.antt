-- ===== src/Application/Bookkeeping/Process.antt =====
-- The books across `Process` of internal/application/wager_service.go.
use jungle_gaming_backend_te.Prelude.{
  String, subst, inl, inr, false, Option, none, some, Bool-cases,
}
use jungle_gaming_backend_te.Prelude.Word.{InInt64}
use jungle_gaming_backend_te.Domain.Wallet.{Wallet}
use jungle_gaming_backend_te.Domain.Transaction.{WagerTransaction, created}
use jungle_gaming_backend_te.Domain.Transaction.Steps.{resolve_reference-made}
use jungle_gaming_backend_te.Domain.Transaction.Lifecycle.{new_wager_transaction-made}
use jungle_gaming_backend_te.Application.Contracts.{ProcessWagerCommand, InboxInput}
use jungle_gaming_backend_te.Application.Environment.{Environment, Call}
use jungle_gaming_backend_te.Store.Tables.{Db}
use jungle_gaming_backend_te.Store.Inbox.{InboxDisposition, inserted, already_completed}
use jungle_gaming_backend_te.Store.Books.{IsBooked}
use jungle_gaming_backend_te.Application.WagerService.Process.{
  settle, use_reference, follow_reference, decide, admit, answer, look_up, dispatch, within_process,
  process, new_transaction_input, reject_and_conclude, postpone_and_conclude,
}
use jungle_gaming_backend_te.Application.Bookkeeping.Keeps.{
  bind-Keeps, pure-Keeps, find_by_external_id-Keeps, find_by_idempotency-Keeps, claim_inbox-Keeps,
}
use jungle_gaming_backend_te.Application.Bookkeeping.Leads.{
  within-Leads, Books, Leads, Keeps-Leads, kept-Leads, then-Keeps-Leads, lift-Leads, Keeps-into,
  if-Leads, raise-Leads,
}
use jungle_gaming_backend_te.Application.Bookkeeping.Reading.{Holding, lock-Leads}
use jungle_gaming_backend_te.Application.Bookkeeping.Rejections.{
  reference_failure-Keeps, reject_and_conclude-Keeps, postpone_and_conclude-Keeps, conclude-Keeps,
  replay_result-Keeps, finish_inbox-Keeps, replay_message-Keeps,
}
use jungle_gaming_backend_te.Application.Bookkeeping.Wagers.{finalize-Leads}

module _ (env : Environment) (call : Call) (command : ProcessWagerCommand) where
  module _ (wallet : Wallet) where
    abbrev Held : Books
    Held = Holding env.parse_iso wallet

    refused :
        (code : String) (t : WagerTransaction)
        → Leads Held IsBooked (reject_and_conclude env call command code t wallet)
    refused code t =
        Keeps-into _ _ _ (λ wallets ledger p. p.0)
          (reject_and_conclude-Keeps env call command code t wallet)

    waiting :
        (t : WagerTransaction)
        → Leads Held IsBooked (postpone_and_conclude env call command t wallet)
    waiting t =
        Keeps-into _ _ _ (λ wallets ledger p. p.0)
          (postpone_and_conclude-Keeps env call command t wallet)

    settle-Leads :
        (t : WagerTransaction) (reference : Option WagerTransaction)
        → InInt64 t.money.minor
        → Leads Held IsBooked (settle env call command t wallet reference)
    unfolding settle
    settle-Leads t reference small =
        kept-Leads _ _ _ _ (reference_failure-Keeps t reference) λ code.
          if-Leads _ _ _ _ _ (refused code t) (
            then-Keeps-Leads _ _ _ _ (finalize-Leads env.parse_iso call _ t wallet reference small)
              λ x. conclude-Keeps env call command x.0 x.1.balance false)

    use_reference-Leads :
        (t reference : WagerTransaction)
        → InInt64 t.money.minor
        → Leads Held IsBooked (use_reference env call command t wallet reference)
    unfolding use_reference
    use_reference-Leads t reference small =
        if-Leads _ _ _ _ _ (refused _ t) (settle-Leads t (some reference) small)

    follow_reference-Leads :
        (t : WagerTransaction) (reference : Option WagerTransaction)
        → InInt64 t.money.minor
        → Leads Held IsBooked (follow_reference env call command t wallet reference)
    unfolding follow_reference
    follow_reference-Leads t none small = waiting t
    follow_reference-Leads t (some reference) small = if-Leads _ _ _ _ _ (waiting t) (
        lift-Leads _ _ _ _ λ resolved is_resolved. use_reference-Leads resolved reference (
          subst (λ x. InInt64 x.money.minor)
            (resolve_reference-made t resolved reference.id call.now is_resolved).4 small))

    decide-Leads :
        (t : WagerTransaction)
        → InInt64 t.money.minor
        → Leads Held IsBooked (decide env call command t wallet)
    unfolding decide
    decide-Leads t small = if-Leads _ _ _ _ _ (refused _ t) (
        if-Leads _ _ _ _ _ (settle-Leads t none small) (
          kept-Leads _ _ _ _ (find_by_external_id-Keeps env.parse_iso _ _)
            λ reference. follow_reference-Leads t reference small))

  module _ (small : InInt64 command.money.minor) where
    admit-Leads :
        (by_external : Option WagerTransaction)
        → Leads IsBooked IsBooked (admit env call command by_external)
    unfolding admit created
    admit-Leads (some t) = raise-Leads _ _ _
    admit-Leads none = lock-Leads env.parse_iso _ _ _ λ wallet. lift-Leads _ _ _ _ λ t is_t.
        decide-Leads wallet t (
          subst (λ x. InInt64 x.money.minor)
            (new_wager_transaction-made env.parse_iso (new_transaction_input env call command) t
              is_t).3
            small)

    answer-Leads :
        (existing : Option WagerTransaction)
        → Leads IsBooked IsBooked (answer env call command existing)
    unfolding answer
    answer-Leads (some existing) = if-Leads _ _ _ _ _ (raise-Leads _ _ _) (
        Keeps-Leads _ _ (
          bind-Keeps _ _ (replay_result-Keeps env existing) λ result.
            bind-Keeps _ _ (finish_inbox-Keeps command.inbox call.now) λ _. pure-Keeps result))
    answer-Leads none =
        kept-Leads _ _ _ _ (find_by_external_id-Keeps env.parse_iso _ _)
          λ by_external. admit-Leads by_external

    look_up-Leads : Leads IsBooked IsBooked (look_up env call command)
    unfolding look_up
    look_up-Leads =
        kept-Leads _ _ _ _ (find_by_idempotency-Keeps env.parse_iso _ _)
          λ existing. answer-Leads existing

    dispatch-Leads :
        (disposition : InboxDisposition)
        → Leads IsBooked IsBooked (dispatch env call command disposition)
    unfolding dispatch
    dispatch-Leads inserted = look_up-Leads
    dispatch-Leads already_completed =
        kept-Leads _ _ _ _ (find_by_idempotency-Keeps env.parse_iso _ _)
          λ existing. Keeps-Leads _ _ (replay_message-Keeps env call command existing)

    within_process-Leads :
        (inbox : Option InboxInput)
        → Leads IsBooked IsBooked (within_process env call command inbox)
    unfolding within_process
    within_process-Leads none = look_up-Leads
    within_process-Leads (some input) =
        kept-Leads _ _ _ _ (claim_inbox-Keeps input call.now)
          λ disposition. dispatch-Leads disposition

    -- For a command whose amount is an int64: if the tables hold distinct wallets with int64 balances
    -- that are, in every currency, the credits of the ledger less its debits, then so do the tables
    -- after a call of `Process`, whether it commits or not.
    pub process-IsBooked :
        (db : Db)
        → IsBooked db.wallets db.ledger
        → IsBooked (process env call command db).1.wallets (process env call command db).1.ledger
    unfolding process
    process-IsBooked db booked = elim (Bool-cases (env.valid_wager command)) [
      | inl valid ↦
          rw valid (within-Leads IsBooked _ (within_process-Leads command.inbox) db booked)
      | inr invalid ↦ rw invalid booked
    ]
