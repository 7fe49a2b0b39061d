-- ===== src/Application/Idempotence/Admission.antt =====
-- A new wager of internal/application/wager_service.go, from its admission to its end.
use jungle_gaming_backend_te.Prelude.{String, ◌≡◌, refl, sym, ◌∙◌, ap, subst, Option, none, some}
use jungle_gaming_backend_te.Errors.{ok}
use jungle_gaming_backend_te.Domain.Wallet.{Wallet}
use jungle_gaming_backend_te.Domain.Transaction.{
  WagerTransaction, created, resolve_reference, new_wager_transaction,
}
use jungle_gaming_backend_te.Domain.Transaction.Steps.{resolve_reference-made}
use jungle_gaming_backend_te.Domain.Transaction.Lifecycle.{
  resolve, new_wager_transaction-made, created-IsStorable,
}
use jungle_gaming_backend_te.Application.Contracts.{ProcessWagerCommand, ProcessWagerResult}
use jungle_gaming_backend_te.Application.Environment.{Environment, Call}
use jungle_gaming_backend_te.Application.WagerService.Process.{
  follow_reference, decide, admit, new_transaction_input,
}
use jungle_gaming_backend_te.Store.Tables.{Db, lift, ◌>>=◌}
use jungle_gaming_backend_te.Store.Wallets.{lock_wallet}
use jungle_gaming_backend_te.Application.Bookkeeping.Keeps.{bind-eq-ok}
use jungle_gaming_backend_te.Application.Idempotence.Steps.{
  find_by_external_id-Reads, lock_wallet-Reads,
}
use jungle_gaming_backend_te.Application.Idempotence.Answers.{
  IsFresh, Transition-IsOf, IsAnswered, Answers, lift-Answers, if-Answers, read-Answers,
}
use jungle_gaming_backend_te.Application.Idempotence.Wagers.{
  reject_and_conclude-Answers, postpone_and_conclude-Answers, settle-Answers, use_reference-Answers,
}

module _ (env : Environment) (call : Call) (command : ProcessWagerCommand) where
  resolved-IsFresh :
      (t u : WagerTransaction) (id : String)
      → resolve_reference t id call.now ≡ ok u
      → IsFresh env command t
      → IsFresh env command u
  resolved-IsFresh t u id h fresh =
      let (_, _, _, _, made) = resolve_reference-made t u id call.now h in
      record {
        of_command = Transition-IsOf env command t u (resolve id call.now h) fresh;
        unanswered =
            ap (λ (x : WagerTransaction). x.has_result_balance) (sym made) ∙ fresh.unanswered;
        no_balance = ap (λ (x : WagerTransaction). x.result_balance) (sym made) ∙ fresh.no_balance;
        attempts = ap (λ (x : WagerTransaction). x.attempt_count) (sym made) ∙ fresh.attempts;
      }

  created-IsFresh :
      (t : WagerTransaction)
      → new_wager_transaction env.parse_iso (new_transaction_input env call command) ≡ ok t
      → IsFresh env command t
  unfolding created
  created-IsFresh t h =
      let (full, supported, amount, made) =
        new_wager_transaction-made env.parse_iso (new_transaction_input env call command) t h in
      subst (IsFresh env command) made (record {
        of_command = record {
          storable =
              created-IsStorable env.parse_iso (new_transaction_input env call command) full
                supported amount;
          provider_id = refl;
          idempotency_key = refl;
          payload_hash = refl;
          wallet_id = refl;
          external_id = refl;
        };
        unanswered = refl;
        no_balance = refl;
        attempts = refl;
      })

  module _ (wallet : Wallet) where
    follow_reference-Answers :
        (t : WagerTransaction) (reference : Option WagerTransaction)
        → IsFresh env command t
        → Answers env command call wallet (follow_reference env call command t wallet reference)
    unfolding follow_reference
    follow_reference-Answers t none fresh =
        postpone_and_conclude-Answers env call command t fresh wallet
    follow_reference-Answers t (some reference) fresh =
        if-Answers env command call wallet _ _ _
          (postpone_and_conclude-Answers env call command t fresh wallet)
          (lift-Answers env command call wallet _ _ λ u is_u.
            use_reference-Answers env call command u (resolved-IsFresh t u reference.id is_u fresh)
              wallet reference)

    decide-Answers :
        (t : WagerTransaction)
        → IsFresh env command t
        → Answers env command call wallet (decide env call command t wallet)
    unfolding decide
    decide-Answers t fresh =
        if-Answers env command call wallet _ _ _
          (reject_and_conclude-Answers env call command t fresh wallet _)
          (if-Answers env command call wallet _ _ _
            (settle-Answers env call command t fresh wallet none)
            (read-Answers env command call wallet _ _ (find_by_external_id-Reads env.parse_iso _ _)
              λ reference. follow_reference-Answers t reference fresh))

  -- The wallet that `admit` locks is the one that the tables hold.
  admitted :
      (db : Db) (wallet : Wallet) (mid : Db) (r : ProcessWagerResult) (db' : Db)
      → lock_wallet env.parse_iso command.wallet_id db ≡ ok (wallet, mid)
      → (lift (new_wager_transaction env.parse_iso (new_transaction_input env call command))
            >>= λ t. decide env call command t wallet)
          mid
        ≡ ok (r, db')
      → IsAnswered env command call r db.transactions db.inbox db'
  admitted db wallet mid r db' locked h =
      let same = lock_wallet-Reads env.parse_iso command.wallet_id db wallet mid locked in
      lift-Answers env command call wallet
        (new_wager_transaction env.parse_iso (new_transaction_input env call command))
        (λ t. decide env call command t wallet)
        (λ t is_t. decide-Answers wallet t (created-IsFresh t is_t)) db r db'
        (subst (λ x. lock_wallet env.parse_iso command.wallet_id db ≡ ok (wallet, x)) same locked)
        (subst
          (λ x.
            (lift (new_wager_transaction env.parse_iso (new_transaction_input env call command))
                >>= λ t. decide env call command t wallet)
              x
            ≡ ok (r, db'))
          same h)

  pub admit-IsAnswered :
      (by_external : Option WagerTransaction) (db : Db) (r : ProcessWagerResult) (db' : Db)
      → admit env call command by_external db ≡ ok (r, db')
      → IsAnswered env command call r db.transactions db.inbox db'
  unfolding admit
  admit-IsAnswered (some t) db r db' h = cc
  admit-IsAnswered none db r db' h =
      let (wallet, mid, first, second) =
        bind-eq-ok (lock_wallet env.parse_iso command.wallet_id)
          (λ wallet.
            lift (new_wager_transaction env.parse_iso (new_transaction_input env call command))
            >>= λ t. decide env call command t wallet)
          db r db' h in
      admitted db wallet mid r db' first second
