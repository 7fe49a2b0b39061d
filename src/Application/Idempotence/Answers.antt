-- ===== src/Application/Idempotence/Answers.antt =====
-- What a successful call of `Process` (internal/application/wager_service.go) leaves in the tables.
use jungle_gaming_backend_te.Prelude.{
  ◌≡◌, refl, ◌∙◌, subst, Bool, true, false, Option, none, some, List, ◌∷◌, arith, if◌then◌else◌,
}
use jungle_gaming_backend_te.Prelude.Int.{pos}
use jungle_gaming_backend_te.Errors.{Result, ok, err}
use jungle_gaming_backend_te.Domain.Time.{Time}
use jungle_gaming_backend_te.Domain.Money.{Money, no_money}
use jungle_gaming_backend_te.Domain.Wallet.{Wallet}
use jungle_gaming_backend_te.Domain.Transaction.{WagerTransaction}
use jungle_gaming_backend_te.Domain.Transaction.Storable.{snapshot, IsStorable}
use jungle_gaming_backend_te.Domain.Transaction.Lifecycle.{Transition, Transition-IsStorable}
use jungle_gaming_backend_te.Domain.Transaction.History.{Transition-SameWager}
use jungle_gaming_backend_te.Application.Contracts.{
  InboxInput, ProcessWagerCommand, ProcessWagerResult,
}
use jungle_gaming_backend_te.Application.Environment.{Environment, Call}
use jungle_gaming_backend_te.Application.WagerService.Process.{
  finish_inbox, conclude, result_from, wager_payload_hash, replay_result,
}
use jungle_gaming_backend_te.Store.Tables.{Db, TransactionRow, InboxRow, Tx, lift, ◌>>=◌}
use jungle_gaming_backend_te.Store.Wallets.{lock_wallet}
use jungle_gaming_backend_te.Store.Transactions.{transaction_row}
use jungle_gaming_backend_te.Store.Inbox.{complete_inbox, complete_rows}
use jungle_gaming_backend_te.Application.Bookkeeping.Keeps.{bind-eq-ok}
use jungle_gaming_backend_te.Application.Idempotence.Steps.{Reads}

-- The inbox once the message of a command, if it has one, is completed.
abbrev pub completed_for : Option InboxInput → Time → List InboxRow → List InboxRow
completed_for none now rows = rows
completed_for (some input) now rows = complete_rows input now rows

pub finish_inbox_lem :
    (input : Option InboxInput) (now : Time) (db db' : Db)
    → finish_inbox input now db ≡ ok (tt, db')
    → (db'.transactions ≡ db.transactions)
      × (db'.inbox ≡ completed_for input now db.inbox)
      × (db'.wallets ≡ db.wallets)
unfolding finish_inbox complete_inbox
finish_inbox_lem none now db db' h = ground arith
finish_inbox_lem (some input) now db db' h = ground arith

module _ (env : Environment) (command : ProcessWagerCommand) where
  -- A transaction of the command that can be stored.
  pub record IsOf (t : WagerTransaction) : Type 0 where
    pub storable : IsStorable env.parse_iso (snapshot t)
    pub provider_id : t.provider_id ≡ command.provider_id
    pub idempotency_key : t.idempotency_key ≡ command.idempotency_key
    pub payload_hash : t.payload_hash ≡ wager_payload_hash env command
    pub wallet_id : t.wallet_id ≡ command.wallet_id
    pub external_id : t.external_id ≡ command.external_transaction_id

  -- The same before its first attempt and its end.
  pub record IsFresh (t : WagerTransaction) : Type 0 where
    pub of_command : IsOf t
    pub unanswered : t.has_result_balance ≡ false
    pub no_balance : t.result_balance ≡ no_money
    pub attempts : t.attempt_count ≡ pos 0

  pub Transition-IsOf : (t u : WagerTransaction) → Transition env.parse_iso t u → IsFresh t → IsOf u
  Transition-IsOf t u step fresh =
      let same = Transition-SameWager env.parse_iso t u step in
      let of = fresh.of_command in
      record {
        storable =
            Transition-IsStorable env.parse_iso t u step of.storable
              (rw fresh.attempts (ground arith)) (rw fresh.attempts (ground arith));
        provider_id = same.provider_id ∙ of.provider_id;
        idempotency_key = same.idempotency_key ∙ of.idempotency_key;
        payload_hash = same.payload_hash ∙ of.payload_hash;
        wallet_id = same.wallet_id ∙ of.wallet_id;
        external_id = same.external_id ∙ of.external_id;
      }

  module _ (call : Call) where
    -- The transaction is stored first of all, with the rest of the table behind it; the message is
    -- completed; and the transaction gives the same result again.
    pub record IsAnswered (r : ProcessWagerResult) (rows : List TransactionRow)
        (inbox : List InboxRow) (db : Db) : Type 0 where
      pub t : WagerTransaction
      pub of_command : IsOf t
      pub absent : t.has_result_balance ≡ false → t.result_balance ≡ no_money
      pub stored : db.transactions ≡ transaction_row t ∷ rows
      pub message : db.inbox ≡ completed_for command.inbox call.now inbox
      pub replays : replay_result env t db ≡ ok (record r { idempotent_replay = true }, db)

    -- A step that, with the wallet in the tables, answers the command.
    abbrev pub Answers : Wallet → Tx ProcessWagerResult → Type 0
    Answers wallet m =
        (db : Db) (r : ProcessWagerResult) (db' : Db)
        → lock_wallet env.parse_iso command.wallet_id db ≡ ok (wallet, db)
        → m db ≡ ok (r, db')
        → IsAnswered r db.transactions db.inbox db'

    module _ (wallet : Wallet) where
      pub read-Answers :
          {A : Type 0} (m : Tx A) (f : A → Tx ProcessWagerResult)
          → Reads m
          → ((a : A) → Answers wallet (f a))
          → Answers wallet (m >>= f)
      read-Answers m f reads next db r db' held h =
          let (a, mid, first, second) = bind-eq-ok m f db r db' h in
          next a db r db' held (subst (λ x. f a x ≡ ok (r, db')) (reads db a mid first) second)

      pub lift-Answers :
          {A : Type 0} (m : Result A) (f : A → Tx ProcessWagerResult)
          → ((a : A) → m ≡ ok a → Answers wallet (f a))
          → Answers wallet (lift m >>= f)
      lift-Answers (ok a) f next db r db' held h = next a refl db r db' held h
      lift-Answers (err e) f next db r db' held h = cc

      pub bind-Answers :
          {A : Type 0} (m : Tx A) (f : A → Tx ProcessWagerResult)
          → ((db : Db) (a : A) (mid : Db) (r : ProcessWagerResult) (db' : Db)
              → lock_wallet env.parse_iso command.wallet_id db ≡ ok (wallet, db)
              → m db ≡ ok (a, mid)
              → f a mid ≡ ok (r, db')
              → IsAnswered r db.transactions db.inbox db')
          → Answers wallet (m >>= f)
      bind-Answers m f next db r db' held h =
          let (a, mid, first, second) = bind-eq-ok m f db r db' h in
          next db a mid r db' held first second

      pub if-Answers :
          (b : Bool) (m n : Tx ProcessWagerResult)
          → Answers wallet m
          → Answers wallet n
          → Answers wallet (if b then m else n)
      if-Answers true m n hm hn = hm
      if-Answers false m n hm hn = hn

    -- The end of a command whose transaction was stored.
    pub conclude-eq-ok :
        (t : WagerTransaction) (balance : Money) (db : Db) (r : ProcessWagerResult) (db' : Db)
        → conclude env call command t balance false db ≡ ok (r, db')
        → (result_from t balance false ≡ r)
          × (db'.transactions ≡ db.transactions)
          × (db'.inbox ≡ completed_for command.inbox call.now db.inbox)
          × (db'.wallets ≡ db.wallets)
    unfolding conclude
    conclude-eq-ok t balance db r db' h =
        let (u, mid, first, second) =
          bind-eq-ok (finish_inbox command.inbox call.now) _ db r db' h in
        let (ts, box, ws) = finish_inbox_lem command.inbox call.now db mid first in
        let (same_r, same_db) : (result_from t balance false ≡ r) × (mid ≡ db') = ground arith in
        subst
          (λ x.
            (result_from t balance false ≡ r)
            × (x.transactions ≡ db.transactions)
            × (x.inbox ≡ completed_for command.inbox call.now db.inbox)
            × (x.wallets ≡ db.wallets))
          same_db (same_r, ts, box, ws)
