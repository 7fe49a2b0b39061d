-- ===== src/Application/Idempotence/Wagers.antt =====
-- The ends of a new wager (internal/application/wager_service.go), each of which answers the command.
use jungle_gaming_backend_te.Prelude.{
  String, ◌≡◌, refl, inl, inr, sym, ◌∙◌, ap, subst, true, false, Option, some, List, ◌∷◌, arith,
}
use jungle_gaming_backend_te.Errors.{Result, Result-cases, ok, err, insufficient_funds}
use jungle_gaming_backend_te.Domain.Time.{Time}
use jungle_gaming_backend_te.Domain.Money.{Money, no_money}
use jungle_gaming_backend_te.Domain.Wallet
use jungle_gaming_backend_te.Domain.Wallet.{Wallet, Movement, apply}
use jungle_gaming_backend_te.Domain.LedgerEntry.{LedgerDirection}
use jungle_gaming_backend_te.Domain.Transaction.{
  WagerTransaction, TransactionKind, mark_processed, reject, mark_pending_reference,
}
use jungle_gaming_backend_te.Domain.Transaction.Steps.{
  mark_processed-made, reject-made, mark_pending_reference-made,
}
use jungle_gaming_backend_te.Domain.Transaction.Lifecycle.{pend, process, refuse}
use jungle_gaming_backend_te.Application.Contracts.{ProcessWagerCommand, ProcessWagerResult}
use jungle_gaming_backend_te.Application.Environment.{Environment, Call}
use jungle_gaming_backend_te.Application.WagerService.Settle.{
  save, reject_wager, complete, movement, finish, finalize, pending_event, insufficient_code,
}
use jungle_gaming_backend_te.Application.WagerService.Process.{
  settle, use_reference, result_from, replay_result, conclude, origin_of, reject_and_conclude,
  postpone_and_conclude,
}
use jungle_gaming_backend_te.Store.Tables.{
  Db, TransactionRow, InboxRow, Tx, pure, lift, ◌>>=◌, ◌>>◌,
}
use jungle_gaming_backend_te.Store.Wallets.{lock_wallet}
use jungle_gaming_backend_te.Store.Transactions.{insert_transaction, transaction_row}
use jungle_gaming_backend_te.Application.Bookkeeping.Keeps.{bind-eq-ok, insert_transaction-Keeps}
use jungle_gaming_backend_te.Application.Bookkeeping.Rejections.{
  conclude-Keeps, pending_event-Keeps,
}
use jungle_gaming_backend_te.Application.Idempotence.Steps.{
  lock_wallet-eq-ok, reference_failure-Reads, insert_transaction-eq-ok, pending_event-Spares,
  pure-Ends, bind-Ends, insert-Stores, insert_outbox-Spares, record_movement-Spares,
  announce_movement-Spares,
}
use jungle_gaming_backend_te.Application.Idempotence.Answers.{
  IsOf, IsFresh, Transition-IsOf, IsAnswered, Answers, conclude-eq-ok, bind-Answers, lift-Answers,
  if-Answers, read-Answers,
}

lift-eq-ok :
    {A B : Type 0} (m : Result A) (f : A → Tx B) (db : Db) (b : B) (db' : Db) {G : Type 0}
    → (lift m >>= f) db ≡ ok (b, db')
    → ((a : A) → m ≡ ok a → f a db ≡ ok (b, db') → G)
    → G
lift-eq-ok (ok a) f db b db' h next = next a refl h
lift-eq-ok (err e) f db b db' h next = cc

then_pure :
    {A B C : Type 0} (m : Tx A) (g : A → B) (f : B → Tx C) (db : Db)
    → (m >>= λ a. f (g a)) db ≡ ((m >>= λ a. pure (g a)) >>= f) db
then_pure m g f db = elim (Result-cases (m db)) [
  | inl ((a, mid), e) ↦ ground (arith, e)
  | inr (x, e) ↦ ground (arith, e)
]

module _ (env : Environment) (call : Call) (command : ProcessWagerCommand) where
  -- The end of a command whose transaction was stored, if the transaction can be replayed.
  conclude-IsAnswered :
      (t : WagerTransaction) (balance : Money) (rows : List TransactionRow) (box : List InboxRow)
      (mid : Db) (r : ProcessWagerResult) (db : Db)
      → IsOf env command t
      → (t.has_result_balance ≡ false → t.result_balance ≡ no_money)
      → (mid.transactions ≡ transaction_row t ∷ rows) × (mid.inbox ≡ box)
      → replay_result env t db ≡ ok (result_from t balance true, db)
      → conclude env call command t balance false mid ≡ ok (r, db)
      → IsAnswered env command call r rows box db
  unfolding result_from
  conclude-IsAnswered t balance rows box mid r db of absent (stored, kept) replay h =
      let (is_r, ts, ib, _) = conclude-eq-ok env command call t balance mid r db h in
      record {
        t = t;
        of_command = of;
        absent = absent;
        stored = ts ∙ stored;
        message = rw (ib, kept);
        replays = rw (← is_r) replay;
      }

  -- A transaction with a terminal balance is replayed without the tables.
  replay_of_ended :
      (t : WagerTransaction) (db : Db)
      → t.has_result_balance ≡ true
      → replay_result env t db ≡ ok (result_from t t.result_balance true, db)
  unfolding replay_result
  replay_of_ended t db h = rw h

  ended-IsAnswered :
      (t : WagerTransaction) (balance : Money) (rows : List TransactionRow) (box : List InboxRow)
      (mid : Db) (r : ProcessWagerResult) (db : Db)
      → IsOf env command t
      → t.has_result_balance ≡ true
      → t.result_balance ≡ balance
      → (mid.transactions ≡ transaction_row t ∷ rows) × (mid.inbox ≡ box)
      → conclude env call command t balance false mid ≡ ok (r, db)
      → IsAnswered env command call r rows box db
  ended-IsAnswered t balance rows box mid r db of ended is_balance stored h =
      conclude-IsAnswered t balance rows box mid r db of (λ absent. cc) stored
        (subst (λ b. replay_result env t db ≡ ok (result_from t b true, db)) is_balance
          (replay_of_ended t db ended))
        h

  module _ (t : WagerTransaction) (fresh : IsFresh env command t) (wallet : Wallet) where
    rejected-eq-ok :
        (code : String) (db : Db) (u : WagerTransaction) (db' : Db)
        → reject_wager env.parse_iso call (origin_of env call command) code t wallet db
          ≡ ok (u, db')
        → (reject env.parse_iso t code wallet.balance call.now ≡ ok u)
          × (db'.transactions ≡ transaction_row u ∷ db.transactions)
          × (db'.inbox ≡ db.inbox)
    unfolding reject_wager save
    rejected-eq-ok code db u db' h = lift-eq-ok _ _ db u db' h λ x is_x rest.
        let (same, ts, ib) =
          insert-Stores x x _ (λ _. bind-Ends x _ _ (insert_outbox-Spares _) λ _. pure-Ends x) db u
            db' rest in
        (rw (← same) is_x, rw (← same) ts, ib)

    pub reject_and_conclude-Answers :
        (code : String)
        → Answers env command call wallet (reject_and_conclude env call command code t wallet)
    unfolding reject_and_conclude
    reject_and_conclude-Answers code =
        bind-Answers env command call wallet _ _ λ db u mid r db' held first second.
          let (is_u, ts, ib) = rejected-eq-ok code db u mid first in
          let (_, _, _, _, _, made) =
            reject-made env.parse_iso t u code wallet.balance call.now is_u in
          ended-IsAnswered u wallet.balance db.transactions db.inbox mid r db'
            (Transition-IsOf env command t u (refuse code wallet.balance call.now is_u) fresh)
            (ap (λ (x : WagerTransaction). x.has_result_balance) (sym made))
            (ap (λ (x : WagerTransaction). x.result_balance) (sym made)) (ts, ib) second

    -- The wallet is read again where the transaction has no terminal balance.
    replay_of_waiting :
        (u : WagerTransaction) (db db' : Db)
        → u.has_result_balance ≡ false
        → u.wallet_id ≡ command.wallet_id
        → lock_wallet env.parse_iso command.wallet_id db ≡ ok (wallet, db)
        → db'.wallets ≡ db.wallets
        → replay_result env u db' ≡ ok (result_from u wallet.balance true, db')
    unfolding replay_result
    replay_of_waiting u db db' waiting of held kept =
        rw (waiting, of)
          (ground
            (arith, lock_wallet-eq-ok env.parse_iso command.wallet_id wallet db db' held kept))

    stored_waiting-IsAnswered :
        (u : WagerTransaction) (next : Time) (db : Db) (x : Unit {0}) (stored : Db)
        (r : ProcessWagerResult) (db' : Db)
        → mark_pending_reference t next call.now ≡ ok u
        → lock_wallet env.parse_iso command.wallet_id db ≡ ok (wallet, db)
        → insert_transaction u db ≡ ok (x, stored)
        → (pending_event call (origin_of env call command) u
              >> conclude env call command u wallet.balance false)
            stored
          ≡ ok (r, db')
        → IsAnswered env command call r db.transactions db.inbox db'
    stored_waiting-IsAnswered u next db x stored r db' is_u held first rest =
        let (_, _, _, made) = mark_pending_reference-made t u next call.now is_u in
        let of = Transition-IsOf env command t u (pend next call.now is_u) fresh in
        let (y, told, second, third) =
          bind-eq-ok (pending_event call (origin_of env call command) u)
            (λ _. conclude env call command u wallet.balance false) stored r db' rest in
        let (ts, ib) = insert_transaction-eq-ok u db stored first in
        let (ts', ib') =
          pending_event-Spares call (origin_of env call command) u stored y told second in
        let (ws, _) = insert_transaction-Keeps u db x stored first in
        let (ws', _) =
          pending_event-Keeps call (origin_of env call command) u stored y told second in
        let (ws'', _) = conclude-Keeps env call command u wallet.balance false told r db' third in
        conclude-IsAnswered u wallet.balance db.transactions db.inbox told r db' of
          (λ _. ap (λ (z : WagerTransaction). z.result_balance) (sym made) ∙ fresh.no_balance)
          (ts' ∙ ts, ib' ∙ ib)
          (replay_of_waiting u db db'
            (ap (λ (z : WagerTransaction). z.has_result_balance) (sym made) ∙ fresh.unanswered)
            of.wallet_id held (ws'' ∙ (ws' ∙ ws)))
          third

    pub postpone_and_conclude-Answers :
        Answers env command call wallet (postpone_and_conclude env call command t wallet)
    unfolding postpone_and_conclude
    postpone_and_conclude-Answers = lift-Answers env command call wallet _ _ λ u is_u.
        bind-Answers env command call wallet _ _ λ db x stored r db' held first rest.
          stored_waiting-IsAnswered u _ db x stored r db' is_u held first rest

    done_balance :
        (kind : TransactionKind) (money : Money) (reference : Option WagerTransaction)
        (direction : Option LedgerDirection) (v : Movement)
        → movement env.parse_iso call kind money wallet reference ≡ ok (direction, v)
        → (v.wallet).balance ≡ v.after
    unfolding movement Wallet.debit Wallet.credit apply
    done_balance kind money reference direction v h = ground arith

    completed-eq-ok :
        (direction : Option LedgerDirection) (v : Movement) (db : Db)
        (x : WagerTransaction × Wallet) (db' : Db)
        → complete env.parse_iso call (origin_of env call command) t direction v db ≡ ok (x, db')
        → (mark_processed env.parse_iso t v.after call.now ≡ ok x.0)
          × (v.wallet ≡ x.1)
          × (db'.transactions ≡ transaction_row x.0 ∷ db.transactions)
          × (db'.inbox ≡ db.inbox)
    unfolding complete save
    completed-eq-ok direction v db x db' h = lift-eq-ok _ _ db x db' h λ done is_done rest.
        let (same, ts, ib) =
          insert-Stores done (done, v.wallet) _
            (λ _. bind-Ends _ _ _ (record_movement-Spares env.parse_iso call direction done v) λ _.
              bind-Ends _ _ _ (insert_outbox-Spares _) λ _.
                bind-Ends _ _ _
                  (announce_movement-Spares env.parse_iso call (origin_of env call command)
                    direction done v)
                  λ _. pure-Ends _)
            db x db' rest in
        (rw (← same) is_done, ap (λ y. y.1) same, rw (← same) ts, ib)

    finished-IsAnswered :
        (result : Result (Option LedgerDirection × Movement))
        → ((direction : Option LedgerDirection) (v : Movement)
            → result ≡ ok (direction, v)
            → (v.wallet).balance ≡ v.after)
        → Answers env command call wallet (
            finish env.parse_iso call (origin_of env call command) t wallet result >>= λ x.
            conclude env call command x.0 x.1.balance false)
    unfolding finish reject_and_conclude
    finished-IsAnswered (ok (direction, v)) balance =
        bind-Answers env command call wallet _ _ λ db x mid r db' held first second.
          let (is_done, moved, ts, ib) = completed-eq-ok direction v db x mid first in
          let (_, _, _, _, _, made) =
            mark_processed-made env.parse_iso t x.0 v.after call.now is_done in
          ended-IsAnswered x.0 x.1.balance db.transactions db.inbox mid r db'
            (Transition-IsOf env command t x.0 (process v.after call.now is_done) fresh)
            (ap (λ (z : WagerTransaction). z.has_result_balance) (sym made))
            (ap (λ (z : WagerTransaction). z.result_balance) (sym made)
              ∙ (sym (balance direction v refl) ∙ ap (λ (z : Wallet). z.balance) moved))
            (ts, ib) second
    finished-IsAnswered (err insufficient_funds) balance = λ db r db' held h.
        reject_and_conclude-Answers (insufficient_code env.parse_iso call t.kind) db r db' held (
          then_pure
            (reject_wager env.parse_iso call (origin_of env call command)
              (insufficient_code env.parse_iso call t.kind) t wallet)
            (λ u. (u, wallet)) (λ x. conclude env call command x.0 x.1.balance false) db
          ∙ h)
    finished-IsAnswered (err e) balance = λ db r db' held h. cc

    pub settle-Answers :
        (reference : Option WagerTransaction)
        → Answers env command call wallet (settle env call command t wallet reference)
    unfolding settle finalize
    settle-Answers reference =
        read-Answers env command call wallet _ _ (reference_failure-Reads t reference) λ code.
          if-Answers env command call wallet _ _ _ (reject_and_conclude-Answers code)
            (finished-IsAnswered _ λ direction v. done_balance t.kind t.money reference direction v)

    pub use_reference-Answers :
        (reference : WagerTransaction)
        → Answers env command call wallet (use_reference env call command t wallet reference)
    unfolding use_reference
    use_reference-Answers reference =
        if-Answers env command call wallet _ _ _ (reject_and_conclude-Answers _)
          (settle-Answers (some reference))
