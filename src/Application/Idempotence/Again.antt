-- ===== src/Application/Idempotence/Again.antt =====
-- `Process` of internal/application/wager_service.go, called again for a command that succeeded.
use jungle_gaming_backend_te.Prelude.{
  ◌≡◌, refl, ◌∙◌, ap, subst, true, Option, none, some, arith, inl, inr, str_eq,
}
use jungle_gaming_backend_te.Errors.{Result-cases, ok}
use jungle_gaming_backend_te.Domain.Transaction.{WagerTransaction}
use jungle_gaming_backend_te.Application.Contracts.{
  InboxInput, ProcessWagerCommand, ProcessWagerResult,
}
use jungle_gaming_backend_te.Application.Environment.{Environment, Call}
use jungle_gaming_backend_te.Application.WagerService.Process.{
  admit, answer, look_up, replay_result, finish_inbox, wager_payload_hash, replay_message, dispatch,
  within_process, process,
}
use jungle_gaming_backend_te.Store.Tables.{Db, ◌>>=◌, ◌>>◌, pure, within_transaction}
use jungle_gaming_backend_te.Store.Inbox.{
  InboxDisposition, inserted, already_completed, claim_inbox,
}
use jungle_gaming_backend_te.Store.Transactions.{find_by_idempotency, find_by_external_id}
use jungle_gaming_backend_te.Application.Bookkeeping.Keeps.{bind-eq-ok}
use jungle_gaming_backend_te.Application.Bookkeeping.Leads.{within-ok}
use jungle_gaming_backend_te.Application.Idempotence.Steps.{
  find_by_external_id-Reads, find_by_idempotency-Reads,
}
use jungle_gaming_backend_te.Application.Idempotence.Answers.{completed_for, finish_inbox_lem}
use jungle_gaming_backend_te.Application.Idempotence.Admission.{admit-IsAnswered}
use jungle_gaming_backend_te.Application.Idempotence.Inbox.{
  IsCompleted, inserted-IsClaimed, already_completed-IsCompleted, IsClaimed-IsCompleted,
  claim_inbox-completed,
}
use jungle_gaming_backend_te.Application.Idempotence.Known.{
  IsKnown, IsAnswered-IsKnown, replay_result-eq-ok, find_by_idempotency-eq-ok,
}

module _ (env : Environment) (call : Call) (command : ProcessWagerCommand) where
  -- The message of a command, where it has one, is completed.
  abbrev HasCompleted : Option InboxInput → Db → Type 0
  HasCompleted none db = Unit {0}
  HasCompleted (some input) db = IsCompleted input db.inbox

  abbrev FoundBy : Option WagerTransaction → Db → Db → Type 0
  FoundBy t db mid =
      find_by_idempotency env.parse_iso command.provider_id command.idempotency_key db ≡ ok (t, mid)

  -- A transaction that is replayed, and tables that differ in the inbox alone.
  replayed-IsKnown :
      (t : WagerTransaction) (db mid found : Db) (r : ProcessWagerResult) (db' : Db)
      → FoundBy (some t) db found
      → str_eq t.payload_hash (wager_payload_hash env command) ≡ true
      → replay_result env t db ≡ ok (r, mid)
      → db'.transactions ≡ db.transactions
      → db'.wallets ≡ db.wallets
      → IsKnown env command r db'
  replayed-IsKnown t db mid found r db' is_found same replayed ts ws =
      let (_, marked, again) = replay_result-eq-ok env command t db r mid db' replayed ws in
      record {
        t = t;
        found = find_by_idempotency-eq-ok env command (some t) db found db' is_found ts;
        same_hash = same;
        replays = rw marked again;
      }

  replayed_answer :
      (t : WagerTransaction) (db : Db) (r : ProcessWagerResult) (db' : Db)
      → answer env call command (some t) db ≡ ok (r, db')
      → (str_eq t.payload_hash (wager_payload_hash env command) ≡ true)
        × ((replay_result env t >>= λ result. finish_inbox command.inbox call.now >> pure result) db
            ≡ ok (r, db'))
  unfolding answer
  replayed_answer t db r db' h = ground arith

  finished-eq-ok :
      (result : ProcessWagerResult) (mid : Db) (r : ProcessWagerResult) (db' : Db)
      → (finish_inbox command.inbox call.now >> pure result) mid ≡ ok (r, db')
      → (result ≡ r)
        × (db'.transactions ≡ mid.transactions)
        × (db'.inbox ≡ completed_for command.inbox call.now mid.inbox)
        × (db'.wallets ≡ mid.wallets)
  finished-eq-ok result mid r db' h =
      let (u, end, first, second) =
        bind-eq-ok (finish_inbox command.inbox call.now) (λ _. pure result) mid r db' h in
      let (is_r, is_end) : (result ≡ r) × (end ≡ db') = ground (arith, second) in
      let (ts, ib, ws) = finish_inbox_lem command.inbox call.now mid end first in
      (is_r, rw (← is_end) ts, rw (← is_end) ib, rw (← is_end) ws)

  answered_existing :
      (t : WagerTransaction) (db found : Db) (r : ProcessWagerResult) (db' : Db)
      → FoundBy (some t) db found
      → answer env call command (some t) db ≡ ok (r, db')
      → IsKnown env command r db' × (db'.inbox ≡ completed_for command.inbox call.now db.inbox)
  answered_existing t db found r db' is_found h =
      let (same, rest) = replayed_answer t db r db' h in
      let (result, mid, first, second) =
        bind-eq-ok (replay_result env t)
          (λ result. finish_inbox command.inbox call.now >> pure result) db r db' rest in
      let (is_mid, _, _) = replay_result-eq-ok env command t db result mid db first refl in
      let (same_r, ts, ib, ws) = finished-eq-ok result mid r db' second in
      (
        replayed-IsKnown t db mid found r db' is_found same (rw (← same_r) first)
            (ts ∙ ap (λ (x : Db). x.transactions) is_mid) (ws ∙ ap (λ (x : Db). x.wallets) is_mid),
        ib ∙ ap (λ (x : Db). completed_for command.inbox call.now x.inbox) is_mid,
      )

  answer-IsKnown :
      (existing : Option WagerTransaction) (db found : Db) (r : ProcessWagerResult) (db' : Db)
      → FoundBy existing db found
      → answer env call command existing db ≡ ok (r, db')
      → IsKnown env command r db' × (db'.inbox ≡ completed_for command.inbox call.now db.inbox)
  unfolding answer
  answer-IsKnown (some t) db found r db' is_found h = answered_existing t db found r db' is_found h
  answer-IsKnown none db found r db' is_found h =
      let (by_external, mid, first, second) =
        bind-eq-ok
          (find_by_external_id env.parse_iso command.provider_id command.external_transaction_id)
          (admit env call command) db r db' h in
      let same = find_by_external_id-Reads env.parse_iso _ _ db by_external mid first in
      let answered =
        admit-IsAnswered env call command by_external db r db'
          (subst (λ x. admit env call command by_external x ≡ ok (r, db')) same second) in
      (
        IsAnswered-IsKnown env command call r db.transactions db.inbox db' answered,
        answered.message,
      )

  replay_message-IsKnown :
      (existing : Option WagerTransaction) (db found : Db) (r : ProcessWagerResult) (db' : Db)
      → FoundBy existing db found
      → replay_message env call command existing db ≡ ok (r, db')
      → IsKnown env command r db' × (db' ≡ db)
  unfolding replay_message
  replay_message-IsKnown none db found r db' is_found h = cc
  replay_message-IsKnown (some t) db found r db' is_found h =
      let (same, replayed) : (str_eq t.payload_hash (wager_payload_hash env command) ≡ true)
          × (replay_result env t db ≡ ok (r, db')) =
        ground arith in
      let (is_end, _, _) = replay_result-eq-ok env command t db r db' db replayed refl in
      (
        replayed-IsKnown t db db' found r db' is_found same replayed
            (ap (λ (x : Db). x.transactions) is_end) (ap (λ (x : Db). x.wallets) is_end),
        is_end,
      )

  look_up-IsKnown :
      (db : Db) (r : ProcessWagerResult) (db' : Db)
      → look_up env call command db ≡ ok (r, db')
      → IsKnown env command r db' × (db'.inbox ≡ completed_for command.inbox call.now db.inbox)
  unfolding look_up
  look_up-IsKnown db r db' h =
      let (existing, mid, first, second) =
        bind-eq-ok (find_by_idempotency env.parse_iso command.provider_id command.idempotency_key)
          (answer env call command) db r db' h in
      let same = find_by_idempotency-Reads env.parse_iso _ _ db existing mid first in
      answer-IsKnown existing db mid r db' first
        (subst (λ x. answer env call command existing x ≡ ok (r, db')) same second)

  dispatch-IsKnown :
      (input : InboxInput) (d : InboxDisposition) (db mid : Db) (r : ProcessWagerResult) (db' : Db)
      → command.inbox ≡ some input
      → claim_inbox input call.now db ≡ ok (d, mid)
      → dispatch env call command d mid ≡ ok (r, db')
      → IsKnown env command r db' × IsCompleted input db'.inbox
  unfolding dispatch
  dispatch-IsKnown input inserted db mid r db' is_input claimed h =
      let (known, ib) = look_up-IsKnown mid r db' h in
      (
        known,
        rw ib (
            rw is_input (
              IsClaimed-IsCompleted input call.now mid.inbox
                (inserted-IsClaimed input call.now db mid claimed))),
      )
  dispatch-IsKnown input already_completed db mid r db' is_input claimed h =
      let (existing, found, first, second) =
        bind-eq-ok (find_by_idempotency env.parse_iso command.provider_id command.idempotency_key)
          (replay_message env call command) mid r db' h in
      let same = find_by_idempotency-Reads env.parse_iso _ _ mid existing found first in
      let (is_mid, done) = already_completed-IsCompleted input call.now db mid claimed in
      let (known, is_end) =
        replay_message-IsKnown existing mid found r db' first
          (subst (λ x. replay_message env call command existing x ≡ ok (r, db')) same second) in
      (known, rw (is_end, is_mid) done)

  -- What a successful call leaves.
  pub within_process-IsKnown :
      (inbox : Option InboxInput) (db : Db) (r : ProcessWagerResult) (db' : Db)
      → command.inbox ≡ inbox
      → within_process env call command inbox db ≡ ok (r, db')
      → IsKnown env command r db' × HasCompleted inbox db'
  unfolding within_process
  within_process-IsKnown none db r db' is_inbox h = ((look_up-IsKnown db r db' h).0, tt)
  within_process-IsKnown (some input) db r db' is_inbox h =
      let (d, mid, first, second) =
        bind-eq-ok (claim_inbox input call.now) (dispatch env call command) db r db' h in
      dispatch-IsKnown input d db mid r db' is_inbox first second

module _ (env : Environment) (call : Call) (command : ProcessWagerCommand) where
  -- The second call.
  within_process-known :
      (inbox : Option InboxInput) (r : ProcessWagerResult) (db : Db)
      → command.inbox ≡ inbox
      → IsKnown env command r db
      → HasCompleted env call command inbox db
      → within_process env call command inbox db ≡ ok (record r { idempotent_replay = true }, db)
  unfolding within_process
  within_process-known none r db is_inbox known done =
      unfold look_up answer finish_inbox in
      ground (arith, is_inbox, known.found, known.same_hash, known.replays)
  within_process-known (some input) r db is_inbox known done =
      unfold dispatch replay_message in
      ground (
        arith,
        claim_inbox-completed input call.now db done,
        known.found,
        known.same_hash,
        known.replays,
      )

  pub process-eq-ok :
      (db : Db) (r : ProcessWagerResult) (db' : Db)
      → process env call command db ≡ (ok r, db')
      → (env.valid_wager command ≡ true)
        × (within_process env call command command.inbox db ≡ ok (r, db'))
  unfolding process within_transaction
  process-eq-ok db r db' h =
      elim (Result-cases (within_process env call command command.inbox db)) [
        | inl ((a, mid), e) ↦ ground (arith, e)
        | inr (x, e) ↦ ground (arith, e)
      ]

-- When a call of `Process` succeeds, then another call for the same command, with or without a message
-- and whatever the clock and the new identifiers are, gives the same result, marked as a replay, and
-- changes no table.
pub process-again :
    (env : Environment) (call again : Call) (command : ProcessWagerCommand) (db : Db)
    (r : ProcessWagerResult) (db' : Db)
    → process env call command db ≡ (ok r, db')
    → process env again command db' ≡ (ok (record r { idempotent_replay = true }), db')
unfolding process
process-again env call again command db r db' h =
    let (valid, first) = process-eq-ok env call command db r db' h in
    let (known, done) = within_process-IsKnown env call command command.inbox db r db' refl first in
    rw valid (
      within-ok _ db' _ db'
        (within_process-known env again command command.inbox r db' refl known done))
