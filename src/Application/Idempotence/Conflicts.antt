-- ===== src/Application/Idempotence/Conflicts.antt =====
-- Commands that disagree with one that `Process` (internal/application/wager_service.go) accepted
-- before.
use jungle_gaming_backend_te.Prelude.{
  ◌≡◌, ◌≢◌, refl, sym, ◌∙◌, subst, true, false, ◌&&◌, none, some, ◌∷◌, List, String, arith, inl,
  inr, str_eq, eq_refl, eq_iff, Bool-cases,
}
use jungle_gaming_backend_te.Errors.{
  Result-cases, ok, err, idempotency_payload_conflict, external_transaction_conflict,
}
use jungle_gaming_backend_te.Domain.Transaction.{WagerTransaction}
use jungle_gaming_backend_te.Application.Contracts.{ProcessWagerCommand, ProcessWagerResult}
use jungle_gaming_backend_te.Application.Environment.{Environment, Call}
use jungle_gaming_backend_te.Application.WagerService.Process.{
  process, within_process, look_up, answer, admit, wager_payload_hash,
}
use jungle_gaming_backend_te.Store.Tables.{Db, TransactionRow, within_transaction}
use jungle_gaming_backend_te.Store.Transactions.{
  same_column, transaction_row, find_row, scan_optional, find_by_idempotency, find_by_external_id,
}
use jungle_gaming_backend_te.Application.Bookkeeping.Keeps.{bind-eq-ok}
use jungle_gaming_backend_te.Application.Idempotence.Steps.{find_by_external_id-Reads}
use jungle_gaming_backend_te.Application.Idempotence.Answers.{IsAnswered}
use jungle_gaming_backend_te.Application.Idempotence.Admission.{admit-IsAnswered}
use jungle_gaming_backend_te.Application.Idempotence.Known.{scan_optional-transaction_row}
use jungle_gaming_backend_te.Application.Idempotence.Again.{within_process-IsKnown, process-eq-ok}

module _ (env : Environment) (call : Call) (command : ProcessWagerCommand) (db : Db)
    (valid : env.valid_wager command ≡ true) (direct : command.inbox ≡ none) where
  -- A key that is known with another payload.
  refused_payload :
      (t : WagerTransaction)
      → find_by_idempotency env.parse_iso command.provider_id command.idempotency_key db
        ≡ ok (some t, db)
      → str_eq t.payload_hash (wager_payload_hash env command) ≡ false
      → process env call command db ≡ (err idempotency_payload_conflict, db)
  unfolding process within_process look_up answer within_transaction
  refused_payload t found differs = ground (arith, valid, direct, found, differs)

  -- A new key with an external identity that is known.
  refused_identity :
      (t : WagerTransaction)
      → find_by_idempotency env.parse_iso command.provider_id command.idempotency_key db
        ≡ ok (none, db)
      → find_by_external_id env.parse_iso command.provider_id command.external_transaction_id db
        ≡ ok (some t, db)
      → process env call command db ≡ (err external_transaction_conflict, db)
  unfolding process within_process look_up answer admit within_transaction
  refused_identity t fresh found = ground (arith, valid, direct, fresh, found)

-- When a call of `Process` for a command succeeded, with or without a message, then a valid command
-- without a message, with the same provider and idempotency key and another payload hash, is refused
-- as a conflict of payloads, and the tables do not change.
pub process-payload_conflict :
    (env : Environment) (call later : Call) (command other : ProcessWagerCommand) (db : Db)
    (r : ProcessWagerResult) (db' : Db)
    → process env call command db ≡ (ok r, db')
    → env.valid_wager other ≡ true
    → other.inbox ≡ none
    → other.provider_id ≡ command.provider_id
    → other.idempotency_key ≡ command.idempotency_key
    → wager_payload_hash env other ≢ wager_payload_hash env command
    → process env later other db' ≡ (err idempotency_payload_conflict, db')
process-payload_conflict env call later command other db r db' h valid direct provider key differs =
    let (_, first) = process-eq-ok env call command db r db' h in
    let (known, _) = within_process-IsKnown env call command command.inbox db r db' refl first in
    let same = (eq_iff known.t.payload_hash (wager_payload_hash env command)).0 known.same_hash in
    refused_payload env later other db' valid direct known.t (rw (provider, key) known.found) (
      rw same
        (elim (Bool-cases
          (str_eq (wager_payload_hash env command) (wager_payload_hash env other))) [
            | inl equal ↦ absurd (differs (sym ((eq_iff _ _).0 equal)))
            | inr unequal ↦ unequal
          ]))

module _ (env : Environment) (call : Call) (command : ProcessWagerCommand) (db : Db)
    (r : ProcessWagerResult) (db' : Db) where
  -- The first call for a new key leaves its transaction in front of the others.
  first-IsAnswered :
      command.inbox ≡ none
      → find_by_idempotency env.parse_iso command.provider_id command.idempotency_key db
        ≡ ok (none, db)
      → process env call command db ≡ (ok r, db')
      → IsAnswered env command call r db.transactions db.inbox db'
  unfolding within_process look_up
  first-IsAnswered direct fresh h =
      let (_, first) = process-eq-ok env call command db r db' h in
      let answered : answer env call command none db ≡ ok (r, db') =
        ground (arith, rw direct at first, fresh) in
      let (by_external, mid, found, second) =
        bind-eq-ok
          (find_by_external_id env.parse_iso command.provider_id command.external_transaction_id)
          (admit env call command) db r db' (unfold answer in answered) in
      let same = find_by_external_id-Reads env.parse_iso _ _ db by_external mid found in
      admit-IsAnswered env call command by_external db r db'
        (subst (λ x. admit env call command by_external x ≡ ok (r, db')) same second)

module _ (env : Environment) (t : WagerTransaction) (rows : List TransactionRow) where
  other_key :
      (provider_id key : String)
      → t.idempotency_key ≢ key
      → find_row
          (λ r.
            same_column r.provider_id (some provider_id)
            && same_column r.idempotency_key (some key))
          (transaction_row t ∷ rows)
        ≡ find_row
            (λ r.
              same_column r.provider_id (some provider_id)
              && same_column r.idempotency_key (some key))
            rows
  unfolding find_row transaction_row
  other_key provider_id key differs = ground (arith, eq_iff t.idempotency_key key, differs)

  same_identity :
      find_row
        (λ r.
          same_column r.provider_id (some t.provider_id)
          && same_column r.external_transaction_id (some t.external_id))
        (transaction_row t ∷ rows)
      ≡ some (transaction_row t)
  unfolding find_row transaction_row
  same_identity = rw (eq_refl t.provider_id, eq_refl t.external_id)

module _ (env : Environment) (t : WagerTransaction) (db db' : Db)
    (stored : db'.transactions ≡ transaction_row t ∷ db.transactions) where
  still_unknown :
      (provider_id key : String)
      → t.idempotency_key ≢ key
      → find_by_idempotency env.parse_iso provider_id key db ≡ ok (none, db)
      → find_by_idempotency env.parse_iso provider_id key db' ≡ ok (none, db')
  unfolding find_by_idempotency
  still_unknown provider_id key differs fresh = rw stored (
      rw (other_key env t db.transactions provider_id key differs)
        (elim (Result-cases (
          scan_optional env.parse_iso (
            find_row
              (λ r.
                same_column r.provider_id (some provider_id)
                && same_column r.idempotency_key (some key))
              db.transactions))) [
                | inl (o, e) ↦ ground (arith, e, fresh)
                | inr (x, e) ↦ ground (arith, e, fresh)
              ]))

  found_identity :
      scan_optional env.parse_iso (some (transaction_row t)) ≡ ok (some t)
      → find_by_external_id env.parse_iso t.provider_id t.external_id db' ≡ ok (some t, db')
  unfolding find_by_external_id
  found_identity scanned = rw stored (rw (same_identity env t db.transactions) (rw scanned refl))

-- When `Process` accepts a command without a message whose idempotency key is new, then a valid command
-- without a message, with the same provider and external identity and another idempotency key that was
-- new as well, is refused as a conflict of identities, and the tables do not change.
pub process-identity_conflict :
    (env : Environment) (call later : Call) (command other : ProcessWagerCommand) (db : Db)
    (r : ProcessWagerResult) (db' : Db)
    → command.inbox ≡ none
    → find_by_idempotency env.parse_iso command.provider_id command.idempotency_key db
      ≡ ok (none, db)
    → process env call command db ≡ (ok r, db')
    → env.valid_wager other ≡ true
    → other.inbox ≡ none
    → other.provider_id ≡ command.provider_id
    → other.external_transaction_id ≡ command.external_transaction_id
    → other.idempotency_key ≢ command.idempotency_key
    → find_by_idempotency env.parse_iso other.provider_id other.idempotency_key db ≡ ok (none, db)
    → process env later other db' ≡ (err external_transaction_conflict, db')
process-identity_conflict env call later command other db r db' direct fresh h valid other_direct
      provider identity differs unknown =
    let answered = first-IsAnswered env call command db r db' direct fresh h in
    let t = answered.t in
    let of = answered.of_command in
    let scanned = scan_optional-transaction_row env command t of.storable answered.absent in
    refused_identity env later other db' valid other_direct t
      (still_unknown env t db db' answered.stored other.provider_id other.idempotency_key
        (λ same. differs (sym same ∙ of.idempotency_key)) unknown)
      (rw (provider, identity, ← of.provider_id, ← of.external_id)
        (found_identity env t db db' answered.stored scanned))
