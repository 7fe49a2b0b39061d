-- ===== src/Application/Idempotence/Inbox.antt =====
-- The message of a command, from its claim to its completion (internal/infrastructure/postgres/store.go).
use jungle_gaming_backend_te.Prelude.{
  ◌≡◌, refl, inl, inr, true, none, some, List, [], ◌∷◌, str_eq, arith, eq_refl, Option-cases,
  Bool-cases,
}
use jungle_gaming_backend_te.Errors.{ok}
use jungle_gaming_backend_te.Domain.Time.{Time}
use jungle_gaming_backend_te.Application.Contracts.{InboxInput}
use jungle_gaming_backend_te.Store.Tables.{Db, InboxRow}
use jungle_gaming_backend_te.Store.Inbox.{
  InboxDisposition, inserted, already_completed, claim_inbox, complete_rows, find_message,
  known_message, is_message,
}

-- The row of a message, with the hash that the message has now.
pub record IsClaimed (input : InboxInput) (rows : List InboxRow) : Type 0 where
  pub row : InboxRow
  pub found : find_message input rows ≡ some row
  pub same_hash : str_eq row.payload_hash input.payload_hash ≡ true

-- The same, and it is completed.
pub record IsCompleted (input : InboxInput) (rows : List InboxRow) : Type 0 where
  pub row : InboxRow
  pub time : Time
  pub found : find_message input rows ≡ some row
  pub same_hash : str_eq row.payload_hash input.payload_hash ≡ true
  pub completed : row.completed_at ≡ some time

module _ (input : InboxInput) (now : Time) where
  claimed_row :
      (row : InboxRow) (db : Db) (d : InboxDisposition) (db' : Db)
      → find_message input db.inbox ≡ some row
      → claim_inbox input now db ≡ ok (d, db')
      → (db' ≡ db) × (known_message input row ≡ ok d)
  unfolding claim_inbox known_message
  claimed_row row db d db' found h = ground (arith, found)

  known_message-eq-ok :
      (row : InboxRow) (d : InboxDisposition)
      → known_message input row ≡ ok d
      → str_eq row.payload_hash input.payload_hash ≡ true
  unfolding known_message
  known_message-eq-ok row d h = ground arith

  abbrev new_row : InboxRow
  new_row = record {
    consumer_name = input.consumer_name;
    message_id = input.message_id;
    payload_hash = input.payload_hash;
    received_at = now;
    completed_at = none;
  }

  new-IsClaimed :
      (db : Db) (d : InboxDisposition) (db' : Db)
      → find_message input db.inbox ≡ none
      → claim_inbox input now db ≡ ok (d, db')
      → (d ≡ inserted) × IsClaimed input db'.inbox
  unfolding claim_inbox find_message
  new-IsClaimed db d db' absent h =
      let (is_inserted, is_db) : (d ≡ inserted) × (db' ≡ record db { inbox = new_row ∷ db.inbox }) =
        ground (arith, absent) in
      rw is_db (
        is_inserted,
        record {
          row = new_row;
          found = ground (arith, eq_refl input.consumer_name, eq_refl input.message_id);
          same_hash = eq_refl input.payload_hash;
        },
      )

  -- A message that is claimed for the first time, or was claimed and not completed.
  pub inserted-IsClaimed :
      (db db' : Db) → claim_inbox input now db ≡ ok (inserted, db') → IsClaimed input db'.inbox
  inserted-IsClaimed db db' h = elim (Option-cases (find_message input db.inbox)) [
    | inl absent ↦ (new-IsClaimed db inserted db' absent h).1
    | inr (row, found) ↦
        let (same, known) = claimed_row row db inserted db' found h in
        rw same
          (record { row = row; found = found; same_hash = known_message-eq-ok row inserted known })
  ]

  completed_of_known :
      (row : InboxRow)
      → known_message input row ≡ ok already_completed
      → (time : Time) × (row.completed_at ≡ some time)
  unfolding known_message
  completed_of_known row h = elim (Option-cases row.completed_at) [
    | inl unfinished ↦ ground (arith, unfinished)
    | inr done ↦ done
  ]

  pub already_completed-IsCompleted :
      (db db' : Db)
      → claim_inbox input now db ≡ ok (already_completed, db')
      → (db' ≡ db) × IsCompleted input db.inbox
  already_completed-IsCompleted db db' h = elim (Option-cases (find_message input db.inbox)) [
    | inl absent ↦ ground (arith, new-IsClaimed db already_completed db' absent h)
    | inr (row, found) ↦
        let (same, known) = claimed_row row db already_completed db' found h in
        let (time, completed) = completed_of_known row known in
        (
          same,
          record {
            row = row;
            time = time;
            found = found;
            same_hash = known_message-eq-ok row already_completed known;
            completed = completed;
          },
        )
  ]

  -- Completing the rows of a claimed message completes the row that is found.
  completed_row :
      (rows : List InboxRow) (row : InboxRow)
      → find_message input rows ≡ some row
      → str_eq row.payload_hash input.payload_hash ≡ true
      → find_message input (complete_rows input now rows)
        ≡ some (record row { completed_at = some now })
  unfolding find_message complete_rows
  completed_row [] row found same = cc
  completed_row (r ∷ rows) row found same = elim (Bool-cases (is_message input r)) [
    | inl hit ↦ let is_row : r ≡ row = ground (arith, hit) in ground (arith, hit, is_row, same)
    | inr miss ↦ ground (arith, miss, completed_row rows row (ground (arith, miss)) same)
  ]

  pub IsClaimed-IsCompleted :
      (rows : List InboxRow)
      → IsClaimed input rows
      → IsCompleted input (complete_rows input now rows)
  IsClaimed-IsCompleted rows claimed = record {
    row = record claimed.row { completed_at = some now };
    time = now;
    found = completed_row rows claimed.row claimed.found claimed.same_hash;
    same_hash = claimed.same_hash;
    completed = refl;
  }

  -- A completed message is recognised.
  pub claim_inbox-completed :
      (db : Db) → IsCompleted input db.inbox → claim_inbox input now db ≡ ok (already_completed, db)
  unfolding claim_inbox known_message
  claim_inbox-completed db done = ground (arith, done.found, done.same_hash, done.completed)
