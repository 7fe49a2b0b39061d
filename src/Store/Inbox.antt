-- ===== src/Store/Inbox.antt =====
-- internal/infrastructure/postgres/store.go: the statements on `inbox_messages`.
use jungle_gaming_backend_te.Prelude.{
  ℕ, ◌+◌, Bool, not, ◌&&◌, Option, none, some, List, [], ◌∷◌, str_eq, ◌==◌, if◌then◌else◌,
}
use jungle_gaming_backend_te.Errors.{Result, ok, err, inbox_payload_conflict}
use jungle_gaming_backend_te.Domain.Time.{Time}
use jungle_gaming_backend_te.Application.Contracts.{InboxInput}
use jungle_gaming_backend_te.Store.Tables.{InboxRow, Tx, unless_taken}

pub data InboxDisposition : Type 0 where
  inserted already_completed : InboxDisposition

abbrev pub is_message : InboxInput → InboxRow → Bool
is_message input r =
    str_eq r.consumer_name input.consumer_name && str_eq r.message_id input.message_id

unfoldable pub find_message : InboxInput → List InboxRow → Option InboxRow
find_message input [] = none
find_message input (r ∷ rows) = if is_message input r then some r else find_message input rows

-- What a message that is already there says.
unfoldable pub known_message : InboxInput → InboxRow → Result InboxDisposition
known_message input r =
    if not (str_eq r.payload_hash input.payload_hash)
    then err inbox_payload_conflict
    else elim (r.completed_at) [ none ↦ ok inserted | some _ ↦ ok already_completed ]

unfoldable pub claim_inbox : InboxInput → Time → Tx InboxDisposition
unfolding known_message
claim_inbox input now db = elim (find_message input db.inbox) [
  | none ↦ ok (
    inserted,
    record db {
      inbox =
          record {
            consumer_name = input.consumer_name;
            message_id = input.message_id;
            payload_hash = input.payload_hash;
            received_at = now;
            completed_at = none;
          }
          ∷ db.inbox;
    },
  )
  | some r ↦ elim (known_message input r) [ ok d ↦ ok (d, db) | err e ↦ err e ]
]

abbrev pub completes : InboxInput → InboxRow → Bool
completes input r = is_message input r && str_eq r.payload_hash input.payload_hash

unfoldable pub complete_rows : InboxInput → Time → List InboxRow → List InboxRow
complete_rows input now [] = []
complete_rows input now (r ∷ rows) =
    (if completes input r then record r { completed_at = some now } else r)
    ∷ complete_rows input now rows

unfoldable pub messages_affected : InboxInput → List InboxRow → ℕ
messages_affected input [] = 0
messages_affected input (r ∷ rows) =
    (if completes input r then 1 else 0) + messages_affected input rows

unfoldable pub complete_inbox : InboxInput → Time → Tx (Unit {0})
complete_inbox input now db =
    unless_taken (not (messages_affected input db.inbox == 1)) inbox_payload_conflict
      (record db { inbox = complete_rows input now db.inbox }) db
