-- ===== src/Store/Outbox/Leases.antt =====
-- internal/infrastructure/postgres/store.go: `ClaimOutbox`, `MarkOutboxPublished` and `ReleaseOutbox`,
-- the statements on `outbox_events` of the workers that publish.
use jungle_gaming_backend_te.Prelude.{
  ℕ, ◌+◌, String, Bool, true, false, not, ◌&&◌, ◌||◌, Option, none, some, List, [], ◌∷◌, map,
  str_eq, ltb, leb, ◌==◌, if◌then◌else◌,
}
use jungle_gaming_backend_te.Prelude.Ordered.{keep_if, limit_to, order_by}
use jungle_gaming_backend_te.Prelude.Int.{ℤ, pos}
use jungle_gaming_backend_te.Prelude.Word.{add64}
use jungle_gaming_backend_te.Errors.{Result, ok, err, conflict}
use jungle_gaming_backend_te.Domain.Time.{Time, Duration, add_duration}
use jungle_gaming_backend_te.Application.Events.{OutboxEvent}
use jungle_gaming_backend_te.Store.Tables.{OutboxRow, Postgres}

-- `ClaimedOutboxEvent`
pub record ClaimedOutboxEvent : Type 0 where
  pub event : OutboxEvent
  pub attempts : ℤ

abbrev pub is_null {ℓ} : {A : Type ℓ} → Option A → Bool
is_null none = true
is_null (some _) = false

-- `locked_until IS NULL OR locked_until < $1`
abbrev pub lease_over : Time → Option Time → Bool
lease_over now none = true
lease_over now (some until) = ltb until now

-- The `WHERE` of the candidates.
unfoldable pub is_candidate : Time → OutboxRow → Bool
is_candidate now r =
    is_null r.published_at && (leb r.next_attempt_at now && lease_over now r.locked_until)

unfoldable pub contains : String → List String → Bool
contains id [] = false
contains id (x ∷ xs) = str_eq x id || contains id xs

unfoldable pub claimed_event : OutboxRow → ClaimedOutboxEvent
claimed_event r = record {
  event = record {
    event_id = r.event_id;
    aggregate_id = r.aggregate_id;
    event_type = r.event_type;
    payload = r.payload;
    occurred_at = r.occurred_at;
  };
  attempts = r.attempts;
}

-- `SET locked_by = $3, locked_until = $1 + $4` where the event is a candidate
unfoldable pub leased : String → Time → List String → OutboxRow → OutboxRow
leased worker until ids r =
    if contains r.event_id ids
    then record r { locked_by = some worker; locked_until = some until }
    else r

-- `WHERE event_id = $1 AND locked_by = $2 AND published_at IS NULL`
unfoldable pub owns : String → String → OutboxRow → Bool
owns event_id worker r =
    str_eq r.event_id event_id
    && (elim (r.locked_by) [ none ↦ false | some w ↦ str_eq w worker ] && is_null r.published_at)

unfoldable pub published : String → String → Time → OutboxRow → OutboxRow
published event_id worker now r =
    if owns event_id worker r
    then record r {
      published_at = some now;
      locked_by = none;
      locked_until = none;
      last_error = none;
    }
    else r

unfoldable pub owned_rows : String → String → List OutboxRow → ℕ
owned_rows event_id worker [] = 0
owned_rows event_id worker (r ∷ rows) =
    (if owns event_id worker r then 1 else 0) + owned_rows event_id worker rows

-- `MarkOutboxPublished`: the answer, and the rows.
unfoldable pub mark_outbox_published :
    String → String → Time → List OutboxRow → Result (Unit {0}) × List OutboxRow
mark_outbox_published event_id worker now rows = (
  if owned_rows event_id worker rows == 1 then ok tt else err conflict,
  map (published event_id worker now) rows,
)

module _ (postgres : Postgres) where
  -- `ORDER BY occurred_at, event_id`
  unfoldable pub occurs_before : OutboxRow → OutboxRow → Bool
  occurs_before a b =
      ltb a.occurred_at b.occurred_at
      || (a.occurred_at == b.occurred_at && postgres.uuid_leb a.event_id b.event_id)

  unfoldable pub candidates : ℕ → Time → List OutboxRow → List OutboxRow
  candidates limit now rows = limit_to limit (
      order_by occurs_before
        (keep_if (λ r. is_candidate now r && not (postgres.held r.event_id)) rows))

  -- `ClaimOutbox`: the events, in no order that is promised, and the rows.
  unfoldable pub claim_outbox :
      String → ℕ → Duration → Time → List OutboxRow → List ClaimedOutboxEvent × List OutboxRow
  claim_outbox worker limit lease now rows =
      let ids = map (λ r. r.event_id) (candidates limit now rows) in
      (
        map claimed_event (keep_if (λ r. contains r.event_id ids) rows),
        map (leased worker (add_duration now lease) ids) rows,
      )

  unfoldable pub released : String → String → Time → String → OutboxRow → OutboxRow
  released event_id worker next reason r =
      if owns event_id worker r
      then record r {
        attempts = add64 r.attempts (pos 1);
        next_attempt_at = next;
        locked_by = none;
        locked_until = none;
        last_error = some (postgres.left reason 1000);
      }
      else r

  -- `ReleaseOutbox`
  unfoldable pub release_outbox : String → String → Time → String → List OutboxRow → List OutboxRow
  release_outbox event_id worker next reason rows = map (released event_id worker next reason) rows
