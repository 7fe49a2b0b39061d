-- ===== src/Messaging/ReferenceWorker.antt =====
-- internal/infrastructure/messaging/reference_worker.go: `resolveReferences`, and the statement of
-- internal/infrastructure/postgres/store.go that finds what is due.
pub mod Rounds
use jungle_gaming_backend_te.Prelude.{
  ℕ, String, Bool, true, false, not, ◌&&◌, ◌||◌, Option, none, some, List, [], ◌∷◌, map, ltb, leb,
  ◌==◌, if◌then◌else◌,
}
use jungle_gaming_backend_te.Prelude.Ordered.{keep_if, limit_to, order_by}
use jungle_gaming_backend_te.Errors.{Result, ok, err}
use jungle_gaming_backend_te.Domain.Time.{Time}
use jungle_gaming_backend_te.Domain.Transaction.{pending_reference, status_eq}
use jungle_gaming_backend_te.Application.Environment.{Environment, Call}
use jungle_gaming_backend_te.Application.WagerService.Pending.{
  resolve_pending_reference, record_pending_reference_failure,
}
use jungle_gaming_backend_te.Store.Tables.{Db, TransactionRow, Postgres}

-- `next_attempt_at <= $1`, which holds for no null
abbrev pub is_due_at : Time → Option Time → Bool
is_due_at now none = false
is_due_at now (some next) = leb next now

-- The `WHERE` of `FindDuePendingReferences`.
unfoldable pub is_due : Time → TransactionRow → Bool
is_due now r = status_eq r.status pending_reference && is_due_at now r.next_attempt_at

abbrev pub earlier : Option Time → Option Time → Bool
earlier (some a) (some b) = ltb a b
earlier _ _ = false

abbrev pub same_time : Option Time → Option Time → Bool
same_time (some a) (some b) = a == b
same_time _ _ = false

-- What the calls for one identifier read from the clock and make, and whether the worker was stopped
-- when the first of them failed.
pub record Attempt : Type 0 where
  pub resolving : Call
  pub recording : Call
  pub stopped : Bool

-- A round of the loop; a lookup that fails finds nothing.
pub record Round : Type 0 where
  pub now : Time
  pub lookup_fails : Bool
  pub attempt : String → Attempt

module _ (postgres : Postgres) where
  -- `ORDER BY next_attempt_at, id`
  unfoldable pub due_before : TransactionRow → TransactionRow → Bool
  due_before a b =
      earlier a.next_attempt_at b.next_attempt_at
      || (same_time a.next_attempt_at b.next_attempt_at && postgres.uuid_leb a.id b.id)

  -- `FindDuePendingReferences`
  unfoldable pub find_due_pending_references : ℕ → Time → List TransactionRow → List String
  find_due_pending_references limit now rows =
      map (λ r. r.id) (limit_to limit (order_by due_before (keep_if (is_due now) rows)))

  -- What a round finds.
  unfoldable pub found_ids : ℕ → Round → List TransactionRow → List String
  found_ids limit round rows =
      if round.lookup_fails then [] else find_due_pending_references limit round.now rows

module _ (env : Environment) where
  -- What follows on the answer of `ResolvePendingReference`.
  unfoldable pub after_resolve : Attempt → String → Result (Unit {0}) × Db → Db
  after_resolve attempt id (ok done, db) = db
  after_resolve attempt id (err e, db) =
      let recorded = (record_pending_reference_failure env attempt.recording id db).1 in
      if attempt.stopped then db else recorded

  unfoldable pub resolve_each : (String → Attempt) → List String → Db → Db
  unfolding after_resolve
  resolve_each attempt [] db = db
  resolve_each attempt (id ∷ ids) db =
      resolve_each attempt ids
        (after_resolve (attempt id) id (resolve_pending_reference env (attempt id).resolving id db))

  -- `resolveReferences`, for the rounds before the worker is stopped.
  unfoldable pub resolve_references : Postgres → ℕ → List Round → Db → Db
  unfolding resolve_each
  resolve_references postgres batch_size [] db = db
  resolve_references postgres batch_size (round ∷ rounds) db =
      resolve_references postgres batch_size rounds
        (resolve_each round.attempt (found_ids postgres batch_size round db.transactions) db)
