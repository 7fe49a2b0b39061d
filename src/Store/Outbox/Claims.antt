-- ===== src/Store/Outbox/Claims.antt =====
-- Every event that is due and that nobody has is handed out by `ClaimOutbox`
-- (internal/infrastructure/postgres/store.go).
use jungle_gaming_backend_te.Prelude.{
  ℕ, ◌⊎◌, none, ◌<◌, ◌+◌, ◌≤◌, String, ◌≡◌, refl, sym, subst, inl, inr, Bool, true, false, not,
  ◌&&◌, some, List, [], ◌∷◌, map, length, arith,
}
use mathlib.Core.List.{Memᴰ}
use mathlib.Core.List.Memᴰ
use jungle_gaming_backend_te.Prelude.Ordered.{
  keep_if, order_by, insert_by, Mem-keep_if, limit_to-length, Mem-order_by,
}
use jungle_gaming_backend_te.Domain.Time.{Time, Duration, add_duration}
use jungle_gaming_backend_te.Store.Tables.{Postgres, OutboxRow}
use jungle_gaming_backend_te.Store.Outbox.Leases.{
  is_candidate, contains, claimed_event, leased, candidates, claim_outbox, occurs_before,
}
use jungle_gaming_backend_te.Store.Outbox.Candidates.{candidate_ids, Mem-contains}

module _ (postgres : Postgres) where
  length-keep_if :
      (test : OutboxRow → Bool) (rows : List OutboxRow) → length (keep_if test rows) ≤ length rows
  length-keep_if test [] = omega arith
  length-keep_if test (r ∷ rows) = ground (arith, length-keep_if test rows)

  length-insert_by :
      (le : OutboxRow → OutboxRow → Bool) (x : OutboxRow) (rows : List OutboxRow)
      → length (insert_by le x rows) ≡ 1 + length rows
  length-insert_by le x [] = refl
  length-insert_by le x (r ∷ rows) = ground (arith, length-insert_by le x rows)

  length-order_by :
      (le : OutboxRow → OutboxRow → Bool) (rows : List OutboxRow)
      → length (order_by le rows) ≡ length rows
  length-order_by le [] = refl
  length-order_by le (r ∷ rows) =
      omega (arith, length-insert_by le r (order_by le rows), length-order_by le rows)

  all_candidates :
      (limit : ℕ) (now : Time) (rows : List OutboxRow) (r : OutboxRow)
      → length rows ≤ limit
      → Memᴰ r rows
      → is_candidate now r ≡ true
      → postgres.held r.event_id ≡ false
      → Memᴰ r (candidates postgres limit now rows)
  unfolding candidates
  all_candidates limit now rows r enough there free loose =
      subst (Memᴰ r)
        (sym (
          limit_to-length limit _ (
            omega (
              arith,
              length-order_by (occurs_before postgres)
                  (keep_if (λ x. is_candidate now x && not (postgres.held x.event_id)) rows),
              length-keep_if (λ x. is_candidate now x && not (postgres.held x.event_id)) rows,
              enough,
            ))))
        (Mem-order_by (occurs_before postgres) r _
          (Mem-keep_if _ r rows there (rw (free, loose) refl)))

  leased_inside :
      (worker : String) (until : Time) (ids : List String) (r : OutboxRow)
      → contains r.event_id ids ≡ true
      → leased worker until ids r ≡ record r { locked_by = some worker; locked_until = some until }
  unfolding leased
  leased_inside worker until ids r inside = rw inside

  -- A row that is due, and that no worker has, by its columns.
  due_candidate :
      (now : Time) (r : OutboxRow)
      → r.published_at ≡ none
      → r.next_attempt_at ≤ now
      → (r.locked_until ≡ none) ⊎ ((until : Time) × (r.locked_until ≡ some until) × (until < now))
      → is_candidate now r ≡ true
  unfolding is_candidate
  due_candidate now r waiting due (inl never) = rw (waiting, never) (ground arith)
  due_candidate now r waiting due (inr (until, locked, over)) = rw (waiting, locked) (ground arith)

  -- A row whose event is not published, whose next attempt is due, which was never leased or whose lease
  -- ended before now, and which no transaction holds, is claimed by a worker whose limit is at least the number of rows, and then the worker
  -- has the lease on it.
  pub claim_outbox-claims :
      (worker : String) (limit : ℕ) (lease : Duration) (now : Time) (rows : List OutboxRow)
      (r : OutboxRow)
      → length rows ≤ limit
      → Memᴰ r rows
      → r.published_at ≡ none
      → r.next_attempt_at ≤ now
      → (r.locked_until ≡ none) ⊎ ((until : Time) × (r.locked_until ≡ some until) × (until < now))
      → postgres.held r.event_id ≡ false
      → Memᴰ (claimed_event r) (claim_outbox postgres worker limit lease now rows).0
        × Memᴰ
            (record r { locked_by = some worker; locked_until = some (add_duration now lease) })
            (claim_outbox postgres worker limit lease now rows).1
  unfolding claim_outbox
  claim_outbox-claims worker limit lease now rows r enough there waiting due lease_free loose =
      let free = due_candidate now r waiting due lease_free in
      let inside =
        Mem-contains r.event_id (candidate_ids postgres limit now rows)
          (Memᴰ.map (λ x. x.event_id) (all_candidates limit now rows r enough there free loose)) in
      (
        Memᴰ.map claimed_event (Mem-keep_if _ r rows there inside),
        subst
            (λ x. Memᴰ x (
              map (leased worker (add_duration now lease) (candidate_ids postgres limit now rows))
                rows))
            (leased_inside worker (add_duration now lease) (candidate_ids postgres limit now rows) r
              inside)
            (Memᴰ.map
              (leased worker (add_duration now lease) (candidate_ids postgres limit now rows))
              there),
      )
