-- ===== src/Store/Outbox/Reserved.antt =====
-- The rows of an event that a worker has, across the statements on `outbox_events` of
-- internal/infrastructure/postgres/store.go.
use jungle_gaming_backend_te.Prelude.{
  ℕ, ◌⊎◌, ◌≢◌, ◌∙◌, ap, ◌≤◌, String, ◌≡◌, refl, sym, subst, inl, inr, true, false, some, List, ◌∷◌,
  map, eq_iff, arith, Bool-cases,
}
use mathlib.Core.List.{Memᴰ}
use mathlib.Core.List.Memᴰ
use jungle_gaming_backend_te.Prelude.Ordered.{Mem-map}
use jungle_gaming_backend_te.Domain.Time.{Time, Duration, add_duration}
use jungle_gaming_backend_te.Store.Tables.{Postgres, OutboxRow}
use jungle_gaming_backend_te.Store.Outbox.Leases.{
  is_candidate, contains, leased, claim_outbox, is_null, owns, published, released,
}
use jungle_gaming_backend_te.Application.Events.{OutboxEvent}
use jungle_gaming_backend_te.Store.Outbox.{outbox_row, outbox_taken}
use jungle_gaming_backend_te.Store.Outbox.Candidates.{
  ids_of, candidate_ids, claimed-Mem, candidates-Mem, Mem-contains, contains-Mem, outbox_taken-Mem,
}

module _ (id worker : String) (until : Time) where
  -- Published, or leased by the worker.
  abbrev pub IsTaken : OutboxRow → Type 0
  IsTaken r =
      (is_null r.published_at ≡ false)
      ⊎ ((r.locked_by ≡ some worker) × (r.locked_until ≡ some until))

  -- Some row is that of the event, and each such row is taken.
  pub record IsReserved (rows : List OutboxRow) : Type 0 where
    row : OutboxRow
    there : Memᴰ row rows
    named : row.event_id ≡ id
    taken : (r : OutboxRow) → Memᴰ r rows → r.event_id ≡ id → IsTaken r

  taken-candidate :
      (now : Time) (r : OutboxRow) → now ≤ until → IsTaken r → is_candidate now r ≡ false
  unfolding is_candidate
  taken-candidate now r early (inl done) = rw done refl
  taken-candidate now r early (inr (by, locked)) = rw locked (ground arith)

  -- The event is no candidate.
  pub left_out :
      (postgres : Postgres) (limit : ℕ) (now : Time) (rows : List OutboxRow)
      → now ≤ until
      → IsReserved rows
      → ¬ Memᴰ id (candidate_ids postgres limit now rows)
  left_out postgres limit now rows early reserved m =
      let (r, candidate, is_id) = Mem-map _ id _ m in
      let (there, free) = candidates-Mem postgres limit now rows r candidate in
      ground (arith, free, taken-candidate now r early (reserved.taken r there (sym is_id)))

  -- A change of every row that keeps the identifiers, and the rows of the event taken.
  pub changed-IsReserved :
      (g : OutboxRow → OutboxRow) (rows : List OutboxRow)
      → ((r : OutboxRow) → (g r).event_id ≡ r.event_id)
      → ((r : OutboxRow) → r.event_id ≡ id → IsTaken r → IsTaken (g r))
      → IsReserved rows
      → IsReserved (map g rows)
  changed-IsReserved g rows same keeps reserved = record {
    row = g reserved.row;
    there = Memᴰ.map g reserved.there;
    named = same reserved.row ∙ reserved.named;
    taken = λ r m named.
        let (r₀, there, is_r) = Mem-map g r rows m in
        let named₀ = sym (same r₀) ∙ (sym (ap (λ (x : OutboxRow). x.event_id) is_r) ∙ named) in
        subst IsTaken (sym is_r) (keeps r₀ named₀ (reserved.taken r₀ there named₀));
  }

  leased-event_id :
      (other : String) (end : Time) (ids : List String) (r : OutboxRow)
      → (leased other end ids r).event_id ≡ r.event_id
  unfolding leased
  leased-event_id other end ids r = ground arith

  outside :
      (other : String) (end : Time) (ids : List String) (r : OutboxRow)
      → contains r.event_id ids ≡ false
      → leased other end ids r ≡ r
  unfolding leased
  outside other end ids r out = rw out refl

  not_contained : (ids : List String) → ¬ Memᴰ id ids → contains id ids ≡ false
  not_contained ids out = elim (Bool-cases (contains id ids)) [
    | inl inside ↦ absurd (out (contains-Mem id ids inside))
    | inr outside ↦ outside
  ]

  pub published-event_id :
      (event_id other : String) (now : Time) (r : OutboxRow)
      → (published event_id other now r).event_id ≡ r.event_id
  unfolding published
  published-event_id event_id other now r = ground arith

  pub published-IsTaken :
      (event_id other : String) (now : Time) (r : OutboxRow)
      → IsTaken r
      → IsTaken (published event_id other now r)
  unfolding published
  published-IsTaken event_id other now r taken = elim (Bool-cases (owns event_id other r)) [
    | inl own ↦ rw own (inl refl)
    | inr foreign ↦ rw foreign taken
  ]

  module _ (postgres : Postgres) (event_id other : String) (next : Time) (reason : String) where
    pub released-event_id :
        (r : OutboxRow) → (released postgres event_id other next reason r).event_id ≡ r.event_id
    unfolding released
    released-event_id r = ground arith

    taken-owns :
        (r : OutboxRow)
        → (event_id ≢ id) ⊎ (other ≢ worker)
        → r.event_id ≡ id
        → IsTaken r
        → owns event_id other r ≡ false
    unfolding owns
    taken-owns r foreign named (inl done) = ground (arith, done)
    taken-owns r (inl another) named (inr (by, locked)) =
        ground (arith, eq_iff r.event_id event_id, another, named)
    taken-owns r (inr another) named (inr (by, locked)) =
        rw by (ground (arith, eq_iff worker other, another))

    pub released-IsTaken :
        (r : OutboxRow)
        → (event_id ≢ id) ⊎ (other ≢ worker)
        → r.event_id ≡ id
        → IsTaken r
        → IsTaken (released postgres event_id other next reason r)
    unfolding released
    released-IsTaken r foreign named taken = rw (taken-owns r foreign named taken) taken

  outbox_row-event_id : (e : OutboxEvent) → (outbox_row e).event_id ≡ e.event_id
  unfolding outbox_row
  outbox_row-event_id e = refl

  pub claimed-IsReserved :
      (postgres : Postgres) (other : String) (limit : ℕ) (lease : Duration) (now : Time)
      (rows : List OutboxRow)
      → now ≤ until
      → IsReserved rows
      → IsReserved (claim_outbox postgres other limit lease now rows).1
  unfolding claim_outbox
  claimed-IsReserved postgres other limit lease now rows early reserved =
      let ids = candidate_ids postgres limit now rows in
      let end = add_duration now lease in
      let out = not_contained ids (left_out postgres limit now rows early reserved) in
      changed-IsReserved (leased other end ids) rows (leased-event_id other end ids)
        (λ r named taken. rw (outside other end ids r (rw named out)) taken) reserved

  pub inserted-IsReserved :
      (e : OutboxEvent) (rows : List OutboxRow)
      → outbox_taken e.event_id rows ≡ false
      → IsReserved rows
      → IsReserved (outbox_row e ∷ rows)
  inserted-IsReserved e rows free reserved = record {
    row = reserved.row;
    there = Memᴰ.tail reserved.there;
    named = reserved.named;
    taken = λ r m named. elim m [
      | Memᴰ.head is_r ↦ absurd (
          outbox_taken-Mem e.event_id rows reserved.row free reserved.there (
            reserved.named
            ∙ (sym named ∙ (ap (λ (x : OutboxRow). x.event_id) is_r ∙ outbox_row-event_id e))))
      | Memᴰ.tail there ↦ reserved.taken r there named
    ];
  }

inside-IsTaken :
    (id worker : String) (until : Time) (ids : List String) (r : OutboxRow)
    → contains r.event_id ids ≡ true
    → IsTaken id worker until (leased worker until ids r)
unfolding leased
inside-IsTaken id worker until ids r inside = rw inside (inr (refl, refl))

-- What a claim hands out is reserved for its worker.
pub first-IsReserved :
    (postgres : Postgres) (worker : String) (limit : ℕ) (lease : Duration) (now : Time)
    (rows : List OutboxRow) (id : String)
    → Memᴰ id (ids_of (claim_outbox postgres worker limit lease now rows).0)
    → IsReserved id worker
        (add_duration now lease)
        (claim_outbox postgres worker limit lease now rows).1
unfolding claim_outbox
first-IsReserved postgres worker limit lease now rows id first =
    let ids = candidate_ids postgres limit now rows in
    let until = add_duration now lease in
    let inside =
      claimed-Mem postgres worker limit lease now rows id (unfold claim_outbox in first) in
    let (r, candidate, is_id) = Mem-map _ id _ inside in
    let (there, _) = candidates-Mem postgres limit now rows r candidate in
    record {
      row = leased worker until ids r;
      there = Memᴰ.map (leased worker until ids) there;
      named = leased-event_id id worker until worker until ids r ∙ sym is_id;
      taken = λ x m named.
          let (x₀, _, is_x) = Mem-map (leased worker until ids) x rows m in
          let named₀ =
            sym (leased-event_id id worker until worker until ids x₀)
            ∙ (sym (ap (λ (y : OutboxRow). y.event_id) is_x) ∙ named) in
          subst (IsTaken id worker until) (sym is_x)
            (inside-IsTaken id worker until ids x₀ (rw named₀ (Mem-contains id ids inside)));
    }
