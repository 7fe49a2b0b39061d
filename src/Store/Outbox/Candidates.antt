-- ===== src/Store/Outbox/Candidates.antt =====
-- What `ClaimOutbox` (internal/infrastructure/postgres/store.go) hands out: candidates.
use jungle_gaming_backend_te.Prelude.{
  ℕ, ◌≢◌, String, ◌≡◌, sym, inl, inr, true, false, not, ◌&&◌, List, [], ◌∷◌, map, str_eq, eq_refl,
  eq_iff, arith, Bool-cases,
}
use mathlib.Core.List.{Memᴰ}
use jungle_gaming_backend_te.Prelude.Ordered.{Mem-map, keep_if-Mem, limit_to-Mem, order_by-Mem}
use jungle_gaming_backend_te.Domain.Time.{Time, Duration}
use jungle_gaming_backend_te.Store.Tables.{Postgres, OutboxRow}
use jungle_gaming_backend_te.Store.Outbox.{outbox_taken}
use jungle_gaming_backend_te.Store.Outbox.Leases.{
  ClaimedOutboxEvent, is_candidate, contains, claimed_event, candidates, claim_outbox,
}

abbrev pub ids_of : List ClaimedOutboxEvent → List String
ids_of = map λ e. (e.event).event_id

pub contains-Mem : (id : String) (ids : List String) → contains id ids ≡ true → Memᴰ id ids
unfolding contains
contains-Mem id [] h = cc
contains-Mem id (x ∷ xs) h = elim (Bool-cases (str_eq x id)) [
  | inl same ↦ Memᴰ.head (sym ((eq_iff x id).0 same))
  | inr other ↦ Memᴰ.tail (contains-Mem id xs (ground (arith, other)))
]

pub Mem-contains : (id : String) (ids : List String) → Memᴰ id ids → contains id ids ≡ true
unfolding contains
Mem-contains id (x ∷ xs) (Memᴰ.head e) = rw (← e, eq_refl id)
Mem-contains id (x ∷ xs) (Memᴰ.tail m) = rw (Mem-contains id xs m) (ground arith)
Mem-contains id [] m = elim m [ ]

-- An identifier that is not taken is that of no row.
pub outbox_taken-Mem :
    (id : String) (rows : List OutboxRow) (r : OutboxRow)
    → outbox_taken id rows ≡ false
    → Memᴰ r rows
    → r.event_id ≢ id
unfolding outbox_taken
outbox_taken-Mem id [] r free m same = elim m [ ]
outbox_taken-Mem id (x ∷ xs) r free (Memᴰ.head e) same =
    ground (arith, (eq_iff x.event_id id).1 (rw (← e) same))
outbox_taken-Mem id (x ∷ xs) r free (Memᴰ.tail m) same =
    outbox_taken-Mem id xs r (ground arith) m same

module _ (postgres : Postgres) where
  abbrev pub candidate_ids : ℕ → Time → List OutboxRow → List String
  candidate_ids limit now rows = map (λ r. r.event_id) (candidates postgres limit now rows)

  -- The identifiers that are returned are those of candidates.
  pub claimed-Mem :
      (worker : String) (limit : ℕ) (lease : Duration) (now : Time) (rows : List OutboxRow)
      (id : String)
      → Memᴰ id (ids_of (claim_outbox postgres worker limit lease now rows).0)
      → Memᴰ id (candidate_ids limit now rows)
  unfolding claim_outbox claimed_event
  claimed-Mem worker limit lease now rows id m =
      let (e, claimed, is_id) = Mem-map (λ e. (e.event).event_id) id _ m in
      let (r, kept, is_e) = Mem-map claimed_event e _ claimed in
      let (_, inside) = keep_if-Mem _ r rows kept in contains-Mem id _ (rw (is_id, is_e) inside)

  pub candidates-Mem :
      (limit : ℕ) (now : Time) (rows : List OutboxRow) (r : OutboxRow)
      → Memᴰ r (candidates postgres limit now rows)
      → Memᴰ r rows × ((is_candidate now r && not (postgres.held r.event_id)) ≡ true)
  unfolding candidates
  candidates-Mem limit now rows r m =
      keep_if-Mem _ r rows (order_by-Mem _ r _ (limit_to-Mem limit r _ m))
