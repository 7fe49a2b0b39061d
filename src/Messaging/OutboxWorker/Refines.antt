-- ===== src/Messaging/OutboxWorker/Refines.antt =====
-- The outbox of internal/infrastructure/messaging/outbox_worker.go as delivery at least once: an abstract
-- machine of recorded and delivered messages, without rows, leases and workers.
use jungle_gaming_backend_te.Prelude.{
  ℕ, String, ◌≡◌, refl, sym, ◌∙◌, ap, ap₂, subst, true, false, List, [], ◌∷◌, ◌++◌, map, ◌⊎◌, inl,
  inr, Bool-cases,
}
use mathlib.Core.List.{Memᴰ}
use mathlib.Core.List.Memᴰ
use jungle_gaming_backend_te.Prelude.Ordered.{Mem-between}
use jungle_gaming_backend_te.Domain.Time.{add_duration}
use jungle_gaming_backend_te.Store.Tables.{Postgres, OutboxRow}
use jungle_gaming_backend_te.Store.Outbox.{outbox_row}
use jungle_gaming_backend_te.Store.Outbox.Leases.{is_null, claim_outbox}
use jungle_gaming_backend_te.Messaging.OutboxWorker.{
  Flight, Message, message_of, message_of_row, World, Step, records, claims, sends, misses, answers,
  stops, Run, begin, next,
}
use jungle_gaming_backend_te.Messaging.OutboxWorker.Rows.{
  IsUpdate, leased-IsUpdate, answered, after_publish-map, answered-IsUpdate,
}
use jungle_gaming_backend_te.Messaging.OutboxWorker.Tracked.{IsHonest}

-- The messages that were recorded, and those that were delivered, the last one first.
pub record Mailbox : Type 0 where
  pub recorded : List Message
  pub delivered : List Message

abbrev pub mailbox : World → Mailbox
mailbox w = record { recorded = map message_of_row w.rows; delivered = w.sent }

pub data Move (a b : Mailbox) : Type 0 where
  rest : b ≡ a → Move a b
  post : (m : Message) → b ≡ record a { recorded = m ∷ a.recorded } → Move a b
  -- only what was recorded is delivered, but maybe more than once
  deliver :
      (m : Message) → Memᴰ m a.recorded → b ≡ record a { delivered = m ∷ a.delivered } → Move a b

updated_messages :
    (g : OutboxRow → OutboxRow) (rows : List OutboxRow)
    → IsUpdate g
    → map message_of_row (map g rows) ≡ map message_of_row rows
updated_messages g [] update = refl
updated_messages g (r ∷ rows) update = ap₂ ◌∷◌ (update.message r) (updated_messages g rows update)

-- An event in hand was recorded.
tracked_recorded :
    (w : World) (f : Flight)
    → IsHonest w
    → Memᴰ f w.flights
    → Memᴰ (message_of f) (map message_of_row w.rows)
tracked_recorded w f honest m =
    let t = honest.tracked f m in
    subst (λ x. Memᴰ x (map message_of_row w.rows)) t.message (Memᴰ.map message_of_row t.there)

module _ (postgres : Postgres) where
  claimed_rows :
      (worker : String) (limit lease now : ℕ) (rows : List OutboxRow)
      → map message_of_row (claim_outbox postgres worker limit lease now rows).1
        ≡ map message_of_row rows
  unfolding claim_outbox
  claimed_rows worker limit lease now rows =
      updated_messages _ rows (leased-IsUpdate worker (add_duration now lease) _)

module _ (postgres : Postgres) where
  answered_rows :
      (f : Flight) (now : ℕ) (reason : String) (rows : List OutboxRow)
      → map message_of_row (map (answered postgres f now reason) rows) ≡ map message_of_row rows
  answered_rows f now reason rows =
      updated_messages _ rows (answered-IsUpdate postgres f now reason)

  flying :
      (w : World) (before after : List Flight) (f : Flight)
      → w.flights ≡ before ++ f ∷ after
      → Memᴰ f w.flights
  flying w before after f e = subst (Memᴰ f) (sym e) (Mem-between f before after)

  -- Each step of the workers is a move of the mailbox, where the rows and the events in hand are as
  -- the steps leave them: it records one message, delivers one that is recorded, or does neither.
  pub Step-Move : (w v : World) → Step postgres w v → IsHonest w → Move (mailbox w) (mailbox v)
  Step-Move w v (records e free) honest = post (message_of_row (outbox_row e)) refl
  Step-Move w v (claims held worker limit lease now) honest = rest (
      ap (λ x. record (mailbox w) { recorded = x })
        (claimed_rows (record postgres { held = held }) worker limit lease now w.rows))
  Step-Move w v (sends before after f is_flights _) honest =
      deliver (message_of f) (tracked_recorded w f honest (flying w before after f is_flights)) refl
  Step-Move w v (misses before after f true is_flights _) honest =
      deliver (message_of f) (tracked_recorded w f honest (flying w before after f is_flights)) refl
  Step-Move w v (misses before after f false is_flights _) honest = rest refl
  Step-Move w v (answers before after f now reason is_flights busy) honest = rest (
      ap (λ x. record (mailbox w) { recorded = x })
        (ap (map message_of_row) (after_publish-map postgres f now reason w.rows busy)
          ∙ answered_rows f now reason w.rows))
  Step-Move w v (stops before after f is_flights) honest = rest refl

-- What becomes of a row: the same message, and a publication is not taken back.
pub record IsKept (r : OutboxRow) (rows : List OutboxRow) : Type 0 where
  pub row : OutboxRow
  pub there : Memᴰ row rows
  pub message : message_of_row row ≡ message_of_row r
  pub stays : (is_null r.published_at ≡ true) ⊎ (row.published_at ≡ r.published_at)

update_stays :
    (g : OutboxRow → OutboxRow) (r : OutboxRow)
    → IsUpdate g
    → (is_null r.published_at ≡ true) ⊎ ((g r).published_at ≡ r.published_at)
update_stays g r update = elim (Bool-cases (is_null r.published_at)) [
  | inl waiting ↦ inl waiting
  | inr done ↦ inr (update.stays r done)
]

updated-IsKept :
    (g : OutboxRow → OutboxRow) (r : OutboxRow) (rows : List OutboxRow)
    → IsUpdate g
    → Memᴰ r rows
    → IsKept r (map g rows)
updated-IsKept g r rows update m = record {
  row = g r;
  there = Memᴰ.map g m;
  message = update.message r;
  stays = update_stays g r update;
}

module _ (postgres : Postgres) where
  same-IsKept : (r : OutboxRow) (rows : List OutboxRow) → Memᴰ r rows → IsKept r rows
  same-IsKept r rows m = record { row = r; there = m; message = refl; stays = inr refl }

  Step-IsKept : (w v : World) (r : OutboxRow) → Step postgres w v → Memᴰ r w.rows → IsKept r v.rows
  Step-IsKept w v r (records e free) m = same-IsKept r v.rows (Memᴰ.tail m)
  Step-IsKept w v r (claims held worker limit lease now) m =
      unfold claim_outbox in
      updated-IsKept _ r w.rows (leased-IsUpdate worker (add_duration now lease) _) m
  Step-IsKept w v r (sends before after f _ _) m = same-IsKept r w.rows m
  Step-IsKept w v r (misses before after f reached _ _) m = same-IsKept r w.rows m
  Step-IsKept w v r (answers before after f now reason _ busy) m =
      rw (after_publish-map postgres f now reason w.rows busy)
        (updated-IsKept _ r w.rows (answered-IsUpdate postgres f now reason) m)
  Step-IsKept w v r (stops before after f _) m = same-IsKept r w.rows m

  -- No steps of the workers lose an event or change its message: every row is still there, with the
  -- same identifier and payload, and a row that was published is so from the same time.
  pub Run-IsKept :
      (w v : World) (r : OutboxRow) → Run postgres w v → Memᴰ r w.rows → IsKept r v.rows
  Run-IsKept w v r begin m = same-IsKept r w.rows m
  Run-IsKept w v r (next {u = u} run step) m =
      let first = Run-IsKept w u r run m in
      let second = Step-IsKept u v first.row step first.there in
      record {
        row = second.row;
        there = second.there;
        message = second.message ∙ first.message;
        stays = elim first.stays [
          | inl waiting ↦ inl waiting
          | inr same ↦ elim second.stays [
            | inl waiting ↦ inl (rw (← same) waiting)
            | inr kept ↦ inr (kept ∙ same)
          ]
        ];
      }
