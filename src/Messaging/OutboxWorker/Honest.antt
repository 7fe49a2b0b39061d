-- ===== src/Messaging/OutboxWorker/Honest.antt =====
-- The workers of internal/infrastructure/messaging/outbox_worker.go mark as published what the queue
-- accepted.
use jungle_gaming_backend_te.Prelude.{
  ℕ, String, ◌≡◌, ◌≢◌, refl, sym, ◌∙◌, ap, subst, true, false, List, [], ◌∷◌, ◌++◌, map, inl, inr,
}
use mathlib.Core.List.{Memᴰ}
use jungle_gaming_backend_te.Prelude.Ordered.{Mem-map, Mem-between, Mem-removed}
use jungle_gaming_backend_te.Domain.Time.{Time, Duration, add_duration}
use jungle_gaming_backend_te.Store.Tables.{Postgres, OutboxRow}
use jungle_gaming_backend_te.Store.Outbox.Leases.{is_null, leased, claim_outbox, candidates}
use jungle_gaming_backend_te.Messaging.OutboxWorker.{
  to_publish, accepted, refused, Flight, message_of, message_of_row, World, in_hand, after_publish,
  Step, records, claims, sends, misses, answers, stops, Run, begin, next,
}
use jungle_gaming_backend_te.Messaging.OutboxWorker.Rows.{
  leased-IsUpdate, answered, after_publish-map, answered-IsUpdate, answered-published,
}
use jungle_gaming_backend_te.Messaging.OutboxWorker.Tracked.{
  IsHonest, id_of, updated_single, updated-IsTracked, records-IsHonest, moved-IsHonest, leased_sent,
  claimed-IsTracked,
}

-- Before the first event.
abbrev pub no_world : World
no_world = record { rows = []; flights = []; sent = [] }

pub no_world-IsHonest : IsHonest no_world
no_world-IsHonest = record {
  single = λ r s m n same. elim m [ ];
  sent_before = λ r m done. elim m [ ];
  tracked = λ f m. elim m [ ];
}

module _ (postgres : Postgres) where
  claims-IsHonest :
      (w : World) (worker : String) (limit : ℕ) (lease : Duration) (now : Time)
      → IsHonest w
      → IsHonest (record w {
        rows = (claim_outbox postgres worker limit lease now w.rows).1;
        flights =
            map (in_hand worker) (claim_outbox postgres worker limit lease now w.rows).0
            ++ w.flights;
      })
  unfolding claim_outbox
  claims-IsHonest w worker limit lease now honest =
      let ids = map (λ r. r.event_id) (candidates postgres limit now w.rows) in
      let g = leased worker (add_duration now lease) ids in
      let update = leased-IsUpdate worker (add_duration now lease) ids in
      record {
        single = updated_single g update w honest;
        sent_before = leased_sent worker (add_duration now lease) ids w honest;
        tracked = λ f m. claimed-IsTracked worker (add_duration now lease) ids w honest f m;
      }

module _ (postgres : Postgres) where
  answered_sent :
      (w : World) (before after : List Flight) (f : Flight) (now : Time) (reason : String)
      → w.flights ≡ before ++ f ∷ after
      → IsHonest w
      → (r : OutboxRow) → Memᴰ r (map (answered postgres f now reason) w.rows)
      → is_null r.published_at ≡ false
      → Memᴰ (message_of_row r) w.sent
  answered_sent w before after f now reason is_flights honest r m done =
      let g = answered postgres f now reason in
      let update = answered-IsUpdate postgres f now reason in
      let (r₀, there, is_r) = Mem-map g r w.rows m in
      let same_message = ap message_of_row is_r ∙ update.message r₀ in
      elim (answered-published postgres f now reason r₀
        (subst (λ (x : OutboxRow). is_null x.published_at ≡ false) is_r done)) [
          | inl before_done ↦ rw same_message (honest.sent_before r₀ there before_done)
          | inr (is_accepted, is_id) ↦
              let t =
                honest.tracked f (subst (Memᴰ f) (sym is_flights) (Mem-between f before after)) in
              let same_row = honest.single r₀ t.row there t.there (is_id ∙ sym (id_of t.message)) in
              rw (same_message, ap message_of_row same_row, t.message) (t.arrived is_accepted)
        ]

  answers-IsHonest :
      (w : World) (before after : List Flight) (f : Flight) (now : Time) (reason : String)
      → w.flights ≡ before ++ f ∷ after
      → f.stage ≢ to_publish
      → IsHonest w
      → IsHonest (record w {
        rows = after_publish postgres f now reason w.rows;
        flights = before ++ after;
      })
  answers-IsHonest w before after f now reason is_flights busy honest =
      let g = answered postgres f now reason in
      let update = answered-IsUpdate postgres f now reason in
      rw (after_publish-map postgres f now reason w.rows busy) (record {
        single = updated_single g update w honest;
        sent_before = answered_sent w before after f now reason is_flights honest;
        tracked = λ x m.
            updated-IsTracked g update w honest w.sent x
              (honest.tracked x (subst (Memᴰ x) (sym is_flights) (Mem-removed x f before after m)));
      })

  -- A step of the workers, or of a use case that inserts an event, keeps one row for each event, rows
  -- that are published only with their message in the queue, and events in hand that are rows.
  pub Step-IsHonest : (w v : World) → Step postgres w v → IsHonest w → IsHonest v
  Step-IsHonest w v (records e free) honest = records-IsHonest e w free honest
  Step-IsHonest w v (claims held worker limit lease now) honest =
      claims-IsHonest (record postgres { held = held }) w worker limit lease now honest
  Step-IsHonest w v (sends before after f is_flights _) honest =
      moved-IsHonest w before after f accepted is_flights honest (message_of f ∷ w.sent)
        (λ m there. Memᴰ.tail there) (λ _. Memᴰ.head refl)
  Step-IsHonest w v (misses before after f true is_flights _) honest =
      moved-IsHonest w before after f refused is_flights honest (message_of f ∷ w.sent)
        (λ m there. Memᴰ.tail there) (λ h. cc)
  Step-IsHonest w v (misses before after f false is_flights _) honest =
      moved-IsHonest w before after f refused is_flights honest w.sent (λ m there. there) (λ h. cc)
  Step-IsHonest w v (answers before after f now reason is_flights busy) honest =
      answers-IsHonest w before after f now reason is_flights busy honest
  Step-IsHonest w v (stops before after f is_flights) honest = record {
    single = honest.single;
    sent_before = honest.sent_before;
    tracked =
        λ x m. honest.tracked x (subst (Memᴰ x) (sym is_flights) (Mem-removed x f before after m));
  }

  pub Run-IsHonest : (w v : World) → Run postgres w v → IsHonest w → IsHonest v
  Run-IsHonest w v begin honest = honest
  Run-IsHonest w v (next {u = u} run step) honest =
      Step-IsHonest u v step (Run-IsHonest w u run honest)

  -- However the steps of the workers and the insertions interleave from the empty table on, with
  -- failures of the queue, workers that stop and leases that run out: when a row says that its event is
  -- published, the queue has accepted the message of that event, with the payload of the row.
  pub published-IsSent :
      (w : World) (r : OutboxRow)
      → Run postgres no_world w
      → Memᴰ r w.rows
      → is_null r.published_at ≡ false
      → Memᴰ (message_of_row r) w.sent
  published-IsSent w r run = (Run-IsHonest no_world w run no_world-IsHonest).sent_before r
