-- ===== src/Messaging/OutboxWorker/Tracked.antt =====
-- What holds of the rows, the events in hand and the queue of
-- internal/infrastructure/messaging/outbox_worker.go, across the parts of a step.
use jungle_gaming_backend_te.Prelude.{
  String, ◌≡◌, sym, ◌∙◌, ap, subst, false, List, ◌∷◌, ◌++◌, map, inl, inr, arith,
}
use mathlib.Core.List.{Memᴰ}
use mathlib.Core.List.Memᴰ
use jungle_gaming_backend_te.Prelude.Ordered.{
  Mem-map, Mem-replaced, Mem-between, keep_if, keep_if-Mem,
}
use jungle_gaming_backend_te.Domain.Time.{Time}
use jungle_gaming_backend_te.Application.Events.{OutboxEvent}
use jungle_gaming_backend_te.Store.Tables.{OutboxRow}
use jungle_gaming_backend_te.Store.Outbox.{outbox_row, outbox_taken}
use jungle_gaming_backend_te.Store.Outbox.Leases.{is_null, leased, contains, claimed_event}
use jungle_gaming_backend_te.Messaging.OutboxWorker.{
  Stage, accepted, Flight, Message, message_of, message_of_row, World, in_hand,
}
use jungle_gaming_backend_te.Store.Outbox.Candidates.{outbox_taken-Mem}
use jungle_gaming_backend_te.Messaging.OutboxWorker.Rows.{
  IsUpdate, leased-IsUpdate, leased-unpublished,
}

-- An event in hand is one of the table, and the queue has the message of one that was accepted.
pub record IsTracked (rows : List OutboxRow) (sent : List Message) (f : Flight) : Type 0 where
  pub row : OutboxRow
  pub there : Memᴰ row rows
  pub message : message_of_row row ≡ message_of f
  pub arrived : f.stage ≡ accepted → Memᴰ (message_of f) sent

pub record IsHonest (w : World) : Type 0 where
  -- one row for each event
  pub single : (r s : OutboxRow) → Memᴰ r w.rows → Memᴰ s w.rows → r.event_id ≡ s.event_id → r ≡ s
  -- the queue has the message of a row that is published
  pub sent_before :
      (r : OutboxRow)
      → Memᴰ r w.rows
      → is_null r.published_at ≡ false
      → Memᴰ (message_of_row r) w.sent
  pub tracked : (f : Flight) → Memᴰ f w.flights → IsTracked w.rows w.sent f

pub id_of : {a b : Message} → a ≡ b → a.0 ≡ b.0
id_of e = ap (λ x. x.0) e

-- A change of every row keeps one row for each event, and what is known of the events in hand.
module _ (g : OutboxRow → OutboxRow) (update : IsUpdate g) (w : World) (honest : IsHonest w) where
  pub updated_single :
      (r s : OutboxRow)
      → Memᴰ r (map g w.rows)
      → Memᴰ s (map g w.rows)
      → r.event_id ≡ s.event_id
      → r ≡ s
  updated_single r s m n same =
      let (r₀, there, is_r) = Mem-map g r w.rows m in
      let (s₀, there', is_s) = Mem-map g s w.rows n in
      is_r
      ∙ (ap g (
            honest.single r₀ s₀ there there' (
              sym (id_of (update.message r₀))
              ∙ (sym (ap (λ (x : OutboxRow). x.event_id) is_r)
                  ∙ (same
                      ∙ (ap (λ (x : OutboxRow). x.event_id) is_s ∙ id_of (update.message s₀))))))
          ∙ sym is_s)

  pub updated-IsTracked :
      (sent : List Message) (f : Flight) → IsTracked w.rows sent f → IsTracked (map g w.rows) sent f
  updated-IsTracked sent f t = record {
    row = g t.row;
    there = Memᴰ.map g t.there;
    message = update.message t.row ∙ t.message;
    arrived = t.arrived;
  }

-- A new row beside the others.
module _ (e : OutboxEvent) (w : World) (free : outbox_taken e.event_id w.rows ≡ false)
    (honest : IsHonest w) where
  added_single :
      (r s : OutboxRow)
      → Memᴰ r (outbox_row e ∷ w.rows)
      → Memᴰ s (outbox_row e ∷ w.rows)
      → r.event_id ≡ s.event_id
      → r ≡ s
  unfolding outbox_row
  added_single r s (Memᴰ.head p) (Memᴰ.head q) same = p ∙ sym q
  added_single r s (Memᴰ.head p) (Memᴰ.tail n) same = absurd (
      outbox_taken-Mem e.event_id w.rows s free n (sym same ∙ ap (λ (x : OutboxRow). x.event_id) p))
  added_single r s (Memᴰ.tail m) (Memᴰ.head q) same =
      absurd
        (outbox_taken-Mem e.event_id w.rows r free m (same ∙ ap (λ (x : OutboxRow). x.event_id) q))
  added_single r s (Memᴰ.tail m) (Memᴰ.tail n) same = honest.single r s m n same

  added_sent :
      (r : OutboxRow)
      → Memᴰ r (outbox_row e ∷ w.rows)
      → is_null r.published_at ≡ false
      → Memᴰ (message_of_row r) w.sent
  unfolding outbox_row
  added_sent r (Memᴰ.head p) done = ground (arith, p, done)
  added_sent r (Memᴰ.tail m) done = honest.sent_before r m done

  pub records-IsHonest : IsHonest (record w { rows = outbox_row e ∷ w.rows })
  records-IsHonest = record {
    single = added_single;
    sent_before = added_sent;
    tracked = λ f m.
        let t = honest.tracked f m in
        record { row = t.row; there = Memᴰ.tail t.there; message = t.message; arrived = t.arrived };
  }

-- An event that is put where another stage of it was.
module _ (w : World) (before after : List Flight) (f : Flight) (s : Stage)
    (is_flights : w.flights ≡ before ++ f ∷ after) (honest : IsHonest w) (sent : List Message)
    (more : (m : Message) → Memᴰ m w.sent → Memᴰ m sent)
    (arrives : s ≡ accepted → Memᴰ (message_of f) sent) where
  abbrev moved : Flight
  moved = record f { stage = s }

  moved-IsTracked : (x : Flight) → Memᴰ x (before ++ moved ∷ after) → IsTracked w.rows sent x
  moved-IsTracked x m = elim (Mem-replaced x moved f before after m) [
    | inl e ↦
        let t = honest.tracked f (subst (Memᴰ f) (sym is_flights) (Mem-between f before after)) in
        subst (IsTracked w.rows sent) (sym e)
          (record { row = t.row; there = t.there; message = t.message; arrived = arrives })
    | inr n ↦
        let t = honest.tracked x (subst (Memᴰ x) (sym is_flights) n) in
        record {
          row = t.row;
          there = t.there;
          message = t.message;
          arrived = λ h. more (message_of x) (t.arrived h);
        }
  ]

  pub moved-IsHonest : IsHonest (record w { flights = before ++ moved ∷ after; sent = sent })
  moved-IsHonest = record {
    single = honest.single;
    sent_before = λ r m done. more (message_of_row r) (honest.sent_before r m done);
    tracked = moved-IsTracked;
  }

module _ (worker : String) (until : Time) (ids : List String) (w : World)
    (honest : IsHonest w) where
  pub leased_sent :
      (r : OutboxRow)
      → Memᴰ r (map (leased worker until ids) w.rows)
      → is_null r.published_at ≡ false
      → Memᴰ (message_of_row r) w.sent
  leased_sent r m done =
      let (r₀, there, is_r) = Mem-map (leased worker until ids) r w.rows m in
      rw (ap message_of_row is_r ∙ (leased-IsUpdate worker until ids).message r₀) (
        honest.sent_before r₀ there (
          subst (λ x. is_null x ≡ false)
            (ap (λ (x : OutboxRow). x.published_at) is_r ∙ leased-unpublished worker until ids r₀)
            done))

  pub claimed-IsTracked :
      (f : Flight)
      → Memᴰ f (
          map (in_hand worker) (map claimed_event (keep_if (λ r. contains r.event_id ids) w.rows))
          ++ w.flights)
      → IsTracked (map (leased worker until ids) w.rows) w.sent f
  unfolding claimed_event
  claimed-IsTracked f m =
      elim (Memᴰ.append_cases
        (map (in_hand worker) (map claimed_event (keep_if (λ r. contains r.event_id ids) w.rows)))
        m) [
          | inl here ↦
              let (e, claimed, is_f) = Mem-map (in_hand worker) f _ here in
              let (r, kept, is_e) = Mem-map claimed_event e _ claimed in
              let (there, _) = keep_if-Mem (λ x. contains x.event_id ids) r w.rows kept in
              rw (is_f, is_e)
                (record {
                  row = leased worker until ids r;
                  there = Memᴰ.map (leased worker until ids) there;
                  message = (leased-IsUpdate worker until ids).message r;
                  arrived = λ h. cc;
                })
          | inr old ↦
              updated-IsTracked (leased worker until ids) (leased-IsUpdate worker until ids) w
                honest w.sent f (honest.tracked f old)
        ]
