-- ===== src/Messaging/OutboxWorker/Delays.antt =====
-- The delays of internal/infrastructure/messaging/outbox_worker.go.
use jungle_gaming_backend_te.Prelude.{ℕ, zero, suc, ◌-◌, ◌*◌, ◌^◌, ◌≡◌, arith, ltb, if◌then◌else◌}
use jungle_gaming_backend_te.Prelude.Int.{ℤ, pos_part}
use jungle_gaming_backend_te.Domain.Time.{Duration}
use jungle_gaming_backend_te.Application.WagerService.Backoff.{
  one_at_least, times_at_least, doubled_first,
}
use jungle_gaming_backend_te.Messaging.OutboxWorker.{
  outbox_rounds, outbox_backoff, second, longest_delay,
}

capped : Duration → Duration
capped delay = if ltb longest_delay delay then longest_delay else delay

rounds_capped : (n : ℕ) (delay : Duration) → capped (outbox_rounds n delay) ≡ capped (delay * 2 ^ n)
unfolding outbox_rounds capped
rounds_capped zero delay = ground arith
rounds_capped (suc n) delay = rw (doubled_first delay n) (
    ground
      (arith, rounds_capped n (delay * 2), times_at_least (delay * 2) (2 ^ n) (one_at_least n)))

-- `outboxBackoff` is one second, doubled once for each attempt after the first, and at most five minutes.
pub outbox_backoff_lem :
    (attempt : ℤ)
    → outbox_backoff attempt ≡ (
        let grown = second * 2 ^ (pos_part attempt - 1) in
        if ltb longest_delay grown then longest_delay else grown)
unfolding outbox_backoff capped
outbox_backoff_lem attempt = rounds_capped (pos_part attempt - 1) second
