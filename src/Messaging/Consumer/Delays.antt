-- ===== src/Messaging/Consumer/Delays.antt =====
-- The delays of internal/infrastructure/messaging/consumer.go.
use jungle_gaming_backend_te.Prelude.{
  ℕ, zero, suc, ◌+◌, ◌-◌, ◌*◌, ◌/◌, ◌^◌, ◌≤◌, ◌≡◌, refl, ap, ◌∙◌, inl, inr, Bool-cases, Bool, not,
  ◌||◌, arith, ltb, if◌then◌else◌,
}
use jungle_gaming_backend_te.Prelude.Int.{ℤ, pos, pos_part, ltb_ℤ}
use jungle_gaming_backend_te.Domain.Time.{Duration}
use jungle_gaming_backend_te.Application.WagerService.Backoff.{
  one_at_least, times_at_least, doubled_first,
}
use jungle_gaming_backend_te.Messaging.Consumer.{
  ConsumerSettings, retry_rounds, retry_delay, schedule_retry, visible_in, to_int32, a_second,
}

rounds_lem :
    (n : ℕ) (maximum delay : Duration)
    → retry_rounds n maximum delay
      ≡ (if ltb maximum (delay * 2 ^ n) then maximum else delay * 2 ^ n)
unfolding retry_rounds
rounds_lem zero maximum delay = ground arith
rounds_lem (suc n) maximum delay =
    rw (rounds_lem n maximum (delay * 2), doubled_first delay n)
      (ground (arith, times_at_least (delay * 2) (2 ^ n) (one_at_least n)))

rounds_of :
    (attempt : ℤ)
    → (if ltb_ℤ attempt (pos 1) then 1 else pos_part attempt) - 1 ≡ pos_part attempt - 1
rounds_of attempt = ground arith

-- `retryDelay` is the base delay doubled once for each receipt after the first, and at most the maximum.
retry_delay_lem :
    (base maximum : Duration) (attempt : ℤ)
    → retry_delay base maximum attempt ≡ (
        let grown = base * 2 ^ (pos_part attempt - 1) in
        if ltb maximum grown then maximum else grown)
unfolding retry_delay
retry_delay_lem base maximum attempt =
    rw (rounds_of attempt) (rounds_lem (pos_part attempt - 1) maximum base)

-- Seconds, rounded up.
abbrev pub seconds_of : Duration → ℕ
seconds_of delay = (delay + a_second - 1) / a_second

bounded_seconds :
    (delay maximum : Duration)
    → delay ≤ maximum
    → maximum ≤ 43200 * a_second
    → to_int32 (seconds_of delay) ≡ pos (seconds_of delay)
unfolding to_int32
bounded_seconds delay maximum low high = ground arith

delay_bounded : (base maximum : Duration) (attempt : ℤ) → retry_delay base maximum attempt ≤ maximum
delay_bounded base maximum attempt = rw (retry_delay_lem base maximum attempt) (ground arith)

later_seconds :
    (settings : ConsumerSettings) (receive_count : ℤ)
    → settings.retry_max ≤ 43200 * a_second
    → to_int32 (seconds_of (retry_delay settings.retry_base settings.retry_max receive_count))
      ≡ pos (
          seconds_of (
            let grown = settings.retry_base * 2 ^ (pos_part receive_count - 1) in
            if ltb settings.retry_max grown then settings.retry_max else grown))
later_seconds settings receive_count bounded =
    bounded_seconds (retry_delay settings.retry_base settings.retry_max receive_count)
      settings.retry_max (delay_bounded settings.retry_base settings.retry_max receive_count)
      bounded
    ∙ ap (λ d. pos (seconds_of d))
        (retry_delay_lem settings.retry_base settings.retry_max receive_count)

-- A retry of a failure that may pass, before the last receipt, comes after the base delay doubled once
-- for each receipt after the first and at most the maximum, in seconds rounded up, where the maximum is
-- no more than the twelve hours that SQS allows; any other retry comes at once.
pub schedule_retry_lem :
    (settings : ConsumerSettings) (receive_count : ℤ) (permanent : Bool)
    → settings.retry_max ≤ 43200 * a_second
    → schedule_retry settings receive_count permanent ≡ (
        let grown = settings.retry_base * 2 ^ (pos_part receive_count - 1) in
        if permanent || not (ltb_ℤ receive_count settings.max_receives)
        then visible_in (pos 0)
        else visible_in
            (pos (seconds_of (if ltb settings.retry_max grown then settings.retry_max else grown))))
unfolding schedule_retry to_int32
schedule_retry_lem settings receive_count permanent bounded =
    elim (Bool-cases (permanent || not (ltb_ℤ receive_count settings.max_receives))) [
      | inl now ↦ rw now refl
      | inr later ↦ rw (later, later_seconds settings receive_count bounded)
    ]
