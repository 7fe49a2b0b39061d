-- ===== src/Application/WagerService/Backoff.antt =====
-- `WagerService.backoff`: the delay before the next attempt.
use jungle_gaming_backend_te.Prelude.{
  ℕ, zero, suc, ◌-◌, ◌*◌, ◌/◌, ◌^◌, ◌≤◌, ◌≡◌, arith, ltb, if◌then◌else◌,
}
use jungle_gaming_backend_te.Prelude.Int.{ℤ, pos, pos_part, ltb_ℤ}
use jungle_gaming_backend_te.Domain.Time.{Duration}
use jungle_gaming_backend_te.Application.Environment.{ReferencePolicy}

-- The loop, with the rounds that are left, and the test behind it.
unfoldable pub backoff_rounds : ℕ → Duration → Duration → Duration
backoff_rounds zero maximum delay = if ltb maximum delay then maximum else delay
backoff_rounds (suc rounds) maximum delay =
    let doubled = backoff_rounds rounds maximum (delay * 2) in
    if ltb delay maximum
    then (if ltb (maximum / 2) delay then maximum else doubled)
    else if ltb maximum delay
    then maximum
    else delay

-- `for i := 1; i < attempt; i++` makes `attempt - 1` rounds.
unfoldable pub backoff : ReferencePolicy → ℤ → Duration
unfolding backoff_rounds
backoff policy attempt =
    let attempts = (if ltb_ℤ attempt (pos 1) then 1 else pos_part attempt) in
    backoff_rounds (attempts - 1) policy.max_backoff policy.base_backoff

pub one_at_least : (n : ℕ) → 1 ≤ 2 ^ n
one_at_least zero = omega arith
one_at_least (suc n) = omega (arith, one_at_least n)

pub times_at_least : (a b : ℕ) → 1 ≤ b → a ≤ a * b
times_at_least a b h = grind arith

pub doubled_first : (a n : ℕ) → a * 2 ^ suc n ≡ a * 2 * 2 ^ n
doubled_first a n = grind arith

rounds_lem :
    (n : ℕ) (maximum delay : Duration)
    → backoff_rounds n maximum delay
      ≡ (if ltb maximum (delay * 2 ^ n) then maximum else delay * 2 ^ n)
unfolding backoff_rounds
rounds_lem zero maximum delay = ground arith
rounds_lem (suc n) maximum delay =
    rw (rounds_lem n maximum (delay * 2), doubled_first delay n)
      (ground (arith, times_at_least (delay * 2) (2 ^ n) (one_at_least n)))

rounds_of :
    (attempt : ℤ)
    → (if ltb_ℤ attempt (pos 1) then 1 else pos_part attempt) - 1 ≡ pos_part attempt - 1
rounds_of attempt = ground arith

-- `backoff` is the base delay doubled once for each attempt after the first, and at most the maximum;
-- an attempt below one counts as the first.
pub backoff_lem :
    (policy : ReferencePolicy) (attempt : ℤ)
    → backoff policy attempt ≡ (
        let grown = policy.base_backoff * 2 ^ (pos_part attempt - 1) in
        if ltb policy.max_backoff grown then policy.max_backoff else grown)
unfolding backoff
backoff_lem policy attempt =
    rw (rounds_of attempt)
      (rounds_lem (pos_part attempt - 1) policy.max_backoff policy.base_backoff)
