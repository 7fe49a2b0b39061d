-- ===== src/Domain/Time.antt =====
-- Go's `time.Time` and `time.Duration`, as far as the program uses them: an instant is the number of
-- nanoseconds since the zero time, so `UTC` changes nothing, and a duration is a number of nanoseconds
-- (the configuration accepts positive durations only).
use jungle_gaming_backend_te.Prelude.{ℕ, ◌+◌, Bool, ltb, ◌==◌}

abbrev pub Time : Type 0
Time = ℕ

abbrev pub Duration : Type 0
Duration = ℕ

abbrev pub is_zero_time : Time → Bool
is_zero_time t = t == 0

-- `a.After(b)`
abbrev pub after : Time → Time → Bool
after a b = ltb b a

-- `t.Add(d)`
abbrev pub add_duration : Time → Duration → Time
add_duration t d = t + d
