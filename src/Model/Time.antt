-- ===== src/Model/Time.antt =====
-- `time.Time` as the nanoseconds since the zero time, and `time.Duration` as nanoseconds.
use route_analysis_service.Prelude.{ℤ, pos, ◌+ℤ◌, ltb_ℤ, eq_ℤ, Bool, not, ◌&&◌, ◌||◌}

abbrev pub Time : Type 0
Time = ℤ

abbrev pub Duration : Type 0
Duration = ℤ

abbrev pub is_zero : Time → Bool
is_zero t = eq_ℤ t (pos 0)

-- `a.Before(b)` and `a.After(b)`.
abbrev pub before : Time → Time → Bool
before a b = ltb_ℤ a b

abbrev pub after : Time → Time → Bool
after a b = ltb_ℤ b a

-- `t.Add(d)`
unfoldable pub add : Time → Duration → Time
add t d = t +ℤ d

abbrev pub second : ℤ
second = pos 1000000000

pub record TimeWindow : Type 0 where
  pub start : Time
  pub end : Time

unfoldable pub window_valid : TimeWindow → Bool
window_valid w = is_zero w.start || is_zero w.end || not (before w.end w.start)

unfoldable pub window_contains : TimeWindow → Time → Bool
window_contains w at =
    (is_zero w.start || not (before at w.start)) && (is_zero w.end || not (after at w.end))
