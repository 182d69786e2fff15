-- ===== src/TimerQueue/Alarm.antt =====
-- src/timer_queue.cpp: how the timerfd is set.
use benet.Prelude.{ℕ, ◌+◌, ◌-◌, ◌*◌, ◌^◌, ◌<◌, ◌≡◌, max, arith}
use benet.TimerQueue.{how_long_from_now}

-- The setting of the timerfd is a normal one (the nanoseconds are less than a second), is never
-- zero, which would disarm it, and is the time left, or one nanosecond if none is left.
pub how_long_from_now_lem :
    (time now : ℕ)
    → let s = how_long_from_now time now in
      (s.nsec < 10 ^ 9) × (s.sec * 10 ^ 9 + s.nsec ≡ max (time - now) 1)
unfolding how_long_from_now
how_long_from_now_lem time now = ground arith
