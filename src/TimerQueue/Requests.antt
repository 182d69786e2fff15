-- ===== src/TimerQueue/Requests.antt =====
-- src/eventloop.cpp, src/timer.cpp: RunAt, RunAfter and RunEvery, and the histories of a queue.
use benet.Prelude.{ℕ, ◌+◌, List, [], ◌∷◌, ltb, Outcome, ok, ◌>>=◌}
use benet.TimerQueue.{Timer, TimerQueue, Callbacks, add_timer, cancel_timer, handle_read}

-- `Timer::Timer`, with the interval in nanoseconds.
unfoldable pub make_timer : ℕ → ℕ → Timer
make_timer when interval = record {
  expiration = when;
  repeat = ltb 0 interval;
  interval = interval;
}

-- The address of the new timer, and the queue. `begin` is the clock's reading in the call, `now` that
-- of set_timerfd.
unfoldable pub run_at : ℕ → ℕ → TimerQueue → Outcome (ℕ × TimerQueue)
run_at time now q = add_timer now (make_timer time 0) q

unfoldable pub run_after : ℕ → ℕ → ℕ → TimerQueue → Outcome (ℕ × TimerQueue)
run_after delay begin now q = add_timer now (make_timer (begin + delay) 0) q

unfoldable pub run_every : ℕ → ℕ → ℕ → TimerQueue → Outcome (ℕ × TimerQueue)
run_every interval begin now q = add_timer now (make_timer (begin + interval) interval) q

-- What the loop's thread does with the queue; `expires` is the handler of the timerfd.
pub data Request : Type 0 where
  runs_at : ℕ → ℕ → Request
  runs_after : ℕ → ℕ → ℕ → Request
  runs_every : ℕ → ℕ → ℕ → Request
  cancels_timer : ℕ → Request
  expires : Callbacks → ℕ → ℕ → Request

unfoldable pub request : Request → TimerQueue → Outcome TimerQueue
request (runs_at time now) q = run_at time now q >>= λ r. ok r.1
request (runs_after delay begin now) q = run_after delay begin now q >>= λ r. ok r.1
request (runs_every interval begin now) q = run_every interval begin now q >>= λ r. ok r.1
request (cancels_timer timer) q = ok (cancel_timer timer q)
request (expires callbacks now later) q = handle_read callbacks now later q

unfoldable pub run : List Request → TimerQueue → Outcome TimerQueue
run [] q = ok q
run (x ∷ xs) q = request x q >>= λ q'. run xs q'
