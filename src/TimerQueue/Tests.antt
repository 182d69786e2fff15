-- ===== src/TimerQueue/Tests.antt =====
-- src/timer_queue.cpp: runs of the handler, and the theorems on a queue of two timers.
use benet.Prelude.{
  ℕ, ◌+◌, ◌-◌, ◌*◌, ◌^◌, ◌<◌, ◌≡◌, ◌⊎◌, refl, List, [], ◌∷◌, true, false, some, ◌==◌, max,
  if◌then◌else◌, arith, Outcome, ok, assert_failed, Returns,
}
use benet.TimerQueue.{
  Timer, TimerQueue, Callbacks, cancels, how_long_from_now, add_timer, cancel_timer, handle_read,
  run_expired, act, init, put_back, rearm, insert, restart, set_timerfd,
}
use benet.TimerQueue.Entries.{Entry, insert_entry, erase_entry, has_entry, before, from}
use benet.TimerQueue.Validity.{IsValid}
use benet.TimerQueue.Arming.{Armed}
use benet.TimerQueue.Alarm.{how_long_from_now_lem}
use benet.TimerQueue.Calls.{Added, add_timer-Added, Cancelled, cancel_timer-Cancelled}
use benet.TimerQueue.Due.{handle_read_due}
use benet.TimerQueue.Expired.{Ran, expired_at}
use benet.TimerQueue.Expiry.{running, Handled, handle_read-Handled}
use benet.TimerQueue.Requests.{
  make_timer, run_at, run_after, run_every, Request, runs_at, runs_after, runs_every, cancels_timer,
  expires, request,
}
use benet.TimerQueue.Requests
use benet.TimerQueue.History.{Punctual, FailsAtDue, run-Punctual}

-- A timer that repeats every 10 ns, and one that does not repeat.
abbrev two_timers : ℕ → Timer
two_timers p =
    if p == 0
    then record { expiration = 5; repeat = true; interval = 10 }
    else record { expiration = 20; repeat = false; interval = 0 }

abbrev two_queue : TimerQueue
two_queue = record {
  timers = (5, 0) ∷ (20, 1) ∷ [];
  calling_expired_timers = false;
  canceling_timers = [];
  heap = two_timers;
  next_address = 2;
  alarm = some (1, record { sec = 0; nsec = 4 });
}

two_queue-IsValid : IsValid two_queue
two_queue-IsValid = record {
  sorted = (refl, tt);
  keyed = ((refl, (omega arith, omega arith)), ((refl, (omega arith, omega arith)), tt));
}

two_queue-Armed : Armed two_queue
two_queue-Armed = omega arith

-- Callbacks that do nothing, and ones that cancel the timer at address 0.
abbrev quiet : Callbacks
quiet p q = []

abbrev cancel_first : Callbacks
cancel_first p q = cancels 0 ∷ []

abbrev times_of : Outcome TimerQueue → List Entry
times_of (ok q) = q.timers
times_of _ = []

repeats_run : times_of (handle_read quiet 7 8 two_queue) ≡ (17, 0) ∷ (20, 1) ∷ []
unfolding handle_read before from run_expired act put_back restart insert insert_entry rearm
    set_timerfd
repeats_run = refl

cancelled_run : times_of (handle_read cancel_first 7 8 two_queue) ≡ (20, 1) ∷ []
unfolding handle_read before from run_expired act cancel_timer has_entry put_back rearm set_timerfd
cancelled_run = refl

how_long_from_now_example :
    ((how_long_from_now 5 9).nsec < 10 ^ 9)
    × ((how_long_from_now 5 9).sec * 10 ^ 9 + (how_long_from_now 5 9).nsec ≡ max (5 - 9) 1)
how_long_from_now_example = how_long_from_now_lem 5 9

abbrev third : Timer
third = record { expiration = 3; repeat = false; interval = 0 }

add_timer_example : Returns (λ r. Added third two_queue r.0 r.1) (add_timer 2 third two_queue)
add_timer_example =
    add_timer-Added 2 third two_queue (omega arith) two_queue-IsValid two_queue-Armed

cancel_timer_example : Cancelled 0 two_queue (cancel_timer 0 two_queue)
cancel_timer_example = cancel_timer-Cancelled 0 two_queue two_queue-IsValid two_queue-Armed

handle_read_due_example : handle_read quiet 20 21 two_queue ≡ assert_failed
handle_read_due_example = handle_read_due quiet 20 21 two_queue (refl, tt) refl

handle_read_example :
    Returns
      (λ r.
        (q₁ : TimerQueue) × Ran cancel_first
          (expired_at 7 two_queue.timers)
          (running 7 two_queue)
          q₁
        × Handled 7 (expired_at 7 two_queue.timers) q₁ r)
      (handle_read cancel_first 7 8 two_queue)
handle_read_example =
    handle_read-Handled cancel_first 7 8 two_queue (λ p q. tt) two_queue-IsValid (omega arith) refl

-- A timer every 10 ns, one after 4 ns, and one at 20 ns that is cancelled between two handlers.
abbrev evening : List Request
evening =
    runs_every 10 1 2
    ∷ runs_after 4 2 3
    ∷ runs_at 20 4
    ∷ expires quiet 7 8
    ∷ cancels_timer 2
    ∷ expires quiet 12 13
    ∷ []

-- The repeating timer came back at 10 ns from the second handler.
evening_times : times_of (Requests.run evening (init two_timers 0)) ≡ (22, 0) ∷ []
unfolding Requests.run request run_at run_after run_every make_timer init add_timer cancel_timer
    handle_read before from run_expired act put_back restart insert insert_entry rearm set_timerfd
    erase_entry has_entry
evening_times = refl

run-Punctual_example :
    Returns Punctual (Requests.run evening (init two_timers 0))
    ⊎ FailsAtDue evening (init two_timers 0)
run-Punctual_example = run-Punctual evening two_timers 0 (
  omega arith,
  (omega arith, (omega arith, (((λ p q. tt), omega arith), (((λ p q. tt), omega arith), tt)))),
)
