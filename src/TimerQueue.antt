-- ===== src/TimerQueue.antt =====
-- src/timer_queue.cpp, src/timer.cpp: timers in the order of their expiration, and the timerfd that
-- wakes the loop for the first of them. Times are nanoseconds; the clock's readings are arguments.
pub mod Entries
pub mod Alarm
pub mod Order
pub mod Validity
pub mod Distinct
pub mod Arming
pub mod Calls
pub mod Due
pub mod PutBack
pub mod Expired
pub mod Expiry
pub mod Requests
pub mod History
mod Tests
use benet.Prelude.{
  ℕ, suc, ◌+◌, ◌-◌, ◌*◌, ◌/◌, ◌%◌, ◌^◌, ◌≡◌, List, [], ◌∷◌, ◌++◌, Bool, true, false, not, ◌&&◌,
  ◌||◌, Option, none, some, ◌==◌, ltb, leb, if◌then◌else◌, Outcome, ok, assert, ◌>>=◌, ◌>>◌,
}
use benet.Reactor.{put}
use Entries.{Entry, entry_lt, insert_entry, erase_entry, has_entry, before, from}

-- `interval_ * 1e9`, cast to an integer, is `interval`; `repeat_` is the test `interval > 0.0`.
pub record Timer : Type 0 where
  pub expiration : ℕ
  pub repeat : Bool
  pub interval : ℕ

abbrev pub invalid_time_point : ℕ
invalid_time_point = 0

-- `Timer::Restart`
unfoldable pub restart : ℕ → Timer → Timer
restart now t = record t { expiration = if t.repeat then now + t.interval else invalid_time_point }

pub record TimeSpec : Type 0 where
  pub sec : ℕ
  pub nsec : ℕ

-- `how_long_from_now`, with the reading of the clock.
unfoldable pub how_long_from_now : ℕ → ℕ → TimeSpec
how_long_from_now time now =
    if leb time now
    then record { sec = 0; nsec = 1 }
    else let diff = time - now in
      let s = diff / 10 ^ 9 in record { sec = s; nsec = diff - s * 10 ^ 9 }

-- A timer is known by its address; `heap` is the memory that addresses lead to, and addresses from
-- `next_address` on are free. `alarm` is what the timerfd was last set to, with the time of the call,
-- until it is read.
pub record TimerQueue : Type 0 where
  pub timers : List Entry
  pub calling_expired_timers : Bool
  pub canceling_timers : List ℕ
  pub heap : ℕ → Timer
  pub next_address : ℕ
  pub alarm : Option (ℕ × TimeSpec)

unfoldable pub init : (ℕ → Timer) → ℕ → TimerQueue
init heap next_address = record {
  timers = [];
  calling_expired_timers = false;
  canceling_timers = [];
  heap = heap;
  next_address = next_address;
  alarm = none;
}

unfoldable pub set_timerfd : ℕ → ℕ → TimerQueue → TimerQueue
set_timerfd exp now q = record q { alarm = some (now, how_long_from_now exp now) }

-- Whether a time comes before all timers: `it == timers_.end() || when < it->first`.
abbrev pub is_first : ℕ → List Entry → Bool
is_first when [] = true
is_first when (first ∷ rest) = ltb when first.0

-- `insert`: whether the timer is now the first, and the queue.
unfoldable pub insert : ℕ → TimerQueue → Outcome (Bool × TimerQueue)
insert timer q =
    let when = (q.heap timer).expiration in
    let earliest_changed = is_first when q.timers in
    elim (insert_entry (when, timer) q.timers) [
      | none ↦ assert false >>= λ _. ok (earliest_changed, q)
      | some timers' ↦ ok (earliest_changed, record q { timers = timers' })
    ]

-- `AddTimer` in the loop's thread: the new timer's address, and the queue.
unfoldable pub add_timer : ℕ → Timer → TimerQueue → Outcome (ℕ × TimerQueue)
add_timer now t q =
    let timer = q.next_address in
    insert timer (record q { heap = put q.heap timer t; next_address = suc timer }) >>= λ r.
    ok (timer, if r.0 then set_timerfd (r.1.heap timer).expiration now r.1 else r.1)

abbrev pub contains : ℕ → List ℕ → Bool
contains a [] = false
contains a (x ∷ xs) = x == a || contains a xs

-- `CancelTimer` in the loop's thread, of a timer that can still be locked.
unfoldable pub cancel_timer : ℕ → TimerQueue → TimerQueue
cancel_timer timer q =
    let entry : Entry = ((q.heap timer).expiration, timer) in
    if has_entry entry q.timers
    then record q { timers = erase_entry entry q.timers }
    else if q.calling_expired_timers
    then record q { canceling_timers = timer ∷ q.canceling_timers }
    else q

-- What a timer's callback may do to the queue.
pub data Action : Type 0 where
  adds : ℕ → Timer → Action
  cancels : ℕ → Action

unfoldable pub act : List Action → TimerQueue → Outcome TimerQueue
act [] q = ok q
act (adds now t ∷ rest) q = add_timer now t q >>= λ r. act rest r.1
act (cancels timer ∷ rest) q = act rest (cancel_timer timer q)

-- The callbacks of the client, by timer; what one does may depend on the queue.
abbrev pub Callbacks : Type 0
Callbacks = ℕ → TimerQueue → List Action

unfoldable pub run_expired : Callbacks → List Entry → TimerQueue → Outcome TimerQueue
run_expired callbacks [] q = ok q
run_expired callbacks (e ∷ expired) q =
    act (callbacks e.1 q) q >>= λ q'. run_expired callbacks expired q'

-- The loop that puts the repeating timers back.
unfoldable pub put_back : ℕ → List Entry → TimerQueue → Outcome TimerQueue
put_back now [] q = ok q
put_back now (e ∷ expired) q =
    let timer = e.1 in
    let again =
      insert timer (record q { heap = put q.heap timer (restart now (q.heap timer)) }) >>= λ r.
      put_back now expired r.1 in
    let skip = put_back now expired q in
    if not (q.heap timer).repeat
    then skip
    else if contains timer q.canceling_timers
    then skip
    else again

-- The expiration of the first timer.
abbrev pub next_time : (ℕ → Timer) → List Entry → ℕ
next_time heap [] = invalid_time_point
next_time heap (e ∷ rest) = (heap e.1).expiration

-- The last part of the handler: set the timerfd for the first timer left.
unfoldable pub rearm : ℕ → TimerQueue → TimerQueue
rearm now q =
    let next_expired_time = next_time q.heap q.timers in
    if not (next_expired_time == invalid_time_point) then set_timerfd next_expired_time now q else q

-- `tmp_end == timers_.end() || now < tmp_end->first`
abbrev pub first_is_later : ℕ → List Entry → Bool
first_is_later now [] = true
first_is_later now (e ∷ rest) = ltb now e.0

-- The handler of the timerfd. `now` is the reading at its start, `later` that of its last part.
unfoldable pub handle_read : Callbacks → ℕ → ℕ → TimerQueue → Outcome TimerQueue
handle_read callbacks now later q = do
  let expired = before (now, 0) q.timers
  let rest = from (now, 0) q.timers
  assert (first_is_later now rest)
  q₁ ← run_expired callbacks expired (record q {
    timers = rest;
    alarm = none;
    calling_expired_timers = true;
    canceling_timers = [];
  })
  q₂ ← put_back now expired (record q₁ { calling_expired_timers = false })
  ok (rearm later q₂)
