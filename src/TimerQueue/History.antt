-- ===== src/TimerQueue/History.antt =====
-- src/timer_queue.cpp, src/eventloop.cpp: what every history of a queue of timers leaves, and the one
-- way in which it can fail.
use benet.Prelude.{
  ℕ, ◌+◌, ◌<◌, ◌≡◌, ◌⊎◌, inl, inr, refl, ap, List, [], ◌∷◌, ◌++◌, Bool, true, false, Bool-cases,
  arith, ok, assert_failed, ◌>>=◌, Returns, Returns->>=, Returns-mono, Returns-ok,
}
use benet.TimerQueue.{Timer, TimerQueue, Callbacks, init, add_timer}
use benet.TimerQueue.Validity.{IsValid, AllTimed, cancel_timer-IsValid}
use benet.TimerQueue.Arming.{Armed, cancel_timer-Armed}
use benet.TimerQueue.Calls.{add_timer-Added}
use benet.TimerQueue.Due.{due_at, handle_read_due}
use benet.TimerQueue.Expiry.{handle_read-Handled}
use benet.TimerQueue.Requests.{
  make_timer, run_at, run_after, run_every, Request, runs_at, runs_after, runs_every, cancels_timer,
  expires, request, run,
}

-- No clock reads zero, and no timer is asked for at the time zero, not even by a callback.
abbrev pub Timely : List Request → Type 0
Timely [] = Unit {0}
Timely (runs_at time now ∷ xs) = (0 < time) × Timely xs
Timely (runs_after delay begin now ∷ xs) = (0 < begin) × Timely xs
Timely (runs_every interval begin now ∷ xs) = (0 < begin) × Timely xs
Timely (cancels_timer timer ∷ xs) = Timely xs
Timely (expires callbacks now later ∷ xs) =
    (((p : ℕ) (q : TimerQueue) → AllTimed (callbacks p q)) × (0 < now)) × Timely xs

-- The set is in order, and the timerfd goes off no later than its first timer is due.
abbrev pub Punctual : TimerQueue → Type 0
Punctual q = IsValid q × Armed q

-- The history fails in a handler, after `earlier`, that reads a time at which a timer is due.
pub record FailsAtDue (xs : List Request) (q : TimerQueue) : Type 0 where
  pub earlier : List Request
  pub callbacks : Callbacks
  pub now : ℕ
  pub later : ℕ
  pub rest : List Request
  pub before : TimerQueue
  pub split : xs ≡ earlier ++ expires callbacks now later ∷ rest
  pub reached : run earlier q ≡ ok before
  pub due : due_at now before.timers ≡ true
  pub failed : run xs q ≡ assert_failed

added-Punctual :
    (now : ℕ) (t : Timer) (q : TimerQueue)
    → 0 < t.expiration
    → Punctual q
    → Returns Punctual (add_timer now t q >>= λ r. ok r.1)
added-Punctual now t q pos h =
    Returns->>= _ _ (add_timer now t q) _ (add_timer-Added now t q pos h.0 h.1)
      (λ r a. (a.valid, a.armed))

-- The request is the handler, at a time at which a timer is due.
abbrev meets : Request → TimerQueue → Bool
meets (runs_at time now) q = false
meets (runs_after delay begin now) q = false
meets (runs_every interval begin now) q = false
meets (cancels_timer timer) q = false
meets (expires callbacks now later) q = due_at now q.timers

request-Punctual :
    (x : Request) (xs : List Request) (q : TimerQueue)
    → Timely (x ∷ xs)
    → Punctual q
    → meets x q ≡ false
    → Returns Punctual (request x q) × Timely xs
unfolding request run_at run_after run_every make_timer
request-Punctual (runs_at time now) xs q t h free =
    (added-Punctual now (make_timer time 0) q t.0 h, t.1)
request-Punctual (runs_after delay begin now) xs q t h free =
    (added-Punctual now (make_timer (begin + delay) 0) q (omega (arith, t.0)) h, t.1)
request-Punctual (runs_every interval begin now) xs q t h free =
    (added-Punctual now (make_timer (begin + interval) interval) q (omega (arith, t.0)) h, t.1)
request-Punctual (cancels_timer timer) xs q t h free =
    ((cancel_timer-IsValid timer q h.0, cancel_timer-Armed timer q h.0 h.1), t)
request-Punctual (expires callbacks now later) xs q t h free = (
  Returns-mono _ _ (request (expires callbacks now later) q)
      (handle_read-Handled callbacks now later q t.0.0 h.0 t.0.1 free)
      (λ r k. (k.2.valid, k.2.armed)),
  t.1,
)

fails_here :
    (x : Request) (xs : List Request) (q : TimerQueue)
    → Punctual q
    → meets x q ≡ true
    → FailsAtDue (x ∷ xs) q
unfolding run request
fails_here (runs_at time now) xs q h met = absurd (ground arith)
fails_here (runs_after delay begin now) xs q h met = absurd (ground arith)
fails_here (runs_every interval begin now) xs q h met = absurd (ground arith)
fails_here (cancels_timer timer) xs q h met = absurd (ground arith)
fails_here (expires callbacks now later) xs q h met = record {
  earlier = [];
  callbacks = callbacks;
  now = now;
  later = later;
  rest = xs;
  before = q;
  split = refl;
  reached = refl;
  due = met;
  failed = rw (handle_read_due callbacks now later q h.0.sorted met) refl;
}

fails_behind :
    (x : Request) (xs : List Request) (q q' : TimerQueue)
    → request x q ≡ ok q'
    → FailsAtDue xs q'
    → FailsAtDue (x ∷ xs) q
unfolding run
fails_behind x xs q q' e bad = record {
  earlier = x ∷ bad.earlier;
  callbacks = bad.callbacks;
  now = bad.now;
  later = bad.later;
  rest = bad.rest;
  before = bad.before;
  split = ap (λ ys. x ∷ ys) bad.split;
  reached = rw e bad.reached;
  due = bad.due;
  failed = rw e bad.failed;
}

run-from :
    (xs : List Request) (q : TimerQueue)
    → Timely xs
    → Punctual q
    → Returns Punctual (run xs q) ⊎ FailsAtDue xs q
unfolding run
run-from [] q t h = inl h
run-from (x ∷ xs) q t h = elim (Bool-cases (meets x q)) [
  | inl met ↦ inr (fails_here x xs q h met)
  | inr free ↦
      let (done, t') = request-Punctual x xs q t h free in
      let (q', (e, h')) = Returns-ok (request x q) done in
      elim (run-from xs q' t' h') [
        | inl good ↦ inl (rw e good)
        | inr bad ↦ inr (fails_behind x xs q q' e bad)
      ]
]

-- From a new queue on, if no clock reads zero and no timer is asked for at the time zero, not even
-- by a callback, every history of RunAt, RunAfter, RunEvery, CancelTimer and the handler of the
-- timerfd with all its callbacks either returns, the set in order and the timerfd going off no later
-- than its first timer is due, or fails at a handler that reads exactly the time at which some timer
-- is due, all before it having returned.
pub run-Punctual :
    (xs : List Request) (heap : ℕ → Timer) (next_address : ℕ)
    → Timely xs
    → Returns Punctual (run xs (init heap next_address)) ⊎ FailsAtDue xs (init heap next_address)
unfolding init
run-Punctual xs heap next_address t =
    run-from xs (init heap next_address) t (record { sorted = tt; keyed = tt }, tt)
