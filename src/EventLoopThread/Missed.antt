-- ===== src/EventLoopThread/Missed.antt =====
-- src/eventloop_thread.cpp: a loop that ends before the thread that started it has seen it.
use benet.Prelude.{ℕ, ◌≡◌, refl, sym, ap, ◌∙◌, true, false, none, arith}
use benet.EventLoopThread.{
  Worker, begun, calling_back, storing, notifying, looping, leaving, ended, Owner, idle, waiting,
  destructing, joining, EventLoopThread, init, start, test_loop, construct_loop, call_back,
  store_loop, notify, leave_loop, reset_loop, Settled, unused, used, Step, starts, tests, destructs,
  stops, joins, constructs, calls_back, stores, notifies, aborts, leaves, resets, Reach, here, next,
}

-- A state in which the new thread has come to its end before the owner looked at `loop_`.
abbrev pub missed : EventLoopThread
missed = record {
  loop = none;
  exiting = false;
  worker = ended;
  owner = waiting;
  told = false;
  called_back = true;
}

owner_in : {t : EventLoopThread} (o : Owner) → t ≡ missed → t.owner ≡ o → waiting ≡ o
owner_in o m e = sym (ap (λ s. s.owner) m) ∙ e

worker_in : {t : EventLoopThread} (w : Worker) → t ≡ missed → t.worker ≡ w → ended ≡ w
worker_in w m e = sym (ap (λ s. s.worker) m) ∙ e

waiting_is_unsettled : {o : Owner} → Settled o → waiting ≡ o → ⊥
waiting_is_unsettled unused e = ground arith
waiting_is_unsettled (used l) e = ground arith

missed_stays : (loop : ℕ) {t u : EventLoopThread} → Step loop true t u → t ≡ missed → u ≡ missed
unfolding test_loop
missed_stays loop {t} (starts e) m = let f = owner_in idle m e in absurd (ground arith)
missed_stays loop {t} (tests e) m = ap test_loop m
missed_stays loop {t} (destructs s) m = absurd (waiting_is_unsettled s (sym (ap (λ s. s.owner) m)))
missed_stays loop {t} (stops e) m = let f = owner_in destructing m e in absurd (ground arith)
missed_stays loop {t} (joins e j) m = let f = owner_in joining m e in absurd (ground arith)
missed_stays loop {t} (constructs e) m = let f = worker_in begun m e in absurd (ground arith)
missed_stays loop {t} (calls_back e) m = let f = worker_in calling_back m e in absurd (ground arith)
missed_stays loop {t} (stores e) m = let f = worker_in storing m e in absurd (ground arith)
missed_stays loop {t} (aborts e s) m = let f = worker_in notifying m e in absurd (ground arith)
missed_stays loop {t} (notifies e s) m = let f = worker_in notifying m e in absurd (ground arith)
missed_stays loop {t} (leaves e s) m = let f = worker_in looping m e in absurd (ground arith)
missed_stays loop {t} (resets e) m = let f = worker_in leaving m e in absurd (ground arith)

still_missed : (loop : ℕ) {t : EventLoopThread} → Reach loop true missed t → t ≡ missed
still_missed loop here = refl
still_missed loop (next r st) = missed_stays loop st (still_missed loop r)

-- If something else may stop the loop, as a call that the init callback queues, then Start may never
-- return: the new thread can come to its end, and reset `loop_`, before the owner looks at it, and
-- whatever happens after that the owner stays in Start.
pub start_never_returns :
    (loop : ℕ)
    → Reach loop true init missed
      × ((t : EventLoopThread) → Reach loop true missed t → t.owner ≡ waiting)
unfolding init start construct_loop call_back store_loop notify leave_loop reset_loop
start_never_returns loop = (
  next
      (next
        (next
          (next (next (next (next here (starts refl)) (constructs refl)) (calls_back refl))
            (stores refl))
          (notifies refl refl))
        (leaves refl refl))
      (resets refl),
  λ t r. ap (λ s. s.owner) (still_missed loop r),
)
