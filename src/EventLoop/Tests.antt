-- ===== src/EventLoop/Tests.antt =====
-- src/eventloop.cpp: runs of the loop, and its theorems on them.
use benet.Prelude.{
  ℕ, suc, ◌≡◌, ◌≢◌, inl, refl, [], ◌∷◌, ◌++◌, true, false, some, ok, critical, assert_failed, ◌>>=◌,
  arith, ltb, ltb-true,
}
use benet.EventLoop.{
  Eventfd, polling, stopped, EventLoop, queue_foreign, stop_foreign, enter, test, init, Reach,
  AllOwn, here, next, tests, queues_foreign, push_pending,
}
use benet.EventLoop.Wakeup.{Wakes, no_lost_wakeup}
use benet.EventLoop.Ending.{construct, destruct, start, run_in_loop, stop_ends, restart_fails}
use benet.EventLoop.Order.{taken, calls_in_order, Round, makes_all_pendings}

-- The counter of an eventfd.
abbrev counter : Eventfd
counter = record {
  State = ℕ;
  readable = λ s. ltb 0 s;
  write_one = λ s. suc s;
  read_all = λ s. 0;
  readable_lem = λ s. ltb-true 0 (suc s) (omega arith);
}

-- Another thread queues call 7 while the loop is in `Poll`, but has not written the eventfd yet.
abbrev asleep : EventLoop counter
asleep = queue_foreign counter 7 (test counter (enter counter (init counter 0)))

asleep-Reach : Reach counter (enter counter (init counter 0)) asleep
unfolding queue_foreign test enter init push_pending
asleep-Reach = next (next here (tests refl)) (queues_foreign 7)

asleep_phase : asleep.phase ≡ polling
unfolding queue_foreign test enter init push_pending
asleep_phase = refl

asleep_waiting : asleep.pendings ≢ []
unfolding queue_foreign test enter init push_pending
asleep_waiting e = ground arith

no_lost_wakeup_example : Wakes (counter.readable asleep.wakeup) asleep.in_flight
no_lost_wakeup_example = no_lost_wakeup counter 0 asleep-Reach asleep_phase (inl asleep_waiting)

calls_in_order_example : asleep.called ++ (taken asleep.phase ++ asleep.pendings) ≡ asleep.queued
calls_in_order_example = calls_in_order counter 0 asleep-Reach

pendings_made :
    (m : EventLoop counter) × (r : Reach counter asleep m) × AllOwn counter r
    × Round counter asleep asleep.pendings m
pendings_made = makes_all_pendings counter asleep asleep_phase

-- The same loop, told to stop.
abbrev stopping : EventLoop counter
stopping = stop_foreign counter asleep

stopping_phase : stopping.phase ≡ polling
unfolding stop_foreign queue_foreign test enter init push_pending
stopping_phase = refl

stopping_quits : stopping.quitting ≡ true
unfolding stop_foreign queue_foreign test enter init push_pending
stopping_quits = refl

stop_ends_example :
    (m : EventLoop counter) × (r : Reach counter stopping m) × AllOwn counter r
    × (m.phase ≡ stopped)
    × (m.running ≡ false)
    × (m.called ≡ stopping.called ++ stopping.pendings)
    × (m.pendings ≡ [])
stop_ends_example = stop_ends counter stopping stopping_phase stopping_quits

no_second_start : start counter true stopping ≡ assert_failed
no_second_start = restart_fails counter stopping stopping_quits

-- A thread has one loop at most, and the next after the first is gone.
one_loop : construct 5 (some 4) ≡ critical
unfolding construct
one_loop = refl

loop_again : (destruct counter (init counter 0) >>= λ current. construct 5 current) ≡ ok (some 5)
unfolding construct destruct init
loop_again = refl

queued_by_other : (run_in_loop counter false (λ l. l) 7 (init counter 0)).pendings ≡ 7 ∷ []
unfolding run_in_loop queue_foreign push_pending init
queued_by_other = refl
