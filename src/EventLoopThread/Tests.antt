-- ===== src/EventLoopThread/Tests.antt =====
-- src/eventloop_thread.cpp: runs of the two threads with a loop at address 7.
use benet.Prelude.{ℕ, ◌≡◌, ◌⊎◌, refl, true, false}
use benet.EventLoopThread.{
  aborted, waiting, returned, destructing, joining, gone, EventLoopThread, init, start, test_loop,
  construct_loop, call_back, store_loop, starts, tests, constructs, calls_back, stores, Reach, here,
  next,
}
use benet.EventLoopThread.Starting.{Usable, start_returns, StoppedTooEarly, comes_to_end}
use benet.EventLoopThread.Progress.{LeadsTo}
use benet.EventLoopThread.Missed.{missed, start_never_returns}

-- The new thread has stored its loop, and the owner has not looked at it.
abbrev stored : EventLoopThread
stored = store_loop 7 (call_back (construct_loop (start init)))

stored_reached : Reach 7 false init stored
unfolding init start construct_loop call_back store_loop
stored_reached =
    next (next (next (next here (starts refl)) (constructs refl)) (calls_back refl)) (stores refl)

stored_waiting : stored.owner ≡ waiting
unfolding init start construct_loop call_back store_loop
stored_waiting = refl

test_reached : Reach 7 false init (test_loop stored)
test_reached = next stored_reached (tests stored_waiting)

test_returned : (test_loop stored).owner ≡ returned 7
unfolding init start construct_loop call_back store_loop test_loop
test_returned = refl

-- The address of the loop.
abbrev seven : ℕ
seven = 7

start_returns_example :
    (seven ≡ 7)
    × ((test_loop stored).called_back ≡ true)
    × (false ≡ false → Usable (test_loop stored).worker)
start_returns_example = start_returns 7 7 false test_reached test_returned

comes_to_end_example :
    (stored.owner ≡ waiting → LeadsTo 7 stored (returned 7))
    × (stored.owner ≡ destructing → LeadsTo 7 stored gone)
    × (stored.owner ≡ joining
        → LeadsTo 7 stored gone ⊎ (StoppedTooEarly 7 stored ⊎ (stored.worker ≡ aborted)))
comes_to_end_example = comes_to_end 7 stored_reached

start_never_returns_example :
    Reach 7 true init missed × ((t : EventLoopThread) → Reach 7 true missed t → t.owner ≡ waiting)
start_never_returns_example = start_never_returns 7
