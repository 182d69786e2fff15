-- ===== src/EventLoopThread.antt =====
-- src/eventloop_thread.cpp: a thread with a loop of its own, the thread that starts it and waits for
-- the loop, and the destructor that stops the loop and joins the thread. The steps of the two threads
-- interleave; what holds `mutex_` is one step, and the wait of `Start`, which has a time limit, comes
-- back to its test at any time; the destructor's look at `loop_` and its Stop are one step. The loop of
-- the new thread is known by its address.
pub mod States
pub mod Handshake
pub mod Progress
pub mod Starting
pub mod Missed
mod Tests
use benet.Prelude.{ℕ, ◌≡◌, Bool, true, false, Option, none, some, ◌||◌}

-- Where the new thread is: not started, before its loop object, in `init_callback_`, before the
-- write to `loop_`, before `notify_one`, in the loop of `loop.Start()`, before the reset of `loop_`,
-- ended, or at the assert of `loop.Start()` that found `quitting_` set, which ends the program.
pub data Worker : Type 0 where
  absent : Worker
  begun calling_back storing notifying looping leaving ended aborted : Worker

-- Where the owner is: before `Start`, at its test, with the pointer that it returned, in the
-- destructor before the look at `loop_`, joining, done.
pub data Owner : Type 0 where
  idle waiting : Owner
  returned : ℕ → Owner
  destructing joining gone : Owner

-- `told` says that Stop was called on the loop, and `called_back` that the init callback has ended.
pub record EventLoopThread : Type 0 where
  pub loop : Option ℕ
  pub exiting : Bool
  pub worker : Worker
  pub owner : Owner
  pub told : Bool
  pub called_back : Bool

unfoldable pub init : EventLoopThread
init = record {
  loop = none;
  exiting = false;
  worker = absent;
  owner = idle;
  told = false;
  called_back = false;
}

-- The owner's calls. `Start` begins the thread and comes to its test.
unfoldable pub start : EventLoopThread → EventLoopThread
start t = record t { worker = begun; owner = waiting }

-- What the test of the loop in `Start` finds in `loop_`.
abbrev pub found : Option ℕ → Owner → Owner
found none o = o
found (some l) o = returned l

unfoldable pub test_loop : EventLoopThread → EventLoopThread
test_loop t = record t { owner = found t.loop t.owner }

unfoldable pub destruct : EventLoopThread → EventLoopThread
destruct t = record t { exiting = true; owner = destructing }

-- The destructor's look at `loop_`, and Stop if it is not null.
abbrev pub tells : Option ℕ → Bool → Bool
tells none told = told
tells (some l) told = true

unfoldable pub stop_loop : EventLoopThread → EventLoopThread
stop_loop t = record t { owner = joining; told = tells t.loop t.told }

unfoldable pub join : EventLoopThread → EventLoopThread
join t = record t { owner = gone }

-- The new thread's moves, `loop` being the address of its loop.
unfoldable pub construct_loop : EventLoopThread → EventLoopThread
construct_loop t = record t { worker = calling_back }

unfoldable pub call_back : EventLoopThread → EventLoopThread
call_back t = record t { worker = storing; called_back = true }

unfoldable pub store_loop : ℕ → EventLoopThread → EventLoopThread
store_loop loop t = record t { worker = notifying; loop = some loop }

-- `notify_one`, and `loop.Start()` up to its loop, where its assert that `quitting_` is not set passes.
unfoldable pub notify : EventLoopThread → EventLoopThread
notify t = record t { worker = looping }

-- The same where that assert fails.
unfoldable pub abort : EventLoopThread → EventLoopThread
abort t = record t { worker = aborted }

-- `loop.Start()` comes back.
unfoldable pub leave_loop : EventLoopThread → EventLoopThread
leave_loop t = record t { worker = leaving }

unfoldable pub reset_loop : EventLoopThread → EventLoopThread
reset_loop t = record t { worker = ended; loop = none }

-- The destructor runs before `Start` or after it.
pub data Settled : Owner → Type 0 where
  unused : Settled idle
  used : (l : ℕ) → Settled (returned l)

-- There is no thread to join, or it has ended.
pub data Joinable : Worker → Type 0 where
  no_thread : Joinable absent
  at_end : Joinable ended

-- The loop of the thread, and whether something else than this object may stop it.
module _ (loop : ℕ) (others_stop : Bool) where
  pub data Step (t : EventLoopThread) : EventLoopThread → Type 0 where
    starts : t.owner ≡ idle → Step t (start t)
    tests : t.owner ≡ waiting → Step t (test_loop t)
    destructs : Settled t.owner → Step t (destruct t)
    stops : t.owner ≡ destructing → Step t (stop_loop t)
    joins : t.owner ≡ joining → Joinable t.worker → Step t (join t)
    constructs : t.worker ≡ begun → Step t (construct_loop t)
    calls_back : t.worker ≡ calling_back → Step t (call_back t)
    stores : t.worker ≡ storing → Step t (store_loop loop t)
    notifies : t.worker ≡ notifying → t.told ≡ false → Step t (notify t)
    aborts : t.worker ≡ notifying → (t.told || others_stop) ≡ true → Step t (abort t)
    leaves : t.worker ≡ looping → (t.told || others_stop) ≡ true → Step t (leave_loop t)
    resets : t.worker ≡ leaving → Step t (reset_loop t)

  pub data Reach (t : EventLoopThread) : EventLoopThread → Type 0 where
    here : Reach t t
    next : {u v : EventLoopThread} → Reach t u → Step u v → Reach t v
