-- ===== src/EventLoop.antt =====
-- src/eventloop.cpp: the loop thread, its list of pending calls, and the threads that hand calls to
-- it or stop it. Steps of the threads interleave; what the loop's mutex and atomics make one access
-- is one step. The channels handled in a round are left open: any of them may queue calls or stop.
pub mod Wakeup
pub mod Order
pub mod Ending
mod Tests
use benet.Prelude.{
  ℕ, suc, ◌+◌, ◌≡◌, List, [], ◌∷◌, ◌++◌, Bool, true, false, not, ◌||◌, if◌then◌else◌,
}

-- The kernel's eventfd behind `wakeup_fd_`, non-blocking: eventfd(2) says that a write makes it
-- readable, and `readable` is what epoll reports.
pub record Eventfd : Type 1 where
  pub State : Type 0
  pub readable : State → Bool
  pub write_one : State → State
  pub read_all : State → State
  pub readable_lem : (s : State) → readable (write_one s) ≡ true

-- Where the loop thread is in `Start`: at the test of `quitting_`, in `Poll`, handling the active
-- channels, calling the pending calls that it took (those left are listed), or out of the loop.
pub data Phase : Type 0 where
  testing polling handling : Phase
  calling : List ℕ → Phase
  stopped : Phase

module _ (w : Eventfd) where
  open w use {State, write_one, read_all}

  -- A call is known by a number. `in_flight` counts the other threads that have queued a call or set
  -- `quitting_` and not yet come to `set_wakeup`. `queued` and `called` record the calls that were
  -- queued and made so far; the program does not keep them.
  pub record EventLoop : Type 0 where
    pub phase : Phase
    pub running : Bool
    pub quitting : Bool
    pub event_handing : Bool
    pub calling_pendings : Bool
    pub pendings : List ℕ
    pub wakeup : State
    pub in_flight : ℕ
    pub queued : List ℕ
    pub called : List ℕ

  unfoldable pub set_wakeup : EventLoop → EventLoop
  set_wakeup l = record l { wakeup = write_one l.wakeup }

  unfoldable pub reset_wakeup : EventLoop → EventLoop
  reset_wakeup l = record l { wakeup = read_all l.wakeup }

  -- `QueueInLoop`: the entry into the list, and the test for the wakeup.
  unfoldable pub push_pending : ℕ → EventLoop → EventLoop
  push_pending call l = record l {
    pendings = l.pendings ++ call ∷ [];
    queued = l.queued ++ call ∷ [];
  }

  abbrev pub needs_wakeup : Bool → EventLoop → Bool
  needs_wakeup in_loop_thread l = not in_loop_thread || l.calling_pendings

  -- `QueueInLoop` by the loop's own thread.
  unfoldable pub queue_own : ℕ → EventLoop → EventLoop
  unfolding push_pending set_wakeup
  queue_own call l =
      let l' = push_pending call l in if needs_wakeup true l' then set_wakeup l' else l'

  -- `QueueInLoop` by another thread, up to its test, which passes there.
  unfoldable pub queue_foreign : ℕ → EventLoop → EventLoop
  unfolding push_pending
  queue_foreign call l = let l' = push_pending call l in record l' { in_flight = suc l'.in_flight }

  -- `Stop`, by the loop's own thread and by another, which goes on to `set_wakeup`.
  unfoldable pub stop_own : EventLoop → EventLoop
  stop_own l = record l { quitting = true }

  unfoldable pub stop_foreign : EventLoop → EventLoop
  stop_foreign l = record l { quitting = true; in_flight = suc l.in_flight }

  -- `Start`, from its entry to the first test.
  unfoldable pub enter : EventLoop → EventLoop
  enter l = record l { running = true; phase = testing }

  -- The test of the loop.
  unfoldable pub test : EventLoop → EventLoop
  test l =
      if l.quitting
      then record l { running = false; phase = stopped }
      else record l { phase = polling }

  -- `Poll` returns, and the handling of events begins.
  unfoldable pub begin_handling : EventLoop → EventLoop
  begin_handling l = record l { event_handing = true; phase = handling }

  -- The handling ends, and the pending calls are taken over.
  unfoldable pub take_pendings : EventLoop → EventLoop
  take_pendings l = record l {
    event_handing = false;
    calling_pendings = true;
    phase = calling l.pendings;
    pendings = [];
  }

  -- The next of the calls taken is made; what it does to the loop are steps of their own.
  unfoldable pub call_next : ℕ → List ℕ → EventLoop → EventLoop
  call_next call rest l = record l { phase = calling rest; called = l.called ++ call ∷ [] }

  unfoldable pub end_calling : EventLoop → EventLoop
  end_calling l = record l { calling_pendings = false; phase = testing }

  -- The loop thread runs code of the client.
  pub data Busy : Phase → Type 0 where
    in_handler : Busy handling
    in_call : (rest : List ℕ) → Busy (calling rest)

  pub data Step (l : EventLoop) : EventLoop → Type 0 where
    tests : l.phase ≡ testing → Step l (test l)
    polls : l.phase ≡ polling → Step l (begin_handling l)
    resets : l.phase ≡ handling → Step l (reset_wakeup l)
    takes : l.phase ≡ handling → Step l (take_pendings l)
    calls :
        (call : ℕ) (rest : List ℕ)
        → l.phase ≡ calling (call ∷ rest)
        → Step l (call_next call rest l)
    ends : l.phase ≡ calling [] → Step l (end_calling l)
    queues_own : (call : ℕ) → Busy l.phase → Step l (queue_own call l)
    stops_own : Busy l.phase → Step l (stop_own l)
    queues_foreign : (call : ℕ) → Step l (queue_foreign call l)
    stops_foreign : Step l (stop_foreign l)
    wakes : (n : ℕ) → l.in_flight ≡ suc n → Step l (set_wakeup (record l { in_flight = n }))

  -- A loop on which nothing was queued before `Start`.
  unfoldable pub init : State → EventLoop
  init s = record {
    phase = stopped;
    running = false;
    quitting = false;
    event_handing = false;
    calling_pendings = false;
    pendings = [];
    wakeup = s;
    in_flight = 0;
    queued = [];
    called = [];
  }

  pub data Reach (l : EventLoop) : EventLoop → Type 0 where
    here : Reach l l
    next : {m n : EventLoop} → Reach l m → Step m n → Reach l n

  -- Whether a step is the loop thread's, and a run of such steps only.
  abbrev pub is_own : {l m : EventLoop} → Step l m → Bool
  is_own (queues_foreign call) = false
  is_own stops_foreign = false
  is_own (wakes n e) = false
  is_own _ = true

  abbrev pub AllOwn : {l m : EventLoop} → Reach l m → Type 0
  AllOwn here = Unit {0}
  AllOwn (next r st) = AllOwn r × (is_own st ≡ true)
