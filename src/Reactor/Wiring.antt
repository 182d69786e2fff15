-- ===== src/Reactor/Wiring.antt =====
-- src/eventloop.cpp, src/timer_queue.cpp, src/poller.cpp: the channels that a loop has of its own, for
-- its eventfd and its timerfd, from its constructor to its destructor.
pub mod Pair
pub mod Lifetime
mod Tests
use benet.Prelude.{ℕ, [], Bool, false, not, Option, none, Outcome, ok, assert, ◌>>=◌, ◌>>◌}
use benet.Channel.{Channel, enable_read_event, disable_all_event}
use benet.Channel
use benet.Reactor.{put, Reactor, change_events, remove_from_loop}
use benet.Reactor.Kernel.{Epoll}
use benet.EventLoop.Ending

module _ (k : Epoll) where
  open k use {State}

  -- The members before the constructors' own work: `epoll` is the new instance of the kernel's, `chans`
  -- the memory for the channels of the loop.
  unfoldable pub new_reactor : ℕ → ℕ → (ℕ → Channel) → State → Reactor k
  new_reactor loop_id thread_id chans epoll = record {
    loop_id = loop_id;
    thread_id = thread_id;
    chans = chans;
    channels = λ fd. none;
    epoll = epoll;
    event_handing = false;
    active_channels = [];
    current_active_channel = none;
  }

  -- `std::make_unique<Channel>`, of a channel at `ptr` that belongs to the loop.
  unfoldable pub make_channel : ℕ → ℕ → Reactor k → Reactor k
  make_channel ptr fd r = record r { chans = put r.chans ptr (Channel.init r.loop_id fd) }

  -- `TimerQueue::TimerQueue`, on the channel's side.
  unfoldable pub construct_timer_queue : ℕ → ℕ → ℕ → Reactor k → Outcome (Reactor k)
  construct_timer_queue ptr fd here r =
      change_events k enable_read_event here ptr (make_channel ptr fd r)

  -- What both destructors do with their channel: `DisableAllEvent`, then `RemoveFromLoop`.
  unfoldable pub retire_channel : ℕ → ℕ → Reactor k → Outcome (Reactor k)
  retire_channel ptr here r = do
    r' ← change_events k disable_all_event here ptr r
    remove_from_loop k here ptr r'

  -- `EventLoop::EventLoop`; `wakeup` and `timer` are the addresses of the two channels, and
  -- `wakeup_fd` and `timer_fd` the descriptors; `current` is `tThreadEventLoop`, whose new value comes
  -- with the loop.
  unfoldable pub construct :
      ℕ → ℕ → ℕ → ℕ → ℕ → Option ℕ → Reactor k → Outcome (Reactor k × Option ℕ)
  construct wakeup wakeup_fd timer timer_fd here current r = do
    r₁ ← construct_timer_queue timer timer_fd here (make_channel wakeup wakeup_fd r)
    current' ← Ending.construct r.loop_id current
    r₂ ← change_events k enable_read_event here wakeup r₁
    ok (r₂, current')

  -- `EventLoop::~EventLoop`, and then `TimerQueue::~TimerQueue` for the member; `running` is
  -- `running_`. The new value of `tThreadEventLoop` comes with the loop.
  unfoldable pub destruct : ℕ → ℕ → ℕ → Bool → Reactor k → Outcome (Reactor k × Option ℕ)
  destruct wakeup timer here running r = do
    assert (not running)
    r₁ ← retire_channel wakeup here r
    r₂ ← retire_channel timer here r₁
    ok (r₂, none)
