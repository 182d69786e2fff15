-- ===== src/Reactor.antt =====
-- src/poller.cpp, and the parts of src/eventloop.cpp and src/channel.cpp that lead to it: channels,
-- the poller's map from descriptors to channels, and the kernel's epoll instance behind them.
pub mod Kernel
pub mod Registry
pub mod Equations
pub mod Calls
pub mod Loop
pub mod Polling
pub mod Round
pub mod Wiring
mod Tests
use benet.Prelude.{
  ℕ, suc, ◌+◌, ◌*◌, ◌/◌, List, [], ◌∷◌, ◌++◌, length, Bool, true, false, not, ◌||◌, Option, none,
  some, ◌==◌, ltb, if◌then◌else◌, Outcome, ok, critical, assert, ◌>>=◌, ◌>>◌,
}
use benet.Channel.{
  Channel, Index, new_channel, added_channel, deleted_channel, enable_read_event,
  disable_read_event, enable_write_event, disable_write_event, disable_all_event, is_none_event,
}
use Kernel.{Epoll, Operation, ctl_add, ctl_mod, ctl_del, Interest}

-- A value stored at one index of a family.
abbrev pub put {ℓ} : {A : Type ℓ} → (ℕ → A) → ℕ → A → ℕ → A
put f i a j = if i == j then a else f j

module _ (k : Epoll) where
  open k use {State, epoll_ctl}

  -- An event loop as the poller sees it. A channel is known by its address; `chans` is the memory
  -- that the addresses lead to, and `channels` is the map `channels_`.
  pub record Reactor : Type 0 where
    pub loop_id : ℕ
    pub thread_id : ℕ
    pub chans : ℕ → Channel
    pub channels : ℕ → Option ℕ
    pub epoll : State
    pub event_handing : Bool
    pub active_channels : List ℕ
    pub current_active_channel : Option ℕ

  -- `update_epoll_operation`: a failure of EPOLL_CTL_DEL is logged only.
  unfoldable pub update_epoll_operation : Operation → ℕ → Reactor → Outcome Reactor
  update_epoll_operation op ptr r =
      let c = r.chans ptr in
      let (done, epoll') = epoll_ctl op c.fd (c.events, ptr) r.epoll in
      let r' = record r { epoll = epoll' } in
      if done then ok r' else elim op [ ctl_del ↦ ok r' | _ ↦ critical ]

  abbrev pub set_index : ℕ → Index → Reactor → Reactor
  set_index ptr i r = record r { chans = put r.chans ptr (record (r.chans ptr) { index = i }) }

  -- A kernel operation, then the write to `index_`.
  unfoldable pub operate : Operation → Index → ℕ → Reactor → Outcome Reactor
  operate op i ptr r = do r' ← update_epoll_operation op ptr r; ok (set_index ptr i r')

  -- `EPoller::UpdateChannel`
  unfoldable pub poller_update : ℕ → Reactor → Outcome Reactor
  poller_update ptr r = elim (r.chans ptr).index [
    | new_channel ↦
        operate ctl_add added_channel ptr
          (record r { channels = put r.channels (r.chans ptr).fd (some ptr) })
    | deleted_channel ↦ operate ctl_add added_channel ptr r
    | added_channel ↦
        if is_none_event (r.chans ptr).events
        then operate ctl_del deleted_channel ptr r
        else update_epoll_operation ctl_mod ptr r
  ]

  -- `EPoller::RemoveChannel`
  unfoldable pub poller_remove : ℕ → Reactor → Outcome Reactor
  poller_remove ptr r =
      let r₁ = record r { channels = put r.channels (r.chans ptr).fd none } in
      elim (r.chans ptr).index [
        | added_channel ↦ operate ctl_del new_channel ptr r₁
        | _ ↦ ok (set_index ptr new_channel r₁)
      ]

  -- `Poller::HasChannel`
  unfoldable pub has_channel : ℕ → Reactor → Bool
  has_channel ptr r = elim (r.channels (r.chans ptr).fd) [ none ↦ false | some p ↦ p == ptr ]

  -- `AssertInLoopThread`, on the thread that runs the call.
  abbrev pub assert_in_loop_thread : ℕ → Reactor → Outcome (Unit {0})
  assert_in_loop_thread here r = if here == r.thread_id then ok tt else critical

  -- `EventLoop::UpdateChannel`
  unfoldable pub loop_update : ℕ → ℕ → Reactor → Outcome Reactor
  loop_update here ptr r = do
    assert ((r.chans ptr).loop == r.loop_id)
    assert_in_loop_thread here r
    poller_update ptr r

  abbrev pub contains : ℕ → List ℕ → Bool
  contains a [] = false
  contains a (x ∷ xs) = x == a || contains a xs

  abbrev pub is_some_of : Option ℕ → ℕ → Bool
  is_some_of none a = false
  is_some_of (some x) a = x == a

  -- `EventLoop::RemoveChannel`
  unfoldable pub loop_remove : ℕ → ℕ → Reactor → Outcome Reactor
  loop_remove here ptr r = do
    assert ((r.chans ptr).loop == r.loop_id)
    assert_in_loop_thread here r
    assert (
        not r.event_handing
        || (is_some_of r.current_active_channel ptr || not (contains ptr r.active_channels)))
    poller_remove ptr r

  -- An event call of a channel: `events_` changes, then `update_events` runs.
  unfoldable pub change_events : (ℕ → ℕ) → ℕ → ℕ → Reactor → Outcome Reactor
  change_events change here ptr r =
      let c = r.chans ptr in
      loop_update here ptr (record r {
        chans = put r.chans ptr (record c { events = change c.events; added_in_loop = some true });
      })

  -- `Channel::RemoveFromLoop`
  unfoldable pub remove_from_loop : ℕ → ℕ → Reactor → Outcome Reactor
  remove_from_loop here ptr r =
      let c = r.chans ptr in
      do
        assert (is_none_event c.events)
        loop_remove here ptr
            (record r { chans = put r.chans ptr (record c { added_in_loop = some false }) })
