-- ===== src/Reactor/Round.antt =====
-- src/eventloop.cpp: the part of a round of Start in which the active channels handle their events.
pub mod Safe
pub mod Handling
pub mod Whole
pub mod Frame
pub mod Callback
use benet.Prelude.{
  ℕ, List, [], ◌∷◌, Bool, true, false, Option, none, some, Outcome, ok, ◌>>=◌, SysResult,
}
use benet.Channel.{Channel, Handlers, handle_event}
use benet.Reactor.{put, Reactor}
use benet.Reactor.Kernel.{Epoll}
use benet.Reactor.Polling.{Ready, poll}

module _ (k : Epoll) where
  -- The callbacks of the channels, by address; `none` is an empty `std::function`. `alive` says
  -- whether the object that a channel is tied to can be locked.
  pub record Callbacks : Type 0 where
    pub on_error : ℕ → Option (Reactor k → Outcome (Reactor k))
    pub on_close : ℕ → Option (Reactor k → Outcome (Reactor k))
    pub on_read : ℕ → Option (ℕ → Reactor k → Outcome (Reactor k))
    pub on_write : ℕ → Option (Reactor k → Outcome (Reactor k))
    pub alive : ℕ → Reactor k → Bool

  -- The write to `event_handing_` of the channel at `ptr`.
  abbrev pub set_handing : ℕ → Bool → Reactor k → Reactor k
  set_handing ptr b r = record r {
    chans = put r.chans ptr (record (r.chans ptr) { event_handing = some b });
  }

  -- A callback after a call that may have ended the program.
  abbrev pub after :
      Option (Reactor k → Outcome (Reactor k)) → Option (Outcome (Reactor k) → Outcome (Reactor k))
  after none = none
  after (some call) = some (λ m. m >>= call)

  abbrev pub after_read :
      Option (ℕ → Reactor k → Outcome (Reactor k))
      → Option (ℕ → Outcome (Reactor k) → Outcome (Reactor k))
  after_read none = none
  after_read (some call) = some (λ time m. m >>= call time)

  abbrev pub handlers : Callbacks → ℕ → Handlers (Outcome (Reactor k))
  handlers cs ptr = record {
    on_error = after (cs.on_error ptr);
    on_close = after (cs.on_close ptr);
    on_read = after_read (cs.on_read ptr);
    on_write = after (cs.on_write ptr);
    set_handing = λ b m. m >>= λ r. ok (set_handing ptr b r);
  }

  -- The loop over `active_channels_`.
  unfoldable pub handle_channel : Callbacks → ℕ → ℕ → Reactor k → Outcome (Reactor k)
  handle_channel cs time ptr r =
      let r' = record r { current_active_channel = some ptr } in
      handle_event (handlers cs ptr) (cs.alive ptr r') (r'.chans ptr) time (ok r')

  unfoldable pub handle_channels : Callbacks → ℕ → List ℕ → Reactor k → Outcome (Reactor k)
  handle_channels cs time [] r = ok (record r { current_active_channel = none })
  handle_channels cs time (ptr ∷ ptrs) r =
      handle_channel cs time ptr r >>= λ r'. handle_channels cs time ptrs r'

  unfoldable pub handle_actives : Callbacks → ℕ → Reactor k → Outcome (Reactor k)
  handle_actives cs time r =
      handle_channels cs time r.active_channels (record r { event_handing = true }) >>= λ r'.
      ok (record r' { event_handing = false })

  -- A round up to the pending calls, from what `epoll_wait` returned: the size of the array of
  -- events, and the loop.
  unfoldable pub poll_round :
      Callbacks → ℕ → ℕ → SysResult Ready → Reactor k → Outcome (ℕ × Reactor k)
  poll_round cs time size result r = poll k size result (record r { active_channels = [] }) >>= λ p.
      handle_actives cs time p.1 >>= λ r'. ok (p.0, r')
