-- ===== src/Reactor/Wiring/Lifetime.antt =====
-- src/eventloop.cpp, src/timer_queue.cpp: a loop from its constructor to its destructor.
use benet.Prelude.{ℕ, ◌≡◌, ◌≢◌, none, some}
use benet.Channel.{Channel, new_channel, enable_read_event, disable_all_event}
use benet.Channel
use benet.Reactor.{Reactor}
use benet.EventLoop.Ending
use benet.Reactor.Kernel.{Epoll}
use benet.Reactor.Wiring.Pair.{Pair}

module _ (k : Epoll) where
  open k use {State, interest, epoll_ctl}

  -- The kernel waits for input on the descriptor, for the channel at `p`.
  abbrev pub Watches : ℕ → ℕ → Reactor k → Type 0
  Watches p fd r = interest r.epoll fd ≡ some (enable_read_event 0, p)

  -- No channel is registered, and the kernel waits for nothing.
  abbrev pub Empty : Reactor k → Type 0
  Empty r = (fd : ℕ) → (r.channels fd ≡ none) × (interest r.epoll fd ≡ none)

  module _ (here wakeup wakeup_fd timer timer_fd : ℕ) where
    -- The loop has its two channels, and the kernel waits for input on both.
    abbrev pub Ready : Reactor k → Type 0
    Ready r =
        Pair k here wakeup timer wakeup_fd timer_fd r
        × Watches wakeup wakeup_fd r
        × Watches timer timer_fd r

    module _ (apart : wakeup ≢ timer) (other_fd : wakeup_fd ≢ timer_fd) where
      -- What EnableReadEvent on a channel that waited for nothing leaves.
      record Enabled (p q p_fd q_fd : ℕ) (r r' : Reactor k) : Type 0 where
        pair : Pair k here p q p_fd q_fd r'
        watches : Watches p p_fd r'
        live : (r'.chans p).index ≢ new_channel
        others : (s : ℕ) → p ≢ s → r'.chans s ≡ r.chans s
