-- ===== src/Reactor/Loop.antt =====
-- src/eventloop.cpp, src/channel.cpp: the event calls of a channel and RemoveFromLoop, with the
-- checks of the loop on the way to the poller.
use benet.Prelude.{ℕ, ◌≡◌, refl, ap, ◌∙◌, true, false, not, ◌||◌, none, some, ◌==◌, ==_iff, Returns}
use benet.Channel.{Channel, new_channel, is_none_event}
use benet.Reactor.Kernel.{Epoll}
use benet.Reactor.{
  put, Reactor, loop_update, loop_remove, change_events, remove_from_loop, is_some_of, contains,
}
use benet.Reactor.Registry.{Inv}
use benet.Reactor.Equations.{put_self}
use benet.Reactor.Calls.{Updated, Removed, poller_update-Updated, poller_remove-Removed}

module _ (k : Epoll) (here ptr : ℕ) (r : Reactor k) where
  -- The channel at `ptr` with its events changed.
  abbrev pub with_events : (ℕ → ℕ) → Channel
  with_events change = record (r.chans ptr) {
    events = change (r.chans ptr).events;
    added_in_loop = some true;
  }

  module _ (inv : Inv k r) (own : (r.chans ptr).loop ≡ r.loop_id) (in_thread : here ≡ r.thread_id)
      (fresh : (r.chans ptr).index ≡ new_channel → r.channels (r.chans ptr).fd ≡ none) where
    same_loop :
        (c : Channel)
        → c.loop ≡ (r.chans ptr).loop
        → ((put r.chans ptr c ptr).loop == r.loop_id) ≡ true
    same_loop c e = (==_iff _ _).1 (ap (λ d. d.loop) (put_self r.chans ptr c) ∙ e ∙ own)

    -- An event call in the loop's own thread, on a channel of that loop whose descriptor nobody else
    -- has registered, succeeds: the kernel then waits for exactly the new events and leads back to
    -- the channel, or for nothing if there are none; the other channels are as they were, and the
    -- invariant holds on.
    pub change_events-Updated :
        (change : ℕ → ℕ)
        → Returns (Updated k ptr (with_events change) r) (change_events k change here ptr r)
    unfolding change_events loop_update
    change_events-Updated change =
        rw (same_loop (with_events change) refl, (==_iff here r.thread_id).1 in_thread)
          (poller_update-Updated k ptr (with_events change) r inv refl refl fresh)

    -- RemoveFromLoop in the loop's own thread, where the invariant of map, indices and interest
    -- list holds, on a channel of that loop that waits for nothing, succeeds if the channel's
    -- descriptor is free where the channel is not registered, and if, while events are handled, the
    -- channel is the one being handled or not among the active ones of the round: the poller and
    -- the kernel forget the channel, the others are as they were, and the invariant holds on.
    pub remove_from_loop-Removed :
        is_none_event (r.chans ptr).events ≡ true
        → (not r.event_handing
            || (is_some_of k r.current_active_channel ptr
                || not (contains k ptr r.active_channels)))
          ≡ true
        → Returns
            (Removed k ptr (record (r.chans ptr) { added_in_loop = some false }) r)
            (remove_from_loop k here ptr r)
    unfolding remove_from_loop loop_remove
    remove_from_loop-Removed quiet idle =
        rw
          (
            quiet,
            same_loop (record (r.chans ptr) { added_in_loop = some false }) refl,
            (==_iff here r.thread_id).1 in_thread,
            idle,
          )
          (poller_remove-Removed k ptr (record (r.chans ptr) { added_in_loop = some false }) r inv
            refl refl fresh)
