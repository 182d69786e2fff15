-- ===== src/Reactor/Round/Callback.antt =====
-- src/channel.cpp, src/eventloop.cpp: event calls and RemoveFromLoop, as callbacks of their channel.
use benet.Prelude.{
  ℕ, ◌≡◌, refl, sym, ap, ◌∙◌, true, false, not, ◌||◌, some, ==_self, Outcome, ◌>>=◌, Returns,
  Returns-mono, Returns-both, Returns->>=,
}
use benet.Channel.{Channel, is_none_event, disable_all_event}
use benet.Reactor.{Reactor, change_events, remove_from_loop, is_some_of, contains}
use benet.Reactor.Kernel.{Epoll}
use benet.Reactor.Calls.{Updated, Removed}
use benet.Reactor.Loop.{with_events, change_events-Updated, remove_from_loop-Removed}
use benet.Reactor.Round.Safe.{Own, Apart-trans, Goes, KeepsTo}
use benet.Reactor.Round.Frame.{Frame, change_events-Frame, remove_from_loop-Frame}

module _ (k : Epoll) (ptr here : ℕ) where
  Updated-Goes :
      (change : ℕ → ℕ) (r r' : Reactor k)
      → Own k here ptr r
      → Updated k ptr (with_events k here ptr r change) r r'
      → Frame k ptr r r'
      → Goes k here ptr r r'
  Updated-Goes change r r' o u f = (
    record {
      inv = u.inv;
      loop = f.loop ∙ o.loop ∙ sym f.loop_id;
      thread = o.thread ∙ sym f.thread_id;
      fresh = λ e. absurd ((u.inv.named (r.chans ptr).fd ptr u.known).1 e);
      handing = f.handing ∙ o.handing;
      current = f.current ∙ o.current;
    },
    record { others = u.others; loop_id = f.loop_id },
  )

  -- A callback that changes what its own channel waits for keeps to that channel.
  pub change_events-KeepsTo :
      (change : ℕ → ℕ) → KeepsTo k here ptr (change_events k change here ptr)
  change_events-KeepsTo change r o =
      Returns-mono _ _ (change_events k change here ptr r)
        (Returns-both (Updated k ptr (with_events k here ptr r change) r) (Frame k ptr r)
          (change_events k change here ptr r)
          (change_events-Updated k here ptr r o.inv o.loop o.thread o.fresh change)
          (change_events-Frame k ptr here change r))
        (λ r' (u, f). Updated-Goes change r r' o u f)

  -- The check of RemoveChannel lets the channel that is being handled pass.
  check_lets_pass :
      (r : Reactor k)
      → Own k here ptr r
      → (not r.event_handing
          || (is_some_of k r.current_active_channel ptr || not (contains k ptr r.active_channels)))
        ≡ true
  check_lets_pass r o = rw (o.handing, o.current, ==_self ptr) refl

  remove-Goes :
      (r : Reactor k)
      → Own k here ptr r
      → is_none_event (r.chans ptr).events ≡ true
      → Returns (Goes k here ptr r) (remove_from_loop k here ptr r)
  remove-Goes r o quiet =
      let c : Channel = record (r.chans ptr) { added_in_loop = some false } in
      Returns-mono _ _ (remove_from_loop k here ptr r)
        (Returns-both (Removed k ptr c r) (Frame k ptr r) (remove_from_loop k here ptr r)
          (remove_from_loop-Removed k here ptr r o.inv o.loop o.thread o.fresh quiet
            (check_lets_pass r o))
          (remove_from_loop-Frame k ptr here r))
        (λ r' (u, f). (
          record {
            inv = u.inv;
            loop = f.loop ∙ o.loop ∙ sym f.loop_id;
            thread = o.thread ∙ sym f.thread_id;
            fresh = λ e. ap r'.channels f.fd ∙ u.forgotten;
            handing = f.handing ∙ o.handing;
            current = f.current ∙ o.current;
          },
          record { others = u.others; loop_id = f.loop_id },
        ))

  -- A channel that stops waiting and takes itself out of the loop, as a connection does.
  abbrev pub retire : Reactor k → Outcome (Reactor k)
  retire r = change_events k disable_all_event here ptr r >>= λ r'. remove_from_loop k here ptr r'

  pub retire-KeepsTo : KeepsTo k here ptr retire
  unfolding disable_all_event is_none_event
  retire-KeepsTo r o =
      Returns->>= _ _ (change_events k disable_all_event here ptr r) _
        (Returns-both (Updated k ptr (with_events k here ptr r disable_all_event) r) (Frame k ptr r)
          (change_events k disable_all_event here ptr r)
          (change_events-Updated k here ptr r o.inv o.loop o.thread o.fresh disable_all_event)
          (change_events-Frame k ptr here disable_all_event r))
        (λ r' (u, f).
          let g = Updated-Goes disable_all_event r r' o u f in
          Returns-mono _ _ (remove_from_loop k here ptr r')
            (remove-Goes r' g.0 (ap is_none_event u.events))
            (λ s h. (h.0, Apart-trans k here ptr r r' s g.1 h.1)))
