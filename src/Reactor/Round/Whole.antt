-- ===== src/Reactor/Round/Whole.antt =====
-- src/eventloop.cpp: a whole round of Start, up to the pending calls.
use benet.Prelude.{
  ℕ, ◌≤◌, ◌≡◌, refl, sym, ap, ◌∙◌, subst, List, [], ◌∷◌, map, length, true, false, none, returned,
  Returns, Returns->>=, ==_ne, if◌then◌else◌,
}
use benet.Reactor.{Reactor}
use benet.Reactor.Kernel.{Epoll}
use benet.Reactor.Registry.{Inv}
use benet.Reactor.Polling.{Ready, reported, poll, Polled, poll-Polled}
use benet.Reactor.Round.{Callbacks, handle_channels, handle_actives, poll_round}
use benet.Reactor.Round.Safe.{AllKeep, Marks, marked}
use benet.Reactor.Round.Handling.{Absent, Distinct, AllReady, Handled, handle_channels-Handled}

module _ (k : Epoll) (here : ℕ) where
  module _ (cs : Callbacks k) (keep : AllKeep k here cs) (time : ℕ) where
    -- What a round with the ready events leaves, up to the pending calls.
    pub record Ended (ready : Ready) (r r' : Reactor k) : Type 0 where
      pub inv : Inv k r'
      pub handing : r'.event_handing ≡ false
      pub current : r'.current_active_channel ≡ none
      pub others : (q : ℕ) → Absent q (map (λ e. e.1) ready) → r'.chans q ≡ r.chans q

    polled-AllReady :
        (ps : List ℕ) (r r' : Reactor k)
        → ((q : ℕ) → (r'.chans q).loop ≡ (r.chans q).loop)
        → Marks k here r.chans r'.chans
        → r'.loop_id ≡ r.loop_id
        → AllReady k here r ps
        → AllReady k here r' ps
    polled-AllReady [] r r' loops same id ready = tt
    polled-AllReady (p ∷ ps) r r' loops same id ready =
        let (_, i, _) = same p in
        (
          loops p ∙ ready.0 ∙ sym id,
          λ e. ready.1 (sym i ∙ e),
          polled-AllReady ps r r' loops same id ready.2,
        )

    untold :
        (ready : Ready) (q old : ℕ) → Absent q (map (λ e. e.1) ready) → reported k ready q old ≡ old
    untold [] q old a = refl
    untold ((revents, p) ∷ ready) q old a =
        ap (λ b. reported k ready q (if b then revents else old)) (==_ne p q (λ e. a.0 (sym e)))
        ∙ untold ready q old a.1

    actives-Ended :
        (ready : Ready) (r r' : Reactor k)
        → Inv k r
        → here ≡ r.thread_id
        → Distinct (map (λ e. e.1) ready)
        → AllReady k here r (map (λ e. e.1) ready)
        → Polled k ready (record r { active_channels = [] }) r'
        → Returns (Ended ready r) (handle_actives k cs time r')
    unfolding handle_actives
    actives-Ended ready r r' inv thread distinct all_ready p =
        let ptrs = map (λ e. e.1) ready in
        let same : Marks k here r.chans r'.chans = λ q. (
          ap (λ c. c.fd) (p.told q),
          ap (λ c. c.index) (p.told q),
          ap (λ c. c.events) (p.told q),
        ) in
        let begun : Reactor k = record r' { event_handing = true } in
        Returns->>= (Handled k here ptrs begun) _
          (handle_channels k cs time r'.active_channels begun) _
          (subst (λ ps. Returns (Handled k here ptrs begun) (handle_channels k cs time ps begun))
            (sym p.actives)
            (handle_channels-Handled k here cs keep time ptrs begun
              (marked k here r begun same p.registered p.kernel inv) (thread ∙ sym p.thread_id) refl
              distinct
              (polled-AllReady ptrs r begun (λ q. ap (λ c. c.loop) (p.told q)) same p.loop_id
                all_ready)))
          (λ s h. record {
            inv =
                marked k here s (record s { event_handing = false }) (λ q. (refl, refl, refl)) refl
                  refl h.inv;
            handing = refl;
            current = h.current;
            others = λ q a.
                h.others q a
                ∙ p.told q
                ∙ ap (λ v. record (r.chans q) { revents = v })
                    (untold ready q (r.chans q).revents a);
          })

    -- A round in the loop's own thread, where the kernel reports at most as many events as `events_`
    -- holds, each for another channel that is registered with this loop, and the callbacks of every
    -- channel change or remove that channel only, as the invariant allows: it comes to the pending
    -- calls. No assertion on the way fails, that of RemoveChannel included; the invariant of map,
    -- indices and interest list holds again, the loop handles no channel any more, and a channel for
    -- which nothing was reported is as it was.
    pub poll_round-Ended :
        (size : ℕ) (ready : Ready) (r : Reactor k)
        → 2 ≤ size
        → length ready ≤ size
        → Inv k r
        → here ≡ r.thread_id
        → Distinct (map (λ e. e.1) ready)
        → AllReady k here r (map (λ e. e.1) ready)
        → Returns (λ p. Ended ready r p.1) (poll_round k cs time size (returned ready) r)
    unfolding poll_round
    poll_round-Ended size ready r two fits inv thread distinct all_ready =
        Returns->>= _ _ (poll k size (returned ready) (record r { active_channels = [] })) _
          (poll-Polled k size ready (record r { active_channels = [] }) two fits)
          (λ p h.
            Returns->>= _ _ (handle_actives k cs time p.1) _
              (actives-Ended ready r p.1 inv thread distinct all_ready h.2) (λ s e. e))
