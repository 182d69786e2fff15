-- ===== src/Reactor/Round/Handling.antt =====
-- src/eventloop.cpp: the active channels of a round, handled one after the other.
use benet.Prelude.{
  ℕ, ◌≡◌, ◌≢◌, refl, sym, ap, ◌∙◌, List, [], ◌∷◌, Bool, true, false, not, ◌&&◌, none, some, Outcome,
  ok, Returns, Returns->>=, Returns-mono, Bool-cases, inl, inr,
}
use benet.Channel.{Channel, new_channel, handle_event}
use benet.Channel.Dispatch.{
  Event, error, close, read, write, run_one, run_all, events_in, handle_event_lem,
}
use benet.Reactor.{Reactor}
use benet.Reactor.Kernel.{Epoll}
use benet.Reactor.Registry.{Inv}
use benet.Reactor.Round.{Callbacks, set_handing, handlers, handle_channel, handle_channels}
use benet.Reactor.Round.Safe.{
  Own, Apart, Goes, AllKeep, marked, sets_handing, then_call, invoked, invoked_read,
}

abbrev pub Absent : ℕ → List ℕ → Type 0
Absent p [] = Unit
Absent p (q ∷ qs) = (p ≢ q) × Absent p qs

abbrev pub Distinct : List ℕ → Type 0
Distinct [] = Unit
Distinct (p ∷ ps) = Absent p ps × Distinct ps

module _ (k : Epoll) (here : ℕ) where
  -- The channels belong to the loop and are registered with it.
  abbrev pub AllReady : Reactor k → List ℕ → Type 0
  AllReady r [] = Unit
  AllReady r (p ∷ ps) =
      ((r.chans p).loop ≡ r.loop_id) × ((r.chans p).index ≢ new_channel) × AllReady r ps

  -- What a round leaves.
  pub record Handled (ps : List ℕ) (r r' : Reactor k) : Type 0 where
    pub inv : Inv k r'
    pub current : r'.current_active_channel ≡ none
    pub others : (q : ℕ) → Absent q ps → r'.chans q ≡ r.chans q

  module _ (cs : Callbacks k) (keep : AllKeep k here cs) (time : ℕ) where
    run_one-Goes :
        (ptr : ℕ) (e : Event) (r : Reactor k) (m : Outcome (Reactor k))
        → Returns (Goes k here ptr r) m
        → Returns (Goes k here ptr r) (run_one (handlers k cs ptr) time e m)
    run_one-Goes ptr error r m h = invoked k here ptr r m (cs.on_error ptr) (keep.error ptr) h
    run_one-Goes ptr close r m h = invoked k here ptr r m (cs.on_close ptr) (keep.close ptr) h
    run_one-Goes ptr read r m h =
        invoked_read k here ptr time r m (cs.on_read ptr) (keep.read ptr) h
    run_one-Goes ptr write r m h = invoked k here ptr r m (cs.on_write ptr) (keep.write ptr) h

    run_all-Goes :
        (ptr : ℕ) (es : List Event) (r : Reactor k) (m : Outcome (Reactor k))
        → Returns (Goes k here ptr r) m
        → Returns (Goes k here ptr r) (run_all (handlers k cs ptr) time es m)
    run_all-Goes ptr [] r m h = h
    run_all-Goes ptr (e ∷ es) r m h =
        run_all-Goes ptr es r (run_one (handlers k cs ptr) time e m) (run_one-Goes ptr e r m h)

    event-Goes :
        (ptr : ℕ) (alive : Bool) (c : Channel) (r : Reactor k)
        → Own k here ptr r
        → Returns (Goes k here ptr r) (handle_event (handlers k cs ptr) alive c time (ok r))
    event-Goes ptr alive c r o =
        rw (handle_event_lem (handlers k cs ptr) alive c time (ok r))
          (elim (Bool-cases (c.tied && not alive)) [
            | inl gone ↦ rw gone (o, record { others = λ q ne. refl; loop_id = refl })
            | inr there ↦ rw there (
                then_call k here ptr r _ (λ s. ok (set_handing k ptr false s))
                  (λ s o'. sets_handing k here ptr false s o')
                  (run_all-Goes ptr (events_in c.revents) r _ (sets_handing k here ptr true r o)))
          ])

    handle_channel-Goes :
        (ptr : ℕ) (r : Reactor k)
        → Inv k r
        → here ≡ r.thread_id
        → r.event_handing ≡ true
        → (r.chans ptr).loop ≡ r.loop_id
        → (r.chans ptr).index ≢ new_channel
        → Returns
            (Goes k here ptr (record r { current_active_channel = some ptr }))
            (handle_channel k cs time ptr r)
    unfolding handle_channel
    handle_channel-Goes ptr r inv thread handing own registered =
        event-Goes ptr _ (r.chans ptr) (record r { current_active_channel = some ptr })
          (record {
            inv =
                marked k here r (record r { current_active_channel = some ptr })
                  (λ q. (refl, refl, refl)) refl refl inv;
            loop = own;
            thread = thread;
            fresh = λ e. absurd (registered e);
            handing = handing;
            current = refl;
          })

    still-AllReady :
        (p : ℕ) (ps : List ℕ) (r s : Reactor k)
        → Absent p ps
        → Apart k here p r s
        → AllReady r ps
        → AllReady s ps
    still-AllReady p [] r s a apart ready = tt
    still-AllReady p (q ∷ qs) r s a apart ready =
        let same = apart.others q a.0 in
        (
          ap (λ c. c.loop) same ∙ ready.0 ∙ sym apart.loop_id,
          λ e. ready.1 (sym (ap (λ c. c.index) same) ∙ e),
          still-AllReady p qs r s a.1 apart ready.2,
        )

    pub handle_channels-Handled :
        (ps : List ℕ) (r : Reactor k)
        → Inv k r
        → here ≡ r.thread_id
        → r.event_handing ≡ true
        → Distinct ps
        → AllReady r ps
        → Returns (Handled ps r) (handle_channels k cs time ps r)
    unfolding handle_channels
    handle_channels-Handled [] r inv thread handing distinct ready = record {
      inv =
          marked k here r (record r { current_active_channel = none }) (λ q. (refl, refl, refl))
            refl refl inv;
      current = refl;
      others = λ q a. refl;
    }
    handle_channels-Handled (p ∷ ps) r inv thread handing distinct ready =
        Returns->>= _ _ (handle_channel k cs time p r) _
          (handle_channel-Goes p r inv thread handing ready.0 ready.1)
          (λ s g.
            Returns-mono _ _ (handle_channels k cs time ps s)
              (handle_channels-Handled ps s g.0.inv g.0.thread g.0.handing distinct.1 (
                still-AllReady p ps (record r { current_active_channel = some p }) s distinct.0 g.1
                  ready.2))
              (λ t d. record {
                inv = d.inv;
                current = d.current;
                others = λ q a. d.others q a.1 ∙ g.1.others q (λ e. a.0 (sym e));
              }))
