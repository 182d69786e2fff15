-- ===== src/Reactor/Wiring/Pair.antt =====
-- src/channel.cpp, src/eventloop.cpp: a loop of two channels, and the calls on one of them.
use benet.Prelude.{
  ℕ, ◌≡◌, ◌≢◌, refl, sym, ap, ◌∙◌, true, false, none, some, inl, inr, Option-cases, ℕ_discrete,
  Returns, Returns->>=, Returns-mono, Returns-both,
}
use benet.Channel.{new_channel, is_none_event, disable_all_event}
use benet.Reactor.{Reactor, change_events, remove_from_loop}
use benet.Reactor.Kernel.{Epoll}
use benet.Reactor.Registry.{Inv}
use benet.Reactor.Calls.{Updated, Removed}
use benet.Reactor.Loop.{with_events, change_events-Updated, remove_from_loop-Removed}
use benet.Reactor.Wiring.{retire_channel}
use benet.Reactor.Round.Frame.{Frame, change_events-Frame, remove_from_loop-Frame}

module _ (k : Epoll) (here : ℕ) where
  -- The loop has the channels at `p` and `q`, on other descriptors, and at most these are registered
  -- with it; it runs in its own thread and handles no event.
  pub record Pair (p q p_fd q_fd : ℕ) (r : Reactor k) : Type 0 where
    pub inv : Inv k r
    pub thread : here ≡ r.thread_id
    pub handing : r.event_handing ≡ false
    pub p_loop : (r.chans p).loop ≡ r.loop_id
    pub q_loop : (r.chans q).loop ≡ r.loop_id
    pub p_known : (r.chans p).fd ≡ p_fd
    pub q_known : (r.chans q).fd ≡ q_fd
    pub rest : (s : ℕ) → p ≢ s → q ≢ s → (r.chans s).index ≡ new_channel

  pub swap : (p q p_fd q_fd : ℕ) (r : Reactor k) → Pair p q p_fd q_fd r → Pair q p q_fd p_fd r
  swap p q p_fd q_fd r h = record {
    inv = h.inv;
    thread = h.thread;
    handing = h.handing;
    p_loop = h.q_loop;
    q_loop = h.p_loop;
    p_known = h.q_known;
    q_known = h.p_known;
    rest = λ s a b. h.rest s b a;
  }

  module _ (p q p_fd q_fd : ℕ) (apart : p ≢ q) (other_fd : p_fd ≢ q_fd) where
    -- A channel that is not registered has a descriptor that is not.
    free :
        (r : Reactor k)
        → Pair p q p_fd q_fd r
        → (r.chans p).index ≡ new_channel
        → r.channels (r.chans p).fd ≡ none
    free r h fresh = elim (Option-cases (r.channels (r.chans p).fd)) [
      | inl gone ↦ gone
      | inr (s, there) ↦
          let (same, live) = h.inv.named (r.chans p).fd s there in
          elim (ℕ_discrete p s) [
            | yes e ↦ absurd (live (ap (λ i. (r.chans i).index) (sym e) ∙ fresh))
            | no ne ↦ elim (ℕ_discrete q s) [
              | yes e ↦ absurd (
                  other_fd
                    (sym h.p_known ∙ sym same ∙ ap (λ i. (r.chans i).fd) (sym e) ∙ h.q_known))
              | no ne' ↦ absurd (live (h.rest s ne ne'))
            ]
          ]
    ]

    -- A call on the channel at `p` that leaves the others alone.
    kept :
        (r r' : Reactor k)
        → Pair p q p_fd q_fd r
        → Inv k r'
        → Frame k p r r'
        → ((s : ℕ) → p ≢ s → r'.chans s ≡ r.chans s)
        → Pair p q p_fd q_fd r'
    kept r r' h inv f others = record {
      inv = inv;
      thread = h.thread ∙ sym f.thread_id;
      handing = f.handing ∙ h.handing;
      p_loop = f.loop ∙ h.p_loop ∙ sym f.loop_id;
      q_loop = ap (λ c. c.loop) (others q apart) ∙ h.q_loop ∙ sym f.loop_id;
      p_known = f.fd ∙ h.p_known;
      q_known = ap (λ c. c.fd) (others q apart) ∙ h.q_known;
      rest = λ s a b. ap (λ c. c.index) (others s a) ∙ h.rest s a b;
    }

    -- What an event call leaves.
    abbrev pub Changed : (ℕ → ℕ) → Reactor k → Reactor k → Type 0
    Changed change r r' = Pair p q p_fd q_fd r' × Updated k p (with_events k here p r change) r r'

    pub change-Changed :
        (change : ℕ → ℕ) (r : Reactor k)
        → Pair p q p_fd q_fd r
        → Returns (Changed change r) (change_events k change here p r)
    change-Changed change r h =
        Returns-mono _ _ (change_events k change here p r)
          (Returns-both (Updated k p (with_events k here p r change) r) (Frame k p r)
            (change_events k change here p r)
            (change_events-Updated k here p r h.inv h.p_loop h.thread (free r h) change)
            (change_events-Frame k p here change r))
          (λ r' (u, f). (kept r r' h u.inv f u.others, u))

    -- What RemoveFromLoop leaves.
    abbrev pub Forgot : Reactor k → Reactor k → Type 0
    Forgot r r' =
        Pair p q p_fd q_fd r' × Removed k p (record (r.chans p) { added_in_loop = some false }) r r'

    pub remove-Forgot :
        (r : Reactor k)
        → Pair p q p_fd q_fd r
        → is_none_event (r.chans p).events ≡ true
        → Returns (Forgot r) (remove_from_loop k here p r)
    remove-Forgot r h quiet =
        Returns-mono _ _ (remove_from_loop k here p r)
          (Returns-both (Removed k p (record (r.chans p) { added_in_loop = some false }) r)
            (Frame k p r) (remove_from_loop k here p r)
            (remove_from_loop-Removed k here p r h.inv h.p_loop h.thread (free r h) quiet
              (rw h.handing refl))
            (remove_from_loop-Frame k p here r))
          (λ r' (u, f). (kept r r' h u.inv f u.others, u))

    -- What taking the channel out for good leaves.
    pub record Retired (r r' : Reactor k) : Type 0 where
      pub pair : Pair p q p_fd q_fd r'
      pub fresh : (r'.chans p).index ≡ new_channel
      pub others : (s : ℕ) → p ≢ s → r'.chans s ≡ r.chans s

    pub retire-Retired :
        (r : Reactor k) → Pair p q p_fd q_fd r → Returns (Retired r) (retire_channel k p here r)
    unfolding retire_channel disable_all_event is_none_event
    retire-Retired r h =
        Returns->>= _ _ (change_events k disable_all_event here p r) _
          (change-Changed disable_all_event r h)
          (λ r₁ (h₁, u₁).
            Returns-mono _ _ (remove_from_loop k here p r₁)
              (remove-Forgot r₁ h₁ (ap is_none_event u₁.events))
              (λ r₂ (h₂, u₂). record {
                pair = h₂;
                fresh = u₂.fresh;
                others = λ s ne. u₂.others s ne ∙ u₁.others s ne;
              }))
