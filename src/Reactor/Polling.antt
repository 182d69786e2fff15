-- ===== src/Reactor/Polling.antt =====
-- src/poller.cpp: EPoller::Poll and fill_actives, on what `epoll_wait` returned: the ready events
-- with the pointers that were registered, or its failure.
use benet.Prelude.{
  ltb-true, ℕ, suc, ◌*◌, ◌/◌, ◌≤◌, ◌<◌, ◌≡◌, refl, sym, ap, ◌∙◌, List, [], ◌∷◌, ◌++◌, append_assoc,
  append-nil, map, length, not, ◌==◌, ==_iff, ==_ne, ℕ_discrete, ltb, if◌then◌else◌, Outcome, ok,
  critical, SysResult, returned, failed, Returns, arith,
}
use benet.Channel.{Channel}
use benet.Reactor.Kernel.{Epoll}
use benet.Reactor.{put, Reactor}

-- EINTR of <errno.h>.
abbrev pub eintr : ℕ
eintr = 4

-- kEventsSize, the first size of the array `events_`.
abbrev pub events_size : ℕ
events_size = 32

-- The ready events, each with its pointer.
abbrev pub Ready : Type 0
Ready = List (ℕ × ℕ)

module _ (k : Epoll) where
  -- `set_revents` on the channel at `ptr`.
  abbrev pub set_revents : ℕ → ℕ → Reactor k → Reactor k
  set_revents ptr revents r = record r {
    chans = put r.chans ptr (record (r.chans ptr) { revents = revents });
  }

  unfoldable pub fill_actives : Ready → Reactor k → Reactor k
  fill_actives [] r = r
  fill_actives ((revents, ptr) ∷ ready) r =
      let r' = set_revents ptr revents r in
      fill_actives ready (record r' { active_channels = r'.active_channels ++ ptr ∷ [] })

  -- `Poll`, after the clearing of the list by the loop: the new size of `events_`, and the loop.
  unfoldable pub poll : ℕ → SysResult Ready → Reactor k → Outcome (ℕ × Reactor k)
  poll size (returned ready) r =
      let n = length ready in
      if ltb 0 n
      then ok (if size == n then 3 * n / 2 else size, fill_actives ready r)
      else ok (size, r)
  poll size (failed errno) r = if not (errno == eintr) then critical else ok (size, r)

  -- What the kernel reports for the channel at `q`, or what was there.
  abbrev pub reported : Ready → ℕ → ℕ → ℕ
  reported [] q old = old
  reported ((revents, ptr) ∷ ready) q old = reported ready q (if ptr == q then revents else old)

  -- What a round of polling leaves: the ready channels are active, in the kernel's order, each channel
  -- has the events reported for it and is otherwise as it was, and so is the loop.
  pub record Polled (ready : Ready) (r r' : Reactor k) : Type 0 where
    pub actives : r'.active_channels ≡ r.active_channels ++ map (λ e. e.1) ready
    pub told :
        (q : ℕ) → r'.chans q ≡ record (r.chans q) { revents = reported ready q (r.chans q).revents }
    pub registered : r'.channels ≡ r.channels
    pub kernel : r'.epoll ≡ r.epoll
    pub loop_id : r'.loop_id ≡ r.loop_id
    pub thread_id : r'.thread_id ≡ r.thread_id
    pub handing : r'.event_handing ≡ r.event_handing
    pub current : r'.current_active_channel ≡ r.current_active_channel

  set_revents_lem :
      (ptr revents : ℕ) (r : Reactor k) (q : ℕ)
      → (set_revents ptr revents r).chans q
        ≡ record (r.chans q) { revents = if ptr == q then revents else (r.chans q).revents }
  set_revents_lem ptr revents r q = elim (ℕ_discrete ptr q) [
    | yes e ↦
        rw ((==_iff ptr q).1 e)
          (ap {A = ℕ} {B = Channel} (λ p. record (r.chans p) { revents = revents }) e)
    | no ne ↦ rw (==_ne ptr q ne) refl
  ]

  fill_actives-Polled : (ready : Ready) (r : Reactor k) → Polled ready r (fill_actives ready r)
  unfolding fill_actives
  fill_actives-Polled [] r = record {
    actives = sym (append-nil r.active_channels);
    told = λ q. refl;
    registered = refl;
    kernel = refl;
    loop_id = refl;
    thread_id = refl;
    handing = refl;
    current = refl;
  }
  fill_actives-Polled ((revents, ptr) ∷ ready) r =
      let r₁ : Reactor k = record (set_revents ptr revents r) {
        active_channels = r.active_channels ++ ptr ∷ [];
      } in
      let rest = fill_actives-Polled ready r₁ in
      record {
        actives = rest.actives ∙ append_assoc r.active_channels (ptr ∷ []) (map (λ e. e.1) ready);
        told = λ q.
            rest.told q
            ∙ ap {A = Channel} {B = Channel}
                (λ c. record c { revents = reported ready q c.revents })
                (set_revents_lem ptr revents r q);
        registered = rest.registered;
        kernel = rest.kernel;
        loop_id = rest.loop_id;
        thread_id = rest.thread_id;
        handing = rest.handing;
        current = rest.current;
      }

  fill_actives-nil : (r : Reactor k) → Polled [] r r
  unfolding fill_actives
  fill_actives-nil r = fill_actives-Polled [] r

  -- `Poll` on what the kernel delivered, at most as many events as `events_` holds, which are at least
  -- two: it returns, the ready channels are added to the active ones, in the kernel's order, with the
  -- events reported for them, and nothing else of the loop and its channels changes; after a full
  -- array the next one has room for more.
  pub poll-Polled :
      (size : ℕ) (ready : Ready) (r : Reactor k)
      → 2 ≤ size
      → length ready ≤ size
      → Returns
          (λ p. (length ready < p.0) × (size ≤ p.0) × Polled ready r p.1)
          (poll size (returned ready) r)
  unfolding poll
  poll-Polled size [] r two fits = (omega arith, omega arith, fill_actives-nil r)
  poll-Polled size (e ∷ ready) r two fits =
      rw (ltb-true 0 (suc (length ready)) (omega arith))
        (ground arith, ground arith, fill_actives-Polled (e ∷ ready) r)

  -- A poll that a signal interrupts changes nothing, and any other failure ends the program.
  pub poll_failed :
      (size errno : ℕ) (r : Reactor k)
      → poll size (failed errno) r ≡ (if errno == eintr then ok (size, r) else critical)
  unfolding poll
  poll_failed size errno r = ground arith
