-- ===== src/EventLoop/Ending.antt =====
-- src/eventloop.cpp: entry into the loop, its end after Stop, and the calls around it.
use benet.Prelude.{
  ℕ, ◌≡◌, refl, ap, ◌∙◌, inl, inr, Bool-cases, assert_failed, [], ◌++◌, Bool, true, false, not,
  Option, none, some, if◌then◌else◌, Outcome, ok, critical, assert, ◌>>◌,
}
use benet.EventLoop.{
  Eventfd, polling, stopped, EventLoop, enter, test, queue_foreign, tests, Reach, next, AllOwn,
}
use benet.EventLoop.Order.{makes_all_pendings}

-- The constructor, by `tThreadEventLoop`: the new value of it, if the thread has no loop.
unfoldable pub construct : ℕ → Option ℕ → Outcome (Option ℕ)
construct loop none = ok (some loop)
construct loop (some other) = critical

module _ (w : Eventfd) where
  -- The assert of the destructor, and the new value of `tThreadEventLoop`.
  unfoldable pub destruct : EventLoop w → Outcome (Option ℕ)
  destruct l = do assert (not l.running); ok none

  -- `Start` up to its first test, by a thread that is or is not the loop's.
  unfoldable pub start : Bool → EventLoop w → Outcome (EventLoop w)
  start in_loop_thread l =
      let entered = (do assert (not l.running); assert (not l.quitting); ok (enter w l)) in
      if in_loop_thread then entered else critical

  -- `RunInLoop`: what another thread's call comes to is a queued call; the loop's thread makes it at
  -- once, by `call`.
  unfoldable pub run_in_loop : Bool → (EventLoop w → EventLoop w) → ℕ → EventLoop w → EventLoop w
  run_in_loop in_loop_thread call name l = if in_loop_thread then call l else queue_foreign w name l

  leaves_loop :
      (m : EventLoop w)
      → m.quitting ≡ true
      → test w m ≡ record m { running = false; phase = stopped }
  unfolding test
  leaves_loop m q =
      ap
        (λ b.
          if b then record m { running = false; phase = stopped } else record m { phase = polling })
        q

  -- A loop in `Poll` that was told to stop ends once `Poll` returns: by steps of the loop thread
  -- alone, finitely many, it makes exactly the calls that were pending, in order, and then leaves
  -- Start, with nothing pending.
  pub stop_ends :
      (l : EventLoop w)
      → l.phase ≡ polling
      → l.quitting ≡ true
      → (m : EventLoop w) × (r : Reach w l m) × AllOwn w r
        × (m.phase ≡ stopped)
        × (m.running ≡ false)
        × (m.called ≡ l.called ++ l.pendings)
        × (m.pendings ≡ [])
  stop_ends l e q =
      let (m, r, own, made) = makes_all_pendings w l e in
      let left = leaves_loop m (made.3 ∙ q) in
      (
        test w m,
        next r (tests made.0),
        (own, refl),
        ap (λ n. n.phase) left,
        ap (λ n. n.running) left,
        ap (λ n. n.called) left ∙ made.1,
        ap (λ n. n.pendings) left ∙ made.2,
      )

  -- A loop that was stopped cannot be started again: `quitting_` stays set, and the second assertion
  -- of Start fails, if not the first.
  pub restart_fails : (l : EventLoop w) → l.quitting ≡ true → start true l ≡ assert_failed
  unfolding start
  restart_fails l q = elim (Bool-cases l.running) [ inl t ↦ rw t refl | inr t ↦ rw (t, q) refl ]
