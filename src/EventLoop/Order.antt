-- ===== src/EventLoop/Order.antt =====
-- src/eventloop.cpp: the calls that are queued, and the order in which they are made.
use benet.Prelude.{
  ℕ, ◌≡◌, inl, inr, refl, sym, ap, ◌∙◌, List, [], ◌∷◌, ◌++◌, append_assoc, append-nil, Bool-cases,
}
use benet.EventLoop.{
  Eventfd, Phase, testing, polling, handling, calling, stopped, EventLoop, set_wakeup, reset_wakeup,
  push_pending, queue_own, queue_foreign, stop_own, stop_foreign, enter, test, begin_handling,
  take_pendings, call_next, end_calling, Step, tests, polls, resets, takes, calls, ends, queues_own,
  stops_own, queues_foreign, stops_foreign, wakes, init, Reach, here, next, AllOwn,
}

-- The calls taken over and not yet made.
abbrev pub taken : Phase → List ℕ
taken testing = []
taken polling = []
taken handling = []
taken (calling rest) = rest
taken stopped = []

module _ (w : Eventfd) where
  open w use {State}

  -- Each call that was ever queued has been made, or has been taken over, or is pending, in order.
  abbrev pub InOrder : EventLoop w → Type 0
  InOrder l = l.called ++ (taken l.phase ++ l.pendings) ≡ l.queued

  pushed :
      (called rest pendings queued : List ℕ) (call : ℕ)
      → called ++ (rest ++ pendings) ≡ queued
      → called ++ (rest ++ (pendings ++ call ∷ [])) ≡ queued ++ call ∷ []
  pushed called rest pendings queued call e =
      ap (◌++◌ called) (sym (append_assoc rest pendings (call ∷ [])))
      ∙ sym (append_assoc called (rest ++ pendings) (call ∷ []))
      ∙ ap (λ q. q ++ call ∷ []) e

  at_phase :
      (l : EventLoop w) (ph : Phase)
      → l.phase ≡ ph
      → InOrder l
      → l.called ++ (taken ph ++ l.pendings) ≡ l.queued
  at_phase l ph e a = ap (λ x. l.called ++ (taken x ++ l.pendings)) (sym e) ∙ a

  test-InOrder : (l : EventLoop w) → l.phase ≡ testing → InOrder l → InOrder (test w l)
  unfolding test
  test-InOrder l e a = elim (Bool-cases l.quitting) [
    | inl q ↦ rw q (at_phase l testing e a)
    | inr q ↦ rw q (at_phase l testing e a)
  ]

  queue_own-InOrder : (call : ℕ) (l : EventLoop w) → InOrder l → InOrder (queue_own w call l)
  unfolding queue_own push_pending set_wakeup
  queue_own-InOrder call l a = elim (Bool-cases l.calling_pendings) [
    | inl q ↦ rw q (pushed l.called (taken l.phase) l.pendings l.queued call a)
    | inr q ↦ rw q (pushed l.called (taken l.phase) l.pendings l.queued call a)
  ]

  Step-InOrder : {l m : EventLoop w} → Step w l m → InOrder l → InOrder m
  unfolding begin_handling reset_wakeup take_pendings call_next end_calling stop_own queue_foreign
      stop_foreign set_wakeup push_pending
  Step-InOrder {l} (tests e) a = test-InOrder l e a
  Step-InOrder {l} (polls e) a = at_phase l polling e a
  Step-InOrder {l} (resets e) a = a
  Step-InOrder {l} (takes e) a =
      ap (◌++◌ l.called) (append-nil l.pendings) ∙ at_phase l handling e a
  Step-InOrder {l} (calls call rest e) a =
      append_assoc l.called (call ∷ []) (rest ++ l.pendings)
      ∙ at_phase l (calling (call ∷ rest)) e a
  Step-InOrder {l} (ends e) a = at_phase l (calling []) e a
  Step-InOrder {l} (queues_own call b) a = queue_own-InOrder call l a
  Step-InOrder {l} (stops_own b) a = a
  Step-InOrder {l} (queues_foreign call) a =
      pushed l.called (taken l.phase) l.pendings l.queued call a
  Step-InOrder {l} stops_foreign a = a
  Step-InOrder {l} (wakes n e) a = a

  Reach-InOrder : {l m : EventLoop w} → Reach w l m → InOrder l → InOrder m
  Reach-InOrder here a = a
  Reach-InOrder (next r st) a = Step-InOrder st (Reach-InOrder r a)

  -- Whatever the threads do in whatever order, the calls made so far, then those taken over, then
  -- those pending are exactly the calls queued since the start, in the order of their entry into the
  -- list: none is lost, made twice or overtaken.
  pub calls_in_order :
      (s : State) {l : EventLoop w}
      → Reach w (enter w (init w s)) l
      → l.called ++ (taken l.phase ++ l.pendings) ≡ l.queued
  unfolding enter init
  calls_in_order s r = Reach-InOrder r refl

  -- What a round of the loop comes to.
  abbrev pub Round : EventLoop w → List ℕ → EventLoop w → Type 0
  Round l made m =
      (m.phase ≡ testing)
      × (m.called ≡ l.called ++ made)
      × (m.pendings ≡ [])
      × (m.quitting ≡ l.quitting)

  call_all :
      (xs : List ℕ) (start l : EventLoop w) (r : Reach w start l)
      → AllOwn w r
      → l.phase ≡ calling xs
      → l.pendings ≡ []
      → (m : EventLoop w) × (r' : Reach w start m) × AllOwn w r' × Round l xs m
  unfolding call_next end_calling
  call_all [] start l r own e p =
      (end_calling w l, next r (ends e), (own, refl), (refl, sym (append-nil l.called), p, refl))
  call_all (x ∷ xs) start l r own e p =
      let (m, reach, own', made) =
        call_all xs start (call_next w x xs l) (next r (calls x xs e)) (own, refl) refl p in
      (m, reach, own', (made.0, made.1 ∙ append_assoc l.called (x ∷ []) xs, made.2, made.3))

  -- From `Poll` the loop thread alone, in finitely many steps, makes exactly the calls that were
  -- pending, in order, and comes to its test with nothing pending.
  pub makes_all_pendings :
      (l : EventLoop w)
      → l.phase ≡ polling
      → (m : EventLoop w) × (r : Reach w l m) × AllOwn w r × Round l l.pendings m
  unfolding begin_handling take_pendings
  makes_all_pendings l e =
      call_all l.pendings l (take_pendings w (begin_handling w l))
        (next (next here (polls e)) (takes refl)) ((tt, refl), refl) refl refl
