-- ===== src/EventLoop/Wakeup.antt =====
-- src/eventloop.cpp: queued calls and stops, while the loop is in `Poll`.
use benet.Prelude.{
  ℕ, ◌<◌, ◌≡◌, ◌≢◌, ◌⊎◌, inl, inr, refl, sym, subst, ◌∙◌, List, [], ◌∷◌, Bool, true, false, arith,
  Bool-cases,
}
use benet.EventLoop.{
  Eventfd, Phase, testing, polling, handling, calling, stopped, EventLoop, set_wakeup, reset_wakeup,
  push_pending, queue_own, queue_foreign, stop_own, stop_foreign, enter, test, begin_handling,
  take_pendings, call_next, end_calling, Busy, in_handler, in_call, Step, tests, polls, resets,
  takes, calls, ends, queues_own, stops_own, queues_foreign, stops_foreign, wakes, init, Reach,
  here, next,
}

-- The eventfd is readable, so that `Poll` returns at once, or some thread is about to write it.
abbrev pub Wakes : Bool → ℕ → Type 0
Wakes ready in_flight = (ready ≡ true) ⊎ (0 < in_flight)

-- What holds at each phase, of `calling_pendings_`, the pending calls, `quitting_`, the eventfd and
-- the threads on their way to it.
abbrev pub AwakeAt : Phase → Bool → List ℕ → Bool → Bool → ℕ → Type 0
AwakeAt testing in_calls pendings quitting ready n =
    (in_calls ≡ false) × ((pendings ≡ []) ⊎ Wakes ready n)
AwakeAt polling in_calls pendings quitting ready n =
    (in_calls ≡ false) × (((pendings ≡ []) × (quitting ≡ false)) ⊎ Wakes ready n)
AwakeAt handling in_calls pendings quitting ready n = in_calls ≡ false
AwakeAt (calling rest) in_calls pendings quitting ready n =
    (in_calls ≡ true) × ((pendings ≡ []) ⊎ Wakes ready n)
AwakeAt stopped in_calls pendings quitting ready n = Unit {0}

true_ne_false : true ≢ false
true_ne_false e = cc

-- Once the eventfd is readable, or about to be, the rest does not matter.
awake_by :
    (ph : Phase) (c : Bool) (p p' : List ℕ) (q q' r r' : Bool) (n n' : ℕ)
    → Wakes r' n'
    → AwakeAt ph c p q r n
    → AwakeAt ph c p' q' r' n'
awake_by testing c p p' q q' r r' n n' h a = (a.0, inr h)
awake_by polling c p p' q q' r r' n n' h a = (a.0, inr h)
awake_by handling c p p' q q' r r' n n' h a = a
awake_by (calling rest) c p p' q q' r r' n n' h a = (a.0, inr h)
awake_by stopped c p p' q q' r r' n n' h a = tt

module _ (w : Eventfd) where
  open w use {State, readable, write_one, readable_lem}

  abbrev pub Awake : EventLoop w → Type 0
  Awake l = AwakeAt l.phase l.calling_pendings l.pendings l.quitting (readable l.wakeup) l.in_flight

  at_phase :
      (l : EventLoop w) (ph : Phase)
      → l.phase ≡ ph
      → Awake l
      → AwakeAt ph l.calling_pendings l.pendings l.quitting (readable l.wakeup) l.in_flight
  at_phase l ph e a =
      subst
        (λ x. AwakeAt x l.calling_pendings l.pendings l.quitting (readable l.wakeup) l.in_flight) e
        a

  of_phase :
      (l : EventLoop w) (ph : Phase)
      → l.phase ≡ ph
      → AwakeAt ph l.calling_pendings l.pendings l.quitting (readable l.wakeup) l.in_flight
      → Awake l
  of_phase l ph e a =
      subst
        (λ x. AwakeAt x l.calling_pendings l.pendings l.quitting (readable l.wakeup) l.in_flight)
        (sym e) a

  Busy-cases : {ph : Phase} → Busy w ph → (ph ≡ handling) ⊎ ((rest : List ℕ) × (ph ≡ calling rest))
  Busy-cases in_handler = inl refl
  Busy-cases (in_call rest) = inr (rest, refl)

  test-Awake : (l : EventLoop w) → l.phase ≡ testing → Awake l → Awake (test w l)
  unfolding test
  test-Awake l e a = elim (Bool-cases l.quitting) [
    | inl q ↦ rw q tt
    | inr q ↦
        let (off, left) = at_phase l testing e a in
        rw q (off, elim left [ inl none_left ↦ inl (none_left, refl) | inr h ↦ inr h ])
  ]

  queue_own-Awake :
      (call : ℕ) (l : EventLoop w) → Busy w l.phase → Awake l → Awake (queue_own w call l)
  unfolding queue_own push_pending set_wakeup
  queue_own-Awake call l b a = elim (Busy-cases b) [
    | inl e ↦ let off : l.calling_pendings ≡ false = at_phase l handling e a in rw (off, e) refl
    | inr (rest, e) ↦
        let (on, left) = at_phase l (calling rest) e a in
        rw (on, e) (refl, inr (inl (readable_lem l.wakeup)))
  ]

  -- Every step of any thread keeps this.
  pub Step-Awake : {l m : EventLoop w} → Step w l m → Awake l → Awake m
  unfolding begin_handling reset_wakeup take_pendings call_next end_calling stop_own queue_foreign
      stop_foreign set_wakeup push_pending
  Step-Awake {l} (tests e) a = test-Awake l e a
  Step-Awake {l} (polls e) a = (at_phase l polling e a).0
  Step-Awake {l} (resets e) a = of_phase (reset_wakeup w l) handling e (at_phase l handling e a)
  Step-Awake {l} (takes e) a = (refl, inl refl)
  Step-Awake {l} (calls call rest e) a = at_phase l (calling (call ∷ rest)) e a
  Step-Awake {l} (ends e) a = (refl, (at_phase l (calling []) e a).1)
  Step-Awake {l} (queues_own call b) a = queue_own-Awake call l b a
  Step-Awake {l} (stops_own b) a = elim (Busy-cases b) [
    | inl e ↦ of_phase (stop_own w l) handling e (at_phase l handling e a)
    | inr (rest, e) ↦ of_phase (stop_own w l) (calling rest) e (at_phase l (calling rest) e a)
  ]
  Step-Awake {l} (queues_foreign call) a = awake_by l.phase _ _ _ _ _ _ _ _ _ (inr (omega arith)) a
  Step-Awake {l} stops_foreign a = awake_by l.phase _ _ _ _ _ _ _ _ _ (inr (omega arith)) a
  Step-Awake {l} (wakes n e) a = awake_by l.phase _ _ _ _ _ _ _ _ _ (inl (readable_lem l.wakeup)) a

  pub Reach-Awake : {l m : EventLoop w} → Reach w l m → Awake l → Awake m
  Reach-Awake here a = a
  Reach-Awake (next r st) a = Step-Awake st (Reach-Awake r a)

  -- In a loop that was started with nothing queued, whatever the threads do in whatever order:
  -- whenever the loop is in `Poll` while a call is pending or the loop has been told to stop, the
  -- eventfd is readable, or some other thread has queued or stopped and not yet written it.
  pub no_lost_wakeup :
      (s : State) {l : EventLoop w}
      → Reach w (enter w (init w s)) l
      → l.phase ≡ polling
      → (l.pendings ≢ []) ⊎ (l.quitting ≡ true)
      → Wakes (readable l.wakeup) l.in_flight
  unfolding enter init
  no_lost_wakeup s {l} r e waiting =
      elim (at_phase l polling e (Reach-Awake r (refl, inl refl))).1 [
        | inr h ↦ h
        | inl (none_left, going) ↦ elim waiting [
          | inl some_left ↦ absurd (some_left none_left)
          | inr quit ↦ absurd (true_ne_false (sym quit ∙ going))
        ]
      ]
