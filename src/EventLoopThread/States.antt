-- ===== src/EventLoopThread/States.antt =====
-- src/eventloop_thread.cpp: what holds of the two threads in each of their states, and what the moves
-- of each change about it.
use benet.Prelude.{
  ℕ, ◌≡◌, ◌⊎◌, inl, inr, refl, sym, subst, Bool, true, false, Option, none, some, ◌||◌, arith,
}
use benet.EventLoopThread.{
  Worker, absent, begun, calling_back, storing, notifying, looping, leaving, ended, aborted, Owner,
  idle, waiting, returned, destructing, joining, gone, EventLoopThread, found, tells, Settled,
  unused, used, Joinable, no_thread, at_end,
}

abbrev Unstarted : Owner → Type 0
Unstarted waiting = ⊥
Unstarted (returned _) = ⊥
Unstarted _ = Unit

-- The owner, while the loop runs, by whether it was told to stop.
abbrev pub Alive : Bool → Owner → Type 0
Alive told waiting = told ≡ false
Alive told (returned _) = told ≡ false
Alive told destructing = told ≡ false
Alive told joining = told ≡ true
Alive told idle = ⊥
Alive told gone = ⊥

abbrev Going : Owner → Type 0
Going idle = ⊥
Going gone = ⊥
Going _ = Unit

abbrev Active : Owner → Type 0
Active idle = ⊥
Active _ = Unit

abbrev Finished : Owner → Type 0
Finished joining = Unit
Finished gone = Unit
Finished _ = ⊥

module _ (loop : ℕ) (others_stop : Bool) where
  -- What `Start` has returned is the loop, after its init callback.
  abbrev pub Point : Bool → Owner → Type 0
  Point called (returned l) = (l ≡ loop) × (called ≡ true)
  Point called _ = Unit

  abbrev pub Body : Worker → Option ℕ → Bool → Bool → Owner → Type 0
  Body absent p called told o = (p ≡ none) × (told ≡ false) × Unstarted o
  Body begun p called told o = (p ≡ none) × (told ≡ false) × (o ≡ waiting)
  Body calling_back p called told o = (p ≡ none) × (told ≡ false) × (o ≡ waiting)
  Body storing p called told o = (p ≡ none) × (told ≡ false) × (o ≡ waiting) × (called ≡ true)
  Body notifying p called told o = (p ≡ some loop) × (called ≡ true) × Alive told o
  Body looping p called told o = (p ≡ some loop) × (called ≡ true) × Alive told o
  Body aborted p called told o =
      (p ≡ some loop) × (called ≡ true) × Alive told o × ((told || others_stop) ≡ true)
  Body leaving p called told o =
      (p ≡ some loop) × (called ≡ true) × (((others_stop ≡ true) × Going o) ⊎ (o ≡ joining))
  Body ended p called told o =
      (p ≡ none) × (called ≡ true) × (((others_stop ≡ true) × Active o) ⊎ Finished o)

  pub record Inv (t : EventLoopThread) : Type 0 where
    pub point : Point t.called_back t.owner
    pub body : Body t.worker t.loop t.called_back t.told t.owner

  absurd_pointer : {l : ℕ} → some l ≡ none → ⊥
  absurd_pointer e = cc

  pub tests_found :
      (w : Worker) (p : Option ℕ) (called told : Bool)
      → Body w p called told waiting
      → Point called (found p waiting) × Body w p called told (found p waiting)
  tests_found w none called told b = (tt, b)
  tests_found absent (some l) called told b = absurd (absurd_pointer b.0)
  tests_found begun (some l) called told b = absurd (absurd_pointer b.0)
  tests_found calling_back (some l) called told b = absurd (absurd_pointer b.0)
  tests_found storing (some l) called told b = absurd (absurd_pointer b.0)
  tests_found notifying (some l) called told (p, c, a) = ((ground arith, c), (p, c, a))
  tests_found looping (some l) called told (p, c, a) = ((ground arith, c), (p, c, a))
  tests_found aborted (some l) called told (p, c, a, s) = ((ground arith, c), (p, c, a, s))
  tests_found leaving (some l) called told (p, c, inl a) =
      ((ground arith, c), (p, c, inl (a.0, tt)))
  tests_found leaving (some l) called told (p, c, inr a) = absurd (ground arith)
  tests_found ended (some l) called told b = absurd (absurd_pointer b.0)

  pub destructs_kept :
      {o : Owner} (w : Worker) (p : Option ℕ) (called told : Bool)
      → Settled o
      → Body w p called told o
      → Body w p called told destructing
  destructs_kept absent p called told s (n, f, u) = (n, f, tt)
  destructs_kept begun p called told unused (n, f, u) = absurd (ground arith)
  destructs_kept begun p called told (used l) (n, f, u) = absurd (ground arith)
  destructs_kept calling_back p called told unused (n, f, u) = absurd (ground arith)
  destructs_kept calling_back p called told (used l) (n, f, u) = absurd (ground arith)
  destructs_kept storing p called told unused (n, f, u, c) = absurd (ground arith)
  destructs_kept storing p called told (used l) (n, f, u, c) = absurd (ground arith)
  destructs_kept notifying p called told unused (n, c, a) = absurd a
  destructs_kept notifying p called told (used l) (n, c, a) = (n, c, a)
  destructs_kept looping p called told unused (n, c, a) = absurd a
  destructs_kept looping p called told (used l) (n, c, a) = (n, c, a)
  destructs_kept aborted p called told unused (n, c, a, s) = absurd a
  destructs_kept aborted p called told (used l) (n, c, a, s) = (n, c, a, s)
  destructs_kept leaving p called told s (n, c, inl a) = (n, c, inl (a.0, tt))
  destructs_kept leaving p called told unused (n, c, inr a) = absurd (ground arith)
  destructs_kept leaving p called told (used l) (n, c, inr a) = absurd (ground arith)
  destructs_kept ended p called told s (n, c, inl a) = (n, c, inl (a.0, tt))
  destructs_kept ended p called told unused (n, c, inr a) = absurd a
  destructs_kept ended p called told (used l) (n, c, inr a) = absurd a

  pub stops_told :
      (w : Worker) (p : Option ℕ) (called told : Bool)
      → Body w p called told destructing
      → Body w p called (tells p told) joining
  stops_told absent none called told (n, f, u) = (n, f, tt)
  stops_told absent (some l) called told b = absurd (absurd_pointer b.0)
  stops_told begun p called told (n, f, u) = absurd (ground arith)
  stops_told calling_back p called told (n, f, u) = absurd (ground arith)
  stops_told storing p called told (n, f, u, c) = absurd (ground arith)
  stops_told notifying none called told (n, c, a) = absurd (absurd_pointer (sym n))
  stops_told notifying (some l) called told (n, c, a) = (n, c, refl)
  stops_told looping none called told (n, c, a) = absurd (absurd_pointer (sym n))
  stops_told looping (some l) called told (n, c, a) = (n, c, refl)
  stops_told aborted none called told (n, c, a, s) = absurd (absurd_pointer (sym n))
  stops_told aborted (some l) called told (n, c, a, s) = (n, c, refl, refl)
  stops_told leaving p called told (n, c, a) = (n, c, inr refl)
  stops_told ended none called told (n, c, a) = (n, c, inr tt)
  stops_told ended (some l) called told b = absurd (absurd_pointer b.0)

  pub joins_ended :
      {w : Worker} (p : Option ℕ) (called told : Bool)
      → Joinable w
      → Body w p called told joining
      → Body w p called told gone
  joins_ended p called told no_thread (n, f, u) = (n, f, tt)
  joins_ended p called told at_end (n, c, a) = (n, c, inr tt)

  pub leaves_loop :
      (p : Option ℕ) (called told : Bool) (o : Owner)
      → (told || others_stop) ≡ true
      → Body looping p called told o
      → Body leaving p called told o
  leaves_loop p called told idle stop (n, c, a) = absurd a
  leaves_loop p called told waiting stop (n, c, a) = (n, c, inl (ground arith, tt))
  leaves_loop p called told (returned l) stop (n, c, a) = (n, c, inl (ground arith, tt))
  leaves_loop p called told destructing stop (n, c, a) = (n, c, inl (ground arith, tt))
  leaves_loop p called told joining stop (n, c, a) = (n, c, inr refl)
  leaves_loop p called told gone stop (n, c, a) = absurd a

  pub resets_pointer :
      (o : Owner)
      → ((others_stop ≡ true) × Going o) ⊎ (o ≡ joining)
      → ((others_stop ≡ true) × Active o) ⊎ Finished o
  resets_pointer idle (inl (s, g)) = absurd g
  resets_pointer waiting (inl (s, g)) = inl (s, tt)
  resets_pointer (returned l) (inl (s, g)) = inl (s, tt)
  resets_pointer destructing (inl (s, g)) = inl (s, tt)
  resets_pointer joining (inl (s, g)) = inl (s, tt)
  resets_pointer gone (inl (s, g)) = absurd g
  resets_pointer o (inr e) = inr (subst Finished (sym e) tt)

  -- An owner that is still in `Start` was not given a pointer.
  pub waiting_owner : (called : Bool) (o : Owner) → o ≡ waiting → Point called o
  waiting_owner called o e = subst (Point called) (sym e) tt

  pub starts_thread :
      (w : Worker) (p : Option ℕ) (called told : Bool)
      → Body w p called told idle
      → Body begun p called told waiting
  starts_thread absent p called told (n, f, u) = (n, f, refl)
  starts_thread begun p called told (n, f, u) = absurd (ground arith)
  starts_thread calling_back p called told (n, f, u) = absurd (ground arith)
  starts_thread storing p called told (n, f, u, c) = absurd (ground arith)
  starts_thread notifying p called told (n, c, a) = absurd a
  starts_thread looping p called told (n, c, a) = absurd a
  starts_thread aborted p called told (n, c, a, s) = absurd a
  starts_thread leaving p called told (n, c, inl a) = absurd a.1
  starts_thread leaving p called told (n, c, inr a) = absurd (ground arith)
  starts_thread ended p called told (n, c, inl a) = absurd a.1
  starts_thread ended p called told (n, c, inr a) = absurd a

  pub of_worker :
      (t : EventLoopThread) (w : Worker)
      → t.worker ≡ w
      → Inv t
      → Body w t.loop t.called_back t.told t.owner
  of_worker t w e inv = subst (λ x. Body x t.loop t.called_back t.told t.owner) e inv.body

  pub of_owner :
      (t : EventLoopThread) (o : Owner)
      → t.owner ≡ o
      → Inv t
      → Body t.worker t.loop t.called_back t.told o
  of_owner t o e inv = subst (λ x. Body t.worker t.loop t.called_back t.told x) e inv.body
