-- ===== src/EventLoopThread/Progress.antt =====
-- src/eventloop_thread.cpp: the steps that lead on from each state of the two threads.
use benet.Prelude.{ℕ, ◌≡◌, inl, inr, refl, sym, ap, subst, true, false, some, ◌||◌, arith}
use benet.EventLoopThread.{
  Worker, absent, begun, calling_back, storing, notifying, looping, leaving, ended, aborted, Owner,
  waiting, returned, joining, gone, EventLoopThread, test_loop, found, join, construct_loop,
  call_back, store_loop, leave_loop, reset_loop, Joinable, no_thread, at_end, tests, joins,
  constructs, calls_back, stores, leaves, resets, Reach, next,
}
use benet.EventLoopThread.States.{Body}

-- The new thread is not just before `loop.Start()`, and the assert there has not failed.
abbrev pub PastEntry : Worker → Type 0
PastEntry notifying = ⊥
PastEntry aborted = ⊥
PastEntry _ = Unit

module _ (loop : ℕ) (t₀ : EventLoopThread) where
  -- The threads can go on to a state of the owner.
  abbrev pub LeadsTo : Owner → Type 0
  LeadsTo o = (u : EventLoopThread) × Reach loop false t₀ u × (u.owner ≡ o)

  sees_pointer :
      {t : EventLoopThread}
      → Reach loop false t₀ t
      → t.loop ≡ some loop
      → t.owner ≡ waiting
      → LeadsTo (returned loop)
  unfolding test_loop
  sees_pointer {t} r p e = (test_loop t, next r (tests e), ap (λ x. found x t.owner) p)

  from_storing :
      {t : EventLoopThread}
      → Reach loop false t₀ t
      → t.worker ≡ storing
      → t.owner ≡ waiting
      → LeadsTo (returned loop)
  unfolding store_loop
  from_storing {t} r w e = sees_pointer (next r (stores w)) refl e

  from_callback :
      {t : EventLoopThread}
      → Reach loop false t₀ t
      → t.worker ≡ calling_back
      → t.owner ≡ waiting
      → LeadsTo (returned loop)
  unfolding call_back
  from_callback {t} r w e = from_storing (next r (calls_back w)) refl e

  from_start :
      {t : EventLoopThread}
      → Reach loop false t₀ t
      → t.worker ≡ begun
      → t.owner ≡ waiting
      → LeadsTo (returned loop)
  unfolding construct_loop
  from_start {t} r w e = from_callback (next r (constructs w)) refl e

  joins_worker :
      {t : EventLoopThread}
      → Reach loop false t₀ t
      → Joinable t.worker
      → t.owner ≡ joining
      → LeadsTo gone
  unfolding join
  joins_worker {t} r j e = (join t, next r (joins e j), refl)

  ends_joined :
      {t : EventLoopThread}
      → Reach loop false t₀ t
      → t.worker ≡ ended
      → t.owner ≡ joining
      → LeadsTo gone
  ends_joined {t} r w e = joins_worker r (subst Joinable (sym w) at_end) e

  from_leaving :
      {t : EventLoopThread}
      → Reach loop false t₀ t
      → t.worker ≡ leaving
      → t.owner ≡ joining
      → LeadsTo gone
  unfolding reset_loop
  from_leaving {t} r w e = ends_joined (next r (resets w)) refl e

  from_loop :
      {t : EventLoopThread}
      → Reach loop false t₀ t
      → t.worker ≡ looping
      → t.told ≡ true
      → t.owner ≡ joining
      → LeadsTo gone
  unfolding leave_loop
  from_loop {t} r w told e = from_leaving (next r (leaves w (ap (λ b. b || false) told))) refl e

  pub from_waiting :
      {t : EventLoopThread} (w : Worker)
      → Reach loop false t₀ t
      → t.worker ≡ w
      → t.owner ≡ waiting
      → Body loop false w t.loop t.called_back t.told waiting
      → LeadsTo (returned loop)
  from_waiting absent r w e (n, f, u) = absurd u
  from_waiting begun r w e b = from_start r w e
  from_waiting calling_back r w e b = from_callback r w e
  from_waiting storing r w e b = from_storing r w e
  from_waiting notifying r w e b = sees_pointer r b.0 e
  from_waiting looping r w e b = sees_pointer r b.0 e
  from_waiting aborted r w e b = sees_pointer r b.0 e
  from_waiting leaving r w e (n, c, inl a) = absurd (ground arith)
  from_waiting leaving r w e (n, c, inr a) = absurd (ground arith)
  from_waiting ended r w e (n, c, inl a) = absurd (ground arith)
  from_waiting ended r w e (n, c, inr a) = absurd a

  pub from_joining :
      {t : EventLoopThread} (w : Worker)
      → Reach loop false t₀ t
      → PastEntry w
      → t.worker ≡ w
      → t.owner ≡ joining
      → Body loop false w t.loop t.called_back t.told joining
      → LeadsTo gone
  from_joining absent r past w e b = joins_worker r (subst Joinable (sym w) no_thread) e
  from_joining begun r past w e (n, f, u) = absurd (ground arith)
  from_joining calling_back r past w e (n, f, u) = absurd (ground arith)
  from_joining storing r past w e (n, f, u, c) = absurd (ground arith)
  from_joining notifying r past w e b = absurd past
  from_joining aborted r past w e b = absurd past
  from_joining looping r past w e b = from_loop r w b.2 e
  from_joining leaving r past w e b = from_leaving r w e
  from_joining ended r past w e b = ends_joined r w e
