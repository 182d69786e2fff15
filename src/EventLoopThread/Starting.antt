-- ===== src/EventLoopThread/Starting.antt =====
-- src/eventloop_thread.cpp: what Start returns, and whether it and the destructor come to their ends.
use benet.Prelude.{ℕ, ◌≡◌, ◌⊎◌, inl, inr, refl, sym, ◌∙◌, subst, Bool, true, false, arith}
use benet.EventLoopThread.{
  Worker, absent, begun, calling_back, storing, notifying, looping, leaving, ended, aborted, Owner,
  waiting, returned, destructing, joining, gone, EventLoopThread, init, stop_loop, notify, abort,
  Settled, unused, used, idle, starts, destructs, aborts, Step, Joinable, no_thread, at_end, tests,
  stops, joins, constructs, calls_back, stores, notifies, leaves, resets, Reach, here, next,
}
use benet.EventLoopThread.States.{Body, Point, of_owner}
use benet.EventLoopThread.Handshake.{reached}
use benet.EventLoopThread.Progress.{PastEntry, LeadsTo, from_waiting, from_joining}

-- The loop object exists and its thread has not left the loop.
abbrev pub Usable : Worker → Type 0
Usable w = (w ≡ notifying) ⊎ (w ≡ looping)

thread_is_up :
    (loop : ℕ) (w : Worker) (t : EventLoopThread) (l : ℕ)
    → Body loop false w t.loop t.called_back t.told (returned l)
    → Usable w
thread_is_up loop absent t l (n, f, u) = absurd u
thread_is_up loop begun t l (n, f, u) = absurd (ground arith)
thread_is_up loop calling_back t l (n, f, u) = absurd (ground arith)
thread_is_up loop storing t l (n, f, u, c) = absurd (ground arith)
thread_is_up loop notifying t l b = inl refl
thread_is_up loop looping t l b = inr refl
thread_is_up loop aborted t l (n, c, a, s) = absurd (ground (arith, a, s))
thread_is_up loop leaving t l (n, c, inl a) = absurd (ground arith)
thread_is_up loop leaving t l (n, c, inr a) = absurd (ground arith)
thread_is_up loop ended t l (n, c, inl a) = absurd (ground arith)
thread_is_up loop ended t l (n, c, inr a) = absurd a

-- Whatever the order of the two threads' steps, a pointer that Start has returned is that of the new
-- thread's loop, and the init callback has come to its end before. If nothing but the destructor
-- stops the loop, then it has not left its `Start` as long as the destructor is not called.
pub start_returns :
    (loop l : ℕ) (others_stop : Bool) {t : EventLoopThread}
    → Reach loop others_stop init t
    → t.owner ≡ returned l
    → (l ≡ loop) × (t.called_back ≡ true) × (others_stop ≡ false → Usable t.worker)
start_returns loop l others_stop {t} r e =
    let inv = reached loop others_stop r in
    let (same, called) : (l ≡ loop) × (t.called_back ≡ true) =
      subst (Point loop others_stop t.called_back) e inv.point in
    (
      same,
      called,
      λ alone. thread_is_up loop t.worker t l (
          subst (λ o. Body loop false t.worker t.loop t.called_back t.told o) e
            (subst (λ b. Body loop b t.worker t.loop t.called_back t.told t.owner) alone inv.body)),
    )

joining_unsettled : {o : Owner} → Settled o → joining ≡ o → ⊥
joining_unsettled unused e = ground arith
joining_unsettled (used l) e = ground arith

unjoinable : {w : Worker} → Joinable w → notifying ≡ w → ⊥
unjoinable no_thread e = ground arith
unjoinable at_end e = ground arith

in_owner :
    (loop : ℕ) (t : EventLoopThread) (o : Owner)
    → Reach loop false init t
    → t.owner ≡ o
    → Body loop false t.worker t.loop t.called_back t.told o
in_owner loop t o r e = of_owner loop false t o e (reached loop false r)

stops_then_joins :
    (loop : ℕ) {t₀ t : EventLoopThread}
    → Reach loop false init t
    → Reach loop false t₀ t
    → PastEntry t.worker
    → t.owner ≡ destructing
    → LeadsTo loop t₀ gone
unfolding stop_loop
stops_then_joins loop {t₀} {t} r r' past e =
    from_joining loop t₀ t.worker (next r' (stops e)) past refl refl
      (in_owner loop (stop_loop t) joining (next r (stops e)) refl)

enters_then_stops :
    (loop : ℕ) {t : EventLoopThread}
    → Reach loop false init t
    → t.worker ≡ notifying
    → t.told ≡ false
    → t.owner ≡ destructing
    → LeadsTo loop t gone
unfolding notify
enters_then_stops loop {t} r w f e =
    stops_then_joins loop (next r (notifies w f)) (next here (notifies w f)) tt e

from_destructing :
    (loop : ℕ) (w : Worker) {t : EventLoopThread}
    → Reach loop false init t
    → t.worker ≡ w
    → t.owner ≡ destructing
    → Body loop false w t.loop t.called_back t.told destructing
    → LeadsTo loop t gone
from_destructing loop notifying r w e b = enters_then_stops loop r w b.2 e
from_destructing loop aborted r w e (n, c, a, s) = absurd (ground arith)
from_destructing loop absent r w e b = stops_then_joins loop r here (subst PastEntry (sym w) tt) e
from_destructing loop begun r w e (n, f, u) = absurd (ground arith)
from_destructing loop calling_back r w e (n, f, u) = absurd (ground arith)
from_destructing loop storing r w e (n, f, u, c) = absurd (ground arith)
from_destructing loop looping r w e b = stops_then_joins loop r here (subst PastEntry (sym w) tt) e
from_destructing loop leaving r w e b = stops_then_joins loop r here (subst PastEntry (sym w) tt) e
from_destructing loop ended r w e b = stops_then_joins loop r here (subst PastEntry (sym w) tt) e

-- The destructor has told the loop to stop before it entered `loop.Start()`: the next step, whoever
-- makes it, is the failure of the assert there.
abbrev pub StoppedTooEarly : ℕ → EventLoopThread → Type 0
StoppedTooEarly loop t =
    (t.worker ≡ notifying) × ((u : EventLoopThread) → Step loop false t u → u ≡ abort t)

only_aborts :
    (loop : ℕ) {t u : EventLoopThread}
    → t.worker ≡ notifying
    → t.owner ≡ joining
    → t.told ≡ true
    → Step loop false t u
    → u ≡ abort t
only_aborts loop w o told (starts e) = let f : joining ≡ idle = sym o ∙ e in absurd (ground arith)
only_aborts loop w o told (tests e) = let f : joining ≡ waiting = sym o ∙ e in absurd (ground arith)
only_aborts loop w o told (destructs s) = absurd (joining_unsettled s (sym o))
only_aborts loop w o told (stops e) =
    let f : joining ≡ destructing = sym o ∙ e in absurd (ground arith)
only_aborts loop w o told (joins e j) = absurd (unjoinable j (sym w))
only_aborts loop w o told (constructs e) =
    let f : notifying ≡ begun = sym w ∙ e in absurd (ground arith)
only_aborts loop w o told (calls_back e) =
    let f : notifying ≡ calling_back = sym w ∙ e in absurd (ground arith)
only_aborts loop w o told (stores e) =
    let f : notifying ≡ storing = sym w ∙ e in absurd (ground arith)
only_aborts loop w o told (notifies e f) = absurd (ground arith)
only_aborts loop w o told (aborts e s) = refl
only_aborts loop w o told (leaves e s) =
    let f : notifying ≡ looping = sym w ∙ e in absurd (ground arith)
only_aborts loop w o told (resets e) =
    let f : notifying ≡ leaving = sym w ∙ e in absurd (ground arith)

joining_cases :
    (loop : ℕ) (w : Worker) {t : EventLoopThread}
    → t.worker ≡ w
    → t.owner ≡ joining
    → Body loop false w t.loop t.called_back t.told joining
    → LeadsTo loop t gone ⊎ (StoppedTooEarly loop t ⊎ (t.worker ≡ aborted))
joining_cases loop notifying {t} w e b = inr (inl (w, λ u st. only_aborts loop w e b.2 st))
joining_cases loop aborted w e b = inr (inr w)
joining_cases loop absent {t} w e b = inl (from_joining loop t absent here tt w e b)
joining_cases loop begun {t} w e b = inl (from_joining loop t begun here tt w e b)
joining_cases loop calling_back {t} w e b = inl (from_joining loop t calling_back here tt w e b)
joining_cases loop storing {t} w e b = inl (from_joining loop t storing here tt w e b)
joining_cases loop looping {t} w e b = inl (from_joining loop t looping here tt w e b)
joining_cases loop leaving {t} w e b = inl (from_joining loop t leaving here tt w e b)
joining_cases loop ended {t} w e b = inl (from_joining loop t ended here tt w e b)

-- If nothing but the destructor stops the loop, then from every state that the two threads come to,
-- where the owner is still in Start, finitely many steps lead to its return with the loop; where it
-- is in the destructor before the look at `loop_`, finitely many steps lead to the end of the
-- destructor; and where it is behind that, they do, too, unless the new thread had not entered
-- `loop.Start()` when the destructor called Stop: then the only step is the failure of the assert
-- in EventLoop::Start, or that has failed.
pub comes_to_end :
    (loop : ℕ) {t : EventLoopThread}
    → Reach loop false init t
    → (t.owner ≡ waiting → LeadsTo loop t (returned loop))
      × (t.owner ≡ destructing → LeadsTo loop t gone)
      × (t.owner ≡ joining → LeadsTo loop t gone ⊎ (StoppedTooEarly loop t ⊎ (t.worker ≡ aborted)))
comes_to_end loop {t} r = (
  λ e. from_waiting loop t t.worker here refl e (in_owner loop t waiting r e),
  λ e. from_destructing loop t.worker r refl e (in_owner loop t destructing r e),
  λ e. joining_cases loop t.worker refl e (in_owner loop t joining r e),
)
