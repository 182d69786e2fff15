-- ===== src/TimerQueue/Validity.antt =====
-- src/timer_queue.cpp: the invariant of the set of timers, under AddTimer, CancelTimer and callbacks.
use benet.Prelude.{
  ℕ, suc, ◌<◌, ◌≡◌, inl, inr, refl, sym, ap, ◌∙◌, List, [], ◌∷◌, if◌then◌else◌, Bool-cases, arith,
  ok, Returns,
}
use benet.Reactor.{put}
use benet.Reactor.Equations.{put_self, put_other}
use benet.TimerQueue.{
  Timer, TimerQueue, is_first, insert, add_timer, cancel_timer, set_timerfd, Action, adds, cancels,
  act,
}
use benet.TimerQueue.Entries.{Entry, has_entry, IsSorted, Each}
use benet.TimerQueue.Order.{
  Absent, place, Each-map, insert_entry-place, place-Each, place-IsSorted, erase_entry-Each,
  erase_entry-IsSorted,
}

-- The entry is that of a timer that exists, under its own expiration, which is a time.
abbrev pub Keyed : (ℕ → Timer) → ℕ → Entry → Type 0
Keyed heap next_address e = ((heap e.1).expiration ≡ e.0) × ((e.1 < next_address) × (0 < e.0))

pub record IsValid (q : TimerQueue) : Type 0 where
  pub sorted : IsSorted q.timers
  pub keyed : Each (Keyed q.heap q.next_address) q.timers

-- Timers that exist and are not in the set.
abbrev pub Out : List Entry → TimerQueue → Type 0
Out expired q = Each (λ e. Absent e.1 q.timers × (e.1 < q.next_address)) expired

-- A timer that is not in the set may change.
pub Keyed-put :
    (heap : ℕ → Timer) (next p : ℕ) (t : Timer) (ts : List Entry)
    → Absent p ts
    → Each (Keyed heap next) ts
    → Each (Keyed (put heap p t) next) ts
Keyed-put heap next p t [] out k = tt
Keyed-put heap next p t (x ∷ xs) out k = (
  (ap (λ c. c.expiration) (put_other heap p x.1 t (λ e. out.0 (sym e))) ∙ k.0.0, k.0.1),
  Keyed-put heap next p t xs out.1 k.1,
)

pub insert_ok :
    (p : ℕ) (q : TimerQueue)
    → Absent p q.timers
    → insert p q
      ≡ ok (
        is_first (q.heap p).expiration q.timers,
        record q { timers = place ((q.heap p).expiration, p) q.timers },
      )
unfolding insert
insert_ok p q out = rw (insert, insert_entry-place ((q.heap p).expiration, p) q.timers out) refl

-- The queue with a new timer, before the timerfd is set.
abbrev pub with_timer : Timer → TimerQueue → TimerQueue
with_timer t q = record q {
  heap = put q.heap q.next_address t;
  next_address = suc q.next_address;
  timers = place (t.expiration, q.next_address) q.timers;
}

abbrev pub added : ℕ → Timer → TimerQueue → TimerQueue
added now t q =
    if is_first t.expiration q.timers
    then set_timerfd t.expiration now (with_timer t q)
    else with_timer t q

-- New addresses are not in the set.
pub IsValid-Absent : (q : TimerQueue) → IsValid q → Absent q.next_address q.timers
IsValid-Absent q v = Each-map q.timers (λ e k same. omega arith) v.keyed

pub add_timer_ok :
    (now : ℕ) (t : Timer) (q : TimerQueue)
    → IsValid q
    → add_timer now t q ≡ ok (q.next_address, added now t q)
unfolding add_timer
add_timer_ok now t q v =
    rw
      (
        insert_ok q.next_address
            (record q { heap = put q.heap q.next_address t; next_address = suc q.next_address })
            (IsValid-Absent q v),
        put_self q.heap q.next_address t,
      )
      refl

with_timer-IsValid :
    (t : Timer) (q : TimerQueue) → 0 < t.expiration → IsValid q → IsValid (with_timer t q)
with_timer-IsValid t q pos v = record {
  sorted = place-IsSorted (t.expiration, q.next_address) q.timers (IsValid-Absent q v) v.sorted;
  keyed =
      place-Each _ (t.expiration, q.next_address) q.timers
        (ap (λ c. c.expiration) (put_self q.heap q.next_address t), (omega arith, pos))
        (Keyed-put q.heap (suc q.next_address) q.next_address t q.timers (IsValid-Absent q v)
          (Each-map q.timers (λ e k. (k.0, (omega arith, k.1.1))) v.keyed));
}

pub added-IsValid :
    (now : ℕ) (t : Timer) (q : TimerQueue) → 0 < t.expiration → IsValid q → IsValid (added now t q)
unfolding set_timerfd
added-IsValid now t q pos v = elim (Bool-cases (is_first t.expiration q.timers)) [
  | inl first ↦
      let v' = with_timer-IsValid t q pos v in
      rw first (record { sorted = v'.sorted; keyed = v'.keyed })
  | inr later ↦ rw later (with_timer-IsValid t q pos v)
]

with_timer-Out :
    (t : Timer) (q : TimerQueue) (expired : List Entry)
    → Out expired q
    → Out expired (with_timer t q)
with_timer-Out t q expired = Each-map expired (λ e out.
    (place-Each _ (t.expiration, q.next_address) q.timers (λ same. omega arith) out.0, omega arith))

added-Out :
    (now : ℕ) (t : Timer) (q : TimerQueue) (expired : List Entry)
    → Out expired q
    → Out expired (added now t q)
unfolding set_timerfd
added-Out now t q expired out = elim (Bool-cases (is_first t.expiration q.timers)) [
  | inl first ↦ rw first (with_timer-Out t q expired out)
  | inr later ↦ rw later (with_timer-Out t q expired out)
]

pub cancel_timer-IsValid : (p : ℕ) (q : TimerQueue) → IsValid q → IsValid (cancel_timer p q)
unfolding cancel_timer
cancel_timer-IsValid p q v = elim (Bool-cases (has_entry ((q.heap p).expiration, p) q.timers)) [
  | inl there ↦ rw there (record {
    sorted = erase_entry-IsSorted ((q.heap p).expiration, p) q.timers v.sorted;
    keyed = erase_entry-Each _ ((q.heap p).expiration, p) q.timers v.keyed;
  })
  | inr gone ↦ elim (Bool-cases q.calling_expired_timers) [
    | inl running ↦ rw (gone, running) (record { sorted = v.sorted; keyed = v.keyed })
    | inr idle ↦ rw (gone, idle) (record { sorted = v.sorted; keyed = v.keyed })
  ]
]

cancel_timer-Out :
    (p : ℕ) (q : TimerQueue) (expired : List Entry) → Out expired q → Out expired (cancel_timer p q)
unfolding cancel_timer
cancel_timer-Out p q expired out =
    elim (Bool-cases (has_entry ((q.heap p).expiration, p) q.timers)) [
      | inl there ↦ rw there (
          Each-map expired
            (λ e h. (erase_entry-Each _ ((q.heap p).expiration, p) q.timers h.0, h.1)) out)
      | inr gone ↦ elim (Bool-cases q.calling_expired_timers) [
        | inl running ↦ rw (gone, running) out
        | inr idle ↦ rw (gone, idle) out
      ]
    ]

-- The timers that callbacks add are not at the time zero, which stands for no time.
abbrev pub AllTimed : List Action → Type 0
AllTimed [] = Unit {0}
AllTimed (adds now t ∷ rest) = (0 < t.expiration) × AllTimed rest
AllTimed (cancels p ∷ rest) = AllTimed rest

-- Any sequence of the client's calls returns, leaves a valid queue, and does not bring back a timer
-- that is out of the set.
pub act-IsValid :
    (actions : List Action) (q : TimerQueue) (expired : List Entry)
    → AllTimed actions
    → IsValid q
    → Out expired q
    → Returns (λ q'. IsValid q' × Out expired q') (act actions q)
unfolding act
act-IsValid [] q expired timed v out = (v, out)
act-IsValid (adds now t ∷ rest) q expired timed v out = rw (add_timer_ok now t q v) (
    act-IsValid rest (added now t q) expired timed.1 (added-IsValid now t q timed.0 v)
      (added-Out now t q expired out))
act-IsValid (cancels p ∷ rest) q expired timed v out =
    act-IsValid rest (cancel_timer p q) expired timed (cancel_timer-IsValid p q v)
      (cancel_timer-Out p q expired out)
