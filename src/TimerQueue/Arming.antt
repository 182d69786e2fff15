-- ===== src/TimerQueue/Arming.antt =====
-- src/timer_queue.cpp: the setting of the timerfd, beside the first timer.
use benet.Prelude.{
  ℕ, ◌+◌, ◌*◌, ◌^◌, ◌≤◌, ◌≡◌, ◌⊎◌, inl, inr, subst, List, [], ◌∷◌, true, false, Option, none, some,
  Bool-cases, arith, max, ==_ne, ==_iff, ℕ_discrete,
}
use benet.TimerQueue.{
  Timer, TimeSpec, TimerQueue, is_first, cancel_timer, set_timerfd, rearm, next_time,
}
use benet.TimerQueue.Entries.{Entry, entry_lt, entry_eq, has_entry, erase_entry, IsSorted, Each}
use benet.TimerQueue.Order.{place, entry_lt_le}
use benet.TimerQueue.Alarm.{how_long_from_now_lem}
use benet.TimerQueue.Validity.{Keyed, IsValid, added, with_timer}

-- The timerfd goes off at a time, or one nanosecond after it was set if that is later.
abbrev pub Covers : Option (ℕ × TimeSpec) → ℕ → Type 0
Covers none time = ⊥
Covers (some (set, s)) time = set + (s.sec * 10 ^ 9 + s.nsec) ≤ max time (set + 1)

abbrev pub ArmedFor : Option (ℕ × TimeSpec) → List Entry → Type 0
ArmedFor alarm [] = Unit {0}
ArmedFor alarm (e ∷ rest) = Covers alarm e.0

-- The timerfd goes off no later than the first timer is due.
abbrev pub Armed : TimerQueue → Type 0
Armed q = ArmedFor q.alarm q.timers

Covers-mono : (alarm : Option (ℕ × TimeSpec)) (a b : ℕ) → a ≤ b → Covers alarm a → Covers alarm b
Covers-mono none a b le h = h
Covers-mono (some (set, s)) a b le h = omega arith

set_timerfd-Covers : (time now : ℕ) (q : TimerQueue) → Covers (set_timerfd time now q).alarm time
unfolding set_timerfd
set_timerfd-Covers time now q = let left = (how_long_from_now_lem time now).1 in ground arith

ArmedFor-place :
    (alarm : Option (ℕ × TimeSpec)) (e : Entry) (ts : List Entry)
    → is_first e.0 ts ≡ false
    → ArmedFor alarm ts
    → ArmedFor alarm (place e ts)
ArmedFor-place alarm e [] later a = absurd (ground arith)
ArmedFor-place alarm e (x ∷ xs) later a = elim (Bool-cases (entry_lt e x)) [
  | inl lt ↦ rw lt (Covers-mono alarm x.0 e.0 (ground arith) a)
  | inr ge ↦ rw ge a
]

ArmedFor-first :
    (alarm : Option (ℕ × TimeSpec)) (e : Entry) (ts : List Entry)
    → is_first e.0 ts ≡ true
    → Covers alarm e.0
    → ArmedFor alarm (place e ts)
ArmedFor-first alarm e [] first c = c
ArmedFor-first alarm e (x ∷ xs) first c = let lt : entry_lt e x ≡ true = ground arith in rw lt c

ArmedFor-erase :
    (alarm : Option (ℕ × TimeSpec)) (e : Entry) (ts : List Entry)
    → IsSorted ts
    → ArmedFor alarm ts
    → ArmedFor alarm (erase_entry e ts)
unfolding erase_entry
ArmedFor-erase alarm e [] s a = tt
ArmedFor-erase alarm e (x ∷ []) s a = elim (Bool-cases (entry_eq x e)) [
  | inl eq ↦ rw eq tt
  | inr ne ↦ rw ne a
]
ArmedFor-erase alarm e (x ∷ y ∷ ys) s a = elim (Bool-cases (entry_eq x e)) [
  | inl eq ↦ rw eq (Covers-mono alarm x.0 y.0 (entry_lt_le x y s.0) a)
  | inr ne ↦ rw ne a
]

pub added-Armed : (now : ℕ) (t : Timer) (q : TimerQueue) → Armed q → Armed (added now t q)
unfolding set_timerfd
added-Armed now t q a = elim (Bool-cases (is_first t.expiration q.timers)) [
  | inl first ↦ rw first (
      ArmedFor-first (set_timerfd t.expiration now (with_timer t q)).alarm
        (t.expiration, q.next_address) q.timers first
        (set_timerfd-Covers t.expiration now (with_timer t q)))
  | inr later ↦ rw later (ArmedFor-place q.alarm (t.expiration, q.next_address) q.timers later a)
]

pub cancel_timer-Armed : (p : ℕ) (q : TimerQueue) → IsValid q → Armed q → Armed (cancel_timer p q)
unfolding cancel_timer
cancel_timer-Armed p q v a = elim (Bool-cases (has_entry ((q.heap p).expiration, p) q.timers)) [
  | inl there ↦ rw there (ArmedFor-erase q.alarm ((q.heap p).expiration, p) q.timers v.sorted a)
  | inr gone ↦ elim (Bool-cases q.calling_expired_timers) [
    | inl running ↦ rw (gone, running) a
    | inr idle ↦ rw (gone, idle) a
  ]
]

ArmedFor-next :
    (heap : ℕ → Timer) (next : ℕ) (alarm : Option (ℕ × TimeSpec)) (ts : List Entry)
    → Each (Keyed heap next) ts
    → (next_time heap ts ≡ 0) ⊎ Covers alarm (next_time heap ts)
    → ArmedFor alarm ts
ArmedFor-next heap next alarm [] k c = tt
ArmedFor-next heap next alarm (e ∷ rest) k (inl zero_time) =
    let pos = k.0.1.1 in let same = k.0.0 in absurd (omega arith)
ArmedFor-next heap next alarm (e ∷ rest) k (inr c) = subst (Covers alarm) k.0.0 c

pub rearm-Armed : (later : ℕ) (q : TimerQueue) → IsValid q → Armed (rearm later q)
unfolding rearm set_timerfd
rearm-Armed later q v = elim (ℕ_discrete (next_time q.heap q.timers) 0) [
  | yes e ↦
      rw ((==_iff (next_time q.heap q.timers) 0).1 e)
        (ArmedFor-next q.heap q.next_address q.alarm q.timers v.keyed (inl e))
  | no ne ↦ rw (==_ne (next_time q.heap q.timers) 0 ne) (
      ArmedFor-next q.heap q.next_address (set_timerfd (next_time q.heap q.timers) later q).alarm
        q.timers v.keyed (inr (set_timerfd-Covers (next_time q.heap q.timers) later q)))
]
