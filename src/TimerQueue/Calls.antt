-- ===== src/TimerQueue/Calls.antt =====
-- src/timer_queue.cpp: what AddTimer and CancelTimer leave.
use benet.Prelude.{
  ℕ, ◌<◌, ◌≡◌, ◌≢◌, inl, inr, refl, sym, ap, subst, ◌∙◌, List, [], ◌∷◌, true, false, ◌||◌, ==_self,
  Bool-cases, arith, Returns,
}
use benet.TimerQueue.{Timer, TimerQueue, is_first, add_timer, cancel_timer, set_timerfd, contains}
use benet.TimerQueue.Entries.{Entry, entry_eq, has_entry, erase_entry, IsSorted, Each}
use benet.TimerQueue.Order.{Absent, has_entry-place, SortedFrom-IsSorted}
use benet.TimerQueue.Validity.{
  Keyed, IsValid, added, add_timer_ok, added-IsValid, cancel_timer-IsValid,
}
use benet.TimerQueue.Distinct.{Keyed-Absent}
use benet.TimerQueue.Arming.{Armed, added-Armed, cancel_timer-Armed}

-- What adding the timer `t` leaves; `p` is its address.
pub record Added (t : Timer) (q : TimerQueue) (p : ℕ) (r : TimerQueue) : Type 0 where
  pub valid : IsValid r
  pub armed : Armed r
  pub members :
      (x : Entry) → has_entry x r.timers ≡ (entry_eq (t.expiration, p) x || has_entry x q.timers)

added-members :
    (now : ℕ) (t : Timer) (q : TimerQueue) (x : Entry)
    → has_entry x (added now t q).timers
      ≡ (entry_eq (t.expiration, q.next_address) x || has_entry x q.timers)
unfolding set_timerfd
added-members now t q x = elim (Bool-cases (is_first t.expiration q.timers)) [
  | inl first ↦ rw first (has_entry-place x (t.expiration, q.next_address) q.timers)
  | inr later ↦ rw later (has_entry-place x (t.expiration, q.next_address) q.timers)
]

-- On a valid queue whose timerfd is set for its first timer, AddTimer of a timer that is not at the
-- time zero returns, and leaves such a queue: the new timer is in it, at its expiration, beside
-- exactly those that were.
pub add_timer-Added :
    (now : ℕ) (t : Timer) (q : TimerQueue)
    → 0 < t.expiration
    → IsValid q
    → Armed q
    → Returns (λ r. Added t q r.0 r.1) (add_timer now t q)
add_timer-Added now t q pos v a = rw (add_timer_ok now t q v) (record {
  valid = added-IsValid now t q pos v;
  armed = added-Armed now t q a;
  members = added-members now t q;
})

-- What cancelling the timer at `p` leaves.
pub record Cancelled (p : ℕ) (q r : TimerQueue) : Type 0 where
  pub valid : IsValid r
  pub armed : Armed r
  pub gone : Absent p r.timers
  pub others : (x : Entry) → x.1 ≢ p → has_entry x r.timers ≡ has_entry x q.timers
  pub noted :
      has_entry ((q.heap p).expiration, p) q.timers ≡ false
      → q.calling_expired_timers ≡ true
      → contains p r.canceling_timers ≡ true

-- An entry of the timer at `p` is under its expiration.
own_entry :
    (heap : ℕ → Timer) (next p : ℕ) (x : Entry)
    → Keyed heap next x
    → entry_eq x ((heap p).expiration, p) ≡ false
    → x.1 ≢ p
own_entry heap next p x k ne same =
    let t : (heap p).expiration ≡ x.0 = ap (λ i. (heap i).expiration) (sym same) ∙ k.0 in
    ground arith

erase_entry-Absent :
    (heap : ℕ → Timer) (next p : ℕ) (ts : List Entry)
    → IsSorted ts
    → Each (Keyed heap next) ts
    → Absent p (erase_entry ((heap p).expiration, p) ts)
unfolding erase_entry
erase_entry-Absent heap next p [] s k = tt
erase_entry-Absent heap next p (x ∷ xs) s k =
    elim (Bool-cases (entry_eq x ((heap p).expiration, p))) [
      | inl eq ↦
          let same : x.1 ≡ p = ground arith in
          rw eq (subst (λ i. Absent i xs) same (Keyed-Absent heap next x xs k.0 s k.1))
      | inr ne ↦ rw ne (
        own_entry heap next p x k.0 ne,
        erase_entry-Absent heap next p xs (SortedFrom-IsSorted x xs s) k.1,
      )
    ]

missing-Absent :
    (heap : ℕ → Timer) (next p : ℕ) (ts : List Entry)
    → has_entry ((heap p).expiration, p) ts ≡ false
    → Each (Keyed heap next) ts
    → Absent p ts
unfolding has_entry
missing-Absent heap next p [] gone k = tt
missing-Absent heap next p (x ∷ xs) gone k =
    (own_entry heap next p x k.0 (ground arith), missing-Absent heap next p xs (ground arith) k.1)

erase_entry-others :
    (e x : Entry) (ts : List Entry) → x.1 ≢ e.1 → has_entry x (erase_entry e ts) ≡ has_entry x ts
unfolding has_entry erase_entry
erase_entry-others e x [] ne = refl
erase_entry-others e x (y ∷ ys) ne = elim (Bool-cases (entry_eq y e)) [
  | inl eq ↦ rw eq (ground arith)
  | inr other ↦ rw (other, erase_entry-others e x ys ne) refl
]

-- On a valid queue whose timerfd is set for its first timer, CancelTimer leaves such a queue: the
-- timer is not in it, the other timers are as they were, and if the expired timers are being run
-- and the timer was not in the set, it is noted as cancelled.
pub cancel_timer-Cancelled :
    (p : ℕ) (q : TimerQueue) → IsValid q → Armed q → Cancelled p q (cancel_timer p q)
unfolding cancel_timer
cancel_timer-Cancelled p q v a = elim (Bool-cases (has_entry ((q.heap p).expiration, p) q.timers)) [
  | inl there ↦ record {
    valid = cancel_timer-IsValid p q v;
    armed = cancel_timer-Armed p q v a;
    gone = rw there (erase_entry-Absent q.heap q.next_address p q.timers v.sorted v.keyed);
    others = λ x ne. rw there (erase_entry-others ((q.heap p).expiration, p) x q.timers ne);
    noted = λ gone running. absurd (ground arith);
  }
  | inr missing ↦
      let out = missing-Absent q.heap q.next_address p q.timers missing v.keyed in
      record {
        valid = cancel_timer-IsValid p q v;
        armed = cancel_timer-Armed p q v a;
        gone = elim (Bool-cases q.calling_expired_timers) [
          | inl running ↦ rw (missing, running) out
          | inr idle ↦ rw (missing, idle) out
        ];
        others = λ x ne. elim (Bool-cases q.calling_expired_timers) [
          | inl running ↦ rw (missing, running) refl
          | inr idle ↦ rw (missing, idle) refl
        ];
        noted = λ gone running. rw (missing, running, ==_self p) refl;
      }
]
