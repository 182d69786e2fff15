-- ===== src/TimerQueue/Due.antt =====
-- src/timer_queue.cpp: the assertion of the handler of the timerfd.
use benet.Prelude.{
  ℕ, ◌≤◌, ◌≡◌, inl, inr, refl, List, [], ◌∷◌, Bool, true, false, ◌||◌, ◌==◌, Bool-cases, arith,
  assert_failed,
}
use benet.TimerQueue.{TimerQueue, Callbacks, first_is_later, handle_read}
use benet.TimerQueue.Entries.{Entry, entry_lt, from, IsSorted, SortedFrom}
use benet.TimerQueue.Order.{SortedFrom-IsSorted, entry_lt_le}

-- A timer is due exactly at the time.
abbrev pub due_at : ℕ → List Entry → Bool
due_at now [] = false
due_at now (x ∷ xs) = x.0 == now || due_at now xs

pub from-first_is_later :
    (now : ℕ) (ts : List Entry)
    → due_at now ts ≡ false
    → first_is_later now (from (now, 0) ts) ≡ true
unfolding from
from-first_is_later now [] none_due = refl
from-first_is_later now (x ∷ xs) none_due = elim (Bool-cases (entry_lt x (now, 0))) [
  | inl lt ↦ rw lt (from-first_is_later now xs (ground arith))
  | inr ge ↦ rw ge (ground arith)
]

due_at_le :
    (x : Entry) (now : ℕ) (xs : List Entry) → SortedFrom x xs → due_at now xs ≡ true → x.0 ≤ now
due_at_le x now [] s due = absurd (ground arith)
due_at_le x now (y ∷ ys) s due = elim (Bool-cases (y.0 == now)) [
  | inl eq ↦ ground arith
  | inr ne ↦
      let le = due_at_le y now ys s.1 (ground arith) in let le' = entry_lt_le x y s.0 in omega arith
]

from-due :
    (now : ℕ) (ts : List Entry)
    → IsSorted ts
    → due_at now ts ≡ true
    → first_is_later now (from (now, 0) ts) ≡ false
unfolding from
from-due now [] s due = absurd (ground arith)
from-due now (x ∷ xs) s due = elim (Bool-cases (entry_lt x (now, 0))) [
  | inl lt ↦ rw lt (from-due now xs (SortedFrom-IsSorted x xs s) (ground arith))
  | inr ge ↦ elim (Bool-cases (x.0 == now)) [
    | inl eq ↦ rw ge (ground arith)
    | inr ne ↦ let le = due_at_le x now xs s (ground arith) in rw ge (ground arith)
  ]
]

-- If a timer is due exactly at the time that the handler reads, its assertion fails.
pub handle_read_due :
    (callbacks : Callbacks) (now later : ℕ) (q : TimerQueue)
    → IsSorted q.timers
    → due_at now q.timers ≡ true
    → handle_read callbacks now later q ≡ assert_failed
unfolding handle_read
handle_read_due callbacks now later q s due = rw (from-due now q.timers s due) refl
