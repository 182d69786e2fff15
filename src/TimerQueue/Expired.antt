-- ===== src/TimerQueue/Expired.antt =====
-- src/timer_queue.cpp: which timers have expired, and that their callbacks run.
use benet.Prelude.{
  ℕ, ◌≤◌, ◌≡◌, inl, inr, refl, sym, ap, List, [], ◌∷◌, true, false, ltb, if◌then◌else◌, Bool-cases,
  ok, arith,
}
use benet.TimerQueue.{TimerQueue, Callbacks, act}
use benet.TimerQueue.Entries.{Entry, entry_lt, before, from, IsSorted, SortedFrom}
use benet.TimerQueue.Order.{SortedFrom-IsSorted, entry_lt_le}

-- The callbacks of the timers run once each, in the order of the list.
pub data Ran (callbacks : Callbacks) : List Entry → TimerQueue → TimerQueue → Type 0 where
  none_left : {q : TimerQueue} → Ran callbacks [] q q
  runs_first :
      {e : Entry} {rest : List Entry} {q q' r : TimerQueue}
      → act (callbacks e.1 q) q ≡ ok q'
      → Ran callbacks rest q' r
      → Ran callbacks (e ∷ rest) q r

-- The timers that expire before a time, in the order of the list.
abbrev pub expired_at : ℕ → List Entry → List Entry
expired_at now [] = []
expired_at now (x ∷ xs) = let rest = expired_at now xs in if ltb x.0 now then x ∷ rest else rest

none_expired :
    (now : ℕ) (x : Entry) (xs : List Entry) → now ≤ x.0 → SortedFrom x xs → expired_at now xs ≡ []
none_expired now x [] le s = refl
none_expired now x (y ∷ ys) le s =
    let le' = entry_lt_le x y s.0 in
    rw (let later : ltb y.0 now ≡ false = ground arith in later)
      (none_expired now y ys (omega arith) s.1)

pub before-expired_at :
    (now : ℕ) (ts : List Entry) → IsSorted ts → before (now, 0) ts ≡ expired_at now ts
unfolding before
before-expired_at now [] s = refl
before-expired_at now (x ∷ xs) s = elim (Bool-cases (ltb x.0 now)) [
  | inl early ↦
      rw (let lt : entry_lt x (now, 0) ≡ true = ground arith in lt, early)
        (ap (λ ys. x ∷ ys) (before-expired_at now xs (SortedFrom-IsSorted x xs s)))
  | inr late ↦
      rw (let ge : entry_lt x (now, 0) ≡ false = ground arith in ge, late)
        (sym (none_expired now x xs (ground arith) s))
]

-- The timers that do not, in the order of the list.
abbrev pub left_at : ℕ → List Entry → List Entry
left_at now [] = []
left_at now (x ∷ xs) = let rest = left_at now xs in if ltb x.0 now then rest else x ∷ rest

all_left :
    (now : ℕ) (x : Entry) (xs : List Entry) → now ≤ x.0 → SortedFrom x xs → left_at now xs ≡ xs
all_left now x [] le s = refl
all_left now x (y ∷ ys) le s =
    let le' = entry_lt_le x y s.0 in
    rw (let later : ltb y.0 now ≡ false = ground arith in later)
      (ap (λ zs. y ∷ zs) (all_left now y ys (omega arith) s.1))

pub from-left_at : (now : ℕ) (ts : List Entry) → IsSorted ts → from (now, 0) ts ≡ left_at now ts
unfolding from
from-left_at now [] s = refl
from-left_at now (x ∷ xs) s = elim (Bool-cases (ltb x.0 now)) [
  | inl early ↦
      rw (let lt : entry_lt x (now, 0) ≡ true = ground arith in lt, early)
        (from-left_at now xs (SortedFrom-IsSorted x xs s))
  | inr late ↦
      rw (let ge : entry_lt x (now, 0) ≡ false = ground arith in ge, late)
        (ap (λ zs. x ∷ zs) (sym (all_left now x xs (ground arith) s)))
]
