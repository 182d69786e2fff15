-- ===== src/TimerQueue/Distinct.antt =====
-- src/timer_queue.cpp: the addresses in a valid queue.
use benet.Prelude.{ℕ, ◌≡◌, sym, ap, ◌∙◌, List, [], ◌∷◌, arith}
use benet.TimerQueue.{Timer}
use benet.TimerQueue.Entries.{Entry, SortedFrom, IsSorted, Each}
use benet.TimerQueue.Order.{
  Absent, Distinct, Each-map, Each-both, SortedFrom-Each, SortedFrom-IsSorted,
}
use benet.TimerQueue.Validity.{Keyed}

pub Keyed-Absent :
    (heap : ℕ → Timer) (next : ℕ) (x : Entry) (xs : List Entry)
    → Keyed heap next x
    → SortedFrom x xs
    → Each (Keyed heap next) xs
    → Absent x.1 xs
Keyed-Absent heap next x xs kx s k =
    Each-map xs
      (λ e h same.
        let one = ap (λ p. (heap p).expiration) same in
        let t : x.0 ≡ e.0 = sym kx.0 ∙ sym one ∙ h.0.0 in ground arith)
      (Each-both _ _ xs k (SortedFrom-Each x xs s))

pub valid_Distinct :
    (heap : ℕ → Timer) (next : ℕ) (ts : List Entry)
    → IsSorted ts
    → Each (Keyed heap next) ts
    → Distinct ts
valid_Distinct heap next [] s k = tt
valid_Distinct heap next (x ∷ xs) s k = (
  Keyed-Absent heap next x xs k.0 s k.1,
  valid_Distinct heap next xs (SortedFrom-IsSorted x xs s) k.1,
)
