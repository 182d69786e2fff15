-- ===== src/TimerQueue/Entries.antt =====
-- src/timer_queue.cpp: `std::set<TimerEntry>`, in increasing order by time and then by address.
use benet.Prelude.{
  ℕ, ◌≡◌, List, [], ◌∷◌, Bool, true, false, ◌&&◌, ◌||◌, Option, none, some, ◌==◌, ltb,
  if◌then◌else◌,
}

abbrev pub Entry : Type 0
Entry = ℕ × ℕ

-- `operator<` of `std::pair`.
abbrev pub entry_lt : Entry → Entry → Bool
entry_lt a b = ltb a.0 b.0 || (a.0 == b.0 && ltb a.1 b.1)

abbrev pub entry_eq : Entry → Entry → Bool
entry_eq a b = a.0 == b.0 && a.1 == b.1

-- `insert`; `none` if the entry is there already.
unfoldable pub insert_entry : Entry → List Entry → Option (List Entry)
insert_entry e [] = some (e ∷ [])
insert_entry e (x ∷ xs) =
    let deeper : Option (List Entry) = elim (insert_entry e xs) [
      | none ↦ none
      | some ys ↦ some (x ∷ ys)
    ] in
    if entry_lt e x then some (e ∷ x ∷ xs) else if entry_lt x e then deeper else none

-- `find` and `erase`.
unfoldable pub has_entry : Entry → List Entry → Bool
has_entry e [] = false
has_entry e (x ∷ xs) = entry_eq x e || has_entry e xs

unfoldable pub erase_entry : Entry → List Entry → List Entry
erase_entry e [] = []
erase_entry e (x ∷ xs) = if entry_eq x e then xs else x ∷ erase_entry e xs

-- The entries in front of `lower_bound(anchor)`, and those from it on.
unfoldable pub before : Entry → List Entry → List Entry
before a [] = []
before a (x ∷ xs) = if entry_lt x a then x ∷ before a xs else []

unfoldable pub from : Entry → List Entry → List Entry
from a [] = []
from a (x ∷ xs) = if entry_lt x a then from a xs else x ∷ xs

-- Increasing order, from a lower bound on.
abbrev pub SortedFrom : Entry → List Entry → Type 0
SortedFrom a [] = Unit {0}
SortedFrom a (x ∷ xs) = (entry_lt a x ≡ true) × SortedFrom x xs

abbrev pub IsSorted : List Entry → Type 0
IsSorted [] = Unit {0}
IsSorted (x ∷ xs) = SortedFrom x xs

abbrev pub Each {ℓ} : (Entry → Type ℓ) → List Entry → Type ℓ
Each P [] = Unit
Each P (x ∷ xs) = P x × Each P xs
