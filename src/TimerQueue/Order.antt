-- ===== src/TimerQueue/Order.antt =====
-- src/timer_queue.cpp: what the calls of the ordered set do to its order and its elements.
use benet.Prelude.{
  ℕ, ◌≤◌, ◌≡◌, ◌≢◌, inl, inr, refl, sym, ap, subst, List, [], ◌∷◌, ◌++◌, Bool, true, false, ◌||◌,
  some, if◌then◌else◌, Bool-cases, arith,
}
use benet.TimerQueue.Entries.{
  Entry, entry_lt, entry_eq, insert_entry, has_entry, erase_entry, before, from, SortedFrom,
  IsSorted, Each,
}

-- No entry has this address.
abbrev pub Absent : ℕ → List Entry → Type 0
Absent p = Each (λ x. x.1 ≢ p)

-- Where an entry that is not there goes.
abbrev pub place : Entry → List Entry → List Entry
place e [] = e ∷ []
place e (x ∷ xs) = if entry_lt e x then e ∷ x ∷ xs else x ∷ place e xs

entry_trans : (a b c : Entry) → entry_lt a b ≡ true → entry_lt b c ≡ true → entry_lt a c ≡ true
entry_trans a b c h g = ground arith

entry_total : (a b : Entry) → b.1 ≢ a.1 → entry_lt a b ≡ false → entry_lt b a ≡ true
entry_total a b ne h = ground arith

pub entry_lt_le : (a b : Entry) → entry_lt a b ≡ true → a.0 ≤ b.0
entry_lt_le a b h = ground arith

pub Each-map {ℓ ℓ'} :
    {P : Entry → Type ℓ} {Q : Entry → Type ℓ'} (ts : List Entry)
    → ((e : Entry) → P e → Q e)
    → Each P ts
    → Each Q ts
Each-map [] f h = tt
Each-map (x ∷ xs) f h = (f x h.0, Each-map xs f h.1)

pub Each-both {ℓ ℓ'} :
    (P : Entry → Type ℓ) (Q : Entry → Type ℓ') (ts : List Entry)
    → Each P ts
    → Each Q ts
    → Each (λ e. P e × Q e) ts
Each-both P Q [] h g = tt
Each-both P Q (x ∷ xs) h g = ((h.0, g.0), Each-both P Q xs h.1 g.1)

pub SortedFrom-Each :
    (a : Entry) (ts : List Entry) → SortedFrom a ts → Each (λ x. entry_lt a x ≡ true) ts
SortedFrom-Each a [] s = tt
SortedFrom-Each a (x ∷ xs) s =
    (s.0, Each-map xs (λ y h. entry_trans a x y s.0 h) (SortedFrom-Each x xs s.1))

pub SortedFrom-IsSorted : (a : Entry) (ts : List Entry) → SortedFrom a ts → IsSorted ts
SortedFrom-IsSorted a [] s = tt
SortedFrom-IsSorted a (x ∷ xs) s = s.1

SortedFrom-mono :
    (a b : Entry) (ts : List Entry) → entry_lt a b ≡ true → SortedFrom b ts → SortedFrom a ts
SortedFrom-mono a b [] h s = tt
SortedFrom-mono a b (x ∷ xs) h s = (entry_trans a b x h s.0, s.1)

pub insert_entry-place :
    (e : Entry) (ts : List Entry) → Absent e.1 ts → insert_entry e ts ≡ some (place e ts)
unfolding insert_entry
insert_entry-place e [] h = refl
insert_entry-place e (x ∷ xs) h = elim (Bool-cases (entry_lt e x)) [
  | inl lt ↦ rw lt refl
  | inr ge ↦ rw (insert_entry-place e xs h.1, ge, entry_total e x h.0 ge) refl
]

pub place-Each {ℓ} :
    (P : Entry → Type ℓ) (e : Entry) (ts : List Entry) → P e → Each P ts → Each P (place e ts)
place-Each P e [] p h = (p, tt)
place-Each P e (x ∷ xs) p h = elim (Bool-cases (entry_lt e x)) [
  | inl lt ↦ rw lt (p, h)
  | inr ge ↦ rw ge (h.0, place-Each P e xs p h.1)
]

place-SortedFrom :
    (a e : Entry) (ts : List Entry)
    → entry_lt a e ≡ true
    → Absent e.1 ts
    → SortedFrom a ts
    → SortedFrom a (place e ts)
place-SortedFrom a e [] h n s = (h, tt)
place-SortedFrom a e (x ∷ xs) h n s = elim (Bool-cases (entry_lt e x)) [
  | inl lt ↦ rw lt (h, (lt, s.1))
  | inr ge ↦ rw ge (s.0, place-SortedFrom x e xs (entry_total e x n.0 ge) n.1 s.1)
]

pub place-IsSorted :
    (e : Entry) (ts : List Entry) → Absent e.1 ts → IsSorted ts → IsSorted (place e ts)
place-IsSorted e [] n s = tt
place-IsSorted e (x ∷ xs) n s = elim (Bool-cases (entry_lt e x)) [
  | inl lt ↦ rw lt (lt, s)
  | inr ge ↦ rw ge (place-SortedFrom x e xs (entry_total e x n.0 ge) n.1 s)
]

pub erase_entry-Each {ℓ} :
    (P : Entry → Type ℓ) (e : Entry) (ts : List Entry) → Each P ts → Each P (erase_entry e ts)
unfolding erase_entry
erase_entry-Each P e [] h = tt
erase_entry-Each P e (x ∷ xs) h = elim (Bool-cases (entry_eq x e)) [
  | inl eq ↦ rw eq h.1
  | inr ne ↦ rw ne (h.0, erase_entry-Each P e xs h.1)
]

erase_entry-SortedFrom :
    (a e : Entry) (ts : List Entry) → SortedFrom a ts → SortedFrom a (erase_entry e ts)
unfolding erase_entry
erase_entry-SortedFrom a e [] s = tt
erase_entry-SortedFrom a e (x ∷ xs) s = elim (Bool-cases (entry_eq x e)) [
  | inl eq ↦ rw eq (SortedFrom-mono a x xs s.0 s.1)
  | inr ne ↦ rw ne (s.0, erase_entry-SortedFrom x e xs s.1)
]

pub erase_entry-IsSorted : (e : Entry) (ts : List Entry) → IsSorted ts → IsSorted (erase_entry e ts)
unfolding erase_entry
erase_entry-IsSorted e [] s = tt
erase_entry-IsSorted e (x ∷ xs) s = elim (Bool-cases (entry_eq x e)) [
  | inl eq ↦ rw eq (SortedFrom-IsSorted x xs s)
  | inr ne ↦ rw ne (erase_entry-SortedFrom x e xs s)
]

pub before-from : (a : Entry) (ts : List Entry) → before a ts ++ from a ts ≡ ts
unfolding before from
before-from a [] = refl
before-from a (x ∷ xs) = elim (Bool-cases (entry_lt x a)) [
  | inl lt ↦ rw lt (ap (◌∷◌ x) (before-from a xs))
  | inr ge ↦ rw ge refl
]

pub before-Each : (a : Entry) (ts : List Entry) → Each (λ x. entry_lt x a ≡ true) (before a ts)
unfolding before
before-Each a [] = tt
before-Each a (x ∷ xs) = elim (Bool-cases (entry_lt x a)) [
  | inl lt ↦ rw lt (lt, before-Each a xs)
  | inr ge ↦ rw ge tt
]

pub from-IsSorted : (a : Entry) (ts : List Entry) → IsSorted ts → IsSorted (from a ts)
unfolding from
from-IsSorted a [] s = tt
from-IsSorted a (x ∷ xs) s = elim (Bool-cases (entry_lt x a)) [
  | inl lt ↦ rw lt (from-IsSorted a xs (SortedFrom-IsSorted x xs s))
  | inr ge ↦ rw ge s
]

Each-append {ℓ} :
    (P : Entry → Type ℓ) (xs ys : List Entry) → Each P (xs ++ ys) → Each P xs × Each P ys
Each-append P [] ys h = (tt, h)
Each-append P (x ∷ xs) ys h = let r = Each-append P xs ys h.1 in ((h.0, r.0), r.1)

pub Each-split {ℓ} :
    (P : Entry → Type ℓ) (a : Entry) (ts : List Entry)
    → Each P ts
    → Each P (before a ts) × Each P (from a ts)
Each-split P a ts h =
    Each-append P (before a ts) (from a ts) (subst (Each P) (sym (before-from a ts)) h)

-- Each address occurs once.
abbrev pub Distinct : List Entry → Type 0
Distinct [] = Unit {0}
Distinct (x ∷ xs) = Absent x.1 xs × Distinct xs

Distinct-append :
    (xs ys : List Entry) → Distinct (xs ++ ys) → Distinct xs × Each (λ e. Absent e.1 ys) xs
Distinct-append [] ys h = (tt, tt)
Distinct-append (x ∷ xs) ys h =
    let r = Distinct-append xs ys h.1 in let n = Each-append _ xs ys h.0 in ((n.0, r.0), (n.1, r.1))

pub Distinct-split :
    (a : Entry) (ts : List Entry)
    → Distinct ts
    → Distinct (before a ts) × Each (λ e. Absent e.1 (from a ts)) (before a ts)
Distinct-split a ts h =
    Distinct-append (before a ts) (from a ts) (subst Distinct (sym (before-from a ts)) h)

or_swap : (a b c : Bool) → (a || (b || c)) ≡ (b || (a || c))
or_swap a b c = ground arith

pub has_entry-place :
    (x e : Entry) (ts : List Entry) → has_entry x (place e ts) ≡ (entry_eq e x || has_entry x ts)
unfolding has_entry
has_entry-place x e [] = refl
has_entry-place x e (y ∷ ys) = elim (Bool-cases (entry_lt e y)) [
  | inl lt ↦ rw lt refl
  | inr ge ↦
      rw (ge, has_entry-place x e ys) (or_swap (entry_eq y x) (entry_eq e x) (has_entry x ys))
]
