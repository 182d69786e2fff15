-- ===== src/Prelude/Outcomes.antt =====
-- How a call of the C++ code can end: with a value, at a failed `assert`, with `std::length_error`
-- out of a `std::vector`, or in `BELOG_CRITICAL` (include/benet/logger.h), which logs and exits.
use Prim.Native.Nat.{ℕ}
use mathlib.Core.Path.{◌≡◌, refl}

pub data Outcome {ℓ} (A : Type ℓ) : Type ℓ where
  ok : A → Outcome A
  assert_failed : Outcome A
  length_error : Outcome A
  critical : Outcome A

-- What a system call gives back: a value, or -1 with `errno`.
pub data SysResult {ℓ} (A : Type ℓ) : Type ℓ where
  returned : A → SysResult A
  failed : ℕ → SysResult A

infixl 5 ◌>>=◌ ◌>>◌
abbrev pub ◌>>=◌ {ℓ κ} : {A : Type ℓ} {B : Type κ} → Outcome A → (A → Outcome B) → Outcome B
ok a >>= f = f a
assert_failed >>= f = assert_failed
length_error >>= f = length_error
critical >>= f = critical

abbrev pub ◌>>◌ {ℓ} : {B : Type ℓ} → Outcome (Unit {0}) → Outcome B → Outcome B
m >> k = m >>= λ _. k

-- The call returns, and its value has the property.
abbrev pub Returns {ℓ} : {A : Type ℓ} → (A → Type 0) → Outcome A → Type 0
Returns P (ok a) = P a
Returns P assert_failed = ⊥
Returns P length_error = ⊥
Returns P critical = ⊥

-- Two calls in a row.
pub Returns->>= {ℓ κ} :
    {A : Type ℓ} {B : Type κ} (P : A → Type 0) (Q : B → Type 0) (m : Outcome A) (f : A → Outcome B)
    → Returns P m
    → ((a : A) → P a → Returns Q (f a))
    → Returns Q (m >>= f)
Returns->>= P Q (ok a) f h k = k a h
Returns->>= P Q assert_failed f h k = h
Returns->>= P Q length_error f h k = h
Returns->>= P Q critical f h k = h

pub Returns-mono {ℓ} :
    {A : Type ℓ} (P Q : A → Type 0) (m : Outcome A)
    → Returns P m
    → ((a : A) → P a → Q a)
    → Returns Q m
Returns-mono P Q (ok a) h k = k a h
Returns-mono P Q assert_failed h k = h
Returns-mono P Q length_error h k = h
Returns-mono P Q critical h k = h

pub Returns-ok {ℓ} :
    {A : Type ℓ} {P : A → Type 0} (m : Outcome A) → Returns P m → (a : A) × ((m ≡ ok a) × P a)
Returns-ok (ok a) h = (a, (refl, h))
Returns-ok assert_failed h = absurd h
Returns-ok length_error h = absurd h
Returns-ok critical h = absurd h

-- If the call returns, its value has the property.
abbrev pub Whenever {ℓ} : {A : Type ℓ} → (A → Type 0) → Outcome A → Type 0
Whenever P (ok a) = P a
Whenever P assert_failed = Unit
Whenever P length_error = Unit
Whenever P critical = Unit

pub Whenever->>= {ℓ κ} :
    {A : Type ℓ} {B : Type κ} (Q : B → Type 0) (m : Outcome A) (f : A → Outcome B)
    → ((a : A) → Whenever Q (f a))
    → Whenever Q (m >>= f)
Whenever->>= Q (ok a) f k = k a
Whenever->>= Q assert_failed f k = tt
Whenever->>= Q length_error f k = tt
Whenever->>= Q critical f k = tt

pub Returns-both {ℓ} :
    {A : Type ℓ} (P Q : A → Type 0) (m : Outcome A)
    → Returns P m
    → Whenever Q m
    → Returns (λ a. P a × Q a) m
Returns-both P Q (ok a) h k = (h, k)
Returns-both P Q assert_failed h k = h
Returns-both P Q length_error h k = h
Returns-both P Q critical h k = h

pub Returns-Whenever {ℓ} :
    {A : Type ℓ} (P : A → Type 0) (m : Outcome A) → Returns P m → Whenever P m
Returns-Whenever P (ok a) h = h
Returns-Whenever P assert_failed h = tt
Returns-Whenever P length_error h = tt
Returns-Whenever P critical h = tt

pub chained {ℓ κ} :
    {A : Type ℓ} {B : Type κ} (P : A → Type 0) (Q : B → Type 0) (m : Outcome A) (f : A → Outcome B)
    → Whenever P m
    → ((a : A) → P a → Whenever Q (f a))
    → Whenever Q (m >>= f)
chained P Q (ok a) f h k = k a h
chained P Q assert_failed f h k = tt
chained P Q length_error f h k = tt
chained P Q critical f h k = tt

pub after_assert {ℓ} :
    {B : Type ℓ} (Q : B → Type 0) (m : Outcome (Unit {0})) (rest : Outcome B)
    → Whenever Q rest
    → Whenever Q (m >> rest)
after_assert Q m rest h = Whenever->>= Q m (λ _. rest) (λ _. h)

-- What holds of every value that a call may return.
pub if_returned {ℓ} :
    {A : Type ℓ} (P : A → Type 0) (m : Outcome A) → ((a : A) → m ≡ ok a → P a) → Whenever P m
if_returned P (ok a) h = h a refl
if_returned P assert_failed h = tt
if_returned P length_error h = tt
if_returned P critical h = tt
