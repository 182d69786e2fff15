-- ===== src/Prelude/Size.antt =====
-- `size_t` on a 64-bit target: sums and differences wrap. `assert` ends the call when it fails.
use Prim.Native.Nat.{ℕ, ◌+◌, ◌-◌, ◌%◌, ◌^◌}
use mathlib.Core.Bool.{Bool, true, false}
use benet.Prelude.Outcomes.{Outcome, ok, assert_failed}

abbrev pub size_add : ℕ → ℕ → ℕ
size_add a b = (a + b) % 2 ^ 64

abbrev pub size_sub : ℕ → ℕ → ℕ
size_sub a b = (a + 2 ^ 64 - b) % 2 ^ 64

-- `std::vector<char>::max_size()`, and the largest object: PTRDIFF_MAX.
abbrev pub max_size : ℕ
max_size = 2 ^ 63 - 1

abbrev pub assert : Bool → Outcome (Unit {0})
assert true = ok tt
assert false = assert_failed
