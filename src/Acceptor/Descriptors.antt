-- ===== src/Acceptor/Descriptors.antt =====
-- The descriptors of the process and the connections that wait at the listening socket, which
-- src/acceptor.cpp sees through accept(2), close(2) and open(2).
use benet.Prelude.{ℕ, suc, ◌≡◌, Bool, true, false, ◌==◌, if◌then◌else◌, SysResult, returned, failed}

abbrev pub emfile : ℕ
emfile = 24

-- A descriptor made by `accept` or `open` is one that was not open.
pub record Table : Type 1 where
  pub State : Type 0
  pub is_open : State → ℕ → Bool
  pub free : State → ℕ
  pub waiting : State → ℕ
  pub close : ℕ → State → State
  pub accept : State → SysResult ℕ × State
  pub open_null : State → SysResult ℕ × State
  pub close_lem :
      (fd : ℕ) (s : State)
      → is_open s fd ≡ true
      → (free (close fd s) ≡ suc (free s))
        × (waiting (close fd s) ≡ waiting s)
        × ((j : ℕ) → is_open (close fd s) j ≡ (if fd == j then false else is_open s j))
  pub accept_lem :
      (s : State) (f w : ℕ)
      → free s ≡ suc f
      → waiting s ≡ suc w
      → (fd : ℕ) × ((accept s).0 ≡ returned fd)
        × (is_open s fd ≡ false)
        × (free (accept s).1 ≡ f)
        × (waiting (accept s).1 ≡ w)
        × ((j : ℕ) → is_open (accept s).1 j ≡ (if fd == j then true else is_open s j))
  pub accept_full :
      (s : State) (w : ℕ)
      → free s ≡ 0
      → waiting s ≡ suc w
      → ((accept s).0 ≡ failed emfile) × ((accept s).1 ≡ s)
  pub open_null_lem :
      (s : State) (f : ℕ)
      → free s ≡ suc f
      → (fd : ℕ) × ((open_null s).0 ≡ returned fd)
        × (is_open s fd ≡ false)
        × (free (open_null s).1 ≡ f)
        × (waiting (open_null s).1 ≡ waiting s)
        × ((j : ℕ) → is_open (open_null s).1 j ≡ (if fd == j then true else is_open s j))
