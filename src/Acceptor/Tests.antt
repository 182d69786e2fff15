-- ===== src/Acceptor/Tests.antt =====
-- src/acceptor.cpp: a table of descriptors to run the handler on.
use benet.Prelude.{
  ℕ, zero, suc, ◌≡◌, refl, [], Bool, true, false, ◌&&◌, ◌==◌, if◌then◌else◌, SysResult, returned,
  failed, ok, Returns, arith,
}
use benet.Acceptor.Descriptors.{Table, emfile}
use benet.Acceptor.{Acceptor, handle_read, after_accept, close_excessfd_with_idlefd}
use benet.Acceptor.Reserve.{Dropped, handle_read_full}

-- A process with one descriptor to spare, 0: whether it is open, and the connections that wait.
abbrev Spare : Type 0
Spare = Bool × ℕ

abbrev spare_is_open : Spare → ℕ → Bool
spare_is_open s fd = fd == 0 && s.0

abbrev spare_free : Spare → ℕ
spare_free s = if s.0 then 0 else 1

abbrev spare_close : ℕ → Spare → Spare
spare_close fd s = (if fd == 0 then false else s.0, s.1)

abbrev spare_accept : Spare → SysResult ℕ × Spare
spare_accept (true, zero) = (failed 11, (true, 0))
spare_accept (true, suc w) = (failed emfile, (true, suc w))
spare_accept (false, zero) = (failed 11, (false, 0))
spare_accept (false, suc w) = (returned 0, (true, w))

abbrev spare_open_null : Spare → SysResult ℕ × Spare
spare_open_null (true, w) = (failed emfile, (true, w))
spare_open_null (false, w) = (returned 0, (true, w))

spare_close_lem :
    (fd : ℕ) (s : Spare)
    → spare_is_open s fd ≡ true
    → (spare_free (spare_close fd s) ≡ suc (spare_free s))
      × ((spare_close fd s).1 ≡ s.1)
      × ((j : ℕ)
          → spare_is_open (spare_close fd s) j ≡ (if fd == j then false else spare_is_open s j))
spare_close_lem fd (false, w) h = absurd (ground arith)
spare_close_lem fd (true, w) h =
    let e : (fd == 0) ≡ true = ground arith in (rw e refl, refl, λ j. ground arith)

spare_accept_lem :
    (s : Spare) (f w : ℕ)
    → spare_free s ≡ suc f
    → s.1 ≡ suc w
    → (fd : ℕ) × ((spare_accept s).0 ≡ returned fd)
      × (spare_is_open s fd ≡ false)
      × (spare_free (spare_accept s).1 ≡ f)
      × ((spare_accept s).1.1 ≡ w)
      × ((j : ℕ)
          → spare_is_open (spare_accept s).1 j ≡ (if fd == j then true else spare_is_open s j))
spare_accept_lem (true, w') f w free some_waiting = absurd (omega arith)
spare_accept_lem (false, zero) f w free some_waiting = absurd (omega arith)
spare_accept_lem (false, suc w') f w free some_waiting =
    (0, refl, refl, omega arith, omega arith, λ j. ground arith)

spare_accept_full :
    (s : Spare) (w : ℕ)
    → spare_free s ≡ 0
    → s.1 ≡ suc w
    → ((spare_accept s).0 ≡ failed emfile) × ((spare_accept s).1 ≡ s)
spare_accept_full (false, w') w free some_waiting = absurd (omega arith)
spare_accept_full (true, zero) w free some_waiting = absurd (omega arith)
spare_accept_full (true, suc w') w free some_waiting = (refl, refl)

spare_open_null_lem :
    (s : Spare) (f : ℕ)
    → spare_free s ≡ suc f
    → (fd : ℕ) × ((spare_open_null s).0 ≡ returned fd)
      × (spare_is_open s fd ≡ false)
      × (spare_free (spare_open_null s).1 ≡ f)
      × ((spare_open_null s).1.1 ≡ s.1)
      × ((j : ℕ)
          → spare_is_open (spare_open_null s).1 j ≡ (if fd == j then true else spare_is_open s j))
spare_open_null_lem (true, w) f free = absurd (omega arith)
spare_open_null_lem (false, w) f free = (0, refl, refl, omega arith, refl, λ j. ground arith)

abbrev spare : Table
spare = record {
  State = Spare;
  is_open = spare_is_open;
  free = spare_free;
  waiting = λ s. s.1;
  close = spare_close;
  accept = spare_accept;
  open_null = spare_open_null;
  close_lem = spare_close_lem;
  accept_lem = spare_accept_lem;
  accept_full = spare_accept_full;
  open_null_lem = spare_open_null_lem;
}

-- The reserve is all there is, and three connections wait.
abbrev crowded : Acceptor spare
crowded = record { idle_fd = 0; new_connection_bound = true; descriptors = (true, 3); handed = [] }

crowded_run : handle_read spare crowded ≡ ok (record crowded { descriptors = (true, 2) })
unfolding handle_read after_accept close_excessfd_with_idlefd
crowded_run = refl

handle_read_full_example : Returns (Dropped spare crowded 2) (handle_read spare crowded)
handle_read_full_example = handle_read_full spare crowded 2 refl refl refl
