-- ===== src/Buffer/Growth.antt =====
-- include/benet/buffer.h: when Append fails, and how far it lets the vector grow.
use benet.Prelude.{
  ℕ, ◌+◌, ◌-◌, ◌*◌, ◌≤◌, ◌<◌, ◌≡◌, ◌↔◌, List, arith, ok, length_error, length, max, max_size,
  size_add, SysResult, returned, failed, ◌>>=◌, subst, sym, Whenever, chained, if_returned, leb,
  take, drop, length-drop, Bool-cases, inl, inr,
}
use benet.Memory.{copy_in, copy_within, resize, length-copy_in, length-copy_within, length-resize}
use benet.Buffer.{
  Buffer, writable_bytes, begin_write, iov_room, store_read, read_fd, readable_bytes, append,
  ensure_writeable_bytes, make_space, grow_outside, move_inside,
}
use benet.Buffer.Space.{IsValid}

-- On a valid buffer `Append` fails in one way only: by `std::length_error`, exactly where the bytes
-- fit neither behind the writer nor, with the cheap prepend area, into the whole vector, and the
-- vector may not grow to hold them behind the writer.
pub append_fails :
    (bytes : List ℕ) (b : Buffer)
    → IsValid b
    → length bytes ≤ max_size
    → (append bytes b ≡ length_error) ↔ (
        (length b.buffer - b.writer_index < length bytes)
        × (length b.buffer - b.writer_index + b.reader_index < length bytes + 8)
        × (max_size < b.writer_index + length bytes))
unfolding append ensure_writeable_bytes make_space grow_outside move_inside
append_fails bytes b v h = ground arith

-- `Append` never shrinks the vector, and never makes it larger than it was or than 7 more than the
-- content and twice the new bytes.
pub append_growth :
    (bytes : List ℕ) (b b' : Buffer)
    → IsValid b
    → length bytes ≤ max_size
    → append bytes b ≡ ok b'
    → (length b.buffer ≤ length b'.buffer)
      × (length b'.buffer
          ≤ max (length b.buffer) (b.writer_index - b.reader_index + 2 * length bytes + 7))
unfolding append ensure_writeable_bytes make_space grow_outside move_inside
append_growth bytes b b' v h e = ground (
  arith,
  length-resize grown b.buffer,
  length-copy_within (readable_bytes b) b.reader_index 8 b.buffer,
  length-copy_in (resize grown b.buffer) b.writer_index bytes,
  length-copy_in (copy_within (readable_bytes b) b.reader_index 8 b.buffer)
      (size_add 8 (readable_bytes b)) bytes,
  length-copy_in b.buffer b.writer_index bytes,
)
  where
    grown : ℕ
    grown = size_add b.writer_index (length bytes)

-- How far a read of bytes that fit into the room offered lets the vector grow.
store_read_growth :
    (bytes : List ℕ) (b : Buffer)
    → IsValid b
    → length bytes ≤ max_size
    → Whenever
        (λ b'. length b'.buffer ≤ length b.buffer + 2 * length bytes + 7)
        (store_read bytes b)
unfolding store_read
store_read_growth bytes b v h = elim (Bool-cases (leb (length bytes) (writable_bytes b))) [
  | inl fits ↦ rw fits (omega (arith, length-copy_in b.buffer b.writer_index bytes))
  | inr spills ↦
      let writable = writable_bytes b in
      let front = take writable bytes in
      let size = length-copy_in b.buffer (begin_write b) front in
      let b₁ : Buffer = record b {
        buffer = copy_in b.buffer (begin_write b) front;
        writer_index = length b.buffer;
      } in
      rw spills (
        if_returned _ (append (drop writable bytes) b₁) (λ b' e.
          let grown =
            (append_growth (drop writable bytes) b₁ b' (omega (arith, size))
              (omega (arith, length-drop writable bytes)) e).1 in
          omega (arith, size, length-drop writable bytes)))
]

-- A read of `bytes` grows the vector by no more than 7 and twice their number.
pub read_fd_growth :
    (readv : ℕ → SysResult (List ℕ)) (bytes : List ℕ) (b : Buffer)
    → IsValid b
    → readv (iov_room b) ≡ returned bytes
    → length bytes ≤ max_size
    → Whenever (λ r. length r.1.buffer ≤ length b.buffer + 2 * length bytes + 7) (read_fd readv b)
unfolding read_fd
read_fd_growth readv bytes b v e h =
    subst
      (λ x.
        Whenever
          (λ (r : SysResult ℕ × Buffer). length r.1.buffer ≤ length b.buffer + 2 * length bytes + 7)
          (elim x [
            | failed errno ↦ ok (failed errno, b)
            | returned bs ↦ store_read bs b >>= λ b'. ok (returned (length bs), b')
          ]))
      (sym e)
      (chained _ _ (store_read bytes b) (λ b'. ok (returned (length bytes), b'))
        (store_read_growth bytes b v h) (λ b' g. g))
