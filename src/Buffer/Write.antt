-- ===== src/Buffer/Write.antt =====
-- include/benet/buffer.h: Append, Prepend and ReadFd, and what they do to the content.
use benet.Prelude.{
  SysResult, returned, failed, ℕ, ◌+◌, ◌-◌, ◌≤◌, ◌<◌, ◌≡◌, refl, ap, ap₂, ◌∙◌, List, ◌++◌,
  append_assoc, take-append-drop, ok, Returns, Returns->>=, Returns-mono, ◌>>=◌, arith, leb,
  max_size, size_add, size_sub, leb-true, length, take, drop, length-take, length-drop, Bool-cases,
  inl, inr,
}
use benet.Memory.{
  slice, copy_in, length-copy_in, byte_at-copy_in, slice_ext, slice-add, slice_whole,
}
use benet.Buffer.{
  Buffer, writable_bytes, extra_buf_size, append, prepend, ensure_writeable_bytes, SysResult,
  returned, failed, iov_room, store_read, read_fd,
}
use benet.Buffer.Space.{IsValid, contents, HasRoom, ensure_writeable_bytes-HasRoom}

-- `b'` is valid and holds what `b` held, then `bytes`.
pub record Appended (b : Buffer) (bytes : List ℕ) (b' : Buffer) : Type 0 where
  pub valid : IsValid b'
  pub holds : contents b' ≡ contents b ++ bytes
  pub moved : b'.writer_index ≤ b.writer_index + length bytes

-- Bytes copied in front of nothing but free space.
slice-copy_in_self :
    (xs : List ℕ) (p : ℕ) (ds : List ℕ)
    → p + length ds ≤ length xs
    → slice (copy_in xs p ds) p (length ds) ≡ ds
slice-copy_in_self xs p ds h =
    slice_ext (copy_in xs p ds) ds p 0 (length ds)
      (λ i lt. ground (arith, byte_at-copy_in xs p ds (p + i)))
    ∙ slice_whole ds

slice-copy_in_before :
    (xs : List ℕ) (p : ℕ) (ds : List ℕ) (q n : ℕ)
    → p + length ds ≤ length xs
    → q + n ≤ p
    → slice (copy_in xs p ds) q n ≡ slice xs q n
slice-copy_in_before xs p ds q n h k =
    slice_ext (copy_in xs p ds) xs q q n λ i lt. ground (arith, byte_at-copy_in xs p ds (q + i))

slice-copy_in_after :
    (xs : List ℕ) (p : ℕ) (ds : List ℕ) (q n : ℕ)
    → p + length ds ≤ length xs
    → p + length ds ≤ q
    → slice (copy_in xs p ds) q n ≡ slice xs q n
slice-copy_in_after xs p ds q n h k =
    slice_ext (copy_in xs p ds) xs q q n λ i lt. ground (arith, byte_at-copy_in xs p ds (q + i))

-- Writing at `begin_write()` into room that is there, and moving `writer_index_` past it.
write_back-Appended :
    (b : Buffer) (bytes : List ℕ) (w : ℕ)
    → IsValid b
    → b.writer_index + length bytes ≤ length b.buffer
    → w ≡ b.writer_index + length bytes
    → Appended b bytes
        (record b { buffer = copy_in b.buffer b.writer_index bytes; writer_index = w })
write_back-Appended b bytes w v h e = record {
  valid = omega (arith, length-copy_in b.buffer b.writer_index bytes);
  moved = omega arith;
  holds =
      ap (slice new b.reader_index) sizes
      ∙ slice-add new b.reader_index (b.writer_index - b.reader_index) (length bytes)
      ∙ ap₂ ◌++◌
          (slice-copy_in_before b.buffer b.writer_index bytes b.reader_index
            (b.writer_index - b.reader_index) h (omega arith))
          (ap (λ p. slice new p (length bytes)) meets
            ∙ slice-copy_in_self b.buffer b.writer_index bytes h);
}
  where
    new : List ℕ
    new = copy_in b.buffer b.writer_index bytes

    sizes : w - b.reader_index ≡ b.writer_index - b.reader_index + length bytes
    sizes = omega arith

    meets : b.reader_index + (b.writer_index - b.reader_index) ≡ b.writer_index
    meets = omega arith

-- `Append` returns, and puts the bytes behind the content, on a valid buffer that may still grow
-- that far.
pub append-Appended :
    (bytes : List ℕ) (b : Buffer)
    → IsValid b
    → b.writer_index + length bytes ≤ max_size
    → Returns (Appended b bytes) (append bytes b)
unfolding append
append-Appended bytes b v h =
    Returns->>= (HasRoom b (length bytes)) (Appended b bytes)
      (ensure_writeable_bytes (length bytes) b) _
      (ensure_writeable_bytes-HasRoom (length bytes) b v h)
      λ b' r.
        let done =
          write_back-Appended b' bytes (size_add b'.writer_index (length bytes)) r.valid r.room
            (omega (arith, r.valid.allocated, r.room)) in
        record {
          valid = done.valid;
          holds = done.holds ∙ ap (λ c. c ++ bytes) r.same;
          moved = omega (arith, done.moved, r.not_later);
        }

-- Where there is room in front, `Prepend` returns, puts the bytes before the content, and leaves the
-- end of the content where it was.
pub prepend-Prepended :
    (bytes : List ℕ) (b : Buffer)
    → IsValid b
    → length bytes ≤ b.reader_index
    → Returns
        (λ b'.
          IsValid b' × (contents b' ≡ bytes ++ contents b) × (b'.writer_index ≡ b.writer_index))
        (prepend bytes b)
unfolding prepend
prepend-Prepended bytes b v h = rw (leb-true (length bytes) b.reader_index h) (
  omega (arith, length-copy_in b.buffer start bytes),
  ap (slice new start) sizes
      ∙ slice-add new start (length bytes) (b.writer_index - b.reader_index)
      ∙ ap₂ ◌++◌ (slice-copy_in_self b.buffer start bytes (omega arith)) (
          ap (λ p. slice new p (b.writer_index - b.reader_index)) meets
          ∙ slice-copy_in_after b.buffer start bytes b.reader_index
              (b.writer_index - b.reader_index) (omega arith) (omega arith)),
  refl,
)
  where
    start : ℕ
    start = size_sub b.reader_index (length bytes)

    new : List ℕ
    new = copy_in b.buffer start bytes

    sizes : b.writer_index - start ≡ length bytes + (b.writer_index - b.reader_index)
    sizes = omega arith

    meets : start + length bytes ≡ b.reader_index
    meets = omega arith

spill-Appended :
    (bytes : List ℕ) (b : Buffer) (w : ℕ)
    → IsValid b
    → w ≡ length b.buffer - b.writer_index
    → w < length bytes
    → length b.buffer + (length bytes - w) ≤ max_size
    → Returns (Appended b bytes) (
        append (drop w bytes) (record b {
          buffer = copy_in b.buffer b.writer_index (take w bytes);
          writer_index = length b.buffer;
        }))
spill-Appended bytes b w v e lt h =
    Returns-mono (Appended b₁ (drop w bytes)) (Appended b bytes) (append (drop w bytes) b₁)
      (append-Appended (drop w bytes) b₁ first.valid (omega (arith, length-drop w bytes)))
      λ b' r. record {
        valid = r.valid;
        moved = omega (arith, r.moved, length-drop w bytes);
        holds =
            r.holds
            ∙ ap (λ c. c ++ drop w bytes) first.holds
            ∙ append_assoc (contents b) (take w bytes) (drop w bytes)
            ∙ ap (◌++◌ (contents b)) (take-append-drop w bytes);
      }
  where
    b₁ : Buffer
    b₁ = record b {
      buffer = copy_in b.buffer b.writer_index (take w bytes);
      writer_index = length b.buffer;
    }

    first : Appended b (take w bytes) b₁
    first =
        write_back-Appended b (take w bytes) (length b.buffer) v
          (omega (arith, length-take w bytes)) (omega (arith, length-take w bytes))

-- What `readv` delivered, up to the room offered, is behind the content, wherever it was scattered.
pub store_read-Appended :
    (bytes : List ℕ) (b : Buffer)
    → IsValid b
    → length bytes ≤ iov_room b
    → length b.buffer + extra_buf_size ≤ max_size
    → Returns (Appended b bytes) (store_read bytes b)
unfolding store_read
store_read-Appended bytes b v h m = elim (Bool-cases (leb (length bytes) (writable_bytes b))) [
  | inl t ↦ rw t (
      write_back-Appended b bytes (size_add b.writer_index (length bytes)) v (ground arith)
        (ground arith))
  | inr t ↦
      rw t (spill-Appended bytes b (writable_bytes b) v (omega arith) (ground arith) (ground arith))
]

-- The result and the buffer that `ReadFd` leaves, for each outcome of `readv`.
abbrev pub ReadFrom : Buffer → SysResult (List ℕ) → SysResult ℕ × Buffer → Type 0
ReadFrom b (failed errno) (n, b') = (n ≡ failed errno) × (b' ≡ b)
ReadFrom b (returned bytes) (n, b') =
    (n ≡ returned (length bytes)) × IsValid b' × (contents b' ≡ contents b ++ bytes)

-- `ReadFd`: a failed `readv` leaves the buffer alone; otherwise its count is returned and exactly
-- the bytes that it delivered are behind the content. The kernel never delivers more than the room
-- that it was offered, and the vector may still grow by the extra buffer.
pub read_fd_lem :
    (readv : ℕ → SysResult (List ℕ)) (b : Buffer)
    → ((room : ℕ) (bytes : List ℕ) → readv room ≡ returned bytes → length bytes ≤ room)
    → IsValid b
    → length b.buffer + extra_buf_size ≤ max_size
    → Returns (ReadFrom b (readv (iov_room b))) (read_fd readv b)
unfolding read_fd
read_fd_lem readv b bounded v m = go (readv (iov_room b)) refl
  where
    go :
        (r : SysResult (List ℕ))
        → readv (iov_room b) ≡ r
        → Returns (ReadFrom b r) (elim r [
          | failed errno ↦ ok (failed errno, b)
          | returned bytes ↦ store_read bytes b >>= λ b'. ok (returned (length bytes), b')
        ])
    go (failed errno) e = (refl, refl)
    go (returned bytes) e =
        Returns->>= (Appended b bytes) (ReadFrom b (returned bytes)) (store_read bytes b) _
          (store_read-Appended bytes b v (bounded (iov_room b) bytes e) m)
          λ b' r. (refl, r.valid, r.holds)
