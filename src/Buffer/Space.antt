-- ===== src/Buffer/Space.antt =====
-- include/benet/buffer.h: the invariant of the indices, and `make_space`.
use benet.Prelude.{
  ℕ, ◌+◌, ◌-◌, ◌%◌, ◌^◌, ◌≤◌, ◌<◌, ◌≡◌, refl, ap₂, ◌∙◌, inl, inr, List, Returns, arith, ltb,
  max_size, size_add, length, Bool-cases, length-replicate, leb-true, false,
}
use benet.Memory.{
  slice, copy_within, resize, length-copy_within, byte_at-copy_within, slice_ext, length-resize,
  byte_at-resize,
}
use benet.Buffer.{
  Buffer, readable_bytes, writable_bytes, cheap_prepend, move_inside, init, grow_outside,
  make_space, ensure_writeable_bytes,
}

-- reader_index_ <= writer_index_ <= buffer_.size(), the picture at the head of the class, and the
-- writer stays behind the cheap prepend area.
pub record IsValid (b : Buffer) : Type 0 where
  pub ordered : b.reader_index ≤ b.writer_index
  pub within : b.writer_index ≤ length b.buffer
  pub behind : cheap_prepend ≤ b.writer_index
  pub allocated : length b.buffer ≤ max_size

-- The CONTENT of the picture.
abbrev pub contents : Buffer → List ℕ
contents b = slice b.buffer b.reader_index (b.writer_index - b.reader_index)

-- What `EnsureWriteableBytes(len)` promises.
pub record HasRoom (b : Buffer) (len : ℕ) (b' : Buffer) : Type 0 where
  pub valid : IsValid b'
  pub room : b'.writer_index + len ≤ length b'.buffer
  pub same : contents b' ≡ contents b
  pub not_later : b'.writer_index ≤ b.writer_index

grow-HasRoom :
    (b : Buffer) (len : ℕ)
    → IsValid b
    → length b.buffer ≤ b.writer_index + len
    → b.writer_index + len ≤ max_size
    → HasRoom b len (record b { buffer = resize (b.writer_index + len) b.buffer })
grow-HasRoom b len v g h = record {
  valid = omega (arith, length-resize (b.writer_index + len) b.buffer);
  not_later = omega arith;
  room = omega (arith, length-resize (b.writer_index + len) b.buffer);
  same =
      slice_ext _ _ _ _ _
        λ i lt. byte_at-resize (b.writer_index + len) b.buffer (b.reader_index + i) g (omega arith);
}

move-HasRoom :
    (b : Buffer) (len readable : ℕ)
    → IsValid b
    → readable ≡ b.writer_index - b.reader_index
    → 8 < b.reader_index
    → 8 + readable + len ≤ length b.buffer
    → HasRoom b len (move_inside readable b)
unfolding move_inside
move-HasRoom b len readable v e h k = record {
  valid = omega (arith, length-copy_within readable b.reader_index 8 b.buffer);
  not_later = omega arith;
  room = omega (arith, length-copy_within readable b.reader_index 8 b.buffer);
  same =
      ap₂ (slice moved) refl sizes
      ∙ slice_ext moved b.buffer 8 b.reader_index (b.writer_index - b.reader_index)
          λ i lt. ground (arith, byte_at-copy_within readable b.reader_index 8 b.buffer (8 + i));
}
  where
    moved : List ℕ
    moved = copy_within readable b.reader_index 8 b.buffer

    sizes : (8 + readable) % 2 ^ 64 - 8 ≡ b.writer_index - b.reader_index
    sizes = omega arith

-- `make_space` moves the readable bytes to the front only where they lie behind the cheap prepend
-- area, so the destination of `std::copy` never lies inside its source range, as `std::copy` wants.
pub make_space_moves_down :
    (len : ℕ) (b : Buffer)
    → IsValid b
    → len ≤ max_size
    → writable_bytes b < len
    → ltb (size_add (writable_bytes b) b.reader_index) (size_add len cheap_prepend) ≡ false
    → cheap_prepend < b.reader_index
make_space_moves_down len b v h w t = ground arith

grow_outside-HasRoom :
    (b : Buffer) (len : ℕ)
    → IsValid b
    → length b.buffer ≤ b.writer_index + len
    → b.writer_index + len ≤ max_size
    → Returns (HasRoom b len) (grow_outside (size_add b.writer_index len) b)
unfolding grow_outside
grow_outside-HasRoom b len v g h =
    rw (e, leb-true (b.writer_index + len) max_size h) (grow-HasRoom b len v g h)
  where
    e : (b.writer_index + len) % 2 ^ 64 ≡ b.writer_index + len
    e = omega arith

make_space-HasRoom :
    (len : ℕ) (b : Buffer)
    → IsValid b
    → b.writer_index + len ≤ max_size
    → writable_bytes b < len
    → Returns (HasRoom b len) (make_space len b)
unfolding make_space
make_space-HasRoom len b v h w =
    elim (Bool-cases (ltb (size_add (writable_bytes b) b.reader_index) (size_add len 8))) [
      | inl t ↦ rw t (grow_outside-HasRoom b len v (omega arith) h)
      | inr t ↦ rw t (
          move-HasRoom b len (readable_bytes b) v (omega arith)
            (make_space_moves_down len b v (omega arith) w t) (ground arith))
    ]

-- Where the grown vector is still allowed, `EnsureWriteableBytes(len)` returns with `len` bytes of
-- room behind the same content.
pub ensure_writeable_bytes-HasRoom :
    (len : ℕ) (b : Buffer)
    → IsValid b
    → b.writer_index + len ≤ max_size
    → Returns (HasRoom b len) (ensure_writeable_bytes len b)
unfolding ensure_writeable_bytes
ensure_writeable_bytes-HasRoom len b v h = elim (Bool-cases (ltb (writable_bytes b) len)) [
  | inl t ↦ rw t (make_space-HasRoom len b v h (ground arith))
  | inr t ↦ rw t (record { valid = v; room = ground arith; same = refl; not_later = omega arith })
]

-- The constructor gives an empty valid buffer with the room asked for behind the writer and the
-- cheap prepend area in front, wherever the vector may be that large.
pub init-IsValid :
    (init_size : ℕ)
    → cheap_prepend + init_size ≤ max_size
    → Returns
        (λ b.
          IsValid b
          × (readable_bytes b ≡ 0)
          × (writable_bytes b ≡ init_size)
          × (b.reader_index ≡ cheap_prepend))
        (init init_size)
unfolding init
init-IsValid n h =
    rw (whole, leb-true (8 + n) max_size h)
      (
        omega (arith, length-replicate {A = ℕ} (8 + n) 0),
        omega arith,
        omega (arith, length-replicate {A = ℕ} (8 + n) 0),
        refl,
      )
  where
    whole : size_add 8 n ≡ 8 + n
    whole = omega arith
