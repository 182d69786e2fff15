-- ===== src/Buffer/Ints/RoundTrip.antt =====
-- include/benet/buffer.h: integers put in and taken out.
use benet.Prelude.{
  ℕ, ◌+◌, ◌-◌, ◌≤◌, ◌≡◌, refl, ap, ap₂, ◌∙◌, sym, List, [], ◌++◌, arith, ok, ◌>>=◌, length,
  length-append, take, drop, take-append, drop-append, Returns, Returns->>=, max_size, leb-true,
  append-nil,
}
use benet.Memory.{slice}
use benet.Buffer.{Buffer, readable_bytes, retrieve, append, prepend}
use benet.Buffer.Space.{IsValid, contents}
use benet.Buffer.Write.{Appended, append-Appended, prepend-Prepended}
use benet.Buffer.Refine.{length-contents, retrieve_lem, take-slice}
use benet.Buffer.Ints.{
  Endian, IntType, size_of, ℤ, to_word, signed, of_memory, swap, wire, append_int, prepend_int,
  peek_int, retrieve_as_int,
}
use benet.Buffer.Ints.Wire.{
  InRange, wire_lem, wire-eq-big_endian, swap-of_memory, to_word-lt, signed-to_word,
}

module _ (host : Endian) (t : IntType) (num : ℤ) (inside : InRange (size_of t) num) where
  decode : signed (size_of t) (swap host t (of_memory host (wire host t num))) ≡ num
  decode =
      ap (λ xs. signed (size_of t) (swap host t (of_memory host xs)))
        (wire-eq-big_endian host t num)
      ∙ ap (signed (size_of t)) (swap-of_memory host t (to_word (size_of t) num) (to_word-lt t num))
      ∙ signed-to_word t num inside

  module _ (b : Buffer) (rest : List ℕ) (v : IsValid b)
      (front : contents b ≡ wire host t num ++ rest) where
    enough : size_of t ≤ b.writer_index - b.reader_index
    enough = omega (
      arith,
      length-contents b,
      ap length front,
      length-append (wire host t num) rest,
      (wire_lem host t num).0,
    )

    peeked : slice b.buffer b.reader_index (size_of t) ≡ wire host t num
    peeked =
        sym
          (take-slice b.buffer b.reader_index (b.writer_index - b.reader_index) (size_of t) enough)
        ∙ ap₂ take (sym (wire_lem host t num).0) front
        ∙ take-append (wire host t num) rest

    peek_int_lem : peek_int host t b ≡ ok num
    unfolding peek_int
    peek_int_lem =
        rw (leb-true (size_of t) (readable_bytes b) (omega (arith, enough)), peeked, decode) refl

    retrieve_as_int_lem :
        Returns (λ r. (r.0 ≡ num) × IsValid r.1 × (contents r.1 ≡ rest)) (retrieve_as_int host t b)
    unfolding retrieve_as_int
    retrieve_as_int_lem = rw peek_int_lem (
        Returns->>= _ _ (retrieve (size_of t) b) _
          (retrieve_lem (size_of t) b v (omega (arith, enough, length-contents b)))
          λ b' k. (
            refl,
            k.0,
            k.1 ∙ ap₂ drop (sym (wire_lem host t num).0) front ∙ drop-append (wire host t num) rest,
          ))

  -- An integer that is appended comes out, unchanged, after all that was in the buffer before, and
  -- nothing is left behind it.
  pub retrieve_as_int-append_int :
      (b : Buffer)
      → IsValid b
      → b.writer_index + size_of t ≤ max_size
      → Returns
          (λ r. (r.0 ≡ num) × IsValid r.1 × (contents r.1 ≡ []))
          (append_int host t num b >>= λ b₁.
            retrieve (readable_bytes b) b₁ >>= λ b₂. retrieve_as_int host t b₂)
  unfolding append_int
  retrieve_as_int-append_int b v h =
      Returns->>= (Appended b (wire host t num)) _ (append (wire host t num) b) _
        (append-Appended (wire host t num) b v (omega (arith, (wire_lem host t num).0)))
        λ b₁ a.
          Returns->>= _ _ (retrieve (readable_bytes b) b₁) _
            (retrieve_lem (readable_bytes b) b₁ a.valid (
              omega (
                arith,
                ap length a.holds,
                length-contents b,
                length-append (contents b) (wire host t num),
              )))
            λ b₂ k. retrieve_as_int_lem b₂ [] k.0 (
              k.1
              ∙ ap₂ drop (omega (arith, length-contents b)) a.holds
              ∙ drop-append (contents b) (wire host t num)
              ∙ sym (append-nil (wire host t num)))

  -- An integer that is prepended comes out first, unchanged, and leaves the content as it was.
  pub retrieve_as_int-prepend_int :
      (b : Buffer)
      → IsValid b
      → size_of t ≤ b.reader_index
      → Returns
          (λ r. (r.0 ≡ num) × IsValid r.1 × (contents r.1 ≡ contents b))
          (prepend_int host t num b >>= λ b'. retrieve_as_int host t b')
  unfolding prepend_int
  retrieve_as_int-prepend_int b v h =
      Returns->>= _ _ (prepend (wire host t num) b) _
        (prepend-Prepended (wire host t num) b v (omega (arith, (wire_lem host t num).0)))
        λ b' k. retrieve_as_int_lem b' (contents b) k.0 k.1
