-- ===== src/Buffer/Ints/Wire.antt =====
-- include/benet/buffer.h: the byte order of AppendInt and PrependInt.
use mathlib.Core.List.{reverse, reverse-reverse, reverse-cons}
use benet.Prelude.{
  ℕ, zero, suc, ◌+◌, ◌*◌, ◌/◌, ◌<◌, ◌≡◌, refl, ap, ap₂, ◌∙◌, sym, List, [], ◌∷◌, ◌++◌, arith,
  length, length-append,
}
use benet.Buffer.Ints.{
  Endian, little, big, IntType, int8, int16, int32, int64, size_of, ℤ, pos, negsuc, modulus,
  to_word, signed, le_bytes, of_le_bytes, to_memory, of_memory, htobe, swap, wire,
}

-- Every element is a byte.
abbrev pub AllBytes : List ℕ → Type 0
AllBytes [] = Unit {0}
AllBytes (x ∷ xs) = (x < 256) × AllBytes xs

-- The number that a row of bytes stands for, most significant byte first.
abbrev pub be_value : ℕ → List ℕ → ℕ
be_value acc [] = acc
be_value acc (x ∷ xs) = be_value (256 * acc + x) xs

le_bytes-AllBytes : (w n : ℕ) → AllBytes (le_bytes w n)
unfolding le_bytes
le_bytes-AllBytes zero n = tt
le_bytes-AllBytes (suc w) n = (omega arith, le_bytes-AllBytes w (n / 256))

length-le_bytes : (w n : ℕ) → length (le_bytes w n) ≡ w
unfolding le_bytes
length-le_bytes zero n = refl
length-le_bytes (suc w) n = ap suc (length-le_bytes w (n / 256))

pub of_le_bytes-le_bytes : (w n : ℕ) → n < modulus w → of_le_bytes (le_bytes w n) ≡ n
unfolding le_bytes of_le_bytes
of_le_bytes-le_bytes zero n h = omega arith
of_le_bytes-le_bytes (suc w) n h = omega (arith, of_le_bytes-le_bytes w (n / 256) (omega arith))

le_bytes-of_le_bytes : (xs : List ℕ) → AllBytes xs → le_bytes (length xs) (of_le_bytes xs) ≡ xs
unfolding le_bytes of_le_bytes
le_bytes-of_le_bytes [] h = refl
le_bytes-of_le_bytes (x ∷ xs) h =
    ap₂ ◌∷◌ (omega (arith, h.0))
      (ap (le_bytes (length xs)) (omega (arith, h.0)) ∙ le_bytes-of_le_bytes xs h.1)

AllBytes-append : (xs ys : List ℕ) → AllBytes xs → AllBytes ys → AllBytes (xs ++ ys)
AllBytes-append [] ys h k = k
AllBytes-append (x ∷ xs) ys h k = (h.0, AllBytes-append xs ys h.1 k)

AllBytes-reverse : (xs : List ℕ) → AllBytes xs → AllBytes (reverse xs)
AllBytes-reverse [] h = tt
AllBytes-reverse (x ∷ xs) h =
    rw (reverse-cons x xs)
      (AllBytes-append (reverse xs) (x ∷ []) (AllBytes-reverse xs h.1) (h.0, tt))

length-reverse : (xs : List ℕ) → length (reverse xs) ≡ length xs
length-reverse [] = refl
length-reverse (x ∷ xs) =
    rw (reverse-cons x xs) (omega (arith, length-append (reverse xs) (x ∷ []), length-reverse xs))

be_value-append :
    (acc : ℕ) (xs : List ℕ) (x : ℕ) → be_value acc (xs ++ x ∷ []) ≡ 256 * be_value acc xs + x
be_value-append acc [] x = refl
be_value-append acc (y ∷ xs) x = be_value-append (256 * acc + y) xs x

be_value-reverse : (xs : List ℕ) → be_value 0 (reverse xs) ≡ of_le_bytes xs
unfolding of_le_bytes
be_value-reverse [] = refl
be_value-reverse (x ∷ xs) =
    rw (reverse-cons x xs) (omega (arith, be_value-append 0 (reverse xs) x, be_value-reverse xs))

-- What a word looks like on the wire.
abbrev pub big_endian : ℕ → ℕ → List ℕ
big_endian w n = reverse (le_bytes w n)

length-big_endian : (w n : ℕ) → length (big_endian w n) ≡ w
length-big_endian w n = length-reverse (le_bytes w n) ∙ length-le_bytes w n

to_memory-htobe : (host : Endian) (w n : ℕ) → to_memory host w (htobe host w n) ≡ big_endian w n
unfolding to_memory htobe
to_memory-htobe little w n =
    ap (λ k. le_bytes k (of_le_bytes (big_endian w n))) (sym (length-big_endian w n))
    ∙ le_bytes-of_le_bytes (big_endian w n)
        (AllBytes-reverse (le_bytes w n) (le_bytes-AllBytes w n))
to_memory-htobe big w n = refl

pub wire-eq-big_endian :
    (host : Endian) (t : IntType) (num : ℤ)
    → wire host t num ≡ big_endian (size_of t) (to_word (size_of t) num)
unfolding wire swap to_memory le_bytes
wire-eq-big_endian little int8 num = refl
wire-eq-big_endian big int8 num = refl
wire-eq-big_endian host int16 num = to_memory-htobe host 2 _
wire-eq-big_endian host int32 num = to_memory-htobe host 4 _
wire-eq-big_endian host int64 num = to_memory-htobe host 8 _

pub to_word-lt : (t : IntType) (num : ℤ) → to_word (size_of t) num < modulus (size_of t)
unfolding to_word
to_word-lt t (pos n) = ground arith
to_word-lt t (negsuc n) = ground arith

-- The bytes that AppendInt and PrependInt write, on any host: as many as the type has, and, read
-- most significant first, the two's complement pattern of the integer.
pub wire_lem :
    (host : Endian) (t : IntType) (num : ℤ)
    → (length (wire host t num) ≡ size_of t)
      × AllBytes (wire host t num)
      × (be_value 0 (wire host t num) ≡ to_word (size_of t) num)
wire_lem host t num = rw (wire-eq-big_endian host t num) (
  length-big_endian (size_of t) n,
  AllBytes-reverse (le_bytes (size_of t) n) (le_bytes-AllBytes (size_of t) n),
  be_value-reverse (le_bytes (size_of t) n) ∙ of_le_bytes-le_bytes (size_of t) n (to_word-lt t num),
)
  where
    n : ℕ
    n = to_word (size_of t) num

htobe-of_memory :
    (host : Endian) (w n : ℕ) → n < modulus w → htobe host w (of_memory host (big_endian w n)) ≡ n
unfolding htobe of_memory
htobe-of_memory little w n h =
    ap (λ k. of_le_bytes (reverse (le_bytes k (of_le_bytes (big_endian w n)))))
      (sym (length-big_endian w n))
    ∙ ap (λ xs. of_le_bytes (reverse xs))
        (le_bytes-of_le_bytes (big_endian w n)
          (AllBytes-reverse (le_bytes w n) (le_bytes-AllBytes w n)))
    ∙ ap of_le_bytes (reverse-reverse (le_bytes w n))
    ∙ of_le_bytes-le_bytes w n h
htobe-of_memory big w n h =
    ap of_le_bytes (reverse-reverse (le_bytes w n)) ∙ of_le_bytes-le_bytes w n h

-- What PeekInt computes from the bytes on the wire.
pub swap-of_memory :
    (host : Endian) (t : IntType) (n : ℕ)
    → n < modulus (size_of t)
    → swap host t (of_memory host (big_endian (size_of t) n)) ≡ n
unfolding swap of_memory le_bytes
swap-of_memory little int8 n h = of_le_bytes-le_bytes 1 n h
swap-of_memory big int8 n h = of_le_bytes-le_bytes 1 n h
swap-of_memory host int16 n h = htobe-of_memory host 2 n h
swap-of_memory host int32 n h = htobe-of_memory host 4 n h
swap-of_memory host int64 n h = htobe-of_memory host 8 n h

-- The integers of a type.
abbrev pub InRange : ℕ → ℤ → Type 0
InRange w (pos n) = n < modulus w / 2
InRange w (negsuc n) = n < modulus w / 2

pub signed-to_word :
    (t : IntType) (num : ℤ)
    → InRange (size_of t) num
    → signed (size_of t) (to_word (size_of t) num) ≡ num
unfolding signed to_word
signed-to_word t (pos n) h = ground arith
signed-to_word t (negsuc n) h = ground arith
