-- ===== src/Buffer/Ints.antt =====
-- include/benet/buffer.h: the integer calls AppendInt, PrependInt, PeekInt and RetrieveAsInt at
-- int8_t to int64_t, which keep integers in network byte order. `host` is the byte order of the
-- machine, on which `htobe` and `betoh` of <endian.h> depend.
pub mod Wire
pub mod RoundTrip
use mathlib.Core.List.{reverse}
use benet.Prelude.{
  ℕ, zero, suc, ◌+◌, ◌-◌, ◌*◌, ◌/◌, ◌%◌, List, [], ◌∷◌, Outcome, ok, ◌>>=◌, ◌>>◌, assert, leb, ltb,
  if◌then◌else◌,
}
use benet.Memory.{slice}
use benet.Buffer.{Buffer, readable_bytes, peek, retrieve, append, prepend}

pub data Endian : Type 0 where
  little big : Endian

-- The integral types that the calls are used at.
pub data IntType : Type 0 where
  int8 int16 int32 int64 : IntType

abbrev pub size_of : IntType → ℕ
size_of int8 = 1
size_of int16 = 2
size_of int32 = 4
size_of int64 = 8

-- A signed integer; `negsuc n` is -(n + 1).
pub data ℤ : Type 0 where
  pos : ℕ → ℤ
  negsuc : ℕ → ℤ

-- The number of values of `w` bytes.
abbrev pub modulus : ℕ → ℕ
modulus zero = 1
modulus (suc w) = 256 * modulus w

-- Two's complement: the bit pattern of an integer, and the integer of a pattern.
unfoldable pub to_word : ℕ → ℤ → ℕ
to_word w (pos n) = n % modulus w
to_word w (negsuc n) = modulus w - 1 - n % modulus w

unfoldable pub signed : ℕ → ℕ → ℤ
signed w v = if ltb v (modulus w / 2) then pos v else negsuc (modulus w - 1 - v)

unfoldable pub le_bytes : ℕ → ℕ → List ℕ
le_bytes zero n = []
le_bytes (suc w) n = (n % 256) ∷ le_bytes w (n / 256)

unfoldable pub of_le_bytes : List ℕ → ℕ
of_le_bytes [] = 0
of_le_bytes (x ∷ xs) = x + 256 * of_le_bytes xs

module _ (host : Endian) where
  -- The bytes of an unsigned integer in memory, and back: `std::memcpy`.
  unfoldable pub to_memory : ℕ → ℕ → List ℕ
  to_memory w n = elim host [ little ↦ le_bytes w n | big ↦ reverse (le_bytes w n) ]

  unfoldable pub of_memory : List ℕ → ℕ
  of_memory xs = elim host [ little ↦ of_le_bytes xs | big ↦ of_le_bytes (reverse xs) ]

  -- `htobe16` to `htobe64`, and their inverses `be16toh` to `be64toh`, which are the same swaps.
  unfoldable pub htobe : ℕ → ℕ → ℕ
  htobe w n = elim host [ little ↦ of_le_bytes (reverse (le_bytes w n)) | big ↦ n ]

  -- A single byte is left as it is.
  unfoldable pub swap : IntType → ℕ → ℕ
  swap int8 n = n
  swap int16 n = htobe 2 n
  swap int32 n = htobe 4 n
  swap int64 n = htobe 8 n

  -- The bytes at `&num` after the swap.
  unfoldable pub wire : IntType → ℤ → List ℕ
  wire t num = to_memory (size_of t) (swap t (to_word (size_of t) num))

  unfoldable pub append_int : IntType → ℤ → Buffer → Outcome Buffer
  append_int t num b = append (wire t num) b

  unfoldable pub prepend_int : IntType → ℤ → Buffer → Outcome Buffer
  prepend_int t num b = prepend (wire t num) b

  unfoldable pub peek_int : IntType → Buffer → Outcome ℤ
  peek_int t b = do
    assert (leb (size_of t) (readable_bytes b))
    let val = of_memory (slice b.buffer (peek b) (size_of t))
    ok (signed (size_of t) (swap t val))

  unfoldable pub retrieve_as_int : IntType → Buffer → Outcome (ℤ × Buffer)
  retrieve_as_int t b = do result ← peek_int t b; b' ← retrieve (size_of t) b; ok (result, b')
