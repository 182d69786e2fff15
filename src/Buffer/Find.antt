-- ===== src/Buffer/Find.antt =====
-- include/benet/buffer.h: FindEOL and FindCRLF, with `memchr` and `memmem` of <cstring>. A null
-- pointer is `none`.
pub mod Lines
use benet.Prelude.{
  ℕ, zero, suc, ◌+◌, List, Option, none, some, Outcome, ok, ◌>>=◌, ◌>>◌, assert, leb, ◌==◌, ◌&&◌,
  if◌then◌else◌, size_sub,
}
use benet.Memory.{byte_at}
use benet.Buffer.{Buffer, readable_bytes, peek, begin_write}

-- '\r' and '\n', the two bytes of kCRLF.
abbrev pub cr : ℕ
cr = 13

abbrev pub lf : ℕ
lf = 10

-- The first `c` among the `n` bytes from `p` on.
unfoldable pub memchr : List ℕ → ℕ → ℕ → ℕ → Option ℕ
memchr xs p c zero = none
memchr xs p c (suc n) = if byte_at xs p == c then some p else memchr xs (p + 1) c n

-- The first kCRLF among the `n` bytes from `p` on.
unfoldable pub memmem : List ℕ → ℕ → ℕ → Option ℕ
memmem xs p zero = none
memmem xs p (suc zero) = none
memmem xs p (suc (suc n)) =
    if byte_at xs p == cr && byte_at xs (p + 1) == lf then some p else memmem xs (p + 1) (suc n)

unfoldable pub find_eol : Buffer → Option ℕ
find_eol b = memchr b.buffer (peek b) lf (readable_bytes b)

unfoldable pub find_eol_from : ℕ → Buffer → Outcome (Option ℕ)
find_eol_from start b = do
  assert (leb (peek b) start)
  assert (leb start (begin_write b))
  ok (memchr b.buffer start lf (size_sub (begin_write b) start))

unfoldable pub find_crlf : Buffer → Option ℕ
find_crlf b = memmem b.buffer (peek b) (readable_bytes b)

unfoldable pub find_crlf_from : ℕ → Buffer → Outcome (Option ℕ)
find_crlf_from start b = do
  assert (leb (peek b) start)
  assert (leb start (begin_write b))
  ok (memmem b.buffer start (size_sub (begin_write b) start))
