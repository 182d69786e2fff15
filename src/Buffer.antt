-- ===== src/Buffer.antt =====
-- include/benet/buffer.h, class Buffer: the growable byte buffer with its two indices.
-- A pointer into `buffer_` is the index that it points at. Memory that a caller passes in is a list
-- of bytes, so it is not part of the buffer itself.
pub mod Space
pub mod Write
pub mod Queue
pub mod Refine
pub mod Ints
pub mod Find
pub mod Growth
mod Tests
use benet.Prelude.{
  ℕ, ◌+◌, ◌^◌, List, Option, Bool, Outcome, SysResult, returned, failed, ok, length_error, ◌>>=◌,
  ◌>>◌, assert, leb, ltb, if◌then◌else◌, size_add, size_sub, max_size, length, take, drop,
  replicate,
}
use benet.Memory.{slice, copy_in, copy_within, resize}

pub record Buffer : Type 0 where
  pub buffer : List ℕ
  pub reader_index : ℕ
  pub writer_index : ℕ

abbrev pub cheap_prepend : ℕ
cheap_prepend = 8

abbrev pub extra_buf_size : ℕ
extra_buf_size = 65536

-- The constructor. `std::vector(n)` throws above `max_size()`.
unfoldable pub init : ℕ → Outcome Buffer
init init_size =
    let n = size_add cheap_prepend init_size in
    if leb n max_size
    then ok (record {
      buffer = replicate n 0;
      reader_index = cheap_prepend;
      writer_index = cheap_prepend;
    })
    else length_error

abbrev pub readable_bytes : Buffer → ℕ
readable_bytes b = size_sub b.writer_index b.reader_index

abbrev pub writable_bytes : Buffer → ℕ
writable_bytes b = size_sub (length b.buffer) b.writer_index

abbrev pub prependable_bytes : Buffer → ℕ
prependable_bytes b = b.reader_index

-- `Peek`, `begin_read` and `begin_write`.
abbrev pub peek : Buffer → ℕ
peek b = b.reader_index

abbrev pub begin_write : Buffer → ℕ
begin_write b = b.writer_index

unfoldable pub retrieve : ℕ → Buffer → Outcome Buffer
retrieve len b = do
  assert (leb len (readable_bytes b))
  ok (record b { reader_index = size_add b.reader_index len })

unfoldable pub retrieve_until : ℕ → Buffer → Outcome Buffer
retrieve_until end b = do
  assert (leb (peek b) end)
  assert (leb end (begin_write b))
  retrieve (size_sub end (peek b)) b

unfoldable pub retrieve_all : Buffer → Buffer
retrieve_all b = record b { reader_index = cheap_prepend; writer_index = cheap_prepend }

unfoldable pub retrieve_as_string : ℕ → Buffer → Outcome (List ℕ × Buffer)
retrieve_as_string len b = do
  assert (leb len (readable_bytes b))
  b' ← retrieve len b
  ok (slice b.buffer (peek b) len, b')

unfoldable pub retrieve_all_as_string : Buffer → Outcome (List ℕ × Buffer)
retrieve_all_as_string b = retrieve_as_string (readable_bytes b) b

-- `buffer_.resize(n)`, which throws above `max_size()`.
unfoldable pub grow_outside : ℕ → Buffer → Outcome Buffer
grow_outside n b =
    if leb n max_size then ok (record b { buffer = resize n b.buffer }) else length_error

unfoldable pub move_inside : ℕ → Buffer → Buffer
move_inside readable b = record {
  buffer = copy_within readable b.reader_index cheap_prepend b.buffer;
  reader_index = cheap_prepend;
  writer_index = size_add cheap_prepend readable;
}

-- `make_space`: grow the vector, or move the readable bytes to the front.
unfoldable pub make_space : ℕ → Buffer → Outcome Buffer
make_space len b =
    if ltb (size_add (writable_bytes b) (prependable_bytes b)) (size_add len cheap_prepend)
    then grow_outside (size_add b.writer_index len) b
    else ok (move_inside (readable_bytes b) b)

unfoldable pub ensure_writeable_bytes : ℕ → Buffer → Outcome Buffer
ensure_writeable_bytes len b = if ltb (writable_bytes b) len then make_space len b else ok b

unfoldable pub append : List ℕ → Buffer → Outcome Buffer
append bytes b = do
  b' ← ensure_writeable_bytes (length bytes) b
  ok (record b' {
    buffer = copy_in b'.buffer b'.writer_index bytes;
    writer_index = size_add b'.writer_index (length bytes);
  })

unfoldable pub prepend : List ℕ → Buffer → Outcome Buffer
prepend bytes b = do
  assert (leb (length bytes) (prependable_bytes b))
  let start = size_sub b.reader_index (length bytes)
  ok (record b { buffer = copy_in b.buffer start bytes; reader_index = start })

-- The room that `readv` is offered: the writable bytes, and the extra buffer if they are few.
abbrev pub iov_room : Buffer → ℕ
iov_room b =
    if ltb (writable_bytes b) extra_buf_size
    then writable_bytes b + extra_buf_size
    else writable_bytes b

-- `ReadFd`, on the bytes that `readv` scattered over the two areas, or its failure.
unfoldable pub store_read : List ℕ → Buffer → Outcome Buffer
store_read bytes b =
    let writable = writable_bytes b in
    if leb (length bytes) writable
    then ok (record b {
      buffer = copy_in b.buffer (begin_write b) bytes;
      writer_index = size_add b.writer_index (length bytes);
    })
    else append (drop writable bytes) (record b {
      buffer = copy_in b.buffer (begin_write b) (take writable bytes);
      writer_index = length b.buffer;
    })

-- `ReadFd`. The kernel's `readv` is the argument: from the room offered to its result.
unfoldable pub read_fd : (ℕ → SysResult (List ℕ)) → Buffer → Outcome (SysResult ℕ × Buffer)
read_fd readv b = elim (readv (iov_room b)) [
  | failed errno ↦ ok (failed errno, b)
  | returned bytes ↦ store_read bytes b >>= λ b'. ok (returned (length bytes), b')
]
