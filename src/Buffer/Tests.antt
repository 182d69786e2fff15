-- ===== src/Buffer/Tests.antt =====
-- Runs of the buffer of include/benet/buffer.h, and its theorems at concrete buffers.
use benet.Prelude.{
  SysResult, returned, failed, ℕ, ◌+◌, ◌≤◌, ◌<◌, ◌≡◌, refl, List, [], ◌∷◌, ◌++◌, some, ok,
  length_error, Returns, arith, ◌>>=◌, max, max_size, leb, length, ◌↔◌, ◌*◌, if◌then◌else◌,
}
use benet.Memory.{copy_in, copy_within, resize}
use benet.Buffer.{
  Buffer, init, readable_bytes, writable_bytes, cheap_prepend, retrieve_until, retrieve, append,
  ensure_writeable_bytes, make_space, grow_outside, move_inside, prepend, SysResult, returned,
  failed, read_fd,
}
use benet.Buffer.Space.{IsValid, init-IsValid, ensure_writeable_bytes-HasRoom}
use benet.Buffer.Write.{append-Appended, prepend-Prepended, read_fd_lem}
use benet.Buffer.Space
use benet.Buffer.Queue
use benet.Buffer.Queue.{Call, appends, retrieves, takes, takes_all, clears}
use benet.Buffer.Refine.{run, run_refines}
use benet.Buffer.Growth.{append_fails, append_growth}
use benet.Buffer.Find.{memchr, memmem, find_eol, find_crlf}
use benet.Buffer.Write
use benet.Buffer.Find.Lines
use benet.Buffer.Find.Lines.{
  find_eol-SplitsEol, find_crlf-SplitsCrlf, retrieve_until-find_eol, retrieve_until-find_crlf,
}
use benet.Buffer.Ints.{
  little, big, int16, int32, negsuc, to_word, le_bytes, of_le_bytes, to_memory, htobe, swap, wire,
  append_int, prepend_int, retrieve_as_int,
}
use benet.Buffer.Ints.Wire
use benet.Buffer.Ints.Wire.{wire_lem}
use benet.Buffer.Ints.RoundTrip.{retrieve_as_int-append_int, retrieve_as_int-prepend_int}

-- "H\r\ni\n" behind the cheap prepend area, with three bytes of room.
abbrev greeting : Buffer
greeting = record {
  buffer = 0 ∷ 0 ∷ 0 ∷ 0 ∷ 0 ∷ 0 ∷ 0 ∷ 0 ∷ 72 ∷ 13 ∷ 10 ∷ 105 ∷ 10 ∷ 0 ∷ 0 ∷ 0 ∷ [];
  reader_index = 8;
  writer_index = 13;
}

-- The same after the first line has been read: eleven bytes of free space in front.
abbrev second_line : Buffer
second_line = record greeting { reader_index = 11 }

greeting-IsValid : IsValid greeting
greeting-IsValid = omega arith

second_line-IsValid : IsValid second_line
second_line-IsValid = omega arith

abbrev history : List Call
history = appends (1 ∷ 2 ∷ 3 ∷ 4 ∷ []) ∷ takes 3 ∷ appends (5 ∷ []) ∷ retrieves 2 ∷ takes_all ∷ []

-- The first append grows the vector from 16 to 17 bytes.
append_grows :
    append (1 ∷ 2 ∷ 3 ∷ 4 ∷ []) greeting
    ≡ ok (record {
      buffer = 0 ∷ 0 ∷ 0 ∷ 0 ∷ 0 ∷ 0 ∷ 0 ∷ 0 ∷ 72 ∷ 13 ∷ 10 ∷ 105 ∷ 10 ∷ 1 ∷ 2 ∷ 3 ∷ 4 ∷ [];
      reader_index = 8;
      writer_index = 17;
    })
unfolding append ensure_writeable_bytes make_space grow_outside copy_in resize
append_grows = refl

-- This one moves the two readable bytes to the front.
append_moves :
    append (1 ∷ 2 ∷ 3 ∷ 4 ∷ []) second_line
    ≡ ok (record {
      buffer = 0 ∷ 0 ∷ 0 ∷ 0 ∷ 0 ∷ 0 ∷ 0 ∷ 0 ∷ 105 ∷ 10 ∷ 1 ∷ 2 ∷ 3 ∷ 4 ∷ 0 ∷ 0 ∷ [];
      reader_index = 8;
      writer_index = 14;
    })
unfolding append ensure_writeable_bytes make_space move_inside copy_in copy_within
append_moves = refl

searches : (find_eol greeting ≡ some 10) × (find_crlf greeting ≡ some 9)
unfolding find_eol find_crlf memchr memmem
searches = (refl, refl)

-- -2 as an int16_t.
wire_bytes : wire little int16 (negsuc 1) ≡ 255 ∷ 254 ∷ []
unfolding wire to_memory swap htobe to_word le_bytes of_le_bytes
wire_bytes = refl

run_refines_example :
    Returns
      (λ r. (r.0 ≡ 72 ∷ 13 ∷ 10 ∷ 1 ∷ 2 ∷ 3 ∷ 4 ∷ 5 ∷ []) × IsValid r.1 × (Space.contents r.1 ≡ []))
      (run history greeting)
unfolding Queue.run Queue.step
run_refines_example = run_refines history greeting greeting-IsValid (omega arith)

append-Appended_example :
    Returns
      (Write.Appended second_line (7 ∷ 8 ∷ 9 ∷ 9 ∷ []))
      (append (7 ∷ 8 ∷ 9 ∷ 9 ∷ []) second_line)
append-Appended_example =
    append-Appended (7 ∷ 8 ∷ 9 ∷ 9 ∷ []) second_line second_line-IsValid (omega arith)

room_for_more : Returns (Space.HasRoom second_line 4) (ensure_writeable_bytes 4 second_line)
room_for_more = ensure_writeable_bytes-HasRoom 4 second_line second_line-IsValid (omega arith)

new_buffer :
    Returns
      (λ b.
        IsValid b
        × (readable_bytes b ≡ 0)
        × (writable_bytes b ≡ 1024)
        × (b.reader_index ≡ cheap_prepend))
      (init 1024)
new_buffer = init-IsValid 1024 (omega arith)

prepended :
    Returns
      (λ b'. IsValid b' × (Space.contents b' ≡ 1 ∷ 2 ∷ 105 ∷ 10 ∷ []) × (b'.writer_index ≡ 13))
      (prepend (1 ∷ 2 ∷ []) second_line)
prepended = prepend-Prepended (1 ∷ 2 ∷ []) second_line second_line-IsValid (omega arith)

-- A kernel that has four bytes for whoever asks for as many.
abbrev four_bytes : ℕ → SysResult (List ℕ)
four_bytes room = if leb 4 room then returned (1 ∷ 2 ∷ 3 ∷ 4 ∷ []) else failed 11

four_bytes_bounded :
    (room : ℕ) (bytes : List ℕ) → four_bytes room ≡ returned bytes → length bytes ≤ room
four_bytes_bounded room bytes e = ground arith

read_fd_lem_example :
    Returns (Write.ReadFrom greeting (returned (1 ∷ 2 ∷ 3 ∷ 4 ∷ []))) (read_fd four_bytes greeting)
read_fd_lem_example =
    read_fd_lem four_bytes greeting four_bytes_bounded greeting-IsValid (omega arith)

append_fails_example :
    (append (7 ∷ []) greeting ≡ length_error) ↔ ((3 < 1) × (3 + 8 < 1 + 8) × (max_size < 13 + 1))
append_fails_example = append_fails (7 ∷ []) greeting greeting-IsValid (omega arith)

grown_by_append : (16 ≤ 17) × (17 ≤ max 16 (5 + 2 * 4 + 7))
grown_by_append =
    append_growth (1 ∷ 2 ∷ 3 ∷ 4 ∷ []) greeting _ greeting-IsValid (omega arith) append_grows

find_eol-SplitsEol_example : Lines.SplitsEol (72 ∷ 13 ∷ 10 ∷ 105 ∷ 10 ∷ []) 8 (find_eol greeting)
find_eol-SplitsEol_example = find_eol-SplitsEol greeting greeting-IsValid

find_crlf-SplitsCrlf_example :
    Lines.SplitsCrlf (72 ∷ 13 ∷ 10 ∷ 105 ∷ 10 ∷ []) 8 (find_crlf greeting)
find_crlf-SplitsCrlf_example = find_crlf-SplitsCrlf greeting greeting-IsValid

retrieve_until-find_crlf_example :
    Returns
      (λ b'.
        IsValid b'
        × ((line : List ℕ) × (72 ∷ 13 ∷ 10 ∷ 105 ∷ 10 ∷ [] ≡ line ++ 13 ∷ 10 ∷ Space.contents b')
            × Lines.LacksCrlf (line ++ 13 ∷ [])))
      (retrieve_until 11 greeting)
retrieve_until-find_crlf_example = retrieve_until-find_crlf greeting 9 greeting-IsValid searches.1

wire_lem_example :
    (length (wire big int16 (negsuc 1)) ≡ 2)
    × Wire.AllBytes (wire big int16 (negsuc 1))
    × (Wire.be_value 0 (wire big int16 (negsuc 1)) ≡ 65534)
unfolding to_word
wire_lem_example = wire_lem big int16 (negsuc 1)

retrieve_as_int-append_int_example :
    Returns
      (λ r. (r.0 ≡ negsuc 70000) × IsValid r.1 × (Space.contents r.1 ≡ []))
      (append_int little int32 (negsuc 70000) greeting >>= λ b₁.
        retrieve 5 b₁ >>= λ b₂. retrieve_as_int little int32 b₂)
retrieve_as_int-append_int_example =
    retrieve_as_int-append_int little int32 (negsuc 70000) (omega arith) greeting greeting-IsValid
      (omega arith)

greeting_prepended :
    Returns
      (λ r. (r.0 ≡ negsuc 70000) × IsValid r.1 × (Space.contents r.1 ≡ Space.contents greeting))
      (prepend_int little int32 (negsuc 70000) greeting >>= λ b'. retrieve_as_int little int32 b')
greeting_prepended =
    retrieve_as_int-prepend_int little int32 (negsuc 70000) (omega arith) greeting greeting-IsValid
      (omega arith)
