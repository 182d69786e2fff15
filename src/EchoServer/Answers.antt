-- ===== src/EchoServer/Answers.antt =====
-- example/echo_server.cpp: what the peer of the echo server gets back.
use benet.Prelude.{
  ℕ, ◌+◌, ◌*◌, ◌≤◌, ◌<◌, ◌≡◌, ◌⊎◌, inl, inr, refl, sym, ap, subst, ◌∙◌, List, [], ◌∷◌, ◌++◌, true,
  if◌then◌else◌, length, drop-append, SysResult, returned, ok, ◌>>=◌, max_size, size_add, Returns,
  Returns->>=, Returns-both, Returns-mono, arith,
}
use benet.Memory.{slice}
use benet.Buffer.{Buffer, extra_buf_size, iov_room, readable_bytes, peek, retrieve_all}
use benet.Buffer.Space.{IsValid, contents}
use benet.TcpConnection.{
  connected, disconnected, is_connected, message, TcpConnection, notify, send_in_loop, handle_read,
}
use benet.TcpConnection.Stream.{InOrder, Kept}
use benet.TcpConnection.Sending.{send_in_loop-Kept, readable_lem}
use benet.Buffer.Refine.{length-contents}
use benet.TcpConnection.Accepting.{Took, send_in_loop-Took}
use benet.TcpConnection.Ends.{Received, handle_read-Received, handle_read_growth}
use benet.TcpConnection.Threads.{send_buffer}
use benet.EchoServer.{EchoServer, on_message, calls_message, receive}

-- The connection after an answer, whose input buffer has a vector of `room` bytes at most: nothing is left to answer, and either the connection was closed on
-- the way, or it is open and the bytes are accepted, to be sent after those before them.
pub record Answered (bytes : List ℕ) (room : ℕ) (e e' : EchoServer) : Type 0 where
  pub input : IsValid e'.conn.input_buffer
  pub nothing_left : contents e'.conn.input_buffer ≡ []
  pub stream : InOrder e'.conn
  pub answer :
      (e'.conn.state ≡ disconnected)
      ⊎ ((e'.conn.state ≡ connected) × (e'.conn.accepted ≡ e.conn.accepted ++ bytes))
  pub bytes_counted : e'.receive_bytes ≡ size_add e.receive_bytes (length bytes)
  pub moved : e'.conn.output_buffer.writer_index ≤ e.conn.output_buffer.writer_index + length bytes
  pub sized : length e'.conn.input_buffer.buffer ≤ room
  pub messages_counted : e'.receive_msgs ≡ size_add e.receive_msgs 1

retrieve_all-IsValid : (b : Buffer) → IsValid b → IsValid (retrieve_all b)
unfolding retrieve_all
retrieve_all-IsValid b v = omega arith

retrieve_all-contents : (b : Buffer) → contents (retrieve_all b) ≡ []
unfolding retrieve_all
retrieve_all-contents b = refl

retrieve_all-size : (b : Buffer) → length (retrieve_all b).buffer ≤ length b.buffer
unfolding retrieve_all
retrieve_all-size b = omega arith

with_input-InOrder :
    (b : Buffer) (c : TcpConnection) → InOrder c → InOrder (record c { input_buffer = b })
with_input-InOrder b c o = record {
  out = o.out;
  stream = o.stream;
  flags = o.flags;
  late = o.late;
  tasks = o.tasks;
}

-- `Send` of the input buffer.
sends_input :
    (bytes msg : List ℕ) (kernel : ℕ → SysResult ℕ) (result : SysResult ℕ) (c : TcpConnection)
    → c.state ≡ connected
    → InOrder c
    → msg ≡ bytes
    → c.output_buffer.writer_index + length bytes ≤ max_size
    → Returns
        (λ c'. Kept (length bytes) c c' × Took (c.accepted ++ bytes) c c')
        (send_in_loop msg result c)
sends_input bytes msg kernel result c open_state o same fits = rw same (
    Returns-both (Kept (length bytes) c) (Took (c.accepted ++ bytes) c)
      (send_in_loop bytes result c) (send_in_loop-Kept bytes result c o fits)
      (send_in_loop-Took bytes result c open_state))

pub on_message-Answered :
    (bytes : List ℕ) (kernel : ℕ → SysResult ℕ) (e : EchoServer)
    → e.conn.state ≡ connected
    → InOrder e.conn
    → IsValid e.conn.input_buffer
    → contents e.conn.input_buffer ≡ bytes
    → e.conn.output_buffer.writer_index + length bytes ≤ max_size
    → Returns (Answered bytes (length e.conn.input_buffer.buffer) e) (on_message kernel e)
unfolding on_message send_buffer
on_message-Answered bytes kernel e open_state o v holds fits =
    let c = e.conn in
    let buf = e.conn.input_buffer in
    let size = readable_lem buf v in
    let msg = slice buf.buffer (peek buf) (readable_bytes buf) in
    let same : msg ≡ bytes =
      ap (slice buf.buffer buf.reader_index) (size ∙ length-contents buf) ∙ holds in
    rw (ap is_connected open_state) (
      Returns->>=
        (λ (r : Buffer × TcpConnection).
          (r.0 ≡ retrieve_all buf) × Kept (length bytes) c r.1 × Took (c.accepted ++ bytes) c r.1)
        _ (send_in_loop msg (kernel (readable_bytes buf)) c >>= λ c'. ok (retrieve_all buf, c')) _
        (Returns->>= _ _ (send_in_loop msg (kernel (readable_bytes buf)) c) _
          (sends_input bytes msg kernel (kernel (readable_bytes buf)) c open_state o same fits)
          (λ c' k. (refl, k.0, k.1)))
        (λ r k. record {
          input = subst IsValid (sym k.0) (retrieve_all-IsValid buf v);
          nothing_left = ap contents k.0 ∙ retrieve_all-contents buf;
          stream = with_input-InOrder r.0 r.1 k.1.0;
          answer = elim k.2.1 [
            | inl d ↦ inl d
            | inr (kept, taken) ↦ inr (kept ∙ open_state, taken)
          ];
          bytes_counted = ap (size_add e.receive_bytes) (size ∙ ap length holds);
          moved = k.1.1;
          sized =
              subst (λ b. length b.buffer ≤ length buf.buffer) (sym k.0) (retrieve_all-size buf);
          messages_counted = refl;
        }))

-- The connection when `on_message` begins, with `b` for its input buffer.
abbrev told : Buffer → TcpConnection → TcpConnection
told b c = notify (message ∷ []) (record c { input_buffer = b })

told-InOrder : (b : Buffer) (c : TcpConnection) → InOrder c → InOrder (told b c)
told-InOrder b c o = record {
  out = o.out;
  stream = o.stream;
  flags = o.flags;
  late = o.late;
  tasks = o.tasks;
}

message_called :
    (c : TcpConnection) (b : Buffer)
    → calls_message c (notify (message ∷ []) (record c { input_buffer = b })) ≡ true
message_called c b = rw (drop-append c.notices (message ∷ [])) refl

answers :
    (x : ℕ) (xs : List ℕ) (room : ℕ) (kernel : ℕ → SysResult ℕ) (e : EchoServer)
    (c' : TcpConnection)
    → e.conn.state ≡ connected
    → InOrder e.conn
    → contents e.conn.input_buffer ≡ []
    → e.conn.output_buffer.writer_index + length (x ∷ xs) ≤ max_size
    → Received e.conn (returned (x ∷ xs)) c'
    → length c'.input_buffer.buffer ≤ room
    → Returns (Answered (x ∷ xs) room e) (
        if calls_message e.conn c'
        then on_message kernel (record e { conn = c' })
        else ok (record e { conn = c' }))
answers x xs room kernel e c' open_state o empty fits (v, holds, same) small =
    let b = c'.input_buffer in
    let e'' : EchoServer = record e { conn = told b e.conn } in
    rw (ap (calls_message e.conn) same ∙ message_called e.conn b) (
      subst (λ c. Returns (Answered (x ∷ xs) room e) (on_message kernel (record e { conn = c })))
        (sym same)
        (Returns-mono (Answered (x ∷ xs) (length b.buffer) e'') _ (on_message kernel e'')
          (on_message-Answered (x ∷ xs) kernel e'' open_state (told-InOrder b e.conn o) v
            (holds ∙ ap (λ q. q ++ x ∷ xs) empty) fits)
          (λ e' k. record {
            input = k.input;
            nothing_left = k.nothing_left;
            stream = k.stream;
            answer = k.answer;
            bytes_counted = k.bytes_counted;
            moved = k.moved;
            sized = omega (arith, k.sized, small);
            messages_counted = k.messages_counted;
          })))

-- Bytes that the peer of an open connection sends are echoed: where the kernel delivers no more than
-- the room offered, all that came before was answered, the input buffer may grow by the extra buffer
-- and the bytes fit behind the writer of the output buffer, the read returns, whatever `send`
-- answers. The counters have gone up by the bytes and by one message, nothing is left in the input
-- buffer, and either `send` failed so that the connection was closed, or exactly the bytes received
-- are accepted for the peer, behind all earlier ones. The vector of the input buffer has grown by no
-- more than 7 and twice the bytes.
pub receive-Answered :
    (bytes : List ℕ) (readv : ℕ → SysResult (List ℕ)) (kernel : ℕ → SysResult ℕ) (e : EchoServer)
    → e.conn.state ≡ connected
    → InOrder e.conn
    → IsValid e.conn.input_buffer
    → contents e.conn.input_buffer ≡ []
    → ((room : ℕ) (delivered : List ℕ) → readv room ≡ returned delivered → length delivered ≤ room)
    → readv (iov_room e.conn.input_buffer) ≡ returned bytes
    → 0 < length bytes
    → length e.conn.input_buffer.buffer + extra_buf_size ≤ max_size
    → e.conn.output_buffer.writer_index + length bytes ≤ max_size
    → Returns
        (Answered bytes (length e.conn.input_buffer.buffer + 2 * length bytes + 7) e)
        (receive readv kernel e)
unfolding receive
receive-Answered [] readv kernel e open_state o v empty bounded came some_bytes grown fits =
    absurd (omega arith)
receive-Answered (x ∷ xs) readv kernel e open_state o v empty bounded came some_bytes grown fits =
    let most = length e.conn.input_buffer.buffer + 2 * length (x ∷ xs) + 7 in
    let delivered : length (x ∷ xs) ≤ iov_room e.conn.input_buffer =
      bounded (iov_room e.conn.input_buffer) (x ∷ xs) came in
    Returns->>=
      (λ c'.
        Received e.conn (readv (iov_room e.conn.input_buffer)) c'
        × (length c'.input_buffer.buffer ≤ most))
      _ (handle_read readv e.conn) _
      (Returns-both _ (λ c'. length c'.input_buffer.buffer ≤ most) (handle_read readv e.conn)
        (handle_read-Received readv e.conn bounded v grown)
        (handle_read_growth readv (x ∷ xs) e.conn v came (ground arith)))
      (λ c' k.
        answers x xs most kernel e c' open_state o empty fits
          (subst (λ r. Received e.conn r c') came k.0) k.1)
