-- ===== src/EchoServer.antt =====
-- example/echo_server.cpp: the handlers of the echo server, on one of its connections.
pub mod Answers
pub mod Stream
mod Tests
use benet.Prelude.{
  ℕ, List, [], ◌∷◌, Bool, true, false, ◌==◌, if◌then◌else◌, length, drop, SysResult, Outcome, ok,
  ◌>>=◌, size_add, ◌/◌,
}
use benet.Buffer.{readable_bytes}
use benet.TcpConnection.{Notice, message, TcpConnection, handle_read}
use benet.TcpConnection.Threads.{send_buffer}

-- One connection, and the two counters of the server, which are unsigned and of 64 bits.
pub record EchoServer : Type 0 where
  pub conn : TcpConnection
  pub receive_bytes : ℕ
  pub receive_msgs : ℕ

-- `on_message`, whose buffer is the input buffer of the connection; `kernel` is what `send` answers to
-- a number of bytes.
unfoldable pub on_message : (ℕ → SysResult ℕ) → EchoServer → Outcome EchoServer
on_message kernel e =
    let buf = e.conn.input_buffer in
    send_buffer (kernel (readable_bytes buf)) buf e.conn >>= λ r. ok (record {
      conn = record r.1 { input_buffer = r.0 };
      receive_bytes = size_add e.receive_bytes (readable_bytes buf);
      receive_msgs = size_add e.receive_msgs 1;
    })

-- What `print_throughput` takes out of the counters, and the bytes for each message.
unfoldable pub print_throughput : EchoServer → (ℕ × ℕ) × EchoServer
print_throughput e =
    ((e.receive_bytes, e.receive_msgs), record e { receive_bytes = 0; receive_msgs = 0 })

-- Whether `on_message_` was called between two states of a connection.
abbrev pub begins_with_message : List Notice → Bool
begins_with_message (message ∷ _) = true
begins_with_message _ = false

abbrev pub calls_message : TcpConnection → TcpConnection → Bool
calls_message c c' = begins_with_message (drop (length c.notices) c'.notices)

-- `handle_read` of a connection whose callback is `on_message`.
unfoldable pub receive :
    (ℕ → SysResult (List ℕ)) → (ℕ → SysResult ℕ) → EchoServer → Outcome EchoServer
receive readv kernel e = handle_read readv e.conn >>= λ c.
    let e' = record e { conn = c } in
    let answered = on_message kernel e' in if calls_message e.conn c then answered else ok e'
