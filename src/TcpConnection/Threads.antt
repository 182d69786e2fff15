-- ===== src/TcpConnection/Threads.antt =====
-- src/tcp_connection.cpp: the overloads of Send, by the loop's thread and by another, whose copies
-- wait in the loop; ForceCloseDelay, the bindings, the destructor, and the name of a state.
use Prim.Native.String.{String}
use benet.Prelude.{
  ℕ, List, [], ◌∷◌, ◌++◌, Bool, false, true, not, if◌then◌else◌, length, SysResult, Outcome, ok,
  assert, ◌>>=◌,
}
use benet.Memory.{slice}
use benet.Buffer.{Buffer, readable_bytes, peek, retrieve_all, retrieve_all_as_string}
use benet.TcpConnection.{
  State, disconnected, connecting, connected, disconnecting, is_connected, TcpConnection,
  force_close, send_in_loop,
}

-- A connection with the copies of messages that wait in its loop, the oldest first.
pub record Shared : Type 0 where
  pub conn : TcpConnection
  pub tasks : List (List ℕ)

-- `Send(const void*, size_t)` in the loop's thread.
unfoldable pub send : List ℕ → SysResult ℕ → TcpConnection → Outcome TcpConnection
send msg result c =
    let sent = send_in_loop msg result c in if not (is_connected c.state) then ok c else sent

-- The same by another thread.
unfoldable pub send_foreign : List ℕ → Shared → Shared
send_foreign msg s =
    if not (is_connected s.conn.state) then s else record s { tasks = s.tasks ++ msg ∷ [] }

-- The loop runs the oldest task; `kernel` is what `send` answers to a number of bytes.
unfoldable pub run_send_task : (ℕ → SysResult ℕ) → Shared → Outcome Shared
run_send_task kernel s = elim s.tasks [
  | [] ↦ ok s
  | msg ∷ rest ↦
      send_in_loop msg (kernel (length msg)) s.conn >>= λ c. ok (record { conn = c; tasks = rest })
]

-- `Send(Buffer*)` in the loop's thread: the buffer and the connection that it leaves.
unfoldable pub send_buffer : SysResult ℕ → Buffer → TcpConnection → Outcome (Buffer × TcpConnection)
send_buffer result buf c =
    let sent = send_in_loop (slice buf.buffer (peek buf) (readable_bytes buf)) result c >>= λ c'.
    ok (retrieve_all buf, c') in
    if not (is_connected c.state) then ok (buf, c) else sent

-- The same by another thread.
unfoldable pub send_buffer_foreign : Buffer → Shared → Outcome (Buffer × Shared)
send_buffer_foreign buf s =
    let queued =
      retrieve_all_as_string buf >>= λ r. ok (r.1, record s { tasks = s.tasks ++ r.0 ∷ [] }) in
    if not (is_connected s.conn.state) then ok (buf, s) else queued

-- The timer of `ForceCloseDelay`; `alive` says whether the weak pointer can be locked.
unfoldable pub force_close_delayed : Bool → TcpConnection → TcpConnection
force_close_delayed alive c = if alive then force_close c else c

-- `BindWriteCompleteCallback` and `BindHighWaterMarkCallback`; `bound` says whether the callback
-- given is not empty.
unfoldable pub bind_write_complete_callback : Bool → TcpConnection → TcpConnection
bind_write_complete_callback bound c = record c { write_complete_bound = bound }

unfoldable pub bind_high_water_mark_callback : Bool → ℕ → TcpConnection → TcpConnection
bind_high_water_mark_callback bound mark c = record c { high_water_mark_bound = bound; mark = mark }

abbrev pub is_disconnected : State → Bool
is_disconnected disconnected = true
is_disconnected _ = false

-- The assert of the destructor.
unfoldable pub destruct : TcpConnection → Outcome (Unit {0})
destruct c = assert (is_disconnected c.state)

-- `state_as_string`
unfoldable pub state_as_string : State → String
state_as_string disconnected = "Disconnected"
state_as_string connecting = "Connecting"
state_as_string connected = "Connected"
state_as_string disconnecting = "Disconnecting"
