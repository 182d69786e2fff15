-- ===== src/TcpConnection.antt =====
-- src/tcp_connection.cpp: a connection in its loop's thread: the states, the two buffers, what is
-- given to the kernel, and the client's callbacks that become due.
-- What `send` returns is an argument. A callback of the client that an operation runs is its last
-- act, or is followed by another callback only, so it is a notice here: what the client does in it
-- are operations of their own.
pub mod Stream
pub mod Sending
pub mod Writing
pub mod States
pub mod History
pub mod Ends
pub mod Threads
pub mod Accepting
pub mod Foreign
pub mod Draining
pub mod Together
pub mod Destroyed
mod Tests
use benet.Prelude.{
  ℕ, zero, suc, ◌+◌, ◌-◌, List, [], ◌∷◌, ◌++◌, Bool, true, false, not, ◌&&◌, ◌||◌, ◌==◌, ltb, leb,
  if◌then◌else◌, length, take, drop, SysResult, returned, failed, Outcome, ok, assert, ◌>>=◌, ◌>>◌,
  size_add,
}
use benet.Memory.{slice}
use benet.Channel.{
  enable_read_event, disable_read_event, enable_write_event, disable_write_event, disable_all_event,
  is_none_event, is_read_event, is_write_event,
}
use benet.Buffer.{Buffer, readable_bytes, peek, retrieve, append, read_fd}

pub data State : Type 0 where
  disconnected connecting connected disconnecting : State

abbrev pub is_connected : State → Bool
is_connected connected = true
is_connected _ = false

abbrev pub is_disconnecting : State → Bool
is_disconnecting disconnecting = true
is_disconnecting _ = false

abbrev pub is_connecting : State → Bool
is_connecting connecting = true
is_connecting _ = false

-- Calls of the client's callbacks: `on_connection_`, `on_close_`, `on_message_`, and the two that are
-- queued in the loop.
pub data Notice : Type 0 where
  connection_changed closed message write_complete : Notice
  high_water_mark : ℕ → Notice

-- Of the channel only `events_` counts here. `write_complete_bound` and `high_water_mark_bound` say
-- whether the client bound these callbacks; `shut` that `ShutdownWrite` was called, and
-- `shutdown_tasks` and `close_tasks` count the tasks of Shutdown and
-- ForceClose that are queued in the loop. `accepted` and `sent` record
-- the bytes that were taken from the client and by the kernel; the program does not keep them.
pub record TcpConnection : Type 0 where
  pub state : State
  pub reading : Bool
  pub events : ℕ
  pub mark : ℕ
  pub high_water_mark_bound : Bool
  pub write_complete_bound : Bool
  pub input_buffer : Buffer
  pub output_buffer : Buffer
  pub notices : List Notice
  pub shut : Bool
  pub shutdown_tasks : ℕ
  pub close_tasks : ℕ
  pub accepted : List ℕ
  pub sent : List ℕ

abbrev pub notify : List Notice → TcpConnection → TcpConnection
notify ns c = record c { notices = c.notices ++ ns }

-- errno values of <errno.h>.
abbrev pub eintr : ℕ
eintr = 4

abbrev pub eagain : ℕ
eagain = 11

abbrev pub epipe : ℕ
epipe = 32

abbrev pub econnreset : ℕ
econnreset = 104

unfoldable pub handle_close : TcpConnection → TcpConnection
handle_close c =
    if not (is_connected c.state) && not (is_disconnecting c.state)
    then c
    else notify (connection_changed ∷ closed ∷ [])
        (record c { state = disconnected; events = disable_all_event c.events })

-- `if (on_x_) loop_->QueueInLoop(...)`
abbrev pub notify_if : Bool → Notice → TcpConnection → TcpConnection
notify_if bound n c = if bound then notify (n ∷ []) c else c

-- The last part of `send_in_loop`: what is left goes to the output buffer, and the channel asks to
-- write.
unfoldable pub keep_all : List ℕ → TcpConnection → Outcome TcpConnection
keep_all bytes c = append bytes c.output_buffer >>= λ b. ok (record c {
  output_buffer = b;
  events = if not (is_write_event c.events) then enable_write_event c.events else c.events;
})

unfoldable pub keep_remaining : List ℕ → TcpConnection → Outcome TcpConnection
keep_remaining bytes c =
    let old_buf_len = readable_bytes c.output_buffer in
    let total = size_add old_buf_len (length bytes) in
    let kept = keep_all bytes (
      notify_if (leb c.mark total && (ltb old_buf_len c.mark && c.high_water_mark_bound))
        (high_water_mark total) c) in
    if length bytes == 0 then ok c else kept

-- What `send_in_loop` does after a direct call of `send`, which takes at most what it is given (send(2)),
-- so that the number of bytes left does not wrap.
unfoldable pub after_send : List ℕ → SysResult ℕ → TcpConnection → Outcome TcpConnection
after_send msg (returned n) c = keep_remaining (drop n msg) (
    notify_if (length msg - n == 0 && c.write_complete_bound) write_complete
      (record c { accepted = c.accepted ++ msg; sent = c.sent ++ take n msg }))
after_send msg (failed errno) c =
    if not (errno == eagain) && (errno == epipe || errno == econnreset)
    then ok (handle_close c)
    else keep_remaining msg (record c { accepted = c.accepted ++ msg })

unfoldable pub send_in_loop : List ℕ → SysResult ℕ → TcpConnection → Outcome TcpConnection
send_in_loop msg result c =
    if not (is_connected c.state)
    then ok c
    else if not (is_write_event c.events) && readable_bytes c.output_buffer == 0
    then after_send msg result c
    else keep_remaining msg (record c { accepted = c.accepted ++ msg })

-- The task of `Shutdown`.
unfoldable pub shutdown_in_loop : TcpConnection → TcpConnection
shutdown_in_loop c = if not (is_write_event c.events) then record c { shut = true } else c

-- The exchange of `state_` in `Shutdown` and `ForceClose`, by any thread.
unfoldable pub begin_disconnecting : TcpConnection → TcpConnection
begin_disconnecting c = if is_connected c.state then record c { state = disconnecting } else c

-- `Shutdown` in the loop's thread, and by another thread, which queues the task.
unfoldable pub shutdown : TcpConnection → TcpConnection
shutdown c = if is_connected c.state then shutdown_in_loop (begin_disconnecting c) else c

unfoldable pub shutdown_foreign : TcpConnection → TcpConnection
shutdown_foreign c =
    if is_connected c.state
    then record (begin_disconnecting c) { shutdown_tasks = suc c.shutdown_tasks }
    else c

-- The loop runs a queued task of `Shutdown`, if there is one.
unfoldable pub run_shutdown_task : TcpConnection → TcpConnection
run_shutdown_task c = elim c.shutdown_tasks [
  | zero ↦ c
  | suc n ↦ shutdown_in_loop (record c { shutdown_tasks = n })
]

-- `ForceClose`, by any thread, and its task.
unfoldable pub force_close : TcpConnection → TcpConnection
force_close c =
    if is_connected c.state || is_disconnecting c.state
    then record (begin_disconnecting c) { close_tasks = suc c.close_tasks }
    else c

unfoldable pub run_close_task : TcpConnection → TcpConnection
run_close_task c = elim c.close_tasks [
  | zero ↦ c
  | suc n ↦
      (let c' = record c { close_tasks = n } in
        if is_connected c'.state || is_disconnecting c'.state then handle_close c' else c')
]

-- `StartRead` and `StopRead`
unfoldable pub start_read : TcpConnection → TcpConnection
start_read c =
    if not c.reading || not (is_read_event c.events)
    then record c { events = enable_read_event c.events; reading = true }
    else c

unfoldable pub stop_read : TcpConnection → TcpConnection
stop_read c =
    if c.reading || is_read_event c.events
    then record c { events = disable_read_event c.events; reading = false }
    else c

-- What a failed system call of a handler does.
unfoldable pub conduct_failure : ℕ → TcpConnection → TcpConnection
conduct_failure errno c = if errno == eagain || errno == eintr then c else handle_close c

-- `handle_read`; `readv` is the kernel's.
unfoldable pub handle_read : (ℕ → SysResult (List ℕ)) → TcpConnection → Outcome TcpConnection
handle_read readv c = read_fd readv c.input_buffer >>= λ r.
    let c' = record c { input_buffer = r.1 } in
    ok (elim r.0 [
      | failed errno ↦ conduct_failure errno c'
      | returned n ↦ if ltb 0 n then notify (message ∷ []) c' else handle_close c'
    ])

-- The end of `handle_write`, when nothing is left.
unfoldable pub finish_write : TcpConnection → TcpConnection
finish_write c =
    let c' =
      notify_if c.write_complete_bound write_complete
        (record c { events = disable_write_event c.events }) in
    if is_disconnecting c'.state then shutdown_in_loop c' else c'

-- `handle_write`, after `n` bytes were sent.
unfoldable pub after_write : ℕ → TcpConnection → Outcome TcpConnection
after_write n c =
    let out = c.output_buffer in
    retrieve n out >>= λ b.
    let c' = record c { output_buffer = b; sent = c.sent ++ slice out.buffer (peek out) n } in
    ok (if ltb 0 (readable_bytes b) then c' else finish_write c')

-- `handle_write`. Where `send` returns zero, `errno` is what an earlier call left.
unfoldable pub handle_write : SysResult ℕ → ℕ → TcpConnection → Outcome TcpConnection
handle_write result stale c = if not (is_write_event c.events) then ok c else elim result [
  | failed errno ↦ ok (conduct_failure errno c)
  | returned n ↦ if n == 0 then ok (conduct_failure stale c) else after_write n c
]

-- `ConnectionEstablished` and `ConnectionDestroyed`, up to the removal of the channel.
unfoldable pub connection_established : TcpConnection → Outcome TcpConnection
connection_established c = do
  assert (is_connecting c.state)
  ok (
      notify (connection_changed ∷ [])
        (record c { state = connected; events = enable_read_event c.events }))

-- `RemoveFromLoop` asserts that the channel asks for no event. What the client's callback does before
-- that is left out.
unfoldable pub connection_destroyed : TcpConnection → Outcome TcpConnection
connection_destroyed c =
    let c' =
      if is_connected c.state
      then notify (connection_changed ∷ [])
          (record c { state = disconnected; events = disable_all_event c.events })
      else c in
    do assert (is_none_event c'.events); ok c'

unfoldable pub init : Buffer → Buffer → TcpConnection
init input output = record {
  state = connecting;
  reading = true;
  events = 0;
  mark = 134217728;
  high_water_mark_bound = false;
  write_complete_bound = false;
  input_buffer = input;
  output_buffer = output;
  notices = [];
  shut = false;
  shutdown_tasks = 0;
  close_tasks = 0;
  accepted = [];
  sent = [];
}
