-- ===== src/TcpConnection/Tests.antt =====
-- src/tcp_connection.cpp: runs of a connection, and its theorems on concrete buffers.
use benet.Prelude.{
  ℕ, inr, ◌≤◌, ◌≡◌, refl, List, [], ◌∷◌, true, false, leb, ltb, ◌||◌, min, if◌then◌else◌, length,
  SysResult, returned, failed, ok, assert_failed, ◌>>=◌, Returns, arith,
}
use benet.Channel.{enable_read_event, is_read_event, is_write_event, disable_write_event}
use benet.Buffer.{retrieve, Buffer, readable_bytes, iov_room}
use benet.Buffer.Space.{IsValid, contents}
use benet.TcpConnection.{
  connected, disconnecting, is_connected, TcpConnection, handle_read, handle_write, after_write,
  finish_write, shutdown_in_loop, force_close, begin_disconnecting, shutdown, shutdown_foreign,
  connection_established, connection_destroyed, init, connection_changed, shutdown_in_loop,
}
use benet.TcpConnection.History.{
  Happening, happen, sends, writes, shuts_down, starts_read, run, Bounded, Delivers, run-Delivers,
}
use benet.TcpConnection.Stream.{InOrder}
use benet.TcpConnection.Together.{Action, acts, queues, runs_task, run_together}
use benet.TcpConnection.Together
use benet.TcpConnection.Threads.{
  send, send_foreign, run_send_task, send_buffer, send_buffer_foreign, force_close_delayed,
  bind_high_water_mark_callback, bind_write_complete_callback, state_as_string, destruct,
}
use benet.TcpConnection.Foreign.{
  send_foreign-send, send_buffer_foreign-send_buffer, queue_all, run_tasks, lost_before_shutdown,
}
use benet.TcpConnection.Draining.{drain, Proceeds, Drained, drain-Drained}
use benet.TcpConnection.Ends.{Received, handle_read-Received}
use benet.TcpConnection.Destroyed.{destroyed_while_disconnecting}

abbrev empty_buffer : Buffer
empty_buffer = record {
  buffer = 0 ∷ 0 ∷ 0 ∷ 0 ∷ 0 ∷ 0 ∷ 0 ∷ 0 ∷ 0 ∷ 0 ∷ 0 ∷ 0 ∷ [];
  reader_index = 8;
  writer_index = 8;
}

empty_buffer-IsValid : IsValid empty_buffer
empty_buffer-IsValid = omega arith

-- A kernel that takes two bytes at a time, and one that takes nothing now.
abbrev takes_two : ℕ → SysResult ℕ
takes_two len = returned (min 2 len)

abbrev takes_none : ℕ → SysResult ℕ
takes_none len = failed 11

takes_two-Bounded : Bounded takes_two
takes_two-Bounded len n e = ground arith

takes_none-Bounded : Bounded takes_none
takes_none-Bounded len n e = ground arith

abbrev dialogue : List Happening
dialogue =
    sends (1 ∷ 2 ∷ 3 ∷ []) takes_two
    ∷ sends (4 ∷ []) takes_none
    ∷ shuts_down
    ∷ writes takes_two 0
    ∷ starts_read
    ∷ []

run-Delivers_example :
    Returns Delivers
      (connection_established (init empty_buffer empty_buffer) >>= λ c. run dialogue c)
run-Delivers_example =
    run-Delivers dialogue empty_buffer empty_buffer empty_buffer-IsValid refl
      (takes_two-Bounded, (takes_none-Bounded, (takes_two-Bounded, tt))) (omega arith)

-- A message of another thread waits while the loop's thread sends and shuts down.
abbrev crowd : List Action
crowd =
    queues (1 ∷ 2 ∷ 3 ∷ [])
    ∷ acts (sends (4 ∷ []) takes_none)
    ∷ runs_task takes_two
    ∷ acts shuts_down
    ∷ acts (writes takes_two 0)
    ∷ []

run_together_example :
    Returns
      (λ s. Delivers s.conn)
      (connection_established (init empty_buffer empty_buffer) >>= λ c.
        Together.run crowd (record { conn = c; tasks = [] }))
run_together_example =
    run_together crowd empty_buffer empty_buffer empty_buffer-IsValid refl
      ((takes_none-Bounded, tt), (takes_two-Bounded, (tt, ((takes_two-Bounded, tt), tt))))
      (omega arith)

-- A kernel that has three bytes.
abbrev three_bytes : ℕ → SysResult (List ℕ)
three_bytes room = if leb 3 room then returned (1 ∷ 2 ∷ 3 ∷ []) else failed 11

three_bytes-bounded :
    (room : ℕ) (bytes : List ℕ) → three_bytes room ≡ returned bytes → length bytes ≤ room
three_bytes-bounded room bytes e = ground arith

abbrev fresh : TcpConnection
fresh = record {
  state = connected;
  reading = true;
  events = 3;
  mark = 8;
  high_water_mark_bound = false;
  write_complete_bound = false;
  input_buffer = empty_buffer;
  output_buffer = empty_buffer;
  notices = [];
  shut = false;
  shutdown_tasks = 0;
  close_tasks = 0;
  accepted = [];
  sent = [];
}

handle_read-Received_example :
    Returns
      (Received fresh (three_bytes (iov_room fresh.input_buffer)))
      (handle_read three_bytes fresh)
handle_read-Received_example =
    handle_read-Received three_bytes fresh three_bytes-bounded empty_buffer-IsValid (omega arith)

-- An idle connection that was shut down.
abbrev half_closed : TcpConnection
half_closed = record (init empty_buffer empty_buffer) {
  state = disconnecting;
  events = 3;
  notices = connection_changed ∷ [];
  shut = true;
}

half_closed_reached :
    (connection_established (init empty_buffer empty_buffer) >>= λ c. run (shuts_down ∷ []) c)
    ≡ ok half_closed
unfolding connection_established init run happen shutdown begin_disconnecting shutdown_in_loop
    enable_read_event is_write_event
half_closed_reached = refl

half_closed_state : half_closed.state ≡ disconnecting
half_closed_state = refl

destroyed_while_disconnecting_example : connection_destroyed half_closed ≡ (
    if is_read_event half_closed.events || ltb 0 (length (contents half_closed.output_buffer))
    then assert_failed
    else ok half_closed)
destroyed_while_disconnecting_example =
    destroyed_while_disconnecting (shuts_down ∷ []) empty_buffer empty_buffer half_closed
      empty_buffer-IsValid refl tt (omega arith) half_closed_reached half_closed_state

send_foreign-send_example :
    run_send_task takes_two (send_foreign (1 ∷ 2 ∷ 3 ∷ []) (record { conn = fresh; tasks = [] }))
    ≡ (send (1 ∷ 2 ∷ 3 ∷ []) (takes_two 3) fresh >>= λ c. ok (record { conn = c; tasks = [] }))
send_foreign-send_example = send_foreign-send (1 ∷ 2 ∷ 3 ∷ []) takes_two fresh

-- Three bytes to be read.
abbrev three_buffer : Buffer
three_buffer = record {
  buffer = 0 ∷ 0 ∷ 0 ∷ 0 ∷ 0 ∷ 0 ∷ 0 ∷ 0 ∷ 7 ∷ 8 ∷ 9 ∷ 0 ∷ [];
  reader_index = 8;
  writer_index = 11;
}

three_buffer-IsValid : IsValid three_buffer
three_buffer-IsValid = omega arith

send_buffer_foreign-send_buffer_example :
    Returns
      (λ r.
        (run_send_task takes_two r.1 ≡ (
          send_buffer (takes_two (readable_bytes three_buffer)) three_buffer fresh >>= λ p.
          ok (record { conn = p.1; tasks = [] })))
        × (contents r.0 ≡ (if is_connected fresh.state then [] else contents three_buffer)))
      (send_buffer_foreign three_buffer (record { conn = fresh; tasks = [] }))
send_buffer_foreign-send_buffer_example =
    send_buffer_foreign-send_buffer takes_two three_buffer fresh three_buffer-IsValid

lost_before_shutdown_example :
    ((queue_all ((1 ∷ []) ∷ (2 ∷ []) ∷ []) (record { conn = fresh; tasks = [] })).tasks
      ≡ (1 ∷ []) ∷ (2 ∷ []) ∷ [])
    × (run_tasks takes_two 2
          (record (queue_all ((1 ∷ []) ∷ (2 ∷ []) ∷ []) (record { conn = fresh; tasks = [] })) {
            conn =
                shutdown_foreign
                  (queue_all ((1 ∷ []) ∷ (2 ∷ []) ∷ []) (record { conn = fresh; tasks = [] })).conn;
          })
        ≡ ok (record { conn = shutdown_foreign fresh; tasks = [] }))
lost_before_shutdown_example = lost_before_shutdown ((1 ∷ []) ∷ (2 ∷ []) ∷ []) takes_two fresh refl

-- Told to shut down with three bytes to be sent.
abbrev ending : TcpConnection
ending = record fresh {
  state = disconnecting;
  events = 7;
  output_buffer = three_buffer;
  accepted = 7 ∷ 8 ∷ 9 ∷ [];
}

ending-InOrder : InOrder ending
ending-InOrder = record {
  out = three_buffer-IsValid;
  stream = refl;
  flags = (true, true, refl, inr refl);
  late = λ s. absurd (ground arith);
  tasks = λ s. absurd (omega arith);
}

takes_two-Proceeds : Proceeds takes_two
takes_two-Proceeds len some = (min 2 len, refl, omega arith, omega arith)

drain-Drained_example : Returns (Drained ending) (drain 3 takes_two ending)
drain-Drained_example =
    drain-Drained 3 takes_two ending ending-InOrder (λ e. ground arith) takes_two-Proceeds
      (omega arith)

-- Two rounds are enough here.
drain_run : Returns (λ c. (c.sent ≡ 7 ∷ 8 ∷ 9 ∷ []) × (c.shut ≡ true)) (drain 2 takes_two ending)
unfolding drain handle_write is_write_event after_write retrieve finish_write shutdown_in_loop
    disable_write_event
drain_run = (refl, refl)

connection_text : state_as_string (force_close_delayed true fresh).state ≡ "Disconnecting"
unfolding force_close_delayed state_as_string force_close begin_disconnecting
connection_text = refl

destroyed_while_open :
    destruct (bind_write_complete_callback true (bind_high_water_mark_callback true 9 fresh))
    ≡ assert_failed
unfolding destruct bind_write_complete_callback bind_high_water_mark_callback
destroyed_while_open = refl
