-- ===== src/TcpConnection/History.antt =====
-- src/tcp_connection.cpp: histories of a connection.
use benet.Prelude.{
  ℕ, ◌+◌, ◌≤◌, ◌≡◌, ◌⊎◌, inl, inr, refl, sym, ap, ◌∙◌, List, [], ◌∷◌, ◌++◌, append-nil, true, false,
  ltb, length, SysResult, returned, failed, Outcome, ok, ◌>>=◌, max_size, Returns, Returns->>=,
  Returns-mono, arith,
}
use benet.Channel.{enable_read_event, is_write_event}
use benet.Channel.Mask.{events-ActsAsFlags}
use benet.Buffer.{Buffer, readable_bytes}
use benet.Buffer.Space.{IsValid, contents}
use benet.TcpConnection.{
  disconnected, connected, disconnecting, connection_changed, notify, TcpConnection, handle_close,
  send_in_loop, handle_write, shutdown, shutdown_foreign, run_shutdown_task, force_close,
  run_close_task, start_read, stop_read, connection_established, init,
}
use benet.TcpConnection.Stream.{InOrder, Kept}
use benet.TcpConnection.Sending.{Within, closes-Kept, send_in_loop-Kept}
use benet.TcpConnection.Writing.{handle_write-Kept}
use benet.TcpConnection.States.{
  shutdown-Kept, shutdown_foreign-Kept, run_shutdown_task-Kept, force_close-Kept,
  run_close_task-Kept, start_read-Kept, stop_read-Kept,
}

-- What can happen to a connection once it is established; `send` is what the kernel answers to a
-- number of bytes offered. `hangs_up` is the close that a read or a hang-up of the peer brings.
pub data Happening : Type 0 where
  sends : (msg : List ℕ) (send : ℕ → SysResult ℕ) → Happening
  writes : (send : ℕ → SysResult ℕ) (stale : ℕ) → Happening
  hangs_up shuts_down queues_shutdown runs_shutdown forces_close runs_close starts_read stops_read :
      Happening

unfoldable pub happen : Happening → TcpConnection → Outcome TcpConnection
happen (sends msg send) c = send_in_loop msg (send (length msg)) c
happen (writes send stale) c = handle_write (send (readable_bytes c.output_buffer)) stale c
happen hangs_up c = ok (handle_close c)
happen shuts_down c = ok (shutdown c)
happen queues_shutdown c = ok (shutdown_foreign c)
happen runs_shutdown c = ok (run_shutdown_task c)
happen forces_close c = ok (force_close c)
happen runs_close c = ok (run_close_task c)
happen starts_read c = ok (start_read c)
happen stops_read c = ok (stop_read c)

unfoldable pub run : List Happening → TcpConnection → Outcome TcpConnection
run [] c = ok c
run (h ∷ hs) c = happen h c >>= λ c'. run hs c'

-- send(2) takes at most what it is given.
abbrev pub Bounded : (ℕ → SysResult ℕ) → Type 0
Bounded send = (len n : ℕ) → send len ≡ returned n → n ≤ len

abbrev pub AllBounded : List Happening → Type 0
AllBounded [] = Unit {0}
AllBounded (sends msg send ∷ hs) = Bounded send × AllBounded hs
AllBounded (writes send stale ∷ hs) = Bounded send × AllBounded hs
AllBounded (_ ∷ hs) = AllBounded hs

-- The bytes that the client sends.
abbrev pub grows : Happening → ℕ
grows (sends msg send) = length msg
grows _ = 0

abbrev pub offered : List Happening → ℕ
offered [] = 0
offered (h ∷ hs) = grows h + offered hs

pub Bounded-Within : (send : ℕ → SysResult ℕ) (len : ℕ) → Bounded send → Within len (send len)
Bounded-Within send len bounded = go (send len) refl
  where
    go : (r : SysResult ℕ) → send len ≡ r → Within len r
    go (returned n) e = bounded len n e
    go (failed errno) e = tt

AllBounded-rest : (h : Happening) (hs : List Happening) → AllBounded (h ∷ hs) → AllBounded hs
AllBounded-rest (sends msg send) hs b = b.1
AllBounded-rest (writes send stale) hs b = b.1
AllBounded-rest hangs_up hs b = b
AllBounded-rest shuts_down hs b = b
AllBounded-rest queues_shutdown hs b = b
AllBounded-rest runs_shutdown hs b = b
AllBounded-rest forces_close hs b = b
AllBounded-rest runs_close hs b = b
AllBounded-rest starts_read hs b = b
AllBounded-rest stops_read hs b = b

pub happen-Kept :
    (h : Happening) (hs : List Happening) (c : TcpConnection)
    → InOrder c
    → AllBounded (h ∷ hs)
    → c.output_buffer.writer_index + grows h ≤ max_size
    → Returns (Kept (grows h) c) (happen h c)
unfolding happen
happen-Kept (sends msg send) hs c o b fits = send_in_loop-Kept msg (send (length msg)) c o fits
happen-Kept (writes send stale) hs c o b fits =
    handle_write-Kept (send (readable_bytes c.output_buffer)) stale c o
      (Bounded-Within send (readable_bytes c.output_buffer) b.0)
happen-Kept hangs_up hs c o b fits = closes-Kept 0 c o
happen-Kept shuts_down hs c o b fits = shutdown-Kept c o
happen-Kept queues_shutdown hs c o b fits = shutdown_foreign-Kept c o
happen-Kept runs_shutdown hs c o b fits = run_shutdown_task-Kept c o
happen-Kept forces_close hs c o b fits = force_close-Kept c o
happen-Kept runs_close hs c o b fits = run_close_task-Kept c o
happen-Kept starts_read hs c o b fits = start_read-Kept c o
happen-Kept stops_read hs c o b fits = stop_read-Kept c o

pub run-InOrder :
    (hs : List Happening) (c : TcpConnection)
    → InOrder c
    → AllBounded hs
    → c.output_buffer.writer_index + offered hs ≤ max_size
    → Returns InOrder (run hs c)
unfolding run
run-InOrder [] c o b fits = o
run-InOrder (h ∷ hs) c o b fits =
    Returns->>= _ _ (happen h c) (λ c'. run hs c') (happen-Kept h hs c o b (omega arith))
      (λ c' k. run-InOrder hs c' k.0 (AllBounded-rest h hs b) (let le = k.1 in omega arith))

-- What a connection promises of the bytes that it accepted.
pub record Delivers (c : TcpConnection) : Type 0 where
  pub stream : c.sent ++ contents c.output_buffer ≡ c.accepted
  pub half_close :
      c.shut ≡ true → (c.state ≡ disconnected) ⊎ ((c.state ≡ disconnecting) × (c.sent ≡ c.accepted))
  pub waits :
      (c.state ≡ disconnected)
      ⊎ (is_write_event c.events ≡ ltb 0 (length (contents c.output_buffer)))

pub InOrder-Delivers : (c : TcpConnection) → InOrder c → Delivers c
InOrder-Delivers c o = record {
  stream = stream;
  half_close = λ s. elim (o.late s) [
    | inl d ↦ inl d
    | inr (d, empty) ↦ inr (d, sym (append-nil c.sent) ∙ ap (◌++◌ c.sent) (sym empty) ∙ stream)
  ];
  waits =
      let (r, w, same, full) = o.flags in
      elim full [
        | inl d ↦ inl d
        | inr f ↦ inr (ap is_write_event same ∙ (events-ActsAsFlags r w).is_write ∙ f)
      ];
}
  where
    stream : c.sent ++ contents c.output_buffer ≡ c.accepted
    stream = sym (append-nil (c.sent ++ contents c.output_buffer)) ∙ o.stream

-- The connection that `ConnectionEstablished` leaves.
abbrev pub established : Buffer → Buffer → TcpConnection
established input output = notify (connection_changed ∷ []) (record (init input output) {
  state = connected;
  events = enable_read_event (init input output).events;
})

pub established-InOrder :
    (input output : Buffer)
    → IsValid output
    → contents output ≡ []
    → InOrder (established input output)
unfolding init
established-InOrder input output v empty = record {
  out = v;
  stream = append-nil (contents output) ∙ empty;
  flags = (
    true,
    false,
    (events-ActsAsFlags false false).enable_read,
    inr (sym (ap (λ q. ltb 0 (length q)) empty)),
  );
  late = λ s. absurd (ground arith);
  tasks = λ s. absurd (omega arith);
}

-- From its establishment on, with an empty output buffer, no history of Send, Shutdown, ForceClose,
-- StartRead, StopRead, hang-ups and room to write makes a connection fail, whatever `send` answers
-- and as long as all bytes sent fit behind the writer within max_size. At each end the bytes that the
-- kernel took and then those in the output buffer are exactly the bytes accepted, in their order; a
-- connection that is not disconnected waits to write exactly while some are left; and if the write
-- side was shut down before the connection was disconnected, the kernel had taken all of them.
pub run-Delivers :
    (hs : List Happening) (input output : Buffer)
    → IsValid output
    → contents output ≡ []
    → AllBounded hs
    → output.writer_index + offered hs ≤ max_size
    → Returns Delivers (connection_established (init input output) >>= λ c. run hs c)
unfolding connection_established init
run-Delivers hs input output v empty b fits =
    Returns-mono _ _ (run hs (established input output))
      (run-InOrder hs (established input output) (established-InOrder input output v empty) b fits)
      InOrder-Delivers
