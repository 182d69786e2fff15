-- ===== src/TcpConnection/States.antt =====
-- src/tcp_connection.cpp: Shutdown, ForceClose, StartRead and StopRead, and the stream of bytes.
use benet.Prelude.{
  ℕ, zero, suc, ◌+◌, ◌≤◌, ◌≡◌, inl, inr, refl, sym, ap, subst, ◌∙◌, Bool, true, false, not, ◌||◌,
  if◌then◌else◌, Bool-cases, arith,
}
use benet.Channel.{enable_read_event, disable_read_event, is_read_event}
use benet.Channel.Mask.{events-ActsAsFlags}
use benet.Buffer.Space.{contents}
use benet.TcpConnection.{
  is_connected, is_disconnecting, TcpConnection, handle_close, shutdown_in_loop,
  begin_disconnecting, shutdown, shutdown_foreign, run_shutdown_task, force_close, run_close_task,
  start_read, stop_read,
}
use benet.TcpConnection.Stream.{Flags, Ending, InOrder, Kept, open_has_more}
use benet.TcpConnection.Sending.{is_connected_eq, closes-Kept, shutdown_in_loop-InOrder}
use benet.TcpConnection.Writing.{shutdown_in_loop-output}

begin-InOrder : (c : TcpConnection) → InOrder c → InOrder (begin_disconnecting c)
unfolding begin_disconnecting
begin-InOrder c o = elim (Bool-cases (is_connected c.state)) [
  | inr t ↦ rw t o
  | inl t ↦
      let open_state = is_connected_eq c.state t in
      let (r, w, same, full) = o.flags in
      rw t (record {
        out = o.out;
        stream = o.stream;
        flags = (r, w, same, elim full [ inl d ↦ absurd (ground arith) | inr f ↦ inr f ]);
        late = λ s. absurd (open_has_more c.state _ open_state (o.late s));
        tasks = λ s. inr refl;
      })
]

begin-Ending :
    (c : TcpConnection) → is_connected c.state ≡ true → Ending (begin_disconnecting c).state
unfolding begin_disconnecting
begin-Ending c t = rw t (inr refl)

begin-output : (c : TcpConnection) → (begin_disconnecting c).output_buffer ≡ c.output_buffer
unfolding begin_disconnecting
begin-output c = elim (Bool-cases (is_connected c.state)) [ inl t ↦ rw t refl | inr t ↦ rw t refl ]

-- An operation that leaves the output buffer alone.
still : (c c' : TcpConnection) → InOrder c' → c'.output_buffer ≡ c.output_buffer → Kept 0 c c'
still c c' o same =
    (o, subst (λ x. x.writer_index ≤ c.output_buffer.writer_index + 0) (sym same) (omega arith))

pub shutdown-Kept : (c : TcpConnection) → InOrder c → Kept 0 c (shutdown c)
unfolding shutdown
shutdown-Kept c o = elim (Bool-cases (is_connected c.state)) [
  | inr t ↦ rw t (still c c o refl)
  | inl t ↦ rw t (
      still c _
        (shutdown_in_loop-InOrder (begin_disconnecting c) (begin-Ending c t) (begin-InOrder c o))
        (shutdown_in_loop-output (begin_disconnecting c) ∙ begin-output c))
]

pub shutdown_foreign-Kept : (c : TcpConnection) → InOrder c → Kept 0 c (shutdown_foreign c)
unfolding shutdown_foreign
shutdown_foreign-Kept c o = elim (Bool-cases (is_connected c.state)) [
  | inr t ↦ rw t (still c c o refl)
  | inl t ↦
      let o' = begin-InOrder c o in
      rw t (
        still c (record (begin_disconnecting c) { shutdown_tasks = suc c.shutdown_tasks })
          (record {
            out = o'.out;
            stream = o'.stream;
            flags = o'.flags;
            late = o'.late;
            tasks = λ s. begin-Ending c t;
          })
          (begin-output c))
]

pub run_shutdown_task-Kept : (c : TcpConnection) → InOrder c → Kept 0 c (run_shutdown_task c)
unfolding run_shutdown_task
run_shutdown_task-Kept c o = go c.shutdown_tasks refl
  where
    go :
        (t : ℕ)
        → c.shutdown_tasks ≡ t
        → Kept 0 c
            (elim t [ zero ↦ c | suc n ↦ shutdown_in_loop (record c { shutdown_tasks = n }) ])
    go zero e = still c c o refl
    go (suc n) e =
        let ending = o.tasks (omega arith) in
        still c _
          (shutdown_in_loop-InOrder (record c { shutdown_tasks = n }) ending
            (record {
              out = o.out;
              stream = o.stream;
              flags = o.flags;
              late = o.late;
              tasks = λ s. ending;
            }))
          (shutdown_in_loop-output (record c { shutdown_tasks = n }))

tasks_changed : (n : ℕ) (c : TcpConnection) → InOrder c → InOrder (record c { close_tasks = n })
tasks_changed n c o = record {
  out = o.out;
  stream = o.stream;
  flags = o.flags;
  late = o.late;
  tasks = o.tasks;
}

pub force_close-Kept : (c : TcpConnection) → InOrder c → Kept 0 c (force_close c)
unfolding force_close
force_close-Kept c o = elim (Bool-cases (is_connected c.state || is_disconnecting c.state)) [
  | inr t ↦ rw t (still c c o refl)
  | inl t ↦ rw t (
      still c (record (begin_disconnecting c) { close_tasks = suc c.close_tasks })
        (tasks_changed (suc c.close_tasks) (begin_disconnecting c) (begin-InOrder c o))
        (begin-output c))
]

pub run_close_task-Kept : (c : TcpConnection) → InOrder c → Kept 0 c (run_close_task c)
unfolding run_close_task
run_close_task-Kept c o = go c.close_tasks
  where
    close_if :
        (n : ℕ) (b : Bool)
        → Kept 0 c (
            if b then handle_close (record c { close_tasks = n }) else record c { close_tasks = n })
    close_if n true = closes-Kept 0 (record c { close_tasks = n }) (tasks_changed n c o)
    close_if n false = still c (record c { close_tasks = n }) (tasks_changed n c o) refl

    go :
        (t : ℕ)
        → Kept 0 c (elim t [
          | zero ↦ c
          | suc n ↦
              (let c' = record c { close_tasks = n } in
                if is_connected c'.state || is_disconnecting c'.state then handle_close c' else c')
        ])
    go zero = still c c o refl
    go (suc n) = close_if n (is_connected c.state || is_disconnecting c.state)

-- `StartRead` and `StopRead` change the other flag.
read_changed :
    (e : ℕ) (reading : Bool) (c : TcpConnection)
    → InOrder c
    → Flags c.state e (contents c.output_buffer)
    → InOrder (record c { events = e; reading = reading })
read_changed e reading c o flags = record {
  out = o.out;
  stream = o.stream;
  flags = flags;
  late = o.late;
  tasks = o.tasks;
}

pub start_read-Kept : (c : TcpConnection) → InOrder c → Kept 0 c (start_read c)
unfolding start_read
start_read-Kept c o =
    let (r, w, same, full) = o.flags in
    elim (Bool-cases (not c.reading || not (is_read_event c.events))) [
      | inr t ↦ rw t (still c c o refl)
      | inl t ↦ rw t (
          still c (record c { events = enable_read_event c.events; reading = true })
            (read_changed _ true c o
              (true, w, ap enable_read_event same ∙ (events-ActsAsFlags r w).enable_read, full))
            refl)
    ]

pub stop_read-Kept : (c : TcpConnection) → InOrder c → Kept 0 c (stop_read c)
unfolding stop_read
stop_read-Kept c o =
    let (r, w, same, full) = o.flags in
    elim (Bool-cases (c.reading || is_read_event c.events)) [
      | inr t ↦ rw t (still c c o refl)
      | inl t ↦ rw t (
          still c (record c { events = disable_read_event c.events; reading = false })
            (read_changed _ false c o
              (false, w, ap disable_read_event same ∙ (events-ActsAsFlags r w).disable_read, full))
            refl)
    ]
