-- ===== src/TcpConnection/Sending.antt =====
-- src/tcp_connection.cpp: send_in_loop, and the stream of bytes.
use benet.Prelude.{
  ℕ, suc, ◌+◌, ◌-◌, ◌≤◌, ◌≡◌, inl, inr, refl, sym, ap, subst, ◌∙◌, List, [], ◌∷◌, ◌++◌,
  append_assoc, append-nil, Bool, true, false, not, ◌&&◌, ◌||◌, ◌==◌, ltb, length, take, drop,
  take-append-drop, length-drop, SysResult, returned, failed, max_size, Returns, Returns-mono,
  Bool-cases, arith, ==_iff, ltb-true,
}
use benet.Channel.{is_write_event}
use benet.Channel.Mask.{events-ActsAsFlags}
use benet.Buffer.{Buffer, readable_bytes}
use benet.Buffer.Space.{IsValid, contents}
use benet.Buffer.Refine.{length-contents}
use benet.TcpConnection.{
  State, disconnected, connecting, connected, disconnecting, is_connected, write_complete,
  TcpConnection, notify_if, handle_close, keep_remaining, after_send, send_in_loop, eagain, epipe,
  econnreset, eintr, conduct_failure, shutdown_in_loop,
}
use benet.TcpConnection.Stream.{
  Flags, Over, Ending, Owing, InOrder, Kept, notify_if-Owing, notify_if-state, notify_if-output,
  keep_remaining-Kept, handle_close-InOrder, handle_close-output,
}

-- `send` reports no more bytes than it was given.
abbrev pub Within : ℕ → SysResult ℕ → Type 0
Within len (returned n) = n ≤ len
Within len (failed errno) = Unit {0}

pub is_connected_eq : (s : State) → is_connected s ≡ true → s ≡ connected
is_connected_eq disconnected e = ground arith
is_connected_eq connecting e = ground arith
is_connected_eq connected e = refl
is_connected_eq disconnecting e = ground arith

pub readable_lem : (b : Buffer) → IsValid b → readable_bytes b ≡ length (contents b)
readable_lem b v = omega (arith, length-contents b)

pub empty_list : (xs : List ℕ) → length xs ≡ 0 → xs ≡ []
empty_list [] e = refl
empty_list (x ∷ xs) e = absurd (omega arith)

nothing_left : (b : Buffer) → IsValid b → (readable_bytes b == 0) ≡ true → contents b ≡ []
nothing_left b v e =
    empty_list (contents b) (sym (readable_lem b v) ∙ (==_iff (readable_bytes b) 0).0 e)

-- More bytes accepted, all of them still owed.
accepts :
    (msg : List ℕ) (c : TcpConnection)
    → InOrder c
    → Owing msg (record c { accepted = c.accepted ++ msg })
accepts msg c o = record {
  out = o.out;
  stream = ap (λ x. x ++ msg) (sym (append-nil (c.sent ++ contents c.output_buffer)) ∙ o.stream);
  flags = o.flags;
  late = o.late;
  tasks = o.tasks;
}

-- The kernel took the first `n`.
sends_directly :
    (n : ℕ) (msg : List ℕ) (c : TcpConnection)
    → InOrder c
    → contents c.output_buffer ≡ []
    → Owing (drop n msg) (record c { accepted = c.accepted ++ msg; sent = c.sent ++ take n msg })
sends_directly n msg c o empty = record {
  out = o.out;
  stream =
      ap (λ q. ((c.sent ++ take n msg) ++ q) ++ drop n msg) empty
      ∙ ap (λ x. x ++ drop n msg) (append-nil (c.sent ++ take n msg))
      ∙ append_assoc c.sent (take n msg) (drop n msg)
      ∙ ap (◌++◌ c.sent) (take-append-drop n msg)
      ∙ ap (λ x. x ++ msg) (all_sent);
  flags = o.flags;
  late = o.late;
  tasks = o.tasks;
}
  where
    all_sent : c.sent ≡ c.accepted
    all_sent =
        sym (append-nil c.sent)
        ∙ sym (ap (◌++◌ c.sent) empty)
        ∙ sym (append-nil (c.sent ++ contents c.output_buffer))
        ∙ o.stream

pub closes-Kept : (grown : ℕ) (c : TcpConnection) → InOrder c → Kept grown c (handle_close c)
closes-Kept grown c o =
    let same = handle_close-output c in
    (
      handle_close-InOrder c o,
      subst (λ x. x.writer_index ≤ c.output_buffer.writer_index + grown) (sym same) (omega arith),
    )

after_send-Kept :
    (msg : List ℕ) (result : SysResult ℕ) (c : TcpConnection)
    → c.state ≡ connected
    → InOrder c
    → contents c.output_buffer ≡ []
    → c.output_buffer.writer_index + length msg ≤ max_size
    → Returns (Kept (length msg) c) (after_send msg result c)
unfolding after_send
after_send-Kept msg (returned n) c open_state o empty fits =
    let c₁ : TcpConnection = record c {
      accepted = c.accepted ++ msg;
      sent = c.sent ++ take n msg;
    } in
    let cond = length msg - n == 0 && c.write_complete_bound in
    let same = notify_if-output cond write_complete c₁ in
    Returns-mono _ _ (keep_remaining (drop n msg) (notify_if cond write_complete c₁))
      (keep_remaining-Kept (drop n msg) (notify_if cond write_complete c₁)
        (notify_if-state cond write_complete c₁ ∙ open_state)
        (notify_if-Owing (drop n msg) cond write_complete c₁ (sends_directly n msg c o empty))
        (subst (λ x. x.writer_index + length (drop n msg) ≤ max_size) (sym same)
          (omega (arith, length-drop n msg))))
      (λ c' h.
        let bound =
          subst (λ x. c'.output_buffer.writer_index ≤ x.writer_index + length (drop n msg)) same
            h.1 in
        (h.0, omega (arith, length-drop n msg)))
after_send-Kept msg (failed errno) c open_state o empty fits =
    elim (Bool-cases (not (errno == eagain) && (errno == epipe || errno == econnreset))) [
      | inl t ↦ rw t (closes-Kept (length msg) c o)
      | inr t ↦ rw t (
          keep_remaining-Kept msg (record c { accepted = c.accepted ++ msg }) open_state
            (accepts msg c o) fits)
    ]

-- `send_in_loop` on any state and any result of the kernel.
pub send_in_loop-Kept :
    (msg : List ℕ) (result : SysResult ℕ) (c : TcpConnection)
    → InOrder c
    → c.output_buffer.writer_index + length msg ≤ max_size
    → Returns (Kept (length msg) c) (send_in_loop msg result c)
unfolding send_in_loop
send_in_loop-Kept msg result c o fits = elim (Bool-cases (is_connected c.state)) [
  | inr t ↦ rw t (o, omega arith)
  | inl t ↦
      let open_state = is_connected_eq c.state t in
      elim (Bool-cases (not (is_write_event c.events) && readable_bytes c.output_buffer == 0)) [
        | inl direct ↦
            rw (t, direct)
              (after_send-Kept msg result c open_state o
                (nothing_left c.output_buffer o.out (ground arith)) fits)
        | inr later ↦
            rw (t, later)
              (keep_remaining-Kept msg (record c { accepted = c.accepted ++ msg }) open_state
                (accepts msg c o) fits)
      ]
]

-- A half-close that comes when the channel does not wait to write comes after the last byte.
pub shutdown_in_loop-InOrder :
    (c : TcpConnection) → Ending c.state → InOrder c → InOrder (shutdown_in_loop c)
unfolding shutdown_in_loop
shutdown_in_loop-InOrder c ending o = elim (Bool-cases (is_write_event c.events)) [
  | inl waits ↦ rw waits o
  | inr idle ↦ rw idle (record {
    out = o.out;
    stream = o.stream;
    flags = o.flags;
    late = λ s. over c ending o.flags idle;
    tasks = o.tasks;
  })
]
  where
    none_left : (w : Bool) (xs : List ℕ) → w ≡ false → w ≡ ltb 0 (length xs) → xs ≡ []
    none_left w [] e f = refl
    none_left w (x ∷ xs) e f =
        let g = ltb-true 0 (suc (length xs)) (omega arith) in absurd (ground arith)

    over :
        (c : TcpConnection)
        → Ending c.state
        → Flags c.state c.events (contents c.output_buffer)
        → is_write_event c.events ≡ false
        → Over c.state (contents c.output_buffer)
    over c (inl d) f idle = inl d
    over c (inr d) (r, w, same, inl gone) idle = inl gone
    over c (inr d) (r, w, same, inr full) idle =
        let w_idle =
          sym ((events-ActsAsFlags r w).is_write) ∙ ap is_write_event (sym same) ∙ idle in
        inr (d, none_left w (contents c.output_buffer) w_idle full)

pub conduct_failure-Kept :
    (errno : ℕ) (c : TcpConnection) → InOrder c → Kept 0 c (conduct_failure errno c)
unfolding conduct_failure
conduct_failure-Kept errno c o = elim (Bool-cases (errno == eagain || errno == eintr)) [
  | inl t ↦ rw t (o, omega arith)
  | inr t ↦ rw t (closes-Kept 0 c o)
]
