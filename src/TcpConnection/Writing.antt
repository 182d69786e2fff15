-- ===== src/TcpConnection/Writing.antt =====
-- src/tcp_connection.cpp: handle_write, and the stream of bytes.
use benet.Prelude.{
  ℕ, zero, suc, ◌+◌, ◌-◌, ◌≤◌, ◌≡◌, inl, inr, refl, sym, ap, ap₂, subst, ◌∙◌, List, [], ◌++◌,
  append_assoc, append-nil, true, false, ◌==◌, ltb, if◌then◌else◌, length, take, drop,
  take-append-drop, SysResult, returned, failed, ok, Returns, Returns->>=, Bool-cases, arith,
}
use benet.Memory.{slice}
use benet.Channel.{disable_write_event, is_write_event}
use benet.Channel.Mask.{events-ActsAsFlags}
use benet.Buffer.{Buffer, readable_bytes, retrieve}
use benet.Buffer.Space.{IsValid, contents}
use benet.Buffer.Refine.{length-contents, retrieve_lem, take-slice}
use benet.TcpConnection.{
  State, disconnected, connecting, connected, disconnecting, is_disconnecting, write_complete,
  TcpConnection, notify_if, conduct_failure, after_write, finish_write, handle_write,
  shutdown_in_loop,
}
use benet.TcpConnection.Stream.{Flags, InOrder, Kept, notify_if-Owing, notify_if-output}
use benet.TcpConnection.Sending.{
  Within, readable_lem, conduct_failure-Kept, shutdown_in_loop-InOrder,
}

is_disconnecting_eq : (s : State) → is_disconnecting s ≡ true → s ≡ disconnecting
is_disconnecting_eq disconnected e = ground arith
is_disconnecting_eq connecting e = ground arith
is_disconnecting_eq connected e = ground arith
is_disconnecting_eq disconnecting e = refl

-- The connection once the kernel took `n` bytes of the output buffer.
abbrev wrote : ℕ → Buffer → ℕ → TcpConnection → TcpConnection
wrote n b events c = record c {
  output_buffer = b;
  events = events;
  sent = c.sent ++ slice c.output_buffer.buffer c.output_buffer.reader_index n;
}

wrote-InOrder :
    (n : ℕ) (b : Buffer) (events : ℕ) (c : TcpConnection)
    → InOrder c
    → n ≤ length (contents c.output_buffer)
    → IsValid b
    → contents b ≡ drop n (contents c.output_buffer)
    → Flags c.state events (contents b)
    → InOrder (wrote n b events c)
wrote-InOrder n b events c o small v rest flags = record {
  out = v;
  stream =
      append-nil
        ((c.sent ++ slice c.output_buffer.buffer c.output_buffer.reader_index n) ++ contents b)
      ∙ ap₂ (λ x y. (c.sent ++ x) ++ y) front rest
      ∙ append_assoc c.sent (take n (contents c.output_buffer)) (drop n (contents c.output_buffer))
      ∙ ap (◌++◌ c.sent) (take-append-drop n (contents c.output_buffer))
      ∙ sym (append-nil (c.sent ++ contents c.output_buffer))
      ∙ o.stream;
  flags = flags;
  late = λ s. elim (o.late s) [
    | inl d ↦ inl d
    | inr (d, none_left) ↦ inr (d, rest ∙ ap (drop n) none_left ∙ drop_nil n)
  ];
  tasks = o.tasks;
}
  where
    front :
        slice c.output_buffer.buffer c.output_buffer.reader_index n
        ≡ take n (contents c.output_buffer)
    front = sym (
        take-slice c.output_buffer.buffer c.output_buffer.reader_index
          (c.output_buffer.writer_index - c.output_buffer.reader_index) n
          (omega (arith, length-contents c.output_buffer)))

    drop_nil : (n : ℕ) → drop {A = ℕ} n [] ≡ []
    drop_nil zero = refl
    drop_nil (suc n) = refl

-- `DisableWriteEvent`, or not, as there is something left.
still_waits :
    (s : State) (e : ℕ) (old new : List ℕ)
    → Flags s e old
    → is_write_event e ≡ true
    → ltb 0 (length new) ≡ true
    → Flags s e new
still_waits s e old new (r, w, same, rest) on left =
    let w_on = sym ((events-ActsAsFlags r w).is_write) ∙ ap is_write_event (sym same) ∙ on in
    (r, w, same, inr (w_on ∙ sym left))

waits_no_more :
    (s : State) (e : ℕ) (old new : List ℕ)
    → Flags s e old
    → ltb 0 (length new) ≡ false
    → Flags s (disable_write_event e) new
waits_no_more s e old new (r, w, same, rest) none_left = (
  r,
  false,
  ap disable_write_event same ∙ (events-ActsAsFlags r w).disable_write,
  inr (sym none_left),
)

pub shutdown_in_loop-output :
    (c : TcpConnection) → (shutdown_in_loop c).output_buffer ≡ c.output_buffer
unfolding shutdown_in_loop
shutdown_in_loop-output c = elim (Bool-cases (is_write_event c.events)) [
  | inl t ↦ rw t refl
  | inr t ↦ rw t refl
]

finish_write-InOrder :
    (c : TcpConnection)
    → InOrder (record c { events = disable_write_event c.events })
    → InOrder (finish_write c)
unfolding finish_write
finish_write-InOrder c o =
    let c' : TcpConnection =
      notify_if c.write_complete_bound write_complete
        (record c { events = disable_write_event c.events }) in
    let o' : InOrder c' =
      notify_if-Owing [] c.write_complete_bound write_complete
        (record c { events = disable_write_event c.events }) o in
    elim (Bool-cases (is_disconnecting c'.state)) [
      | inl d ↦ rw d (shutdown_in_loop-InOrder c' (inr (is_disconnecting_eq c'.state d)) o')
      | inr d ↦ rw d o'
    ]

pub finish_write-output : (c : TcpConnection) → (finish_write c).output_buffer ≡ c.output_buffer
unfolding finish_write
finish_write-output c =
    let c' : TcpConnection =
      notify_if c.write_complete_bound write_complete
        (record c { events = disable_write_event c.events }) in
    let same : c'.output_buffer ≡ c.output_buffer =
      notify_if-output c.write_complete_bound write_complete
        (record c { events = disable_write_event c.events }) in
    elim (Bool-cases (is_disconnecting c'.state)) [
      | inl d ↦ rw d (shutdown_in_loop-output c' ∙ same)
      | inr d ↦ rw d same
    ]

after_write-Kept :
    (n : ℕ) (c : TcpConnection)
    → InOrder c
    → is_write_event c.events ≡ true
    → n ≤ readable_bytes c.output_buffer
    → Returns (Kept 0 c) (after_write n c)
unfolding after_write
after_write-Kept n c o on small =
    let small' : n ≤ length (contents c.output_buffer) =
      subst (λ x. n ≤ x) (readable_lem c.output_buffer o.out) small in
    Returns->>= _ _ (retrieve n c.output_buffer) _ (retrieve_lem n c.output_buffer o.out small')
      (λ b k.
        let same = readable_lem b k.0 in
        elim (Bool-cases (ltb 0 (readable_bytes b))) [
          | inl left ↦ rw left (
            wrote-InOrder n b c.events c o small' k.0 k.1 (
                still_waits c.state c.events _ (contents b) o.flags on
                  (ap (ltb 0) (sym same) ∙ left)),
            omega (arith, k.2),
          )
          | inr none_left ↦ rw none_left (
            finish_write-InOrder (wrote n b c.events c) (
                wrote-InOrder n b (disable_write_event c.events) c o small' k.0 k.1 (
                  waits_no_more c.state c.events _ (contents b) o.flags
                    (ap (ltb 0) (sym same) ∙ none_left))),
            subst (λ x. x.writer_index ≤ c.output_buffer.writer_index + 0)
                (sym (finish_write-output (wrote n b c.events c))) (omega (arith, k.2)),
          )
        ])

-- `handle_write` on any state and any result of the kernel within what it was offered.
pub handle_write-Kept :
    (result : SysResult ℕ) (stale : ℕ) (c : TcpConnection)
    → InOrder c
    → Within (readable_bytes c.output_buffer) result
    → Returns (Kept 0 c) (handle_write result stale c)
unfolding handle_write
handle_write-Kept result stale c o within = elim (Bool-cases (is_write_event c.events)) [
  | inr off ↦ rw off (o, omega arith)
  | inl on ↦ rw on (go result within on)
]
  where
    go :
        (result : SysResult ℕ)
        → Within (readable_bytes c.output_buffer) result
        → is_write_event c.events ≡ true
        → Returns (Kept 0 c) (elim result [
          | failed errno ↦ ok (conduct_failure errno c)
          | returned n ↦ if n == 0 then ok (conduct_failure stale c) else after_write n c
        ])
    go (failed errno) within on = conduct_failure-Kept errno c o
    go (returned n) within on = elim (Bool-cases (n == 0)) [
      | inl t ↦ rw t (conduct_failure-Kept stale c o)
      | inr t ↦ rw t (after_write-Kept n c o on within)
    ]
