-- ===== src/TcpConnection/Accepting.antt =====
-- src/tcp_connection.cpp: send_in_loop and handle_write on an open connection.
use benet.Prelude.{
  ℕ, ◌≡◌, ◌⊎◌, inl, inr, refl, ap, List, ◌++◌, Bool, true, false, not, ◌&&◌, ◌||◌, ◌==◌, length,
  take, drop, SysResult, returned, failed, ok, Whenever, Whenever->>=, if◌then◌else◌, ltb,
  Bool-cases,
}
use benet.Memory.{slice}
use benet.Channel.{is_write_event, disable_write_event}
use benet.Buffer.{readable_bytes, append, retrieve, peek}
use benet.TcpConnection.{
  disconnected, connected, is_connected, is_disconnecting, write_complete, eintr, conduct_failure,
  shutdown_in_loop, after_write, finish_write, handle_write, Notice, TcpConnection, notify_if,
  handle_close, keep_all, keep_remaining, after_send, send_in_loop, eagain, epipe, econnreset,
}

-- The connection was closed on the way, or it is as open as before and `accepted` are the bytes
-- taken from the client; what came from the peer is untouched.
abbrev pub Took : List ℕ → TcpConnection → TcpConnection → Type 0
Took accepted c c' =
    (c'.input_buffer ≡ c.input_buffer)
    × ((c'.state ≡ disconnected) ⊎ ((c'.state ≡ c.state) × (c'.accepted ≡ accepted)))

keep_all-Took :
    (bytes : List ℕ) (c : TcpConnection) → Whenever (Took c.accepted c) (keep_all bytes c)
unfolding keep_all
keep_all-Took bytes c =
    Whenever->>= _ (append bytes c.output_buffer) _ (λ b. (refl, inr (refl, refl)))

notified-Took :
    (bytes : List ℕ) (b : Bool) (n : Notice) (c : TcpConnection)
    → Whenever (Took c.accepted c) (keep_all bytes (notify_if b n c))
notified-Took bytes true n c = keep_all-Took bytes (notify_if true n c)
notified-Took bytes false n c = keep_all-Took bytes c

keep_remaining-Took :
    (bytes : List ℕ) (c : TcpConnection) → Whenever (Took c.accepted c) (keep_remaining bytes c)
unfolding keep_remaining
keep_remaining-Took bytes c = elim (Bool-cases (length bytes == 0)) [
  | inl t ↦ rw t (refl, inr (refl, refl))
  | inr t ↦ rw t (notified-Took bytes _ _ c)
]

written-Took :
    (bytes : List ℕ) (b : Bool) (n : Notice) (c : TcpConnection)
    → Whenever (Took c.accepted c) (keep_remaining bytes (notify_if b n c))
written-Took bytes true n c = keep_remaining-Took bytes (notify_if true n c)
written-Took bytes false n c = keep_remaining-Took bytes c

pub handle_close-Took :
    (accepted : List ℕ) (c : TcpConnection) → c.state ≡ connected → Took accepted c (handle_close c)
unfolding handle_close
handle_close-Took accepted c e = rw e (refl, inl refl)

after_send-Took :
    (msg : List ℕ) (result : SysResult ℕ) (c : TcpConnection)
    → c.state ≡ connected
    → Whenever (Took (c.accepted ++ msg) c) (after_send msg result c)
unfolding after_send
after_send-Took msg (returned n) c e =
    written-Took (drop n msg) _ _
      (record c { accepted = c.accepted ++ msg; sent = c.sent ++ take n msg })
after_send-Took msg (failed errno) c e =
    elim (Bool-cases (not (errno == eagain) && (errno == epipe || errno == econnreset))) [
      | inl t ↦ rw t (handle_close-Took (c.accepted ++ msg) c e)
      | inr t ↦ rw t (keep_remaining-Took msg (record c { accepted = c.accepted ++ msg }))
    ]

-- A message on an open connection is accepted whole, unless the connection is closed on the way.
pub send_in_loop-Took :
    (msg : List ℕ) (result : SysResult ℕ) (c : TcpConnection)
    → c.state ≡ connected
    → Whenever (Took (c.accepted ++ msg) c) (send_in_loop msg result c)
unfolding send_in_loop
send_in_loop-Took msg result c e =
    let open_state = ap is_connected e in
    elim (Bool-cases (not (is_write_event c.events) && readable_bytes c.output_buffer == 0)) [
      | inl direct ↦ rw (open_state, direct) (after_send-Took msg result c e)
      | inr later ↦
          rw (open_state, later)
            (keep_remaining-Took msg (record c { accepted = c.accepted ++ msg }))
    ]

ends_write-Took :
    (bound : Bool) (n : Notice) (c : TcpConnection)
    → (let c' = notify_if bound n c in
        Took c.accepted c (if is_disconnecting c'.state then shutdown_in_loop c' else c'))
unfolding shutdown_in_loop
ends_write-Took bound n c = elim (Bool-cases (is_disconnecting c.state)) [
  | inr d ↦ elim (Bool-cases bound) [
    | inl b ↦ rw (b, d) (refl, inr (refl, refl))
    | inr b ↦ rw (b, d) (refl, inr (refl, refl))
  ]
  | inl d ↦ elim (Bool-cases (is_write_event c.events)) [
    | inl w ↦ elim (Bool-cases bound) [
      | inl b ↦ rw (b, d, w) (refl, inr (refl, refl))
      | inr b ↦ rw (b, d, w) (refl, inr (refl, refl))
    ]
    | inr w ↦ elim (Bool-cases bound) [
      | inl b ↦ rw (b, d, w) (refl, inr (refl, refl))
      | inr b ↦ rw (b, d, w) (refl, inr (refl, refl))
    ]
  ]
]

after_write-Took : (n : ℕ) (c : TcpConnection) → Whenever (Took c.accepted c) (after_write n c)
unfolding after_write finish_write
after_write-Took n c = Whenever->>= _ (retrieve n c.output_buffer) _ (λ b.
    elim (Bool-cases (ltb 0 (readable_bytes b))) [
      | inl left ↦ rw left (refl, inr (refl, refl))
      | inr none_left ↦ rw none_left (
          ends_write-Took c.write_complete_bound write_complete (record c {
            output_buffer = b;
            sent = c.sent ++ slice c.output_buffer.buffer (peek c.output_buffer) n;
            events = disable_write_event c.events;
          }))
    ])

conduct_failure-Took :
    (errno : ℕ) (c : TcpConnection)
    → c.state ≡ connected
    → Took c.accepted c (conduct_failure errno c)
unfolding conduct_failure
conduct_failure-Took errno c e = elim (Bool-cases (errno == eagain || errno == eintr)) [
  | inl t ↦ rw t (refl, inr (refl, refl))
  | inr t ↦ rw t (handle_close-Took c.accepted c e)
]

-- Room to write on an open connection takes nothing from the client, and closes the connection or
-- leaves it open.
pub handle_write-Took :
    (result : SysResult ℕ) (stale : ℕ) (c : TcpConnection)
    → c.state ≡ connected
    → Whenever (Took c.accepted c) (handle_write result stale c)
unfolding handle_write
handle_write-Took result stale c e = elim (Bool-cases (is_write_event c.events)) [
  | inr off ↦ rw off (refl, inr (refl, refl))
  | inl on ↦ rw on (go result)
]
  where
    go :
        (result : SysResult ℕ)
        → Whenever (Took c.accepted c) (elim result [
          | failed errno ↦ ok (conduct_failure errno c)
          | returned n ↦ if n == 0 then ok (conduct_failure stale c) else after_write n c
        ])
    go (failed errno) = conduct_failure-Took errno c e
    go (returned n) = elim (Bool-cases (n == 0)) [
      | inl t ↦ rw t (conduct_failure-Took stale c e)
      | inr t ↦ rw t (after_write-Took n c)
    ]
