-- ===== src/TcpConnection/Foreign.antt =====
-- src/tcp_connection.cpp: Send by a thread that is not the loop's, beside Send in the loop's thread.
use benet.Prelude.{
  ℕ, zero, suc, ◌≡◌, inl, inr, refl, sym, ap, ◌∙◌, List, [], ◌∷◌, ◌++◌, append_assoc, append-nil,
  true, false, leb-true, if◌then◌else◌, length, SysResult, Outcome, ok, assert_failed, length_error,
  critical, ◌>>=◌, Returns, Returns->>=, Bool-cases, arith, drop_all,
}
use benet.Memory.{slice, length-slice}
use benet.Buffer.{
  Buffer, readable_bytes, peek, retrieve, retrieve_all, retrieve_as_string, retrieve_all_as_string,
}
use benet.Buffer.Space.{IsValid, contents}
use benet.Buffer.Refine.{retrieve_lem}
use benet.TcpConnection.{
  connected, is_connected, TcpConnection, send_in_loop, begin_disconnecting, shutdown_foreign,
}
use benet.TcpConnection.Sending.{readable_lem}
use benet.TcpConnection.Threads.{
  Shared, send, send_foreign, run_send_task, send_buffer, send_buffer_foreign,
}

-- `Send` of a message by another thread, and then its task, comes to what Send in the loop's thread
-- does, if no other message waits in the loop.
pub send_foreign-send :
    (msg : List ℕ) (kernel : ℕ → SysResult ℕ) (c : TcpConnection)
    → run_send_task kernel (send_foreign msg (record { conn = c; tasks = [] }))
      ≡ (send msg (kernel (length msg)) c >>= λ c'. ok (record { conn = c'; tasks = [] }))
unfolding send send_foreign run_send_task
send_foreign-send msg kernel c = elim (Bool-cases (is_connected c.state)) [
  | inl t ↦ rw t refl
  | inr t ↦ rw t refl
]

-- What a thread that is not the loop's copies out of its buffer, and what it leaves there.
copies_all :
    (buf : Buffer)
    → IsValid buf
    → Returns
        (λ r. (r.0 ≡ slice buf.buffer (peek buf) (readable_bytes buf)) × (contents r.1 ≡ []))
        (retrieve_all_as_string buf)
unfolding retrieve_all_as_string retrieve_as_string
copies_all buf v =
    let same = readable_lem buf v in
    rw (leb-true (readable_bytes buf) (readable_bytes buf) (omega arith)) (
      Returns->>= _ _ (retrieve (readable_bytes buf) buf) _
        (retrieve_lem (readable_bytes buf) buf v (omega (arith, same)))
        (λ b k. (refl, k.1 ∙ drop_all (readable_bytes buf) (contents buf) (omega (arith, same)))))

-- A connection for which nothing waits in the loop.
abbrev alone : TcpConnection → Shared
alone c = record { conn = c; tasks = [] }

with_buffer :
    (m : Outcome TcpConnection) (b : Buffer)
    → (m >>= λ c. ok (alone c))
      ≡ ((m >>= λ c. let r : Buffer × TcpConnection = (b, c) in ok r) >>= λ r. ok (alone r.1))
with_buffer (ok c) b = refl
with_buffer assert_failed b = refl
with_buffer length_error b = refl
with_buffer critical b = refl

-- `Send` of a valid buffer by another thread succeeds, and its task then comes to what Send of that
-- buffer in the loop's thread does to the connection, if no other message waits in the loop; the
-- buffer is empty as well after it, unless the connection was not open.
pub send_buffer_foreign-send_buffer :
    (kernel : ℕ → SysResult ℕ) (buf : Buffer) (c : TcpConnection)
    → IsValid buf
    → Returns
        (λ r.
          (run_send_task kernel r.1 ≡ (
            send_buffer (kernel (readable_bytes buf)) buf c >>= λ p.
            ok (record { conn = p.1; tasks = [] })))
          × (contents r.0 ≡ (if is_connected c.state then [] else contents buf)))
        (send_buffer_foreign buf (record { conn = c; tasks = [] }))
unfolding send_buffer send_buffer_foreign run_send_task
send_buffer_foreign-send_buffer kernel buf c v = elim (Bool-cases (is_connected c.state)) [
  | inr t ↦ rw t (refl, refl)
  | inl t ↦ rw t (
      Returns->>= _ _ (retrieve_all_as_string buf) _ (copies_all buf v) (λ r k. (
        rw (k.0, length-slice buf.buffer (peek buf) (readable_bytes buf))
            (with_buffer (send_in_loop _ _ c) (retrieve_all buf)),
        k.1,
      )))
]

-- Another thread sends some messages, one after the other.
abbrev pub queue_all : List (List ℕ) → Shared → Shared
queue_all [] s = s
queue_all (msg ∷ msgs) s = queue_all msgs (send_foreign msg s)

-- The loop runs a number of the tasks.
abbrev pub run_tasks : (ℕ → SysResult ℕ) → ℕ → Shared → Outcome Shared
run_tasks kernel zero s = ok s
run_tasks kernel (suc n) s = run_send_task kernel s >>= λ s'. run_tasks kernel n s'

queue_all_lem :
    (msgs tasks : List (List ℕ)) (c : TcpConnection)
    → is_connected c.state ≡ true
    → queue_all msgs (record { conn = c; tasks = tasks })
      ≡ record { conn = c; tasks = tasks ++ msgs }
unfolding send_foreign
queue_all_lem [] tasks c e = ap (λ ts. record { conn = c; tasks = ts }) (sym (append-nil tasks))
queue_all_lem (msg ∷ msgs) tasks c e = rw e (
    queue_all_lem msgs (tasks ++ msg ∷ []) c e
    ∙ ap (λ ts. record { conn = c; tasks = ts }) (append_assoc tasks (msg ∷ []) msgs))

drops_all :
    (kernel : ℕ → SysResult ℕ) (msgs : List (List ℕ)) (c : TcpConnection)
    → is_connected c.state ≡ false
    → run_tasks kernel (length msgs) (record { conn = c; tasks = msgs }) ≡ ok (alone c)
unfolding run_send_task send_in_loop
drops_all kernel [] c e = refl
drops_all kernel (msg ∷ msgs) c e = rw e (drops_all kernel msgs c e)

shutdown_foreign_lem :
    (c : TcpConnection)
    → is_connected c.state ≡ true
    → is_connected (shutdown_foreign c).state ≡ false
unfolding shutdown_foreign begin_disconnecting
shutdown_foreign_lem c e = rw e refl

-- All messages that another thread sends while the connection is connected, and that wait in the
-- loop when it then calls Shutdown, are lost: each of them was queued, and once the loop has run
-- their tasks, whatever `send` would answer, the connection is as Shutdown left it, as though none
-- had been sent.
pub lost_before_shutdown :
    (msgs : List (List ℕ)) (kernel : ℕ → SysResult ℕ) (c : TcpConnection)
    → c.state ≡ connected
    → let queued = queue_all msgs (record { conn = c; tasks = [] }) in
      (queued.tasks ≡ msgs)
      × (run_tasks kernel (length msgs) (record queued { conn = shutdown_foreign queued.conn })
          ≡ ok (record { conn = shutdown_foreign c; tasks = [] }))
lost_before_shutdown msgs kernel c e =
    let open_state = ap is_connected e in
    let queued = queue_all_lem msgs [] c open_state in
    (
      ap (λ s. s.tasks) queued,
      ap (λ s. run_tasks kernel (length msgs) (record s { conn = shutdown_foreign s.conn })) queued
          ∙ drops_all kernel msgs (shutdown_foreign c) (shutdown_foreign_lem c open_state),
    )
