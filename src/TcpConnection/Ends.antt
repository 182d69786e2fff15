-- ===== src/TcpConnection/Ends.antt =====
-- src/tcp_connection.cpp: what a read brings, and the end of a connection.
use benet.Prelude.{
  ℕ, suc, ◌+◌, ◌*◌, ◌≤◌, ◌≡◌, refl, sym, subst, Whenever, chained, List, [], ◌∷◌, ◌++◌, not, ◌&&◌,
  ◌||◌, ◌==◌, ltb, ltb-true, if◌then◌else◌, length, SysResult, returned, failed, max_size, Returns,
  Returns->>=, Bool-cases, inl, inr, arith,
}
use benet.Buffer.{Buffer, extra_buf_size, iov_room, read_fd}
use benet.Buffer.Space.{IsValid, contents}
use benet.Buffer.Growth.{read_fd_growth}
use benet.Buffer.Write.{ReadFrom, read_fd_lem}
use benet.TcpConnection.{
  is_connected, is_disconnecting, message, TcpConnection, notify, handle_close, conduct_failure,
  eagain, eintr, handle_read,
}

-- What a read leaves. Nothing to read now, or an interruption, changes nothing; the end of the
-- stream and any other failure close the connection; bytes come behind those that were not yet
-- taken, and the client hears of them.
abbrev pub Received : TcpConnection → SysResult (List ℕ) → TcpConnection → Type 0
Received c (failed errno) c' =
    c' ≡ (if errno == eagain || errno == eintr then c else handle_close c)
Received c (returned []) c' =
    IsValid c'.input_buffer
    × (contents c'.input_buffer ≡ contents c.input_buffer ++ [])
    × (c' ≡ handle_close (record c { input_buffer = c'.input_buffer }))
Received c (returned (b ∷ bs)) c' =
    IsValid c'.input_buffer
    × (contents c'.input_buffer ≡ contents c.input_buffer ++ b ∷ bs)
    × (c' ≡ notify (message ∷ []) (record c { input_buffer = c'.input_buffer }))

handle_close-input : (c : TcpConnection) → (handle_close c).input_buffer ≡ c.input_buffer
unfolding handle_close
handle_close-input c =
    elim (Bool-cases (not (is_connected c.state) && not (is_disconnecting c.state))) [
      | inl t ↦ rw t refl
      | inr t ↦ rw t refl
    ]

received :
    (c : TcpConnection) (r : SysResult (List ℕ)) (n : SysResult ℕ) (b : Buffer)
    → ReadFrom c.input_buffer r (n, b)
    → Received c r (elim n [
      | failed errno ↦ conduct_failure errno (record c { input_buffer = b })
      | returned m ↦
          if ltb 0 m
          then notify (message ∷ []) (record c { input_buffer = b })
          else handle_close (record c { input_buffer = b })
    ])
unfolding conduct_failure handle_close
received c (failed errno) n b (n_eq, same) = rw (n_eq, same) refl
received c (returned []) n b (n_eq, v, holds) =
    rw (n_eq, handle_close-input (record c { input_buffer = b })) (v, holds, refl)
received c (returned (x ∷ xs)) n b (n_eq, v, holds) =
    rw (n_eq, ltb-true 0 (suc (length xs)) (omega arith)) (v, holds, refl)

-- `handle_read`, where the kernel delivers no more than the room offered, the input buffer is valid
-- and may grow by the extra buffer: it returns. EAGAIN and EINTR change nothing; the end of the
-- stream and any other failure close the connection; else exactly the bytes delivered are behind
-- those that the client has not taken yet, and the client's callback runs.
pub handle_read-Received :
    (readv : ℕ → SysResult (List ℕ)) (c : TcpConnection)
    → ((room : ℕ) (bytes : List ℕ) → readv room ≡ returned bytes → length bytes ≤ room)
    → IsValid c.input_buffer
    → length c.input_buffer.buffer + extra_buf_size ≤ max_size
    → Returns (Received c (readv (iov_room c.input_buffer))) (handle_read readv c)
unfolding handle_read
handle_read-Received readv c bounded v fits =
    Returns->>= _ _ (read_fd readv c.input_buffer) _
      (read_fd_lem readv c.input_buffer bounded v fits)
      (λ r h. received c (readv (iov_room c.input_buffer)) r.0 r.1 h)

-- The end of `handle_read`.
abbrev conducted : SysResult ℕ → TcpConnection → TcpConnection
conducted r c = elim r [
  | failed errno ↦ conduct_failure errno c
  | returned n ↦ if ltb 0 n then notify (message ∷ []) c else handle_close c
]

conducted_input :
    (r : SysResult ℕ) (c : TcpConnection) → (conducted r c).input_buffer ≡ c.input_buffer
unfolding conduct_failure
conducted_input (failed errno) c = elim (Bool-cases (errno == eagain || errno == eintr)) [
  | inl t ↦ rw t refl
  | inr t ↦ rw t (handle_close-input c)
]
conducted_input (returned n) c = elim (Bool-cases (ltb 0 n)) [
  | inl t ↦ rw t refl
  | inr t ↦ rw t (handle_close-input c)
]

-- A read of `bytes` grows the vector of the input buffer by no more than 7 and twice their number.
pub handle_read_growth :
    (readv : ℕ → SysResult (List ℕ)) (bytes : List ℕ) (c : TcpConnection)
    → IsValid c.input_buffer
    → readv (iov_room c.input_buffer) ≡ returned bytes
    → length bytes ≤ max_size
    → Whenever
        (λ c'. length c'.input_buffer.buffer ≤ length c.input_buffer.buffer + 2 * length bytes + 7)
        (handle_read readv c)
unfolding handle_read
handle_read_growth readv bytes c v e h =
    chained _ _ (read_fd readv c.input_buffer) _ (read_fd_growth readv bytes c.input_buffer v e h)
      (λ r g.
        subst (λ b. length b.buffer ≤ length c.input_buffer.buffer + 2 * length bytes + 7)
          (sym (conducted_input r.0 (record c { input_buffer = r.1 }))) g)
