-- ===== src/EchoServer/Stream.antt =====
-- example/echo_server.cpp: a connection of the echo server from its establishment on.
use benet.Prelude.{
  ℕ, ◌+◌, ◌*◌, ◌≤◌, ◌<◌, ◌≡◌, ◌⊎◌, inl, inr, refl, sym, ap, subst, ◌∙◌, List, [], ◌∷◌, ◌++◌,
  append_assoc, append-nil, if◌then◌else◌, length, take, length-take, length-append, drop_all,
  take-append-drop, SysResult, returned, Outcome, ok, ◌>>=◌, max_size, Returns, Returns->>=,
  Returns-both, Returns-mono, arith,
}
use benet.Buffer.{extra_buf_size, iov_room, readable_bytes}
use benet.Buffer.Space.{IsValid, contents}
use benet.TcpConnection.{disconnected, connected, TcpConnection, handle_close, handle_write}
use benet.TcpConnection.Stream.{InOrder, Kept}
use benet.TcpConnection.Sending.{closes-Kept}
use benet.TcpConnection.Writing.{handle_write-Kept}
use benet.TcpConnection.History.{Bounded, Bounded-Within}
use benet.TcpConnection.Accepting.{Took, handle_write-Took, handle_close-Took}
use benet.TcpConnection.Threads.{is_disconnected}
use benet.EchoServer.{EchoServer, receive}
use benet.EchoServer.Answers.{receive-Answered}

-- What its channel reports: bytes of the peer to be read, room to write, or a hang-up; `kernel` is
-- what `send` answers to a number of bytes.
pub data Visit : Type 0 where
  receives : (bytes : List ℕ) (kernel : ℕ → SysResult ℕ) → Visit
  writes : (kernel : ℕ → SysResult ℕ) (stale : ℕ) → Visit
  hangs_up : Visit

unfoldable pub handle : Visit → EchoServer → Outcome EchoServer
handle (receives bytes kernel) e = receive (λ room. returned (take room bytes)) kernel e
handle (writes kernel stale) e =
    handle_write (kernel (readable_bytes e.conn.output_buffer)) stale e.conn >>= λ c.
    ok (record e { conn = c })
handle hangs_up e = ok (record e { conn = handle_close e.conn })

-- The channel of a closed connection waits for nothing, so that nothing is reported any more.
unfoldable pub run : List Visit → EchoServer → Outcome EchoServer
run [] e = ok e
run (v ∷ vs) e =
    let rest = handle v e >>= λ e'. run vs e' in if is_disconnected e.conn.state then ok e else rest

-- Each read brings some bytes and no more than the extra buffer holds, and `send` takes no more than
-- it is given.
abbrev pub Fits : Visit → Type 0
Fits (receives bytes kernel) = (0 < length bytes) × (length bytes ≤ extra_buf_size)
Fits (writes kernel stale) = Bounded kernel
Fits hangs_up = Unit

abbrev pub AllFit : List Visit → Type 0
AllFit [] = Unit
AllFit (v ∷ vs) = Fits v × AllFit vs

abbrev pub brought : Visit → List ℕ
brought (receives bytes kernel) = bytes
brought _ = []

-- All bytes that the peer sent.
abbrev pub received : List Visit → List ℕ
received [] = []
received (v ∷ vs) = brought v ++ received vs

-- How far the vector of the input buffer may grow.
abbrev pub swells : List Visit → ℕ
swells [] = 0
swells (v ∷ vs) = 2 * length (brought v) + 7 + swells vs

-- All that came so far, `got`, is accepted for the peer, unless the connection was closed.
pub record Echoing (got : List ℕ) (e : EchoServer) : Type 0 where
  pub input : IsValid e.conn.input_buffer
  pub nothing_left : contents e.conn.input_buffer ≡ []
  pub stream : InOrder e.conn
  pub live : (e.conn.state ≡ disconnected) ⊎ ((e.conn.state ≡ connected) × (e.conn.accepted ≡ got))

abbrev Goes : Visit → List ℕ → EchoServer → EchoServer → Type 0
Goes v got e e' =
    Echoing (got ++ brought v) e'
    × (e'.conn.output_buffer.writer_index ≤ e.conn.output_buffer.writer_index + length (brought v))
    × (length e'.conn.input_buffer.buffer
        ≤ length e.conn.input_buffer.buffer + 2 * length (brought v) + 7)

-- What leaves the input buffer alone.
Kept-Goes :
    (v : Visit) (got : List ℕ) (e : EchoServer) (c : TcpConnection)
    → brought v ≡ []
    → e.conn.state ≡ connected
    → e.conn.accepted ≡ got
    → Echoing got e
    → Kept 0 e.conn c
    → Took e.conn.accepted e.conn c
    → Goes v got e (record e { conn = c })
Kept-Goes v got e c none_brought open_state all o kept took =
    rw (none_brought, append-nil got)
      (
        record {
          input = subst IsValid (sym took.0) o.input;
          nothing_left = ap contents took.0 ∙ o.nothing_left;
          stream = kept.0;
          live = elim took.1 [ inl d ↦ inl d | inr (s, a) ↦ inr (s ∙ open_state, a ∙ all) ];
        },
        omega (arith, kept.1),
        omega (arith, ap (λ b. length b.buffer) took.0),
      )

take_all : (n : ℕ) (xs : List ℕ) → length xs ≤ n → take n xs ≡ xs
take_all n xs h =
    sym (append-nil (take n xs))
    ∙ ap (◌++◌ (take n xs)) (sym (drop_all n xs h))
    ∙ take-append-drop n xs

module _ (got : List ℕ) (e : EchoServer) (open_state : e.conn.state ≡ connected)
    (all : e.conn.accepted ≡ got) (o : Echoing got e) where
  receives-Goes :
      (bytes : List ℕ) (kernel : ℕ → SysResult ℕ)
      → 0 < length bytes
      → length bytes ≤ extra_buf_size
      → e.conn.output_buffer.writer_index + length bytes ≤ max_size
      → length e.conn.input_buffer.buffer + extra_buf_size ≤ max_size
      → Returns (Goes (receives bytes kernel) got e) (handle (receives bytes kernel) e)
  unfolding handle
  receives-Goes bytes kernel some few fits grown =
      Returns-mono _ _ (receive (λ room. returned (take room bytes)) kernel e)
        (receive-Answered bytes (λ room. returned (take room bytes)) kernel e open_state o.stream
          o.input o.nothing_left (λ room delivered came. ground (arith, length-take room bytes))
          (ap returned (take_all (iov_room e.conn.input_buffer) bytes (ground arith))) some grown
          fits)
        (λ e' k. (
          record {
            input = k.input;
            nothing_left = k.nothing_left;
            stream = k.stream;
            live = elim k.answer [
              | inl d ↦ inl d
              | inr (s, a) ↦ inr (s, a ∙ ap (λ x. x ++ bytes) all)
            ];
          },
          k.moved,
          k.sized,
        ))

  handle-Goes :
      (v : Visit)
      → Fits v
      → e.conn.output_buffer.writer_index + length (brought v) ≤ max_size
      → length e.conn.input_buffer.buffer + extra_buf_size ≤ max_size
      → Returns (Goes v got e) (handle v e)
  unfolding handle
  handle-Goes (receives bytes kernel) f fits grown = receives-Goes bytes kernel f.0 f.1 fits grown
  handle-Goes (writes kernel stale) f fits grown =
      let result = kernel (readable_bytes e.conn.output_buffer) in
      Returns->>= _ _ (handle_write result stale e.conn) _
        (Returns-both (Kept 0 e.conn) (Took e.conn.accepted e.conn)
          (handle_write result stale e.conn)
          (handle_write-Kept result stale e.conn o.stream
            (Bounded-Within kernel (readable_bytes e.conn.output_buffer) f))
          (handle_write-Took result stale e.conn open_state))
        (λ c k. Kept-Goes (writes kernel stale) got e c refl open_state all o k.0 k.1)
  handle-Goes hangs_up f fits grown =
      Kept-Goes hangs_up got e (handle_close e.conn) refl open_state all o
        (closes-Kept 0 e.conn o.stream) (handle_close-Took e.conn.accepted e.conn open_state)

-- The end of a history: the connection is closed, or exactly `got` was sent or waits to be.
abbrev pub Echoed : List ℕ → EchoServer → Type 0
Echoed got e =
    (e.conn.state ≡ disconnected)
    ⊎ ((e.conn.state ≡ connected) × (e.conn.sent ++ contents e.conn.output_buffer ≡ got))

Echoing-Echoed : (got : List ℕ) (e : EchoServer) → Echoing got e → Echoed got e
Echoing-Echoed got e o = elim o.live [
  | inl d ↦ inl d
  | inr (s, a) ↦
      inr (s, sym (append-nil (e.conn.sent ++ contents e.conn.output_buffer)) ∙ o.stream.stream ∙ a)
]

run-from :
    (vs : List Visit) (got : List ℕ) (e : EchoServer)
    → Echoing got e
    → AllFit vs
    → e.conn.output_buffer.writer_index + length (received vs) ≤ max_size
    → length e.conn.input_buffer.buffer + swells vs + extra_buf_size ≤ max_size
    → Returns (Echoed (got ++ received vs)) (run vs e)
unfolding run
run-from [] got e o f fits grown =
    subst (λ x. Echoed x e) (sym (append-nil got)) (Echoing-Echoed got e o)
run-from (v ∷ vs) got e o f fits grown =
    let sizes = length-append (brought v) (received vs) in
    elim o.live [
      | inl d ↦ rw (ap is_disconnected d) (inl d)
      | inr (s, all) ↦ rw (ap is_disconnected s) (
          Returns->>= (Goes v got e) _ (handle v e) (λ e'. run vs e')
            (handle-Goes got e s all o v f.0 (omega (arith, sizes)) (omega arith))
            (λ e' g.
              subst (λ x. Returns (Echoed x) (run vs e'))
                (append_assoc got (brought v) (received vs))
                (run-from vs (got ++ brought v) e' g.0 f.1 (let m = g.1 in omega (arith, sizes))
                  (let m = g.2 in omega arith))))
    ]

-- From its establishment on, with nothing accepted and its buffers empty, a connection of the echo
-- server that reads what the peer sends, writes when there is room and may be hung up never fails,
-- whatever `send` answers: at each end it is closed, or the bytes that the kernel took and then those
-- in the output buffer are exactly all bytes received, in their order. Each read brings some bytes
-- and no more than the extra buffer holds, and all bytes fit behind the writer of the output buffer
-- and, twice and with 7 for each report, beside the extra buffer, into the input buffer.
pub run-Echoed :
    (vs : List Visit) (e : EchoServer)
    → e.conn.state ≡ connected
    → e.conn.accepted ≡ []
    → InOrder e.conn
    → IsValid e.conn.input_buffer
    → contents e.conn.input_buffer ≡ []
    → AllFit vs
    → e.conn.output_buffer.writer_index + length (received vs) ≤ max_size
    → length e.conn.input_buffer.buffer + swells vs + extra_buf_size ≤ max_size
    → Returns (Echoed (received vs)) (run vs e)
run-Echoed vs e open_state none_taken o v empty f fits grown =
    run-from vs [] e
      (record { input = v; nothing_left = empty; stream = o; live = inr (open_state, none_taken) })
      f fits grown
