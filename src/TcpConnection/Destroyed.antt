-- ===== src/TcpConnection/Destroyed.antt =====
-- src/tcp_connection.cpp: ConnectionDestroyed of a connection whose peer has not closed.
use benet.Prelude.{
  ◌+◌, ◌≤◌, ◌≡◌, inl, inr, refl, sym, ap, subst, ◌∙◌, List, [], true, false, not, ◌||◌, ltb,
  if◌then◌else◌, length, ok, assert_failed, ◌>>=◌, max_size, Returns, Bool-cases, arith,
}
use benet.Channel.{is_none_event, is_read_event}
use benet.Channel.Mask.{events-ActsAsFlags}
use benet.Buffer.{Buffer}
use benet.Buffer.Space.{IsValid, contents}
use benet.TcpConnection.{
  disconnecting, TcpConnection, connection_established, connection_destroyed, init,
}
use benet.TcpConnection.Stream.{InOrder}
use benet.TcpConnection.History.{
  Happening, AllBounded, offered, run, run-InOrder, established, established-InOrder,
}

waits_for_nothing :
    (c : TcpConnection)
    → InOrder c
    → c.state ≡ disconnecting
    → is_none_event c.events
      ≡ not (is_read_event c.events || ltb 0 (length (contents c.output_buffer)))
waits_for_nothing c o e =
    let (r, w, same, full) = o.flags in
    let acts = events-ActsAsFlags r w in
    elim full [
      | inl d ↦ let clash = sym e ∙ d in absurd (ground arith)
      | inr f ↦
          ap is_none_event same
          ∙ acts.is_none
          ∙ ap (λ b. not (b || w)) (sym (ap is_read_event same ∙ acts.is_read))
          ∙ ap (λ b. not (is_read_event c.events || b)) f
    ]

-- From its establishment on, with an empty output buffer, after every history of a connection in
-- which `send` takes no more than it is given, and as long as all bytes sent fit behind the writer
-- within max_size: if the connection is then disconnecting (it was told to shut down or to close,
-- and has not been closed), ConnectionDestroyed fails, by the assertion of RemoveFromLoop, exactly
-- if the channel still asks to read or some bytes are left in the output buffer; else it changes
-- nothing.
pub destroyed_while_disconnecting :
    (hs : List Happening) (input output : Buffer) (c : TcpConnection)
    → IsValid output
    → contents output ≡ []
    → AllBounded hs
    → output.writer_index + offered hs ≤ max_size
    → (connection_established (init input output) >>= λ c'. run hs c') ≡ ok c
    → c.state ≡ disconnecting
    → connection_destroyed c ≡ (
        if is_read_event c.events || ltb 0 (length (contents c.output_buffer))
        then assert_failed
        else ok c)
unfolding connection_established init connection_destroyed
destroyed_while_disconnecting hs input output c v empty b fits ends e =
    let start = established input output in
    let o : InOrder c =
      subst (Returns InOrder) ends
        (run-InOrder hs start (established-InOrder input output v empty) b fits) in
    let quiet = waits_for_nothing c o e in
    elim (Bool-cases (is_read_event c.events || ltb 0 (length (contents c.output_buffer)))) [
      | inl t ↦ let q : is_none_event c.events ≡ false = quiet ∙ ap not t in rw (e, q, t) refl
      | inr t ↦ let q : is_none_event c.events ≡ true = quiet ∙ ap not t in rw (e, q, t) refl
    ]
