-- ===== src/TcpServer/Shutdown.antt =====
-- src/tcp_server.cpp: the destructor, and the loops that connections are given.
use benet.Prelude.{
  ℕ, ◌^◌, ◌<◌, ◌≡◌, sym, ap, ◌∙◌, List, [], ◌∷◌, ◌++◌, append-nil, append_assoc, ltb, if◌then◌else◌,
  Outcome, ok, ◌>>=◌, Returns, Returns-mono,
}
use benet.EventLoopThreadPool.{EventLoopThreadPool, get_next_loop}
use benet.TcpServer.{TcpServer, init, Step, run, new_connection, destroy_all, destruct}
use benet.TcpServer.Tracking.{copies, copies-append, accepted, Tracked, run-Tracked}

-- `new_connection` with its choice of a loop: the loop, the next index and the server.
unfoldable pub new_connection_on :
    ℕ → EventLoopThreadPool → ℕ → TcpServer → Outcome (ℕ × (ℕ × TcpServer))
new_connection_on here pool next_index s =
    get_next_loop here pool next_index >>= λ r. ok (r.0, (r.1, new_connection s))

destroy_all-destroys :
    (ids : List ℕ) (s : TcpServer) → (destroy_all ids s).destroys ≡ s.destroys ++ ids
unfolding destroy_all
destroy_all-destroys [] s = sym (append-nil s.destroys)
destroy_all-destroys (id ∷ ids) s =
    destroy_all-destroys ids (record s { destroys = s.destroys ++ id ∷ [] })
    ∙ append_assoc s.destroys (id ∷ []) ids

-- Of each connection that the server has accepted, and of no other, ConnectionDestroyed was handed to
-- the connection's loop, once.
abbrev pub AllDestroyed : ℕ → TcpServer → Type 0
AllDestroyed next s = (x : ℕ) → copies x s.destroys ≡ (if ltb x next then 1 else 0)

destruct-AllDestroyed : (s : TcpServer) → Tracked s → AllDestroyed s.next_conn_id (destruct s)
unfolding destruct
destruct-AllDestroyed s t x =
    ap (copies x) (destroy_all-destroys s.connections s)
    ∙ copies-append x s.destroys s.connections
    ∙ t.accounted x

-- Whatever a server has seen, of fewer than 2^64 connections, when its destructor runs: after it, of
-- each connection that was ever accepted ConnectionDestroyed was handed to the connection's loop
-- exactly once, and of no other.
pub run-AllDestroyed :
    (xs : List Step)
    → accepted xs < 2 ^ 64
    → Returns (λ s. AllDestroyed s.next_conn_id (destruct s)) (run xs init)
run-AllDestroyed xs small =
    Returns-mono _ _ (run xs init) (run-Tracked xs small) (λ s t. destruct-AllDestroyed s t)
