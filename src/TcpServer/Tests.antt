-- ===== src/TcpServer/Tests.antt =====
-- src/tcp_server.cpp: runs of a server.
use benet.Prelude.{◌>>=◌, true, ◌≡◌, refl, List, [], ◌∷◌, ok, arith, Returns}
use benet.TcpServer.{
  Step, accepts, closes, removes, init, step, run, new_connection, close, remove_connection,
  destruct, destroy_all,
}
use benet.EventLoopThreadPool.{EventLoopThreadPool, get_next_loop}
use benet.TcpServer.Shutdown.{new_connection_on, AllDestroyed, run-AllDestroyed}
use benet.TcpServer.Tracking.{Tracked, run-Tracked}

abbrev visits : List Step
visits = accepts ∷ accepts ∷ closes 0 ∷ closes 0 ∷ removes ∷ closes 1 ∷ accepts ∷ removes ∷ []

three_visitors :
    run visits init
    ≡ ok (record {
      next_conn_id = 3;
      connections = 2 ∷ [];
      opened = 2 ∷ [];
      removals = [];
      destroys = 0 ∷ 1 ∷ [];
    })
unfolding run init step new_connection close remove_connection
three_visitors = refl

run-Tracked_example : Returns Tracked (run visits init)
run-Tracked_example = run-Tracked visits (omega arith)

run-AllDestroyed_example : Returns (λ s. AllDestroyed s.next_conn_id (destruct s)) (run visits init)
run-AllDestroyed_example = run-AllDestroyed visits (omega arith)

all_destroyed : (run visits init >>= λ s. ok (destruct s).destroys) ≡ ok (0 ∷ 1 ∷ 2 ∷ [])
unfolding run init step new_connection close remove_connection destruct destroy_all
all_destroyed = refl

-- A pool of two loops; the connection gets the second.
abbrev two_loops : EventLoopThreadPool
two_loops = record {
  base_loop = 1;
  base_thread = 2;
  started = true;
  num_threads = 2;
  loops = 10 ∷ 20 ∷ [];
}

given_second : (new_connection_on 2 two_loops 3 init >>= λ r. ok r.0) ≡ ok 20
unfolding new_connection_on get_next_loop
given_second = refl
