-- ===== src/TcpServer.antt =====
-- src/tcp_server.cpp: the map of connections, from their acceptance to their destruction.
-- A connection is known by the number in its name. The other parts of the name are the same for all
-- connections of a server; the number is a static of the program, here that of its one server. What
-- runs in the loops of the connections is one step each. What the server does itself is taken to run in
-- its own loop's thread, where AssertInLoopThread passes.
pub mod Tracking
pub mod Shutdown
mod Tests
use benet.Prelude.{
  ℕ, suc, ◌+◌, ◌-◌, List, [], ◌∷◌, ◌++◌, Bool, true, false, ◌||◌, ◌==◌, if◌then◌else◌, Outcome, ok,
  assert, ◌>>=◌, ◌>>◌, size_add,
}

-- `connections` are the keys of `connections_`. `opened` are the connections whose `on_close_` has not
-- run, `removals` those whose removal is queued in the server's loop, and `destroys` those whose
-- ConnectionDestroyed is queued in their own loop; they stand for what the loops hold.
pub record TcpServer : Type 0 where
  pub next_conn_id : ℕ
  pub connections : List ℕ
  pub opened : List ℕ
  pub removals : List ℕ
  pub destroys : List ℕ

unfoldable pub init : TcpServer
init = record { next_conn_id = 0; connections = []; opened = []; removals = []; destroys = [] }

abbrev pub contains : ℕ → List ℕ → Bool
contains a [] = false
contains a (x ∷ xs) = x == a || contains a xs

-- `connections_[conn_name] = conn` and `connections_.erase(name)`, with the number erased.
abbrev pub insert_key : ℕ → List ℕ → List ℕ
insert_key a xs = if contains a xs then xs else a ∷ xs

abbrev pub erase_key : ℕ → List ℕ → List ℕ
erase_key a [] = []
erase_key a (x ∷ xs) = if x == a then xs else x ∷ erase_key a xs

abbrev pub erased : ℕ → List ℕ → ℕ
erased a xs = if contains a xs then 1 else 0

-- `new_connection`
unfoldable pub new_connection : TcpServer → TcpServer
new_connection s =
    let id = s.next_conn_id in
    record s {
      next_conn_id = size_add id 1;
      connections = insert_key id s.connections;
      opened = id ∷ s.opened;
    }

-- A connection runs its `on_close_`, which it does once (src/tcp_connection.cpp, handle_close); that
-- is `remove_connection`, up to its task.
unfoldable pub close : ℕ → TcpServer → TcpServer
close id s =
    if contains id s.opened
    then record s { opened = erase_key id s.opened; removals = s.removals ++ id ∷ [] }
    else s

-- The task of `remove_connection`, the next one in the server's loop.
unfoldable pub remove_connection : TcpServer → Outcome TcpServer
remove_connection s = elim s.removals [
  | [] ↦ ok s
  | id ∷ rest ↦ assert (erased id s.connections == 1) >>= λ _. ok (record s {
    connections = erase_key id s.connections;
    removals = rest;
    destroys = s.destroys ++ id ∷ [];
  })
]

pub data Step : Type 0 where
  accepts removes : Step
  closes : ℕ → Step

unfoldable pub step : Step → TcpServer → Outcome TcpServer
step accepts s = ok (new_connection s)
step (closes id) s = ok (close id s)
step removes s = remove_connection s

unfoldable pub run : List Step → TcpServer → Outcome TcpServer
run [] s = ok s
run (x ∷ xs) s = step x s >>= λ s'. run xs s'

-- The loop of the destructor: ConnectionDestroyed of every connection in the map is run, or queued, in
-- the connection's own loop. The order of the map, by names, is left out.
unfoldable pub destroy_all : List ℕ → TcpServer → TcpServer
destroy_all [] s = s
destroy_all (id ∷ ids) s = destroy_all ids (record s { destroys = s.destroys ++ id ∷ [] })

unfoldable pub destruct : TcpServer → TcpServer
destruct s = record (destroy_all s.connections s) { connections = [] }
