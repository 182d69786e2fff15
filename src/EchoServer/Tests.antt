-- ===== src/EchoServer/Tests.antt =====
-- example/echo_server.cpp: the echo of three bytes, and the counters printed after it.
use benet.Prelude.{
  ℕ, ◌≤◌, ◌≡◌, inr, refl, List, [], ◌∷◌, true, false, leb, min, if◌then◌else◌, length, SysResult,
  returned, failed, Returns, arith,
}
use benet.Buffer.{Buffer}
use benet.Buffer.Space.{IsValid}
use benet.TcpConnection.{connected}
use benet.TcpConnection.Stream.{InOrder}
use benet.EchoServer.{EchoServer, print_throughput, receive}
use benet.TcpConnection.History.{Bounded}
use benet.EchoServer.Stream.{Visit, receives, writes, run, Echoed, run-Echoed}
use benet.EchoServer.Answers.{Answered, receive-Answered}

abbrev empty_buffer : Buffer
empty_buffer = record {
  buffer = 0 ∷ 0 ∷ 0 ∷ 0 ∷ 0 ∷ 0 ∷ 0 ∷ 0 ∷ 0 ∷ 0 ∷ 0 ∷ 0 ∷ [];
  reader_index = 8;
  writer_index = 8;
}

abbrev server : EchoServer
server = record {
  conn = record {
    state = connected;
    reading = true;
    events = 3;
    mark = 8;
    high_water_mark_bound = false;
    write_complete_bound = false;
    input_buffer = empty_buffer;
    output_buffer = empty_buffer;
    notices = [];
    shut = false;
    shutdown_tasks = 0;
    close_tasks = 0;
    accepted = [];
    sent = [];
  };
  receive_bytes = 5;
  receive_msgs = 1;
}

empty_buffer-IsValid : IsValid empty_buffer
empty_buffer-IsValid = omega arith

server-InOrder : InOrder server.conn
server-InOrder = record {
  out = empty_buffer-IsValid;
  stream = refl;
  flags = (true, false, refl, inr refl);
  late = λ s. absurd (ground arith);
  tasks = λ s. absurd (omega arith);
}

-- A peer that has sent three bytes, and a kernel that sends two at a time.
abbrev delivers_three : ℕ → SysResult (List ℕ)
delivers_three room = if leb 3 room then returned (1 ∷ 2 ∷ 3 ∷ []) else failed 11

delivers_three-bounded :
    (room : ℕ) (delivered : List ℕ)
    → delivers_three room ≡ returned delivered
    → length delivered ≤ room
delivers_three-bounded room delivered e = ground arith

abbrev takes_two : ℕ → SysResult ℕ
takes_two len = returned (min 2 len)

answered : Returns (Answered (1 ∷ 2 ∷ 3 ∷ []) 25 server) (receive delivers_three takes_two server)
answered =
    receive-Answered (1 ∷ 2 ∷ 3 ∷ []) delivers_three takes_two server refl server-InOrder
      empty_buffer-IsValid refl delivers_three-bounded refl (omega arith) (omega arith)
      (omega arith)

printed : print_throughput server ≡ ((5, 1), record server { receive_bytes = 0; receive_msgs = 0 })
unfolding print_throughput
printed = refl

takes_two-Bounded : Bounded takes_two
takes_two-Bounded len n e = ground arith

-- The peer sends twice, and there is room to write between.
abbrev exchange : List Visit
exchange =
    receives (1 ∷ 2 ∷ 3 ∷ []) takes_two ∷ writes takes_two 0 ∷ receives (4 ∷ []) takes_two ∷ []

run-Echoed_example : Returns (Echoed (1 ∷ 2 ∷ 3 ∷ 4 ∷ [])) (run exchange server)
run-Echoed_example =
    run-Echoed exchange server refl refl server-InOrder empty_buffer-IsValid refl
      ((omega arith, omega arith), (takes_two-Bounded, ((omega arith, omega arith), tt)))
      (omega arith) (omega arith)
