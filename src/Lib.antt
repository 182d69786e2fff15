-- ===== src/Lib.antt =====
-- benet: a C++ network library of the reactor kind, with one event loop per thread.
--
-- The parts. A TcpConnection (include/benet/tcp_connection.h) owns two Buffers and a Channel. A
-- Channel (include/benet/channel.h) holds the events that one descriptor waits for and the callbacks
-- that they run; it tells its EventLoop (include/benet/eventloop.h) of every change, and the loop
-- passes the change to its EPoller (include/benet/poller.h), which keeps the kernel's epoll instance
-- in step. The loop polls, runs the callbacks of the ready channels, and then the calls that any
-- thread has queued; an eventfd wakes it for them. Its TimerQueue (include/benet/timer_queue.h) is one
-- more channel, on a timerfd.
--
-- The files.
--   Prelude and its children: numbers, lists with native indices, size_t, and `Outcome`, how a call
--     can end: with a value, at a failed assert, by std::length_error, or in BELOG_CRITICAL.
--   Memory: byte vectors, as lists. Bits: the binary digits of a masked word.
--   Buffer (include/benet/buffer.h, all calls). A pointer is an index, and size_t wraps at 2^64.
--     Buffer.Queue is what the class promises, a queue of bytes, and Buffer.Refine sets the two side by
--     side; Space, Write and Growth have the memory side, Ints the numbers in network order,
--     Find the lines.
--   Channel (src/channel.cpp): the word of events (Mask) and HandleEvent (Dispatch), whose callbacks
--     are functions on a state that is a parameter; Names has the text of events.
--   Reactor (src/poller.cpp, and UpdateChannel and RemoveChannel of src/eventloop.cpp, update_events
--     and RemoveFromLoop of src/channel.cpp): channels by their addresses. Kernel is the interface of
--     epoll, with the success conditions that epoll_ctl(2) documents; Registry is the invariant of the
--     map, the indices and the interest list, which Equations and Calls carry through each operation.
--     Round is the part of Start (src/eventloop.cpp) that polls and has the active channels handled;
--     Wiring has the loop's own two channels, from its constructor to its destructor.
--   EventLoop (Start, Stop, QueueInLoop, set_wakeup and reset_wakeup of src/eventloop.cpp): steps of
--     the loop's thread and of other threads in any order; the eventfd is an interface. Ending has the
--     entry into Start, the constructor and the destructor.
--   TimerQueue (src/timer_queue.cpp, src/timer.cpp): Entries is the ordered set; the clock's readings
--     are arguments, in nanoseconds; a client's callbacks are functions to lists of calls. Requests has
--     RunAt, RunAfter and RunEvery (src/eventloop.cpp).
--   TcpConnection (src/tcp_connection.cpp): the operations in the loop's thread; what the kernel
--     answers is an argument, and a callback that becomes due is a notice. TcpConnection.Threads has
--     the overloads of Send, whose copies for the loop wait in a list; History has what the loop's thread
--     does with a connection, and Together the Sends of other threads among it.
--   TcpServer (src/tcp_server.cpp): the map of connections, with the tasks that the loops hold for it;
--     Shutdown has the destructor.
--   Acceptor (src/acceptor.cpp, and accept of src/socket_ops.cpp): the handler of a new connection,
--     over an interface of the descriptors that a process has; Setup has the constructor and Listen.
--   Socket (src/socket_ops.cpp, src/socket.cpp): the calls on sockets, over an interface of the
--     kernel's, with what bind(2) documents of the length of an address.
--   InetAddress (src/inet_address.cpp): an address and its port; inet_pton and inet_ntop are
--     parameters.
--   EventLoopThread (src/eventloop_thread.cpp): Start and the destructor, as steps of the owner and of
--     the new thread in any order.
--   EchoServer (example/echo_server.cpp): the message handler, behind a read of a connection, and
--     histories of such a connection.
--   EventLoopThreadPool (src/eventloop_threadpool.cpp): the loops of the threads, given out in turn
--     (Turns), and how many turns each gets (Shares).
--   A module Tests under a component has runs of it and the theorems at concrete inputs.
--
-- Bounds. Every loop of the code is a recursion on a list. TcpConnection.Draining.drain counts its
-- rounds; as many as there are bytes to send are enough, if the kernel takes some at each. A byte
-- vector has at most 2^63 - 1 elements, the max_size() of the library; a call that needs more ends in
-- std::length_error, so theorems on growing buffers bound the sum of the lengths. Descriptors,
-- addresses and times are unbounded numbers.
--
-- Not modelled. Logging, and the texts for it but for those of channels and states. The creation and
-- closing of most descriptors. A caller's memory that is part of the buffer itself. The interval of
-- a timer is a number of nanoseconds, so the rounding of a double, and negative intervals, are left
-- out. Calls that only pass on to the kernel or to another part. The echo client, which uses no code
-- of the library.
pub mod Prelude
pub mod Memory
pub mod Buffer
pub mod Bits
pub mod Channel
pub mod Reactor
pub mod EventLoop
pub mod TimerQueue
pub mod TcpConnection
pub mod TcpServer
pub mod InetAddress
pub mod Socket
pub mod EventLoopThread
pub mod EchoServer
pub mod Acceptor
pub mod EventLoopThreadPool
