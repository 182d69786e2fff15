-- ===== src/TcpConnection/Together.antt =====
-- src/tcp_connection.cpp: histories of a connection to which other threads send as well.
use benet.Prelude.{
  ℕ, ◌+◌, ◌≤◌, ◌≡◌, refl, ap, List, [], ◌∷◌, ◌++◌, length, SysResult, Outcome, ok, ◌>>=◌, max_size,
  Returns, Returns->>=, Returns-mono, Bool-cases, inl, inr, arith,
}
use benet.Buffer.{Buffer}
use benet.Buffer.Space.{IsValid, contents}
use benet.TcpConnection.{is_connected, send_in_loop, connection_established, init}
use benet.TcpConnection.Stream.{InOrder}
use benet.TcpConnection.Sending.{send_in_loop-Kept}
use benet.TcpConnection.History.{
  Happening, happen, grows, Bounded, AllBounded, happen-Kept, established, established-InOrder,
  Delivers, InOrder-Delivers,
}
use benet.TcpConnection.Threads.{Shared, send_foreign, run_send_task}

-- What the loop's thread does, a Send by another thread, and the oldest task of such a Send, for
-- which `kernel` is what `send` answers.
pub data Action : Type 0 where
  acts : Happening → Action
  queues : List ℕ → Action
  runs_task : (ℕ → SysResult ℕ) → Action

unfoldable pub act : Action → Shared → Outcome Shared
act (acts h) s = happen h s.conn >>= λ c. ok (record s { conn = c })
act (queues msg) s = ok (send_foreign msg s)
act (runs_task kernel) s = run_send_task kernel s

unfoldable pub run : List Action → Shared → Outcome Shared
run [] s = ok s
run (x ∷ xs) s = act x s >>= λ s'. run xs s'

-- The bytes that an action brings, and those that wait in the loop.
abbrev pub brings : Action → ℕ
brings (acts h) = grows h
brings (queues msg) = length msg
brings (runs_task kernel) = 0

abbrev pub brought : List Action → ℕ
brought [] = 0
brought (x ∷ xs) = brings x + brought xs

abbrev pub waiting : List (List ℕ) → ℕ
waiting [] = 0
waiting (msg ∷ tasks) = length msg + waiting tasks

-- The kernel takes no more than it is given.
abbrev pub AllWithin : List Action → Type 0
AllWithin [] = Unit {0}
AllWithin (acts h ∷ xs) = AllBounded (h ∷ []) × AllWithin xs
AllWithin (queues msg ∷ xs) = AllWithin xs
AllWithin (runs_task kernel ∷ xs) = Bounded kernel × AllWithin xs

waiting-append :
    (tasks : List (List ℕ)) (msg : List ℕ)
    → waiting (tasks ++ msg ∷ []) ≡ waiting tasks + length msg
waiting-append [] msg = omega arith
waiting-append (t ∷ tasks) msg = omega (arith, waiting-append tasks msg)

-- The order holds on, and no more room is needed than the action brings.
abbrev Keeps : ℕ → Shared → Shared → Type 0
Keeps n s s' =
    InOrder s'.conn
    × (s'.conn.output_buffer.writer_index + waiting s'.tasks
        ≤ s.conn.output_buffer.writer_index + waiting s.tasks + n)

send_foreign-Keeps :
    (msg : List ℕ) (s : Shared) → InOrder s.conn → Keeps (length msg) s (send_foreign msg s)
unfolding send_foreign
send_foreign-Keeps msg s o = elim (Bool-cases (is_connected s.conn.state)) [
  | inl t ↦ rw t (o, omega (arith, waiting-append s.tasks msg))
  | inr t ↦ rw t (o, omega arith)
]

run_send_task-Keeps :
    (kernel : ℕ → SysResult ℕ) (s : Shared)
    → InOrder s.conn
    → s.conn.output_buffer.writer_index + waiting s.tasks ≤ max_size
    → Returns (Keeps 0 s) (run_send_task kernel s)
unfolding run_send_task
run_send_task-Keeps kernel s o fits = go s.tasks refl
  where
    go :
        (ts : List (List ℕ))
        → s.tasks ≡ ts
        → Returns (Keeps 0 s) (elim ts [
          | [] ↦ ok s
          | msg ∷ rest ↦ send_in_loop msg (kernel (length msg)) s.conn >>= λ c.
              ok (record { conn = c; tasks = rest })
        ])
    go [] e = (o, omega arith)
    go (msg ∷ rest) e =
        let size = ap waiting e in
        Returns->>= _ _ (send_in_loop msg (kernel (length msg)) s.conn) _
          (send_in_loop-Kept msg (kernel (length msg)) s.conn o (omega (arith, size)))
          (λ c k. (k.0, omega (arith, size, k.1)))

act-Keeps :
    (x : Action) (xs : List Action) (s : Shared)
    → InOrder s.conn
    → AllWithin (x ∷ xs)
    → s.conn.output_buffer.writer_index + waiting s.tasks + brings x ≤ max_size
    → Returns (Keeps (brings x) s) (act x s)
unfolding act
act-Keeps (acts h) xs s o b fits =
    Returns->>= _ _ (happen h s.conn) _ (happen-Kept h [] s.conn o b.0 (omega arith))
      (λ c k. (k.0, omega (arith, k.1)))
act-Keeps (queues msg) xs s o b fits = send_foreign-Keeps msg s o
act-Keeps (runs_task kernel) xs s o b fits = run_send_task-Keeps kernel s o (omega arith)

AllWithin-rest : (x : Action) (xs : List Action) → AllWithin (x ∷ xs) → AllWithin xs
AllWithin-rest (acts h) xs b = b.1
AllWithin-rest (queues msg) xs b = b
AllWithin-rest (runs_task kernel) xs b = b.1

run-from :
    (xs : List Action) (s : Shared)
    → InOrder s.conn
    → AllWithin xs
    → s.conn.output_buffer.writer_index + waiting s.tasks + brought xs ≤ max_size
    → Returns (λ s'. InOrder s'.conn) (run xs s)
unfolding run
run-from [] s o b fits = o
run-from (x ∷ xs) s o b fits =
    Returns->>= (Keeps (brings x) s) _ (act x s) (λ s'. run xs s')
      (act-Keeps x xs s o b (omega arith))
      (λ s' k. run-from xs s' k.0 (AllWithin-rest x xs b) (omega (arith, k.1)))

-- From its establishment on, with an empty output buffer, a connection to which other threads send
-- never fails, in whatever order their messages are queued and come to their turn among all that
-- the loop's thread does, whatever `send` answers, if it takes no more than it is given, and as long
-- as all bytes sent fit behind the writer within max_size. At each end the bytes that the kernel
-- took and then those in the output buffer are exactly those accepted, in their order; a connection
-- that is not disconnected waits to write exactly while some are left; and if its write side was
-- shut down, it is disconnected or the kernel has taken all bytes accepted.
pub run_together :
    (xs : List Action) (input output : Buffer)
    → IsValid output
    → contents output ≡ []
    → AllWithin xs
    → output.writer_index + brought xs ≤ max_size
    → Returns
        (λ s. Delivers s.conn)
        (connection_established (init input output) >>= λ c.
          run xs (record { conn = c; tasks = [] }))
unfolding connection_established init
run_together xs input output v empty b fits =
    Returns-mono _ _ (run xs (record { conn = established input output; tasks = [] }))
      (run-from xs (record { conn = established input output; tasks = [] })
        (established-InOrder input output v empty) b (omega arith))
      (λ s o. InOrder-Delivers s.conn o)
