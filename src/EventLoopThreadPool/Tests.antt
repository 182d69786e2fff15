-- ===== src/EventLoopThreadPool/Tests.antt =====
-- src/eventloop_threadpool.cpp: runs of a pool.
use benet.Prelude.{
  ℕ, zero, suc, ◌<◌, ◌≤◌, get_or, Returns, ◌+◌, ◌*◌, ◌≡◌, refl, [], ◌∷◌, true, ok, ◌>>=◌, arith,
}
use benet.EventLoopThreadPool.{
  EventLoopThreadPool, init, init_threads_number, start, ask, get_next_loop, get_all_loops,
}
use benet.EventLoopThreadPool.Turns.{ask_round}
use benet.EventLoopThreadPool.Shares.{times, ask_fair}

-- Two threads, whose loops are at 100 and 101.
abbrev pool : EventLoopThreadPool
pool = record {
  base_loop = 9;
  base_thread = 1;
  started = true;
  num_threads = 2;
  loops = 100 ∷ 101 ∷ [];
}

pool_started : (init_threads_number 2 (init 9 1) >>= λ p. start (λ i. 100 + i) 1 p) ≡ ok pool
unfolding init_threads_number init start
pool_started = refl

three_asked : ask 3 1 pool 3 ≡ ok (101 ∷ 100 ∷ 101 ∷ [], 6)
unfolding ask get_next_loop
three_asked = refl

two_asked : ask 2 1 pool (3 * 2) ≡ (get_all_loops 1 pool >>= λ loops. ok (loops, suc 3 * 2))
two_asked = ask_round 1 pool refl refl 3 (omega arith) (omega arith)

pool_distinct :
    (a b : ℕ)
    → a < 2
    → b < 2
    → get_or pool.loops a pool.base_loop ≡ get_or pool.loops b pool.base_loop
    → a ≡ b
pool_distinct zero zero a_lt b_lt e = refl
pool_distinct zero (suc b) a_lt b_lt e = ground arith
pool_distinct (suc a) zero a_lt b_lt e = ground arith
pool_distinct (suc a) (suc b) a_lt b_lt e = omega arith

-- The first loop is given out at the turns 4 and 6, the second at 3, 5 and 7.
ask_fair_example : Returns (λ r. times 101 r.0 ≤ times 100 r.0 + 1) (ask 5 1 pool 3)
ask_fair_example =
    ask_fair 1 pool refl refl pool_distinct 5 3 1 0 (omega arith) (omega arith) (omega arith)
