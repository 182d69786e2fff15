-- ===== src/EventLoopThreadPool.antt =====
-- src/eventloop_threadpool.cpp: the loops of the pool's threads, and the turns in which they are given
-- out. A loop is known by its address.
pub mod Turns
pub mod Shares
mod Tests
use benet.Prelude.{
  ℕ, zero, suc, ◌+◌, ◌%◌, List, [], ◌∷◌, ◌++◌, Bool, true, false, not, ◌==◌, if◌then◌else◌, length,
  get_or, Outcome, ok, critical, assert, ◌>>=◌, ◌>>◌, size_add,
}

-- `base_thread` is the thread of the base loop.
pub record EventLoopThreadPool : Type 0 where
  pub base_loop : ℕ
  pub base_thread : ℕ
  pub started : Bool
  pub num_threads : ℕ
  pub loops : List ℕ

unfoldable pub init : ℕ → ℕ → EventLoopThreadPool
init base_loop base_thread = record {
  base_loop = base_loop;
  base_thread = base_thread;
  started = false;
  num_threads = 0;
  loops = [];
}

abbrev pub assert_in_loop_thread : ℕ → EventLoopThreadPool → Outcome (Unit {0})
assert_in_loop_thread here p = if here == p.base_thread then ok tt else critical

unfoldable pub init_threads_number : ℕ → EventLoopThreadPool → Outcome EventLoopThreadPool
init_threads_number n p = do assert (not p.started); ok (record p { num_threads = n })

-- The loop of `Start` from thread `i` on; `loop_of` is what the start of a thread returns.
abbrev pub start_threads : (ℕ → ℕ) → ℕ → ℕ → List ℕ → List ℕ
start_threads loop_of i zero loops = loops
start_threads loop_of i (suc n) loops = start_threads loop_of (suc i) n (loops ++ loop_of i ∷ [])

unfoldable pub start : (ℕ → ℕ) → ℕ → EventLoopThreadPool → Outcome EventLoopThreadPool
start loop_of here p = do
  assert (not p.started)
  assert_in_loop_thread here p
  ok (record p { started = true; loops = start_threads loop_of 0 p.num_threads p.loops })

-- `GetNextLoop`: the loop, and the next value of `next_index_`, which all pools share.
unfoldable pub get_next_loop : ℕ → EventLoopThreadPool → ℕ → Outcome (ℕ × ℕ)
get_next_loop here p next_index = do
  assert_in_loop_thread here p
  assert p.started
  ok (
      if length p.loops == 0
      then (p.base_loop, next_index)
      else (get_or p.loops (next_index % length p.loops) p.base_loop, size_add next_index 1))

unfoldable pub get_all_loops : ℕ → EventLoopThreadPool → Outcome (List ℕ)
get_all_loops here p = do
  assert_in_loop_thread here p
  assert p.started
  ok (if length p.loops == 0 then p.base_loop ∷ [] else p.loops)

-- A number of calls in a row: the loops given out, and the index.
unfoldable pub ask : ℕ → ℕ → EventLoopThreadPool → ℕ → Outcome (List ℕ × ℕ)
ask zero here p i = ok ([], i)
ask (suc k) here p i = get_next_loop here p i >>= λ r. ask k here p r.1 >>= λ s. ok (r.0 ∷ s.0, s.1)
