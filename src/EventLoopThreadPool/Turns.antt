-- ===== src/EventLoopThreadPool/Turns.antt =====
-- src/eventloop_threadpool.cpp: the turns of the loops.
use benet.Prelude.{
  ℕ, zero, suc, ◌+◌, ◌*◌, ◌^◌, ◌%◌, ◌<◌, ◌≡◌, refl, sym, ap, ap₂, ◌∙◌, List, [], ◌∷◌, true, ==_iff,
  ==_ne, length, get_or, drop, drop_all, Outcome, ok, ◌>>=◌, size_add, arith,
}
use native.Mathlib.Nat.{mul-add-mod_self_right, mod-eq_of_lt}
use benet.EventLoopThreadPool.{EventLoopThreadPool, get_next_loop, get_all_loops, ask}

drop-get_or : (xs : List ℕ) (j d : ℕ) → j < length xs → drop j xs ≡ get_or xs j d ∷ drop (suc j) xs
drop-get_or [] j d h = absurd (omega arith)
drop-get_or (x ∷ xs) zero d h = refl
drop-get_or (x ∷ xs) (suc j) d h = drop-get_or xs j d (omega arith)

module _ (here : ℕ) (p : EventLoopThreadPool) (in_thread : here ≡ p.base_thread)
    (started : p.started ≡ true) where
  -- The loop whose turn it is.
  pub get_next_loop_lem :
      (q j : ℕ)
      → j < length p.loops
      → q * length p.loops + j + 1 < 2 ^ 64
      → get_next_loop here p (q * length p.loops + j)
        ≡ ok (get_or p.loops j p.base_loop, q * length p.loops + suc j)
  unfolding get_next_loop
  get_next_loop_lem q j lt small =
      rw
        (
          (==_iff here p.base_thread).1 in_thread,
          started,
          ==_ne (length p.loops) 0 (λ e. omega arith),
          turn,
          next_turn,
        )
        refl
    where
      turn : (q * length p.loops + j) % length p.loops ≡ j
      turn = mul-add-mod_self_right q (length p.loops) j ∙ mod-eq_of_lt lt

      next_turn : size_add (q * length p.loops + j) 1 ≡ q * length p.loops + suc j
      next_turn = omega arith

  rest_of_round :
      (q k j : ℕ)
      → k + j ≡ length p.loops
      → q * length p.loops + length p.loops < 2 ^ 64
      → ask k here p (q * length p.loops + j)
        ≡ ok (drop j p.loops, q * length p.loops + length p.loops)
  unfolding ask
  rest_of_round q zero j e small =
      ap₂ (λ a b. ok (a, b)) (sym (drop_all j p.loops (omega arith))) (omega arith)
  rest_of_round q (suc k) j e small =
      rw
        (
          get_next_loop_lem q j (omega arith) (omega arith),
          rest_of_round q k (suc j) (omega arith) small,
        )
        (ap (λ a. ok (a, q * length p.loops + length p.loops))
          (sym (drop-get_or p.loops j p.base_loop (omega arith))))

  get_all_loops_lem : 0 < length p.loops → get_all_loops here p ≡ ok p.loops
  unfolding get_all_loops
  get_all_loops_lem some_loops =
      rw
        (
          (==_iff here p.base_thread).1 in_thread,
          started,
          ==_ne (length p.loops) 0 (λ e. omega arith),
        )
        refl

  -- In a started pool with threads, as many calls of GetNextLoop as there are loops, from an index that
  -- is a multiple of their number on, give out exactly the loops of GetAllLoops, each once and in
  -- order, and leave the next multiple, as long as size_t does not wrap.
  pub ask_round :
      (q : ℕ)
      → 0 < length p.loops
      → q * length p.loops + length p.loops < 2 ^ 64
      → ask (length p.loops) here p (q * length p.loops)
        ≡ (get_all_loops here p >>= λ loops. ok (loops, suc q * length p.loops))
  ask_round q some_loops small =
      ap (ask (length p.loops) here p)
        (let same : q * length p.loops ≡ q * length p.loops + 0 = omega arith in same)
      ∙ rest_of_round q (length p.loops) 0 (omega arith) small
      ∙ ap {A = ℕ} {B = Outcome (List ℕ × ℕ)} (λ i. ok (p.loops, i))
          (let same : q * length p.loops + length p.loops ≡ suc q * length p.loops = omega arith in
            same)
      ∙ ap {A = Outcome (List ℕ)} {B = Outcome (List ℕ × ℕ)}
          (λ m. m >>= λ loops. ok (loops, suc q * length p.loops))
          (sym (get_all_loops_lem some_loops))
