-- ===== src/EventLoopThreadPool/Shares.antt =====
-- src/eventloop_threadpool.cpp: how many of the connections each loop is given.
use benet.Prelude.{
  ℕ, zero, suc, ◌+◌, ◌*◌, ◌^◌, ◌%◌, ◌/◌, ◌<◌, ◌≤◌, ◌≡◌, refl, sym, ◌∙◌, subst, List, [], ◌∷◌, Bool,
  true, ◌==◌, ==_ne, ==_self, ltb, if◌then◌else◌, ℕ_discrete, length, get_or, Returns, Returns->>=,
  Returns-mono, arith,
}
use native.Mathlib.Nat.{div-add-mod', mod-lt}
use benet.EventLoopThreadPool.{EventLoopThreadPool, ask}
use benet.EventLoopThreadPool.Turns.{get_next_loop_lem}

abbrev unit : Bool → ℕ
unit b = if b then 1 else 0

-- How often the loop at an address stands in a list.
abbrev pub times : ℕ → List ℕ → ℕ
times l [] = 0
times l (x ∷ xs) = unit (x == l) + times l xs

module _ (here : ℕ) (p : EventLoopThreadPool) (in_thread : here ≡ p.base_thread)
    (started : p.started ≡ true)
    (distinct : (a b : ℕ)
      → a < length p.loops
      → b < length p.loops
      → get_or p.loops a p.base_loop ≡ get_or p.loops b p.base_loop
      → a ≡ b) where
  -- The loop of thread `a`.
  abbrev loop_at : ℕ → ℕ
  loop_at a = get_or p.loops a p.base_loop

  -- From turn `s` on, up to turn `e`, some full rounds were given out.
  abbrev Rounds : ℕ → List ℕ → ℕ → ℕ → Type 0
  Rounds s given rounds e =
      (a : ℕ)
      → a < length p.loops
      → times (loop_at a) given + unit (ltb a s) ≡ rounds + unit (ltb a e)

  same_turn :
      (s a : ℕ) → s < length p.loops → a < length p.loops → (loop_at s == loop_at a) ≡ (s == a)
  same_turn s a s_lt a_lt = elim (ℕ_discrete s a) [
    | yes e ↦ rw e (==_self (loop_at a) ∙ sym (==_self a))
    | no ne ↦
        ==_ne (loop_at s) (loop_at a) (λ e. ne (distinct s a s_lt a_lt e)) ∙ sym (==_ne s a ne)
  ]

  given-Rounds :
      (k q s : ℕ)
      → s < length p.loops
      → q * length p.loops + s + k < 2 ^ 64
      → Returns
          (λ r. (rounds : ℕ) × (e : ℕ) × Rounds s r.0 rounds e)
          (ask k here p (q * length p.loops + s))
  unfolding ask
  given-Rounds zero q s lt small = (0, s, λ a a_lt. refl)
  given-Rounds (suc k) q s lt small =
      rw (get_next_loop_lem here p in_thread started q s lt (omega arith))
        (elim (ℕ_discrete (suc s) (length p.loops)) [
          | yes last ↦
              Returns->>= _ _ (ask k here p (q * length p.loops + suc s)) _
                (subst
                  (λ i.
                    Returns (λ r. (rounds : ℕ) × (e : ℕ) × Rounds 0 r.0 rounds e) (ask k here p i))
                  (let e : suc q * length p.loops + 0 ≡ q * length p.loops + suc s = omega arith in
                    e)
                  (given-Rounds k (suc q) 0 (omega arith) (omega arith)))
                (λ r (rounds, e, h). (
                  suc rounds,
                  e,
                  λ a a_lt.
                      let turn = same_turn s a lt a_lt in
                      let rest = h a a_lt in rw turn (ground (arith, rest, last, lt)),
                ))
          | no more ↦
              Returns->>= _ _ (ask k here p (q * length p.loops + suc s)) _
                (given-Rounds k q (suc s) (omega arith) (omega arith))
                (λ r (rounds, e, h). (
                  rounds,
                  e,
                  λ a a_lt.
                      let turn = same_turn s a lt a_lt in
                      let rest = h a a_lt in rw turn (ground (arith, rest, lt)),
                ))
        ])

  -- In a started pool whose threads have loops of their own, any number of calls of GetNextLoop, from
  -- any index on as long as size_t does not wrap, give no loop more than one turn more than another.
  pub ask_fair :
      (k i a b : ℕ)
      → a < length p.loops
      → b < length p.loops
      → i + k < 2 ^ 64
      → Returns (λ r. times (loop_at a) r.0 ≤ times (loop_at b) r.0 + 1) (ask k here p i)
  ask_fair k i a b a_lt b_lt small =
      let n = length p.loops in
      let whole : i / n * n + i % n ≡ i = div-add-mod' i n in
      subst (λ j. Returns (λ r. times (loop_at a) r.0 ≤ times (loop_at b) r.0 + 1) (ask k here p j))
        whole
        (Returns-mono _ _ (ask k here p (i / n * n + i % n))
          (given-Rounds k (i / n) (i % n) (mod-lt i (omega arith)) (omega (arith, whole)))
          (λ r (rounds, e, h). let x = h a a_lt in let y = h b b_lt in ground (arith, x, y)))
