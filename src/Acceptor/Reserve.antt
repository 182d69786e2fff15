-- ===== src/Acceptor/Reserve.antt =====
-- src/acceptor.cpp: the handler when the descriptors are used up, and the reserve descriptor.
use benet.Prelude.{
  ℕ, suc, ◌≡◌, ◌≢◌, refl, sym, ap, ◌∙◌, Bool, true, false, ◌==◌, ==_self, ==_ne, if◌then◌else◌,
  Returns, arith,
}
use benet.Acceptor.Descriptors.{Table}
use benet.Acceptor.{Acceptor, after_accept, close_excessfd_with_idlefd, handle_read}

module _ (k : Table) where
  open k use {
    State, is_open, free, waiting, close, accept, open_null, close_lem, accept_lem, accept_full,
    open_null_lem,
  }

  -- What dropping one of the waiting connections leaves.
  pub record Dropped (a : Acceptor k) (w : ℕ) (r : Acceptor k) : Type 0 where
    pub reserve : is_open r.descriptors r.idle_fd ≡ true
    pub full : free r.descriptors ≡ 0
    pub fewer : waiting r.descriptors ≡ w
    pub others :
        (j : ℕ) → j ≢ a.idle_fd → is_open a.descriptors j ≡ true → is_open r.descriptors j ≡ true
    pub same : r.handed ≡ a.handed

  true_ne_false : true ≢ false
  true_ne_false e = cc

  either : (b c : Bool) → c ≡ true → (if b then true else c) ≡ true
  either b c e = ground arith

  drops :
      (a : Acceptor k) (w : ℕ)
      → is_open a.descriptors a.idle_fd ≡ true
      → free a.descriptors ≡ 0
      → waiting a.descriptors ≡ suc w
      → Returns (Dropped a w) (close_excessfd_with_idlefd k a)
  unfolding close_excessfd_with_idlefd
  drops a w reserve full some_waiting =
      let s₁ = close a.idle_fd a.descriptors in
      let (free₁, waiting₁, open₁) = close_lem a.idle_fd a.descriptors reserve in
      let (fd, got, new, free₂, waiting₂, open₂) =
        accept_lem s₁ 0 w (free₁ ∙ ap suc full) (waiting₁ ∙ some_waiting) in
      let s₂ = (accept s₁).1 in
      let there : is_open s₂ fd ≡ true =
        open₂ fd ∙ ap (λ b. if b then true else is_open s₁ fd) (==_self fd) in
      let (free₃, waiting₃, open₃) = close_lem fd s₂ there in
      let s₃ = close fd s₂ in
      let (idle, opened, new', free₄, waiting₄, open₄) =
        open_null_lem s₃ 0 (free₃ ∙ ap suc free₂) in
      rw (got, opened)
        (record {
          reserve = open₄ idle ∙ ap (λ b. if b then true else is_open s₃ idle) (==_self idle);
          full = free₄;
          fewer = waiting₄ ∙ waiting₃ ∙ waiting₂;
          others = λ j ne on.
              let on₁ : is_open s₁ j ≡ true =
                open₁ j
                ∙ ap (λ b. if b then false else is_open a.descriptors j)
                    (==_ne a.idle_fd j (λ e. ne (sym e)))
                ∙ on in
              let apart : fd ≢ j = λ e.
                let same = ap (is_open s₁) e in absurd (true_ne_false (sym on₁ ∙ sym same ∙ new)) in
              let on₃ : is_open s₃ j ≡ true =
                open₃ j
                ∙ ap (λ b. if b then false else is_open s₂ j) (==_ne fd j apart)
                ∙ open₂ j
                ∙ ap (λ b. if b then true else is_open s₁ j) (==_ne fd j apart)
                ∙ on₁ in
              open₄ j ∙ either (idle == j) (is_open s₃ j) on₃;
          same = refl;
        })

  -- When the descriptors are used up, the reserve among them, and a connection waits: the handler
  -- returns, one connection less waits, none was handed on, the reserve is open again, the
  -- descriptors are still used up, and all others that were open still are.
  pub handle_read_full :
      (a : Acceptor k) (w : ℕ)
      → is_open a.descriptors a.idle_fd ≡ true
      → free a.descriptors ≡ 0
      → waiting a.descriptors ≡ suc w
      → Returns (Dropped a w) (handle_read k a)
  unfolding handle_read after_accept
  handle_read_full a w reserve full some_waiting =
      let (refused, kept) = accept_full a.descriptors w full some_waiting in
      rw (refused, kept) (drops a w reserve full some_waiting)
