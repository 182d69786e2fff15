-- ===== src/Reactor/Registry.antt =====
-- src/poller.cpp: the invariant of the poller's map, the channels' indices and the kernel's interest
-- list.
use benet.Prelude.{
  ℕ, ◌≡◌, ◌≢◌, ◌⊎◌, inl, inr, refl, sym, ap, ◌∙◌, subst, Option, none, some, ◌==◌, ==_self, ==_ne,
  if◌then◌else◌, arith, ℕ_discrete,
}
use benet.Channel.{Channel, new_channel, added_channel}
use benet.Reactor.Kernel.{Epoll, Interest}
use benet.Reactor.{Reactor}

some_eq : (a b : ℕ) → some a ≡ some b → a ≡ b
some_eq a b h = ground arith

-- What the kernel should hold for a channel.
abbrev pub armed_by : Channel → ℕ → Option Interest
armed_by c ptr = elim c.index [ added_channel ↦ some (c.events, ptr) | _ ↦ none ]

module _ (k : Epoll) where
  open k use {State, interest, epoll_ctl, add_lem, mod_lem, del_lem}

  abbrev pub armed_at : (ℕ → Channel) → Option ℕ → Option Interest
  armed_at chans none = none
  armed_at chans (some ptr) = armed_by (chans ptr) ptr

  -- A channel is in the map, under its own descriptor, exactly while its index is not kNewChannel,
  -- and the kernel's interest list holds the events of the channels with index kAddedChannel, with
  -- their addresses, and nothing else.
  pub record Inv (r : Reactor k) : Type 0 where
    pub owner : (p : ℕ) → (r.chans p).index ≢ new_channel → r.channels (r.chans p).fd ≡ some p
    pub named :
        (fd p : ℕ)
        → r.channels fd ≡ some p
        → ((r.chans p).fd ≡ fd) × ((r.chans p).index ≢ new_channel)
    pub armed : (fd : ℕ) → interest r.epoll fd ≡ armed_at r.chans (r.channels fd)

  -- `r'` is `r` with the channel at `ptr` and what is kept for its descriptor replaced.
  pub record Settled (ptr : ℕ) (c : Channel) (entry : Option ℕ) (r r' : Reactor k) : Type 0 where
    pub memory : (q : ℕ) → r'.chans q ≡ (if ptr == q then c else r.chans q)
    pub entries : (j : ℕ) → r'.channels j ≡ (if c.fd == j then entry else r.channels j)
    pub kernel :
        (j : ℕ)
        → interest r'.epoll j ≡ (if c.fd == j then armed_at (λ q. c) entry else interest r.epoll j)

  -- Nobody else is registered under the descriptor of `ptr`.
  abbrev pub Mine : ℕ → Reactor k → Type 0
  Mine ptr r = (r.channels (r.chans ptr).fd ≡ none) ⊎ (r.channels (r.chans ptr).fd ≡ some ptr)

  Mine-eq :
      (ptr q : ℕ) (r : Reactor k) → Mine ptr r → r.channels (r.chans ptr).fd ≡ some q → ptr ≡ q
  Mine-eq ptr q r (inl e) h = cc
  Mine-eq ptr q r (inr e) h = ground arith

  module _ (ptr : ℕ) (c : Channel) (entry : Option ℕ) (r r' : Reactor k) (inv : Inv r)
      (mine : Mine ptr r) (same_fd : c.fd ≡ (r.chans ptr).fd)
      (kind : (entry ≡ none) ⊎ (entry ≡ some ptr)) (s : Settled ptr c entry r r') where
    memory_self : r'.chans ptr ≡ c
    memory_self = s.memory ptr ∙ ap (λ b. if b then c else r.chans ptr) (==_self ptr)

    memory_other : (q : ℕ) → ptr ≢ q → r'.chans q ≡ r.chans q
    memory_other q ne = s.memory q ∙ ap (λ b. if b then c else r.chans q) (==_ne ptr q ne)

    entries_self : r'.channels c.fd ≡ entry
    entries_self = s.entries c.fd ∙ ap (λ b. if b then entry else r.channels c.fd) (==_self c.fd)

    entries_other : (j : ℕ) → c.fd ≢ j → r'.channels j ≡ r.channels j
    entries_other j ne = s.entries j ∙ ap (λ b. if b then entry else r.channels j) (==_ne c.fd j ne)

    -- Whoever else is registered has another descriptor.
    other_fd : (q j : ℕ) → ptr ≢ q → r.channels j ≡ some q → c.fd ≢ j
    other_fd q j ne h e = ne (Mine-eq ptr q r mine (ap r.channels (sym same_fd ∙ e) ∙ h))

    owner_other :
        (p : ℕ) → ptr ≢ p → (r'.chans p).index ≢ new_channel → r'.channels (r'.chans p).fd ≡ some p
    owner_other p ne live =
        let m = memory_other p ne in
        let own = inv.owner p (λ e. live (ap (λ d. d.index) m ∙ e)) in
        ap (λ d. r'.channels d.fd) m
        ∙ entries_other (r.chans p).fd (other_fd p (r.chans p).fd ne own)
        ∙ own

    apart : (fd p : ℕ) → c.fd ≢ fd → r.channels fd ≡ some p → ptr ≢ p
    apart fd p ne h e = ne (same_fd ∙ ap (λ q. (r.chans q).fd) e ∙ (inv.named fd p h).0)

    named_other :
        (fd p : ℕ)
        → c.fd ≢ fd
        → r'.channels fd ≡ some p
        → ((r'.chans p).fd ≡ fd) × ((r'.chans p).index ≢ new_channel)
    named_other fd p ne h =
        let h' = sym (entries_other fd ne) ∙ h in
        let known = inv.named fd p h' in
        let m = memory_other p (apart fd p ne h') in
        (ap (λ d. d.fd) m ∙ known.0, λ e. known.1 (sym (ap (λ d. d.index) m) ∙ e))

    armed_same :
        (fd : ℕ) (o : Option ℕ)
        → c.fd ≢ fd
        → r.channels fd ≡ o
        → armed_at r.chans o ≡ armed_at r'.chans o
    armed_same fd none ne h = refl
    armed_same fd (some q) ne h = ap (λ d. armed_by d q) (sym (memory_other q (apart fd q ne h)))

    armed_entry :
        (e : Option ℕ) → (e ≡ none) ⊎ (e ≡ some ptr) → armed_at (λ q. c) e ≡ armed_at r'.chans e
    armed_entry e (inl h) = rw h refl
    armed_entry e (inr h) = rw h (ap (λ d. armed_by d ptr) (sym memory_self))

    armed_all : (fd : ℕ) → interest r'.epoll fd ≡ armed_at r'.chans (r'.channels fd)
    armed_all fd = elim (ℕ_discrete c.fd fd) [
      | yes e ↦
          subst (λ j. interest r'.epoll j ≡ armed_at r'.chans (r'.channels j)) e
            (s.kernel c.fd
              ∙ ap (λ b. if b then armed_at (λ q. c) entry else interest r.epoll c.fd)
                  (==_self c.fd)
              ∙ armed_entry entry kind
              ∙ ap (armed_at r'.chans) (sym entries_self))
      | no ne ↦
          s.kernel fd
          ∙ ap (λ b. if b then armed_at (λ q. c) entry else interest r.epoll fd) (==_ne c.fd fd ne)
          ∙ inv.armed fd
          ∙ armed_same fd (r.channels fd) ne refl
          ∙ ap (armed_at r'.chans) (sym (entries_other fd ne))
    ]

  pub Inv-replaced :
      (ptr : ℕ) (c : Channel) (r r' : Reactor k)
      → Inv r
      → Mine ptr r
      → c.fd ≡ (r.chans ptr).fd
      → c.index ≢ new_channel
      → Settled ptr c (some ptr) r r'
      → Inv r'
  Inv-replaced ptr c r r' inv mine fds live s = record {
    owner = λ p h. elim (ℕ_discrete ptr p) [
      | yes e ↦
          subst (λ q. r'.channels (r'.chans q).fd ≡ some q) e
            (ap (λ d. r'.channels d.fd)
                (memory_self ptr c (some ptr) r r' inv mine fds (inr refl) s)
              ∙ entries_self ptr c (some ptr) r r' inv mine fds (inr refl) s)
      | no ne ↦ owner_other ptr c (some ptr) r r' inv mine fds (inr refl) s p ne h
    ];
    named = λ fd p h. elim (ℕ_discrete c.fd fd) [
      | yes e ↦
          let same : ptr ≡ p = some_eq ptr p (
            sym (entries_self ptr c (some ptr) r r' inv mine fds (inr refl) s)
            ∙ ap r'.channels e
            ∙ h) in
          subst (λ q. ((r'.chans q).fd ≡ fd) × ((r'.chans q).index ≢ new_channel)) same
            (rw (memory_self ptr c (some ptr) r r' inv mine fds (inr refl) s) (e, live))
      | no ne ↦ named_other ptr c (some ptr) r r' inv mine fds (inr refl) s fd p ne h
    ];
    armed = armed_all ptr c (some ptr) r r' inv mine fds (inr refl) s;
  }

  pub Inv-removed :
      (ptr : ℕ) (c : Channel) (r r' : Reactor k)
      → Inv r
      → Mine ptr r
      → c.fd ≡ (r.chans ptr).fd
      → c.index ≡ new_channel
      → Settled ptr c none r r'
      → Inv r'
  Inv-removed ptr c r r' inv mine fds dead s = record {
    owner = λ p h. elim (ℕ_discrete ptr p) [
      | yes e ↦ absurd (
          h (
            sym (ap (λ q. (r'.chans q).index) e)
            ∙ ap (λ d. d.index) (memory_self ptr c none r r' inv mine fds (inl refl) s)
            ∙ dead))
      | no ne ↦ owner_other ptr c none r r' inv mine fds (inl refl) s p ne h
    ];
    named = λ fd p h. elim (ℕ_discrete c.fd fd) [
      | yes e ↦
          let gone : none ≡ some p =
            sym (entries_self ptr c none r r' inv mine fds (inl refl) s) ∙ ap r'.channels e ∙ h in
          cc
      | no ne ↦ named_other ptr c none r r' inv mine fds (inl refl) s fd p ne h
    ];
    armed = armed_all ptr c none r r' inv mine fds (inl refl) s;
  }
