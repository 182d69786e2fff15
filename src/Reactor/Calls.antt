-- ===== src/Reactor/Calls.antt =====
-- src/poller.cpp, src/eventloop.cpp, src/channel.cpp: the calls that change what a channel waits for
-- keep the invariant, and never end the program.
use benet.Prelude.{
  ℕ, ◌≡◌, ◌≢◌, ◌⊎◌, inl, inr, refl, sym, ap, ◌∙◌, true, Option, none, some, ◌==◌, ==_iff, ==_self,
  ==_ne, Bool-cases, if◌then◌else◌, ok, Returns,
}
use benet.Channel.{Channel, Index, new_channel, added_channel, deleted_channel, is_none_event}
use benet.Reactor.Kernel.{Epoll, ctl_add, ctl_mod, ctl_del, Interest}
use benet.Reactor.{
  put, Reactor, update_epoll_operation, set_index, operate, poller_update, poller_remove,
}
use benet.Reactor.Equations.{
  put_self, index_cases, some_ne_none, deleted_ne_new, added_ne_new, armed_added, armed_deleted,
  update_epoll_operation_ok, operate_ok, update_new, update_deleted, update_added, remove_new,
  remove_deleted, remove_added,
}
use benet.Reactor.Registry.{armed_by, armed_at, Inv, Mine, Settled, Inv-replaced, Inv-removed}

module _ (k : Epoll) where
  open k use {State, interest, epoll_ctl, add_lem, mod_lem, del_lem}

  -- What an event call of the channel at `ptr` leaves: `c` is the channel with its new events.
  pub record Updated (ptr : ℕ) (c : Channel) (r r' : Reactor k) : Type 0 where
    pub inv : Inv k r'
    pub events : (r'.chans ptr).events ≡ c.events
    pub known : r'.channels c.fd ≡ some ptr
    pub others : (q : ℕ) → ptr ≢ q → r'.chans q ≡ r.chans q
    pub waits :
        interest r'.epoll c.fd ≡ some (c.events, ptr)
        ⊎ ((interest r'.epoll c.fd ≡ none) × (is_none_event c.events ≡ true))

  -- What taking the channel at `ptr` out leaves; `c` is the channel before it.
  pub record Removed (ptr : ℕ) (c : Channel) (r r' : Reactor k) : Type 0 where
    pub inv : Inv k r'
    pub fresh : (r'.chans ptr).index ≡ new_channel
    pub forgotten : r'.channels c.fd ≡ none
    pub silent : interest r'.epoll c.fd ≡ none
    pub others : (q : ℕ) → ptr ≢ q → r'.chans q ≡ r.chans q

  module _ (ptr : ℕ) (c : Channel) (r : Reactor k) (inv : Inv k r)
      (same_fd : c.fd ≡ (r.chans ptr).fd) (same_index : c.index ≡ (r.chans ptr).index)
      (fresh : (r.chans ptr).index ≡ new_channel → r.channels (r.chans ptr).fd ≡ none) where
    -- The loop once the channel has its new events, before the poller hears of it.
    abbrev changed : Reactor k
    changed = record r { chans = put r.chans ptr c }

    mine : Mine k ptr r
    mine = elim (index_cases (r.chans ptr).index) [
      | inl e ↦ inl (fresh e)
      | inr e ↦ inr (inv.owner ptr e)
    ]

    self : changed.chans ptr ≡ c
    self = put_self r.chans ptr c

    now_fd : (changed.chans ptr).fd ≡ (r.chans ptr).fd
    now_fd = ap (λ d. d.fd) self ∙ same_fd

    now_index : (changed.chans ptr).index ≡ (r.chans ptr).index
    now_index = ap (λ d. d.index) self ∙ same_index

    -- What the kernel holds for the descriptor before the call.
    held :
        (o : Option ℕ)
        → r.channels (r.chans ptr).fd ≡ o
        → interest r.epoll (changed.chans ptr).fd ≡ armed_at k r.chans o
    held o e = ap (interest r.epoll) now_fd ∙ inv.armed (r.chans ptr).fd ∙ ap (armed_at k r.chans) e

    -- The channel as the call leaves it.
    abbrev left : Index → Channel
    left i = record (changed.chans ptr) { index = i }

    memory_lem :
        (i : Index) (q : ℕ)
        → put changed.chans ptr (left i) q ≡ (if ptr == q then left i else r.chans q)
    memory_lem i q = elim (Bool-cases (ptr == q)) [ inl t ↦ rw t refl | inr t ↦ rw t refl ]

    Settled-Updated :
        (i : Index) (r' : Reactor k)
        → i ≢ new_channel
        → ((armed_by (left i) ptr ≡ some (c.events, ptr))
            ⊎ ((armed_by (left i) ptr ≡ none) × (is_none_event c.events ≡ true)))
        → Settled k ptr (left i) (some ptr) r r'
        → Updated ptr c r r'
    Settled-Updated i r' live w s = record {
      inv = Inv-replaced k ptr (left i) r r' inv mine now_fd live s;
      events =
          ap (λ d. d.events)
            (s.memory ptr ∙ ap (λ b. if b then left i else r.chans ptr) (==_self ptr))
          ∙ ap (λ d. d.events) self;
      known =
          ap r'.channels (sym (ap (λ d. d.fd) self))
          ∙ s.entries (left i).fd
          ∙ ap (λ b. if b then some ptr else r.channels (left i).fd) (==_self (left i).fd);
      others = λ q ne. s.memory q ∙ ap (λ b. if b then left i else r.chans q) (==_ne ptr q ne);
      waits = elim w [ inl e ↦ inl (kernel ∙ e) | inr e ↦ inr (kernel ∙ e.0, e.1) ];
    }
      where
        kernel : interest r'.epoll c.fd ≡ armed_by (left i) ptr
        kernel =
            ap (interest r'.epoll) (sym (ap (λ d. d.fd) self))
            ∙ s.kernel (left i).fd
            ∙ ap (λ b. if b then armed_by (left i) ptr else interest r.epoll (left i).fd)
                (==_self (left i).fd)

    now_events :
        ◌≡◌ {A = Option Interest} (some ((changed.chans ptr).events, ptr)) (some (c.events, ptr))
    now_events = ap {B = Option Interest} (λ d. some (d.events, ptr)) self

    add-Updated :
        (m : ℕ → Option ℕ)
        → ((j : ℕ) → m j ≡ (if (changed.chans ptr).fd == j then some ptr else r.channels j))
        → interest r.epoll (changed.chans ptr).fd ≡ none
        → Returns
            (Updated ptr c r)
            (operate k ctl_add added_channel ptr (record changed { channels = m }))
    add-Updated m entries free =
        let done = add_lem r.epoll (changed.chans ptr).fd ((changed.chans ptr).events, ptr) free in
        rw (operate_ok k ctl_add added_channel ptr (record changed { channels = m }) done.0) (
          Settled-Updated added_channel _ (λ e. cc) (inl now_events)
            (record { memory = memory_lem added_channel; entries = entries; kernel = done.1 }))

    entries_owned :
        r.channels (r.chans ptr).fd ≡ some ptr
        → (j : ℕ) → r.channels j ≡ (if (changed.chans ptr).fd == j then some ptr else r.channels j)
    entries_owned own j = elim (Bool-cases ((changed.chans ptr).fd == j)) [
      | inl t ↦ rw t (ap r.channels (sym ((==_iff (changed.chans ptr).fd j).0 t) ∙ now_fd) ∙ own)
      | inr t ↦ rw t refl
    ]

    -- The channel with index kAddedChannel is in the kernel.
    present :
        (r.chans ptr).index ≡ added_channel
        → r.channels (r.chans ptr).fd ≡ some ptr
        → interest r.epoll (changed.chans ptr).fd ≢ none
    present e own q =
        some_ne_none ((r.chans ptr).events, ptr)
          (sym (held (some ptr) own ∙ armed_added (r.chans ptr) ptr e) ∙ q)

    del-Updated :
        (r.chans ptr).index ≡ added_channel
        → r.channels (r.chans ptr).fd ≡ some ptr
        → is_none_event c.events ≡ true
        → Returns (Updated ptr c r) (operate k ctl_del deleted_channel ptr changed)
    del-Updated e own quiet =
        let done =
          del_lem r.epoll (changed.chans ptr).fd ((changed.chans ptr).events, ptr)
            (present e own) in
        rw (operate_ok k ctl_del deleted_channel ptr changed done.0) (
          Settled-Updated deleted_channel _ (λ q. cc) (inr (refl, quiet))
            (record {
              memory = memory_lem deleted_channel;
              entries = entries_owned own;
              kernel = done.1;
            }))

    mod-Updated :
        (r.chans ptr).index ≡ added_channel
        → r.channels (r.chans ptr).fd ≡ some ptr
        → Returns (Updated ptr c r) (update_epoll_operation k ctl_mod ptr changed)
    mod-Updated e own =
        let done =
          mod_lem r.epoll (changed.chans ptr).fd ((changed.chans ptr).events, ptr)
            (present e own) in
        rw (update_epoll_operation_ok k ctl_mod ptr changed done.0) (
          Settled-Updated added_channel _ (λ q. cc) (inl now_events)
            (record {
              memory = λ q. ap (λ d. if ptr == q then d else r.chans q) same;
              entries = entries_owned own;
              kernel = done.1;
            }))
      where
        same : c ≡ left added_channel
        same =
            ap {B = Channel} (λ i. record c { index = i }) (same_index ∙ e)
            ∙ ap {A = Channel} {B = Channel} (λ d. record d { index = added_channel }) (sym self)

    -- The poller takes in the new events of any channel of its loop.
    pub poller_update-Updated : Returns (Updated ptr c r) (poller_update k ptr changed)
    poller_update-Updated = go (r.chans ptr).index refl
      where
        go :
            (i : Index)
            → (r.chans ptr).index ≡ i
            → Returns (Updated ptr c r) (poller_update k ptr changed)
        go new_channel e =
            rw (update_new k ptr changed (now_index ∙ e))
              (add-Updated _ (λ j. refl) (held none (fresh e)))
        go deleted_channel e =
            let own = inv.owner ptr (λ q. absurd (deleted_ne_new (sym e ∙ q))) in
            rw (update_deleted k ptr changed (now_index ∙ e)) (
              add-Updated r.channels (entries_owned own)
                (held (some ptr) own ∙ armed_deleted (r.chans ptr) ptr e))
        go added_channel e =
            let own = inv.owner ptr (λ q. absurd (added_ne_new (sym e ∙ q))) in
            rw (update_added k ptr changed (now_index ∙ e), self)
              (elim (Bool-cases (is_none_event c.events)) [
                | inl t ↦ rw t (del-Updated e own t)
                | inr t ↦ rw t (mod-Updated e own)
              ])

    Settled-Removed :
        (r' : Reactor k) → Settled k ptr (left new_channel) none r r' → Removed ptr c r r'
    Settled-Removed r' s = record {
      inv = Inv-removed k ptr (left new_channel) r r' inv mine now_fd refl s;
      fresh =
          ap (λ d. d.index)
            (s.memory ptr ∙ ap (λ b. if b then left new_channel else r.chans ptr) (==_self ptr));
      forgotten =
          ap r'.channels (sym (ap (λ d. d.fd) self))
          ∙ s.entries (changed.chans ptr).fd
          ∙ ap (λ b. if b then none else r.channels (changed.chans ptr).fd)
              (==_self (changed.chans ptr).fd);
      silent =
          ap (interest r'.epoll) (sym (ap (λ d. d.fd) self))
          ∙ s.kernel (changed.chans ptr).fd
          ∙ ap (λ b. if b then none else interest r.epoll (changed.chans ptr).fd)
              (==_self (changed.chans ptr).fd);
      others =
          λ q ne. s.memory q ∙ ap (λ b. if b then left new_channel else r.chans q) (==_ne ptr q ne);
    }

    -- A channel that the kernel does not hold is only taken out of the map.
    quiet-Removed :
        interest r.epoll (changed.chans ptr).fd ≡ none
        → Returns (Removed ptr c r) (
            ok (
              set_index k ptr new_channel
                (record changed { channels = put r.channels (changed.chans ptr).fd none })))
    quiet-Removed gone = Settled-Removed _ (record {
      memory = memory_lem new_channel;
      entries = λ j. refl;
      kernel = λ j. elim (Bool-cases ((changed.chans ptr).fd == j)) [
        | inl t ↦ rw t (ap (interest r.epoll) (sym ((==_iff (changed.chans ptr).fd j).0 t)) ∙ gone)
        | inr t ↦ rw t refl
      ];
    })

    -- The poller forgets any channel of its loop.
    pub poller_remove-Removed : Returns (Removed ptr c r) (poller_remove k ptr changed)
    poller_remove-Removed = go (r.chans ptr).index refl
      where
        go :
            (i : Index)
            → (r.chans ptr).index ≡ i
            → Returns (Removed ptr c r) (poller_remove k ptr changed)
        go new_channel e =
            rw (remove_new k ptr changed (now_index ∙ e)) (quiet-Removed (held none (fresh e)))
        go deleted_channel e =
            let own = inv.owner ptr (λ q. absurd (deleted_ne_new (sym e ∙ q))) in
            rw (remove_deleted k ptr changed (now_index ∙ e))
              (quiet-Removed (held (some ptr) own ∙ armed_deleted (r.chans ptr) ptr e))
        go added_channel e =
            let own = inv.owner ptr (λ q. absurd (added_ne_new (sym e ∙ q))) in
            let done =
              del_lem r.epoll (changed.chans ptr).fd ((changed.chans ptr).events, ptr)
                (present e own) in
            rw
              (
                remove_added k ptr changed (now_index ∙ e),
                operate_ok k ctl_del new_channel ptr
                    (record changed { channels = put r.channels (changed.chans ptr).fd none })
                    done.0,
              )
              (Settled-Removed _
                (record { memory = memory_lem new_channel; entries = λ j. refl; kernel = done.1 }))
