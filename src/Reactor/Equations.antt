-- ===== src/Reactor/Equations.antt =====
-- src/poller.cpp: what each call of the poller does, by the channel's index, where the kernel succeeds.
use benet.Prelude.{
  ℕ, ◌≡◌, ◌≢◌, ◌⊎◌, inl, inr, refl, ap, true, none, some, ==_self, ==_ne, if◌then◌else◌, ok,
}
use benet.Channel.{Channel, Index, new_channel, added_channel, deleted_channel, is_none_event}
use benet.Reactor.Kernel.{Epoll, Operation, ctl_add, ctl_mod, ctl_del, Interest}
use benet.Reactor.{
  put, Reactor, update_epoll_operation, set_index, operate, poller_update, poller_remove,
}
use benet.Reactor.Registry.{armed_by}

pub put_self {ℓ} : {A : Type ℓ} (f : ℕ → A) (i : ℕ) (a : A) → put f i a i ≡ a
put_self f i a = ap (λ b. if b then a else f i) (==_self i)

pub put_other {ℓ} : {A : Type ℓ} (f : ℕ → A) (i j : ℕ) (a : A) → i ≢ j → put f i a j ≡ f j
put_other f i j a ne = ap (λ b. if b then a else f j) (==_ne i j ne)

pub index_cases : (i : Index) → (i ≡ new_channel) ⊎ (i ≢ new_channel)
index_cases new_channel = inl refl
index_cases added_channel = inr (λ e. cc)
index_cases deleted_channel = inr (λ e. cc)

pub some_ne_none : (e : Interest) → some e ≢ none
some_ne_none e h = cc

pub deleted_ne_new : deleted_channel ≢ new_channel
deleted_ne_new e = cc

pub added_ne_new : added_channel ≢ new_channel
added_ne_new e = cc

pub armed_added :
    (c : Channel) (p : ℕ) → c.index ≡ added_channel → armed_by c p ≡ some (c.events, p)
armed_added c p e = rw (e, armed_by) refl

pub armed_deleted : (c : Channel) (p : ℕ) → c.index ≡ deleted_channel → armed_by c p ≡ none
armed_deleted c p e = rw (e, armed_by) refl

module _ (k : Epoll) where
  open k use {State, interest, epoll_ctl, add_lem, mod_lem, del_lem}

  -- The kernel's state after an operation on the channel at `ptr`.
  abbrev pub after_ctl : Operation → ℕ → Reactor k → State
  after_ctl op ptr r = (epoll_ctl op (r.chans ptr).fd ((r.chans ptr).events, ptr) r.epoll).1

  abbrev pub Succeeds : Operation → ℕ → Reactor k → Type 0
  Succeeds op ptr r = (epoll_ctl op (r.chans ptr).fd ((r.chans ptr).events, ptr) r.epoll).0 ≡ true

  pub update_epoll_operation_ok :
      (op : Operation) (ptr : ℕ) (r : Reactor k)
      → Succeeds op ptr r
      → update_epoll_operation k op ptr r ≡ ok (record r { epoll = after_ctl op ptr r })
  unfolding update_epoll_operation
  update_epoll_operation_ok op ptr r h = rw h refl

  pub operate_ok :
      (op : Operation) (i : Index) (ptr : ℕ) (r : Reactor k)
      → Succeeds op ptr r
      → operate k op i ptr r ≡ ok (set_index k ptr i (record r { epoll = after_ctl op ptr r }))
  unfolding operate
  operate_ok op i ptr r h = rw (update_epoll_operation_ok op ptr r h) refl

  module _ (ptr : ℕ) (r : Reactor k) where
    pub update_new :
        (r.chans ptr).index ≡ new_channel
        → poller_update k ptr r
          ≡ operate k ctl_add added_channel ptr
              (record r { channels = put r.channels (r.chans ptr).fd (some ptr) })
    unfolding poller_update
    update_new e = rw (e, poller_update) refl

    pub update_deleted :
        (r.chans ptr).index ≡ deleted_channel
        → poller_update k ptr r ≡ operate k ctl_add added_channel ptr r
    unfolding poller_update
    update_deleted e = rw (e, poller_update) refl

    pub update_added :
        (r.chans ptr).index ≡ added_channel
        → poller_update k ptr r ≡ (
            if is_none_event (r.chans ptr).events
            then operate k ctl_del deleted_channel ptr r
            else update_epoll_operation k ctl_mod ptr r)
    unfolding poller_update
    update_added e = rw (e, poller_update) refl

    pub remove_new :
        (r.chans ptr).index ≡ new_channel
        → poller_remove k ptr r
          ≡ ok (
              set_index k ptr new_channel
                (record r { channels = put r.channels (r.chans ptr).fd none }))
    unfolding poller_remove
    remove_new e = rw (e, poller_remove) refl

    pub remove_deleted :
        (r.chans ptr).index ≡ deleted_channel
        → poller_remove k ptr r
          ≡ ok (
              set_index k ptr new_channel
                (record r { channels = put r.channels (r.chans ptr).fd none }))
    unfolding poller_remove
    remove_deleted e = rw (e, poller_remove) refl

    pub remove_added :
        (r.chans ptr).index ≡ added_channel
        → poller_remove k ptr r
          ≡ operate k ctl_del new_channel ptr
              (record r { channels = put r.channels (r.chans ptr).fd none })
    unfolding poller_remove
    remove_added e = rw (e, poller_remove) refl
