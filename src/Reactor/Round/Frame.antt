-- ===== src/Reactor/Round/Frame.antt =====
-- src/channel.cpp, src/eventloop.cpp, src/poller.cpp: what event calls and RemoveFromLoop leave alone.
use benet.Prelude.{
  ℕ, ◌≡◌, refl, ap, ◌∙◌, Bool, true, false, some, none, ◌==◌, if◌then◌else◌, ok, assert, Whenever,
  chained, after_assert, critical,
}
use benet.Channel.{Channel, Index, new_channel, added_channel, deleted_channel, is_none_event}
use benet.Reactor.{
  put, Reactor, update_epoll_operation, set_index, operate, poller_update, poller_remove,
  loop_update, loop_remove, change_events, remove_from_loop, assert_in_loop_thread,
}
use benet.Reactor.Kernel.{Epoll, Operation, ctl_add, ctl_mod, ctl_del}
use benet.Reactor.Equations.{put_self}
use benet.Reactor.Loop.{with_events}

module _ (k : Epoll) (ptr : ℕ) where
  -- What the calls leave alone, besides the other channels.
  pub record Frame (r r' : Reactor k) : Type 0 where
    pub loop_id : r'.loop_id ≡ r.loop_id
    pub thread_id : r'.thread_id ≡ r.thread_id
    pub handing : r'.event_handing ≡ r.event_handing
    pub current : r'.current_active_channel ≡ r.current_active_channel
    pub loop : (r'.chans ptr).loop ≡ (r.chans ptr).loop
    pub fd : (r'.chans ptr).fd ≡ (r.chans ptr).fd

  Frame-refl : (r : Reactor k) → Frame r r
  Frame-refl r = record {
    loop_id = refl;
    thread_id = refl;
    handing = refl;
    current = refl;
    loop = refl;
    fd = refl;
  }

  -- A channel at `ptr` with the same loop and descriptor.
  put-Frame :
      (c : Channel) (r s : Reactor k)
      → Frame r s
      → c.loop ≡ (s.chans ptr).loop
      → c.fd ≡ (s.chans ptr).fd
      → Frame r (record s { chans = put s.chans ptr c })
  put-Frame c r s f loops fds = record {
    loop_id = f.loop_id;
    thread_id = f.thread_id;
    handing = f.handing;
    current = f.current;
    loop = ap (λ d. d.loop) (put_self s.chans ptr c) ∙ loops ∙ f.loop;
    fd = ap (λ d. d.fd) (put_self s.chans ptr c) ∙ fds ∙ f.fd;
  }

  with_epoll-Frame : (r s : Reactor k) → Frame r s → (e : _) → Frame r (record s { epoll = e })
  with_epoll-Frame r s f e = record {
    loop_id = f.loop_id;
    thread_id = f.thread_id;
    handing = f.handing;
    current = f.current;
    loop = f.loop;
    fd = f.fd;
  }

  with_channels-Frame :
      (r s : Reactor k) → Frame r s → (e : _) → Frame r (record s { channels = e })
  with_channels-Frame r s f e = record {
    loop_id = f.loop_id;
    thread_id = f.thread_id;
    handing = f.handing;
    current = f.current;
    loop = f.loop;
    fd = f.fd;
  }

  operation-Frame :
      (op : Operation) (r s : Reactor k)
      → Frame r s
      → Whenever (Frame r) (update_epoll_operation k op ptr s)
  unfolding update_epoll_operation
  operation-Frame op r s f =
      go op (k.epoll_ctl op (s.chans ptr).fd ((s.chans ptr).events, ptr) s.epoll).0
    where
      go :
          (op' : Operation) (done : Bool)
          → Whenever (Frame r) (
              let s' = record s {
                epoll = (k.epoll_ctl op (s.chans ptr).fd ((s.chans ptr).events, ptr) s.epoll).1;
              } in
              if done then ok s' else elim op' [ ctl_del ↦ ok s' | _ ↦ critical ])
      go op' true = with_epoll-Frame r s f _
      go ctl_del false = with_epoll-Frame r s f _
      go ctl_add false = tt
      go ctl_mod false = tt

  operate-Frame :
      (op : Operation) (i : Index) (r s : Reactor k)
      → Frame r s
      → Whenever (Frame r) (operate k op i ptr s)
  unfolding operate
  operate-Frame op i r s f =
      chained (Frame r) (Frame r) (update_epoll_operation k op ptr s) _ (operation-Frame op r s f)
        (λ t g. put-Frame (record (t.chans ptr) { index = i }) r t g refl refl)

  poller_update-Frame : (r s : Reactor k) → Frame r s → Whenever (Frame r) (poller_update k ptr s)
  unfolding poller_update
  poller_update-Frame r s f = go (s.chans ptr).index (is_none_event (s.chans ptr).events)
    where
      go :
          (i : Index) (quiet : Bool)
          → Whenever (Frame r) (elim i [
            | new_channel ↦
                operate k ctl_add added_channel ptr
                  (record s { channels = put s.channels (s.chans ptr).fd (some ptr) })
            | deleted_channel ↦ operate k ctl_add added_channel ptr s
            | added_channel ↦
                if quiet
                then operate k ctl_del deleted_channel ptr s
                else update_epoll_operation k ctl_mod ptr s
          ])
      go new_channel quiet =
          operate-Frame ctl_add added_channel r
            (record s { channels = put s.channels (s.chans ptr).fd (some ptr) })
            (with_channels-Frame r s f _)
      go deleted_channel quiet = operate-Frame ctl_add added_channel r s f
      go added_channel true = operate-Frame ctl_del deleted_channel r s f
      go added_channel false = operation-Frame ctl_mod r s f

  poller_remove-Frame : (r s : Reactor k) → Frame r s → Whenever (Frame r) (poller_remove k ptr s)
  unfolding poller_remove
  poller_remove-Frame r s f = go (s.chans ptr).index
    where
      go :
          (i : Index)
          → Whenever (Frame r) (elim i [
            | added_channel ↦
                operate k ctl_del new_channel ptr
                  (record s { channels = put s.channels (s.chans ptr).fd none })
            | _ ↦ ok (
                set_index k ptr new_channel
                  (record s { channels = put s.channels (s.chans ptr).fd none }))
          ])
      go added_channel =
          operate-Frame ctl_del new_channel r
            (record s { channels = put s.channels (s.chans ptr).fd none })
            (with_channels-Frame r s f _)
      go new_channel =
          put-Frame (record (s.chans ptr) { index = new_channel }) r
            (record s { channels = put s.channels (s.chans ptr).fd none })
            (with_channels-Frame r s f _) refl refl
      go deleted_channel =
          put-Frame (record (s.chans ptr) { index = new_channel }) r
            (record s { channels = put s.channels (s.chans ptr).fd none })
            (with_channels-Frame r s f _) refl refl

  module _ (here : ℕ) where
    pub change_events-Frame :
        (change : ℕ → ℕ) (r : Reactor k) → Whenever (Frame r) (change_events k change here ptr r)
    unfolding change_events loop_update
    change_events-Frame change r =
        let s : Reactor k = record r {
          chans = put r.chans ptr (with_events k here ptr r change);
        } in
        after_assert (Frame r) (assert ((s.chans ptr).loop == s.loop_id)) _ (
          after_assert (Frame r) (assert_in_loop_thread k here s) _ (
            poller_update-Frame r s
              (put-Frame (with_events k here ptr r change) r r (Frame-refl r) refl refl)))

    pub remove_from_loop-Frame :
        (r : Reactor k) → Whenever (Frame r) (remove_from_loop k here ptr r)
    unfolding remove_from_loop loop_remove
    remove_from_loop-Frame r =
        let c : Channel = record (r.chans ptr) { added_in_loop = some false } in
        let s : Reactor k = record r { chans = put r.chans ptr c } in
        after_assert (Frame r) (assert (is_none_event (r.chans ptr).events)) _ (
          after_assert (Frame r) (assert ((s.chans ptr).loop == s.loop_id)) _ (
            after_assert (Frame r) (assert_in_loop_thread k here s) _ (
              after_assert (Frame r) _ _
                (poller_remove-Frame r s (put-Frame c r r (Frame-refl r) refl refl)))))
