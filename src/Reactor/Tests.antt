-- ===== src/Reactor/Tests.antt =====
-- src/poller.cpp: an epoll instance to run the calls on, and their theorems there.
use benet.Prelude.{
  ℕ, ◌≡◌, ◌≢◌, refl, sym, ◌∙◌, List, [], ◌∷◌, Bool, true, false, Option, none, some, Option-cases,
  inl, inr, ◌==◌, ==_ne, ℕ_discrete, subst, if◌then◌else◌, ◌≤◌, ◌<◌, returned, failed, ok, critical,
  Returns, arith,
}
use benet.Channel.{Channel, new_channel, added_channel, init, enable_read_event, is_none_event}
use benet.Reactor.{put, Reactor, change_events, remove_from_loop}
use benet.Reactor.Kernel.{Epoll, Operation, ctl_add, ctl_mod, ctl_del, Interest}
use benet.Reactor.Registry.{Inv, armed_at}
use benet.Reactor.Calls.{Updated, Removed}
use benet.Reactor.Loop.{with_events, change_events-Updated, remove_from_loop-Removed}
use benet.Reactor.Round.{Callbacks, poll_round}
use benet.Reactor.Round.Safe.{AllKeep}
use benet.Reactor.Round.Whole.{Ended, poll_round-Ended}
use benet.Reactor.Round.Callback.{retire, retire-KeepsTo}
use benet.Reactor.Polling.{poll, Polled, poll-Polled, poll_failed, eintr}

abbrev Interests : Type 0
Interests = ℕ → Option Interest

-- EEXIST and ENOENT, and success elsewhere.
abbrev control : Operation → ℕ → Interest → Interests → Bool × Interests
control ctl_add fd e s = elim (s fd) [ none ↦ (true, put s fd (some e)) | some _ ↦ (false, s) ]
control ctl_mod fd e s = elim (s fd) [ none ↦ (false, s) | some _ ↦ (true, put s fd (some e)) ]
control ctl_del fd e s = elim (s fd) [ none ↦ (false, s) | some _ ↦ (true, put s fd none) ]

abbrev epoll_list : Epoll
epoll_list = record {
  State = Interests;
  interest = λ s. s;
  epoll_ctl = control;
  add_lem = λ s fd e free. rw (control, free) (refl, λ j. refl);
  mod_lem = λ s fd e there. elim (Option-cases (s fd)) [
    | inl n ↦ absurd (there n)
    | inr (i, q) ↦ rw (control, q) (refl, λ j. refl)
  ];
  del_lem = λ s fd e there. elim (Option-cases (s fd)) [
    | inl n ↦ absurd (there n)
    | inr (i, q) ↦ rw (control, q) (refl, λ j. refl)
  ];
}

-- A new loop, with a new channel at every address, on the descriptor of the same number.
abbrev fresh_loop : Reactor epoll_list
fresh_loop = record {
  loop_id = 1;
  thread_id = 2;
  chans = λ p. init 1 p;
  channels = λ fd. none;
  epoll = λ fd. none;
  event_handing = false;
  active_channels = [];
  current_active_channel = none;
}

fresh-Inv : Inv epoll_list fresh_loop
unfolding init
fresh-Inv = record {
  owner = λ p h. absurd (h refl);
  named = λ fd p h. ground arith;
  armed = λ fd. refl;
}

fresh_owner : (fresh_loop.chans 5).loop ≡ 1
unfolding init
fresh_owner = refl

fresh_quiet : is_none_event (fresh_loop.chans 5).events ≡ true
unfolding init is_none_event
fresh_quiet = refl

change_events_example :
    Returns
      (Updated epoll_list 5 (with_events epoll_list 2 5 fresh_loop enable_read_event) fresh_loop)
      (change_events epoll_list enable_read_event 2 5 fresh_loop)
change_events_example =
    change_events-Updated epoll_list 2 5 fresh_loop fresh-Inv fresh_owner refl (λ e. refl)
      enable_read_event

remove_from_loop_example :
    Returns
      (Removed epoll_list 5 (record (fresh_loop.chans 5) { added_in_loop = some false }) fresh_loop)
      (remove_from_loop epoll_list 2 5 fresh_loop)
remove_from_loop_example =
    remove_from_loop-Removed epoll_list 2 5 fresh_loop fresh-Inv fresh_owner refl (λ e. refl)
      fresh_quiet refl

-- Two channels are ready, and the array holds just two.
abbrev two_ready : List (ℕ × ℕ)
two_ready = (1, 5) ∷ (4, 6) ∷ []

poll_example :
    Returns
      (λ p. (2 < p.0) × (2 ≤ p.0) × Polled epoll_list two_ready fresh_loop p.1)
      (poll epoll_list 2 (returned two_ready) fresh_loop)
poll_example = poll-Polled epoll_list 2 two_ready fresh_loop (omega arith) (omega arith)

poll_failed_run :
    poll epoll_list 32 (failed 9) fresh_loop
    ≡ (if 9 == eintr then ok (32, fresh_loop) else critical)
poll_failed_run = poll_failed epoll_list 32 9 fresh_loop

-- The loop with channel 5 registered, which waits to read.
abbrev reader : Channel
reader = record {
  loop = 1;
  fd = 5;
  events = 3;
  revents = 0;
  index = added_channel;
  tied = false;
  event_handing = none;
  added_in_loop = some true;
}

abbrev loop_with_reader : Reactor epoll_list
loop_with_reader = record fresh_loop {
  chans = put fresh_loop.chans 5 reader;
  channels = put fresh_loop.channels 5 (some 5);
  epoll = put fresh_loop.epoll 5 (some (3, 5));
}

reader-Inv : Inv epoll_list loop_with_reader
unfolding init
reader-Inv = record {
  owner = λ p h. elim (ℕ_discrete 5 p) [
    | yes e ↦ subst (λ q. loop_with_reader.channels (loop_with_reader.chans q).fd ≡ some q) e refl
    | no ne ↦ absurd (h (rw (==_ne 5 p ne) refl))
  ];
  named = λ fd p h. elim (ℕ_discrete 5 fd) [
    | yes e ↦
        let five : some 5 ≡ some p =
          sym (subst (λ j. loop_with_reader.channels j ≡ some 5) e refl) ∙ h in
        let same : 5 ≡ p = ground arith in
        subst
          (λ q.
            ((loop_with_reader.chans q).fd ≡ fd) × ((loop_with_reader.chans q).index ≢ new_channel))
          same (e, λ i. cc)
    | no ne ↦
        let gone : loop_with_reader.channels fd ≡ none = rw (==_ne 5 fd ne) refl in
        absurd (ground arith)
  ];
  armed = λ fd. elim (ℕ_discrete 5 fd) [
    | yes e ↦
        subst
          (λ j.
            loop_with_reader.epoll j
            ≡ armed_at epoll_list loop_with_reader.chans (loop_with_reader.channels j))
          e refl
    | no ne ↦ rw (==_ne 5 fd ne) refl
  ];
}

-- Channel 5 takes itself out of the loop when it can be read.
abbrev retiring : Callbacks epoll_list
retiring = record {
  on_error = λ p. none;
  on_close = λ p. none;
  on_read = λ p. some (λ time. retire epoll_list p 2);
  on_write = λ p. none;
  alive = λ p r. true;
}

retiring-AllKeep : AllKeep epoll_list 2 retiring
retiring-AllKeep = record {
  error = λ p. tt;
  close = λ p. tt;
  read = λ p time. retire-KeepsTo epoll_list p 2;
  write = λ p. tt;
}

poll_round_example :
    Returns
      (λ p. Ended epoll_list 2 retiring retiring-AllKeep 9 ((1, 5) ∷ []) loop_with_reader p.1)
      (poll_round epoll_list retiring 9 32 (returned ((1, 5) ∷ [])) loop_with_reader)
poll_round_example =
    poll_round-Ended epoll_list 2 retiring retiring-AllKeep 9 32 ((1, 5) ∷ []) loop_with_reader
      (omega arith) (omega arith) reader-Inv refl (tt, tt) (refl, (λ e. cc), tt)
