-- ===== src/Reactor/Wiring/Tests.antt =====
-- src/eventloop.cpp: a loop of which only the two channels of its own are ever registered.
use benet.Prelude.{ℕ, refl, true, false, Option, none, some, Option-cases, inl, inr, Outcome}
use benet.Channel.{Channel, init, enable_write_event}
use benet.Reactor.{put, Reactor, change_events}
use benet.Reactor.Kernel.{Epoll, ctl_add, ctl_mod, ctl_del, Interest}
use benet.Reactor.Wiring.Pair.{Pair}

-- An epoll instance that keeps the list as documented.
abbrev table : Epoll
table = record {
  State = ℕ → Option Interest;
  interest = λ s. s;
  epoll_ctl = λ op fd e s. elim (s fd) [
    | none ↦ elim op [ ctl_add ↦ (true, put s fd (some e)) | _ ↦ (false, s) ]
    | some _ ↦ elim op [
      | ctl_add ↦ (false, s)
      | ctl_mod ↦ (true, put s fd (some e))
      | ctl_del ↦ (true, put s fd none)
    ]
  ];
  add_lem = λ s fd e free. rw free (refl, λ j. refl);
  mod_lem = λ s fd e there. elim (Option-cases (s fd)) [
    | inl n ↦ absurd (there n)
    | inr (i, q) ↦ rw q (refl, λ j. refl)
  ];
  del_lem = λ s fd e there. elim (Option-cases (s fd)) [
    | inl n ↦ absurd (there n)
    | inr (i, q) ↦ rw q (refl, λ j. refl)
  ];
}

abbrev blank : ℕ → Channel
blank p = init 1 p

-- The eventfd 4 with its channel at 0, the timerfd 5 with its channel at 8.
abbrev serve : Reactor table → Outcome (Reactor table)
serve r = change_events table enable_write_event 2 0 r
