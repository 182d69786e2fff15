-- ===== src/Reactor/Kernel.antt =====
-- The epoll instance of the kernel, which src/poller.cpp calls: what epoll_ctl(2) documents of it.
use benet.Prelude.{ℕ, ◌≡◌, ◌≢◌, Bool, true, Option, none, some, ◌==◌, if◌then◌else◌}

pub data Operation : Type 0 where
  ctl_add ctl_mod ctl_del : Operation

-- The events asked for and the user's pointer: `struct epoll_event`.
abbrev pub Interest : Type 0
Interest = ℕ × ℕ

-- `interest` is the interest list, by descriptor. The laws are the success conditions of
-- epoll_ctl(2) for descriptors that are open and can be polled, while the system's limits are not
-- met: EEXIST and ENOENT are then the only errors.
pub record Epoll : Type 1 where
  pub State : Type 0
  pub interest : State → ℕ → Option Interest
  pub epoll_ctl : Operation → ℕ → Interest → State → Bool × State
  pub add_lem :
      (s : State) (fd : ℕ) (e : Interest)
      → interest s fd ≡ none
      → ((epoll_ctl ctl_add fd e s).0 ≡ true)
        × ((j : ℕ)
            → interest (epoll_ctl ctl_add fd e s).1 j ≡ (if fd == j then some e else interest s j))
  pub mod_lem :
      (s : State) (fd : ℕ) (e : Interest)
      → interest s fd ≢ none
      → ((epoll_ctl ctl_mod fd e s).0 ≡ true)
        × ((j : ℕ)
            → interest (epoll_ctl ctl_mod fd e s).1 j ≡ (if fd == j then some e else interest s j))
  pub del_lem :
      (s : State) (fd : ℕ) (e : Interest)
      → interest s fd ≢ none
      → ((epoll_ctl ctl_del fd e s).0 ≡ true)
        × ((j : ℕ)
            → interest (epoll_ctl ctl_del fd e s).1 j ≡ (if fd == j then none else interest s j))
