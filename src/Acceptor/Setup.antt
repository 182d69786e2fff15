-- ===== src/Acceptor/Setup.antt =====
-- src/acceptor.cpp, with src/socket.cpp: the constructor, Listen and the destructor of the acceptor.
use benet.Prelude.{
  ℕ, ◌≡◌, refl, ap, Bool, true, false, if◌then◌else◌, SysResult, returned, failed, Outcome, ok,
  critical, ◌>>=◌, arith,
}
use benet.Channel.{enable_read_event, disable_all_event}
use benet.InetAddress.{InetAddress, af_inet6}
use benet.Socket.{
  Kernel, reuse_addr, reuse_port, sockaddr_size, least_length, create_socketfd, create_idlefd,
  bind_or_die, listen_or_die, set_option,
}

module _ (k : Kernel) where
  open k use {State, bind, bind_short}

  -- The acceptor as far as it is set up: `events` are those of its channel.
  pub record Listener : Type 0 where
    pub listening : Bool
    pub accept_socket : ℕ
    pub idle_fd : ℕ
    pub events : ℕ
    pub kernel : State

  unfoldable pub construct : InetAddress → Bool → State → Outcome Listener
  construct a reuseport s = create_socketfd k a.family s >>= λ p. create_idlefd k p.1 >>= λ q.
      let s₁ = set_option k reuse_addr p.0 true q.1 in
      let s₂ = set_option k reuse_port p.0 reuseport s₁ in
      bind_or_die k p.0 a s₂ >>= λ s₃.
      ok (record { listening = false; accept_socket = p.0; idle_fd = q.0; events = 0; kernel = s₃ })

  unfoldable pub listen : Bool → Listener → Outcome Listener
  listen in_loop_thread l =
      let listened = listen_or_die k l.accept_socket l.kernel >>= λ s.
      ok (record l { listening = true; events = enable_read_event l.events; kernel = s }) in
      if in_loop_thread then listened else critical

  -- The destructor, up to the removal of the channel and the closing of the descriptor.
  unfoldable pub destruct : Listener → Listener
  destruct l = record l { events = disable_all_event l.events }

  bind_ipv6 :
      (fd : ℕ) (a : InetAddress) (s : State) → a.family ≡ af_inet6 → bind_or_die k fd a s ≡ critical
  unfolding bind_or_die
  bind_ipv6 fd a s e =
      ap (λ b. if b then ok (bind fd a sockaddr_size s).1 else critical)
        (bind_short fd sockaddr_size a s (rw (ap least_length e) (omega arith)))

  -- A call that gives a descriptor or ends the program, before what ends the program anyway.
  ends_anyway :
      (r : SysResult ℕ × State) (rest : ℕ × State → Outcome Listener)
      → ((p : ℕ × State) → rest p ≡ critical)
      → ((elim r.0 [ returned fd ↦ ok (fd, r.1) | failed errno ↦ critical ]) >>= rest) ≡ critical
  ends_anyway (returned fd, s) rest h = h (fd, s)
  ends_anyway (failed errno, s) rest h = refl

  -- On an IPv6 address, whatever the kernel's state, the constructor ends the program: bind_or_die
  -- passes the length of a `sockaddr`, which is too short for such an address.
  pub construct_ipv6 :
      (a : InetAddress) (reuseport : Bool) (s : State)
      → a.family ≡ af_inet6
      → construct a reuseport s ≡ critical
  unfolding construct create_socketfd create_idlefd
  construct_ipv6 a reuseport s e = ends_anyway (k.socket a.family s) _ (λ p.
      ends_anyway (k.open_null p.1) _ (λ q.
        ap
          (λ m. m >>= λ s₃. ok (record {
            listening = false;
            accept_socket = p.0;
            idle_fd = q.0;
            events = 0;
            kernel = s₃;
          }))
          (bind_ipv6 p.0 a _ e)))
