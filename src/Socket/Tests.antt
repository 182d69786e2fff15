-- ===== src/Socket/Tests.antt =====
-- src/socket_ops.cpp, src/acceptor.cpp: a kernel with one socket, and the theorems on it.
use benet.Prelude.{
  ◌≡◌, ◌↔◌, inl, refl, [], ◌∷◌, true, false, ltb, ltb-true, if◌then◌else◌, returned, ok, critical,
  ◌>>=◌,
}
use benet.Channel.{enable_read_event}
use benet.InetAddress.{InetAddress, af_inet, af_inet6}
use benet.Socket.{
  Kernel, least_length, accepted_peer, create_socketfd, create_idlefd, bind_or_die, listen_or_die,
  set_option, is_self_connect,
}
use benet.Socket.Peers.{is_self_connect_iff}
use benet.Acceptor.Setup.{construct, listen, construct_ipv6}

-- The state is the address that the socket is bound to, and it is connected to itself.
abbrev one_socket : Kernel
one_socket = record {
  State = InetAddress;
  socket = λ family s. (returned 4, s);
  open_null = λ s. (returned 5, s);
  bind = λ fd a len s. if ltb len (least_length a.family) then (false, s) else (true, a);
  listen = λ fd s. (true, s);
  setsockopt = λ fd o on s. (true, s);
  shutdown = λ fd s. (true, s);
  getsockname = λ fd s. returned s;
  getpeername = λ fd s. returned s;
  socket_error = λ fd s. returned 0;
  bind_short = λ fd len a s h. rw (ltb-true len (least_length a.family) h) refl;
}

abbrev home4 : InetAddress
home4 = record { family = af_inet; net_port = 80; addr4 = 127 ∷ 0 ∷ 0 ∷ 1 ∷ []; addr6 = [] }

abbrev home6 : InetAddress
home6 = record { family = af_inet6; net_port = 80; addr4 = []; addr6 = 0 ∷ 1 ∷ [] }

is_self_connect_iff_example : (is_self_connect one_socket 4 home4 ≡ true) ↔ (home4 ≡ home4)
is_self_connect_iff_example =
    is_self_connect_iff one_socket 4 home4 home4 home4 refl refl (inl (refl, refl))
      (inl (refl, refl)) refl

construct_ipv6_example : construct one_socket home6 true home4 ≡ critical
construct_ipv6_example = construct_ipv6 one_socket home6 true home4 refl

-- On an IPv4 address the acceptor is set up, listens, and then lets go of its channel.
listens_ipv4 :
    (construct one_socket home4 true home6 >>= λ l. listen one_socket true l)
    ≡ ok (record { listening = true; accept_socket = 4; idle_fd = 5; events = 3; kernel = home4 })
unfolding construct listen create_socketfd create_idlefd bind_or_die listen_or_die set_option
    enable_read_event
listens_ipv4 = refl

-- The peer's IPv6 address does not fit into the length that `accept` is given.
peer_lost : accepted_peer home6 ≡ record home6 { addr6 = [] }
unfolding accepted_peer
peer_lost = refl
