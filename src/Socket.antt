-- ===== src/Socket.antt =====
-- src/socket_ops.cpp, src/socket.cpp: the calls on sockets, over the kernel's.
pub mod Peers
mod Tests
use benet.Prelude.{
  ℕ, ◌<◌, ◌≡◌, List, [], ◌∷◌, Bool, true, false, ◌&&◌, ◌==◌, ltb, if◌then◌else◌, SysResult,
  returned, failed, Outcome, ok, critical,
}
use benet.InetAddress.{InetAddress, af_inet, af_inet6}

-- TCP_NODELAY, SO_REUSEADDR, SO_REUSEPORT and SO_KEEPALIVE.
pub data SocketOption : Type 0 where
  tcp_nodelay reuse_addr reuse_port keep_alive : SocketOption

-- The least length of an address that bind(2) takes for a family, in bytes.
abbrev pub least_length : ℕ → ℕ
least_length family = if family == af_inet6 then 24 else 16

-- The kernel's calls; the Boolean says whether a call succeeded. bind(2) fails with EINVAL on an
-- address that is too short for its family, whatever socket it is given.
pub record Kernel : Type 1 where
  pub State : Type 0
  pub socket : ℕ → State → SysResult ℕ × State
  pub open_null : State → SysResult ℕ × State
  pub bind : ℕ → InetAddress → ℕ → State → Bool × State
  pub listen : ℕ → State → Bool × State
  pub setsockopt : ℕ → SocketOption → Bool → State → Bool × State
  pub shutdown : ℕ → State → Bool × State
  pub getsockname : ℕ → State → SysResult InetAddress
  pub getpeername : ℕ → State → SysResult InetAddress
  pub socket_error : ℕ → State → SysResult ℕ
  pub bind_short :
      (fd len : ℕ) (a : InetAddress) (s : State)
      → len < least_length a.family
      → (bind fd a len s).0 ≡ false

-- A `sockaddr_storage` of zeros.
abbrev pub zeroed : InetAddress
zeroed = record { family = 0; net_port = 0; addr4 = []; addr6 = [] }

-- `sizeof(sockaddr)`, the length that `bind_or_die` gives for every family.
abbrev pub sockaddr_size : ℕ
sockaddr_size = 16

-- What `accept4` writes of an address into `len` bytes of zeros: the family, the port and an IPv4
-- address are the first eight bytes, an IPv6 address stands at bytes 8 to 23.
abbrev pub truncated : ℕ → InetAddress → InetAddress
truncated len a = if ltb len 24 then record a { addr6 = [] } else a

-- `sizeof(addr)` of a pointer, the length that `sockets::accept` gives.
abbrev pub pointer_size : ℕ
pointer_size = 8

-- `Socket::Accept`, after a successful call.
unfoldable pub accepted_peer : InetAddress → InetAddress
accepted_peer a = truncated pointer_size a

-- `memcmp` and the comparison of `s_addr`.
abbrev pub same_bytes : List ℕ → List ℕ → Bool
same_bytes [] [] = true
same_bytes (x ∷ xs) (y ∷ ys) = x == y && same_bytes xs ys
same_bytes _ _ = false

module _ (k : Kernel) where
  open k use {State, bind, listen, setsockopt, shutdown, getsockname, getpeername, socket_error}

  unfoldable pub create_socketfd : ℕ → State → Outcome (ℕ × State)
  create_socketfd family s =
      let r = k.socket family s in elim r.0 [ returned fd ↦ ok (fd, r.1) | failed errno ↦ critical ]

  unfoldable pub create_idlefd : State → Outcome (ℕ × State)
  create_idlefd s =
      let r = k.open_null s in elim r.0 [ returned fd ↦ ok (fd, r.1) | failed errno ↦ critical ]

  unfoldable pub bind_or_die : ℕ → InetAddress → State → Outcome State
  bind_or_die fd a s = let r = bind fd a sockaddr_size s in if r.0 then ok r.1 else critical

  unfoldable pub listen_or_die : ℕ → State → Outcome State
  listen_or_die fd s = let r = listen fd s in if r.0 then ok r.1 else critical

  -- `SetTcpNodelay`, `SetReuseAddr`, `SetReusePort` and `SetKeepAlive`, where
  -- SO_REUSEPORT exists: a failure is logged only.
  unfoldable pub set_option : SocketOption → ℕ → Bool → State → State
  set_option o fd on s = (setsockopt fd o on s).1

  unfoldable pub shutdown_write : ℕ → State → State
  shutdown_write fd s = (shutdown fd s).1

  unfoldable pub get_socket_error : ℕ → State → ℕ
  get_socket_error fd s = elim (socket_error fd s) [
    | failed errno ↦ errno
    | returned optval ↦ optval
  ]

  unfoldable pub get_local_addr : ℕ → State → InetAddress
  get_local_addr fd s = elim (getsockname fd s) [ returned a ↦ a | failed errno ↦ zeroed ]

  unfoldable pub get_peer_addr : ℕ → State → InetAddress
  get_peer_addr fd s = elim (getpeername fd s) [ returned a ↦ a | failed errno ↦ zeroed ]

  unfoldable pub is_self_connect : ℕ → State → Bool
  is_self_connect fd s =
      let local = get_local_addr fd s in
      let peer = get_peer_addr fd s in
      if local.family == af_inet
      then local.net_port == peer.net_port && same_bytes local.addr4 peer.addr4
      else if local.family == af_inet6
      then local.net_port == peer.net_port && same_bytes local.addr6 peer.addr6
      else false
