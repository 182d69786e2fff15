-- ===== src/InetAddress.antt =====
-- src/inet_address.cpp: an address with its port, in the kernel's form.
mod Fields
mod Tests
use benet.Prelude.{
  ℕ, ◌+◌, ◌*◌, ◌/◌, ◌%◌, List, [], Bool, true, false, ◌==◌, if◌then◌else◌, Option, none, some,
  Outcome, ok, critical,
}

-- AF_INET and AF_INET6.
abbrev pub af_inet : ℕ
af_inet = 2

abbrev pub af_inet6 : ℕ
af_inet6 = 10

-- htons(3) and ntohs(3) on a host whose least byte comes first; both exchange the two bytes.
abbrev pub exchange : ℕ → ℕ
exchange n = n % 256 * 256 + n / 256

-- inet_pton(3) and inet_ntop(3), by family, on texts and addresses as bytes.
pub record Inet : Type 0 where
  pub pton : ℕ → List ℕ → Option (List ℕ)
  pub ntop : ℕ → List ℕ → List ℕ

-- `sockaddr_storage`: the family and the port stand at the same place in sockaddr_in and
-- sockaddr_in6, the addresses do not.
pub record InetAddress : Type 0 where
  pub family : ℕ
  pub net_port : ℕ
  pub addr4 : List ℕ
  pub addr6 : List ℕ

module _ (net : Inet) where
  open net use {pton, ntop}

  -- The part of the constructor for IPv4, on what was there before.
  abbrev pub set_ipv4 : ℕ → List ℕ → InetAddress → Outcome InetAddress
  set_ipv4 port text a = elim (pton af_inet text) [
    | none ↦ critical
    | some addr ↦ ok (record a { family = af_inet; net_port = exchange port; addr4 = addr })
  ]

  -- The constructor. A text that is no IPv6 address is tried as one of IPv4.
  unfoldable pub init : ℕ → List ℕ → Bool → Outcome InetAddress
  init port text ipv6 =
      let zeroed : InetAddress = record { family = 0; net_port = 0; addr4 = []; addr6 = [] } in
      let six = record zeroed { family = af_inet6; net_port = exchange port } in
      if ipv6
      then elim (pton af_inet6 text) [
        | none ↦ set_ipv4 port text six
        | some addr ↦ ok (record six { addr6 = addr })
      ]
      else set_ipv4 port text zeroed

  unfoldable pub ip : InetAddress → List ℕ
  ip a =
      if a.family == af_inet
      then ntop af_inet a.addr4
      else if a.family == af_inet6
      then ntop af_inet6 a.addr6
      else []

unfoldable pub port : InetAddress → ℕ
port a =
    if a.family == af_inet
    then exchange a.net_port
    else if a.family == af_inet6
    then exchange a.net_port
    else 0
