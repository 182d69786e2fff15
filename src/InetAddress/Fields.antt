-- ===== src/InetAddress/Fields.antt =====
-- src/inet_address.cpp: the port and the text of an address that was made from them.
use benet.Prelude.{ℕ, ◌<◌, ◌^◌, ◌≡◌, refl, List, Bool, true, false, some, Returns, arith}
use benet.InetAddress.{Inet, af_inet, af_inet6, exchange, init, ip, port, set_ipv4}

exchange_twice : (n : ℕ) → n < 2 ^ 16 → exchange (exchange n) ≡ n
exchange_twice n h = omega arith

-- The family asked for.
abbrev pub family_of : Bool → ℕ
family_of true = af_inet6
family_of false = af_inet

-- The constructor, on a port of 16 bits and a text that inet_pton takes for the family asked for and
-- inet_ntop gives back, returns an address of that family, and port() and ip() give the two back.
pub init_lem :
    (net : Inet) (number : ℕ) (text addr : List ℕ) (ipv6 : Bool)
    → net.pton (family_of ipv6) text ≡ some addr
    → net.ntop (family_of ipv6) addr ≡ text
    → number < 2 ^ 16
    → Returns
        (λ a. (a.family ≡ family_of ipv6) × (port a ≡ number) × (ip net a ≡ text))
        (init net number text ipv6)
unfolding init ip port
init_lem net number text addr true parsed printed small =
    rw parsed (refl, exchange_twice number small, printed)
init_lem net number text addr false parsed printed small =
    rw (set_ipv4, parsed) (refl, exchange_twice number small, printed)
