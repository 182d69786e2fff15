-- ===== src/Socket/Peers.antt =====
-- src/socket_ops.cpp: is_self_connect, on the addresses of both ends.
use benet.Prelude.{
  ℕ, ◌≡◌, ◌⊎◌, ◌↔◌, inl, inr, refl, sym, ap, ap₂, ◌∙◌, List, [], ◌∷◌, Bool, true, false, ◌&&◌, ◌==◌,
  ==_iff, ==_self, returned, failed, if◌then◌else◌, arith, Bool-cases,
}
use benet.InetAddress.{InetAddress, af_inet, af_inet6}
use benet.Socket.{Kernel, same_bytes, zeroed, get_local_addr, get_peer_addr, is_self_connect}

same_bytes_self : (xs : List ℕ) → same_bytes xs xs ≡ true
same_bytes_self [] = refl
same_bytes_self (x ∷ xs) = rw (==_self x, same_bytes_self xs) refl

same_bytes_eq : (xs ys : List ℕ) → same_bytes xs ys ≡ true → xs ≡ ys
same_bytes_eq [] [] h = refl
same_bytes_eq [] (y ∷ ys) h = absurd (ground arith)
same_bytes_eq (x ∷ xs) [] h = absurd (ground arith)
same_bytes_eq (x ∷ xs) (y ∷ ys) h = elim (Bool-cases (x == y)) [
  | inl e ↦
      ap₂ ◌∷◌ ((==_iff x y).0 e) (same_bytes_eq xs ys (ap (λ b. b && same_bytes xs ys) (sym e) ∙ h))
  | inr e ↦ absurd (ground arith)
]

-- An address of a family that the library knows: the place of the other family's address is unused.
abbrev pub Known : InetAddress → Type 0
Known a = ((a.family ≡ af_inet) × (a.addr6 ≡ [])) ⊎ ((a.family ≡ af_inet6) × (a.addr4 ≡ []))

both_equal :
    (p q : ℕ) (xs ys : List ℕ) → ((p == q && same_bytes xs ys) ≡ true) ↔ ((p ≡ q) × (xs ≡ ys))
both_equal p q xs ys = (
  λ h. elim (Bool-cases (p == q)) [
    | inl e ↦ ((==_iff p q).0 e, same_bytes_eq xs ys (ap (λ b. b && same_bytes xs ys) (sym e) ∙ h))
    | inr e ↦ absurd (ground arith)
  ],
  λ (e, f). rw (e, f, ==_self q, same_bytes_self ys) refl,
)

address_ext :
    (a b : InetAddress)
    → a.family ≡ b.family
    → a.net_port ≡ b.net_port
    → a.addr4 ≡ b.addr4
    → a.addr6 ≡ b.addr6
    → a ≡ b
address_ext a b f p x y = cc

-- The comparison that the code makes of two addresses.
abbrev same_end : InetAddress → InetAddress → Bool
same_end local peer =
    if local.family == af_inet
    then local.net_port == peer.net_port && same_bytes local.addr4 peer.addr4
    else if local.family == af_inet6
    then local.net_port == peer.net_port && same_bytes local.addr6 peer.addr6
    else false

same_end_iff :
    (local peer : InetAddress)
    → Known local
    → Known peer
    → local.family ≡ peer.family
    → (same_end local peer ≡ true) ↔ (local ≡ peer)
same_end_iff local peer (inl (v4, unused)) known same =
    let (to, of) = both_equal local.net_port peer.net_port local.addr4 peer.addr4 in
    rw (ap (λ f. f == af_inet) v4) (
      λ h.
          address_ext local peer same (to h).0 (to h).1
            (elim known [ inl (_, u) ↦ unused ∙ sym u | inr (v6, _) ↦ absurd (ground arith) ]),
      λ h. of (ap (λ a. a.net_port) h, ap (λ a. a.addr4) h),
    )
same_end_iff local peer (inr (v6, unused)) known same =
    let (to, of) = both_equal local.net_port peer.net_port local.addr6 peer.addr6 in
    rw (ap (λ f. f == af_inet) v6, ap (λ f. f == af_inet6) v6)
      (
        λ h.
            address_ext local peer same (to h).0
              (elim known [ inl (v4, _) ↦ absurd (ground arith) | inr (_, u) ↦ unused ∙ sym u ])
              (to h).1,
        λ h. of (ap (λ a. a.net_port) h, ap (λ a. a.addr6) h),
      )

-- Where the kernel tells both addresses of a socket, of one family that the library knows,
-- is_self_connect answers true exactly if the two ends are the same: family, port and address.
pub is_self_connect_iff :
    (k : Kernel) (fd : ℕ) (s : k.State) (local peer : InetAddress)
    → k.getsockname fd s ≡ returned local
    → k.getpeername fd s ≡ returned peer
    → Known local
    → Known peer
    → local.family ≡ peer.family
    → (is_self_connect k fd s ≡ true) ↔ (local ≡ peer)
unfolding is_self_connect get_local_addr get_peer_addr
is_self_connect_iff k fd s local peer e f known known' same =
    let ends = ap (λ r. elim r [ returned a ↦ a | failed errno ↦ zeroed ]) e in
    let peers = ap (λ r. elim r [ returned a ↦ a | failed errno ↦ zeroed ]) f in
    let answer = ap₂ same_end ends peers in
    let (to, of) = same_end_iff local peer known known' same in
    (λ h. to (sym answer ∙ h), λ h. answer ∙ of h)
