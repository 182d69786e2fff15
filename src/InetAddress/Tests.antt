-- ===== src/InetAddress/Tests.antt =====
-- src/inet_address.cpp: an address made and read.
use benet.Prelude.{◌≡◌, refl, [], ◌∷◌, true, some, Returns, arith}
use benet.InetAddress.{Inet, af_inet6, init, ip, port}
use benet.InetAddress.Fields.{init_lem}

-- Texts that are addresses already.
abbrev plain : Inet
plain = record { pton = λ family text. some text; ntop = λ family addr. addr }

init_lem_example :
    Returns
      (λ a. (a.family ≡ af_inet6) × (port a ≡ 8080) × (ip plain a ≡ 1 ∷ 2 ∷ []))
      (init plain 8080 (1 ∷ 2 ∷ []) true)
init_lem_example = init_lem plain 8080 (1 ∷ 2 ∷ []) (1 ∷ 2 ∷ []) true refl refl (omega arith)
