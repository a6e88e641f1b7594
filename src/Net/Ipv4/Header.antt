-- ===== src/Net/Ipv4/Header.antt =====
-- The headers that `ipv4_send` of kernel/net/network.c builds.
use rtjn_kernel.Prelude.{ℕ, ◌/◌, ◌%◌, ◌^◌, ◌<◌, ◌≡◌, refl, ap, ◌∙◌, arith, [], ◌∷◌, ◌++◌}
use rtjn_kernel.Prelude.Bits.{bit_or-swapped}
use rtjn_kernel.Net.Address.{Ip4}
use rtjn_kernel.Net.Checksum.{ip_checksum, ip_checksum-verifies, ip_checksum-lt}
use rtjn_kernel.Net.State.{swap16, store16}
use rtjn_kernel.Net.Ipv4.{ipv4_header, header_front, header_back}

-- A swapped word stands in memory in network order.
pub store16-swap16 : (v : ℕ) → v < 2 ^ 16 → store16 (swap16 v) ≡ v / 256 ∷ v % 256 ∷ []
store16-swap16 v h =
    let low : swap16 v % 256 ≡ v / 256 = omega (arith, bit_or-swapped v h) in
    let high : swap16 v / 256 ≡ v % 256 = omega (arith, bit_or-swapped v h) in
    λ i. low i ∷ high i ∷ []

-- Every header that ipv4_send builds has the checksum 0 at the receiver.
pub ipv4_header-verifies :
    (src dst : Ip4) (proto len : ℕ) → ip_checksum (ipv4_header src dst proto len) ≡ 0
unfolding ipv4_header
ipv4_header-verifies src dst proto len =
    let front = header_front proto len in
    let c = ip_checksum (front ++ 0 ∷ 0 ∷ header_back src dst) in
    ap (λ w. ip_checksum (front ++ w ++ header_back src dst))
      (store16-swap16 c (ip_checksum-lt (front ++ 0 ∷ 0 ∷ header_back src dst)))
    ∙ ip_checksum-verifies 5 front (header_back src dst) refl (omega arith)
