-- ===== src/Net/Ipv4/Echo.antt =====
-- The echo answers of `icmp_handle` in kernel/net/network.c.
use rtjn_kernel.Prelude.{
  ℕ, ◌-◌, ◌≤◌, ◌≡◌, refl, ap, ◌∙◌, arith, List, [], ◌∷◌, ◌++◌, length, length-replicate, min, drop,
  replicate,
}
use rtjn_kernel.Text.Copy.{length-memcpy}
use rtjn_kernel.Net.Checksum.{ip_checksum, ip_checksum-verifies, ip_checksum-lt}
use rtjn_kernel.Net.State.{store16, load16, load_bytes}
use rtjn_kernel.Net.Ipv4.{echo_answer, sizeof_icmp_header}
use rtjn_kernel.Net.Ipv4.Header.{store16-swap16}

-- The answer to an echo request of any length passes the check of a receiver, and is at
-- most 512 bytes long.
pub echo_answer-verifies :
    (pkt : List ℕ) (len : ℕ)
    → (ip_checksum (echo_answer pkt len) ≡ 0) × (length (echo_answer pkt len) ≤ 512)
unfolding echo_answer
echo_answer-verifies pkt len =
    let blen = min (len - sizeof_icmp_header) (512 - sizeof_icmp_header) in
    let body = load_bytes blen pkt sizeof_icmp_header in
    let rest = store16 (load16 pkt 4) ++ store16 (load16 pkt 6) ++ body in
    let c = ip_checksum (0 ∷ 0 ∷ 0 ∷ 0 ∷ rest) in
    let fits : length body ≡ blen =
      length-memcpy (replicate blen 0) (drop sizeof_icmp_header pkt) blen
      ∙ length-replicate blen 0 in
    (
      ap (λ w. ip_checksum (0 ∷ 0 ∷ w ++ rest))
            (store16-swap16 c (ip_checksum-lt (0 ∷ 0 ∷ 0 ∷ 0 ∷ rest)))
          ∙ ip_checksum-verifies 1 (0 ∷ 0 ∷ []) rest refl (omega arith),
      omega arith,
    )
