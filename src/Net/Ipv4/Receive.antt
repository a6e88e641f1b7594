-- ===== src/Net/Ipv4/Receive.antt =====
-- What `ipv4_handle` of kernel/net/network.c makes of the lengths in a received packet.
use rtjn_kernel.Prelude.{
  ℕ, ◌+◌, ◌-◌, ◌*◌, ◌^◌, ◌<◌, ◌≤◌, ◌≡◌, arith, List, length, min, if_intro, not, true, false, ltb,
  ltb→lt, if◌then◌else◌, get_or, bit_and,
}
use native.Mathlib.Decide.{dec_lt}
use rtjn_kernel.Prelude.Bits.{bit_and_mask, u8, u16}
use rtjn_kernel.Net.State.{NetIface, swap16, load16, load_ip}
use rtjn_kernel.Net.Arp.{same_ip, through_u32}
use rtjn_kernel.Net.Ipv4.{ipv4_parse, Parsed, refused, ignored, deliver}

-- The length that the header gives, cut to the packet's.
abbrev pub total_of : List ℕ → ℕ
total_of pkt = min (swap16 (load16 pkt 2)) (length pkt)

-- The length of the header, from its first byte.
abbrev pub ihl_of : List ℕ → ℕ
ihl_of pkt = u8 (bit_and (get_or pkt 0 0) 0x0f * 4)

-- The destination of the header is the address of the card.
abbrev pub IsOurs : List ℕ → NetIface → Type 0
IsOurs pkt iface = same_ip (through_u32 (load_ip pkt 16)) iface.ip ≡ true

-- The ends of `ipv4_parse`. Both deliveries pass on the protocol, byte 9 of the header, and the place
-- behind the header.
pub data Outcome (pkt : List ℕ) (iface : NetIface) : Parsed → Type 0 where
  short : length pkt < 20 → Outcome pkt iface refused
  cut : 20 ≤ length pkt → IsOurs pkt iface → total_of pkt < 20 → Outcome pkt iface refused
  headless : IsOurs pkt iface → 20 ≤ total_of pkt → ihl_of pkt < 20 → Outcome pkt iface refused
  foreign :
      20 ≤ length pkt
      → same_ip (through_u32 (load_ip pkt 16)) iface.ip ≡ false
      → Outcome pkt iface ignored
  inside :
      (len : ℕ)
      → IsOurs pkt iface
      → 20 ≤ ihl_of pkt
      → ihl_of pkt ≤ 60
      → ihl_of pkt + len ≡ total_of pkt
      → Outcome pkt iface (deliver (get_or pkt 9 0) (ihl_of pkt) len)
  overrun :
      (len : ℕ)
      → IsOurs pkt iface
      → total_of pkt < ihl_of pkt
      → ihl_of pkt ≤ 60
      → 20 ≤ total_of pkt
      → len ≡ 2 ^ 32 - (ihl_of pkt - total_of pkt)
      → Outcome pkt iface (deliver (get_or pkt 9 0) (ihl_of pkt) len)

-- ipv4_handle refuses a packet that is short, or one for this host whose total is below 20 or
-- whose header length is below 20, and ignores one of 20 bytes or more for another address;
-- otherwise the destination is the card's address, and it goes on with the protocol, byte 9 of
-- the header, and the part behind the header, which lies inside the packet; or the header length
-- exceeds the total, and then the length it passes on has wrapped to almost 2^32.
pub ipv4_parse-Outcome :
    (pkt : List ℕ) (iface : NetIface) → Outcome pkt iface (ipv4_parse pkt iface)
unfolding ipv4_parse
ipv4_parse-Outcome pkt iface =
    let given = swap16 (load16 pkt 2) in
    let total = if ltb (length pkt) given then u16 (length pkt) else given in
    let ihl = u8 (bit_and (get_or pkt 0 0) 0x0f * 4) in
    let same : total ≡ total_of pkt = ground arith in
    let words : ihl ≤ 60 = omega (arith, bit_and_mask 4 (get_or pkt 0 0)) in
    if_intro (Outcome pkt iface) (ltb (length pkt) 20) (λ t. short (ltb→lt (length pkt) 20 t))
      (λ f1.
        if_intro (Outcome pkt iface) (not (same_ip (through_u32 (load_ip pkt 16)) iface.ip))
          (λ f. foreign (ground arith) (ground arith))
          (λ same_host.
            let ours : IsOurs pkt iface = ground (arith, same_host) in
            if_intro (Outcome pkt iface) (ltb total 20)
              (λ t. let lt = ltb→lt total 20 t in cut (ground arith) ours (omega arith))
              (λ f2.
                if_intro (Outcome pkt iface) (ltb ihl 20)
                  (λ t. headless ours (ground arith) (ltb→lt ihl 20 t))
                  (λ f3. elim (dec_lt (total_of pkt) ihl) [
                    | yes over ↦ overrun _ ours over words (ground arith) (ground arith)
                    | no fits ↦ inside _ ours (ground arith) words (ground arith)
                  ]))))
