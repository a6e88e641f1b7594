-- ===== src/Net/Arp/Learn.antt =====
-- What `arp_handle` of kernel/net/network.c learns from a packet.
use rtjn_kernel.Prelude.{
  ℕ, ◌≤◌, ◌≡◌, refl, ap, ◌∙◌, arith, List, some, Bool, if_intro, not, length, ltb, ltb→lt, ◌!=◌,
  ◌==◌, ◌&&◌,
}
use rtjn_kernel.Net.Address.{IsAddress, u32_to_ip4-ip4_to_u32}
use rtjn_kernel.Net.State.{Net, Mac, swap16, load16, load_ip, load_bytes}
use rtjn_kernel.Net.Arp.{
  arp_handle, arp_cache_lookup, arp_cache_add, eth_send, net_send_frame, through_u32, same_ip,
  arp_cache_size, sizeof_arp_packet, net_payload_max, arp_load, arp_bytes, arp_reply, eth_type_arp,
}
use rtjn_kernel.Net.Arp.Remember.{arp_cache_add-lookup}

-- Sending a frame leaves the cache.
pub eth_send-cache :
    (dst : Mac) (ethertype : ℕ) (payload : List ℕ) (s : Net)
    → (eth_send dst ethertype payload s).1.arp_cache ≡ s.arp_cache
unfolding eth_send net_send_frame
eth_send-cache dst ethertype payload s =
    if_intro (λ (r : Bool × Net). r.1.arp_cache ≡ s.arp_cache)
      (ltb net_payload_max (length payload)) (λ _. refl)
      (λ _.
        if_intro (λ (r : Bool × Net). r.1.arp_cache ≡ s.arp_cache) (not s.iface.up) (λ _. refl)
          (λ _. refl))

-- Every ARP packet of at least 28 bytes for Ethernet, whose sender's address is made of bytes,
-- teaches a cache of eight entries the hardware address of its sender, whatever its operation
-- and target.
pub arp_handle-learns :
    (pkt : List ℕ) (s : Net)
    → sizeof_arp_packet ≤ length pkt
    → swap16 (load16 pkt 0) ≡ 1
    → IsAddress (load_ip pkt 14)
    → length s.arp_cache ≡ arp_cache_size
    → arp_cache_lookup (load_ip pkt 14) (arp_handle pkt s).1.arp_cache ≡ some (load_bytes 6 pkt 8)
unfolding arp_handle
arp_handle-learns pkt s long htype bytes size =
    let sender = load_ip pkt 14 in
    let mac = load_bytes 6 pkt 8 in
    let p = arp_load pkt in
    let Learned = λ (r : Bool × Net). arp_cache_lookup sender r.1.arp_cache ≡ some mac in
    let known = arp_cache_add (through_u32 sender) mac s in
    let learned : arp_cache_lookup sender known.arp_cache ≡ some mac =
      ap (λ ip. arp_cache_lookup sender (arp_cache_add ip mac s).arp_cache)
        (u32_to_ip4-ip4_to_u32 sender bytes)
      ∙ arp_cache_add-lookup sender mac s size in
    if_intro Learned (ltb (length pkt) sizeof_arp_packet)
      (λ t. let lt = ltb→lt (length pkt) sizeof_arp_packet t in absurd (omega arith))
      (λ _.
        if_intro Learned (swap16 (load16 pkt 0) != 1) (λ t. absurd (ground arith))
          (λ _.
            if_intro Learned
              (swap16 (load16 pkt 6) == 1 && same_ip (through_u32 (load_ip pkt 24)) s.iface.ip)
              (λ _.
                ap (arp_cache_lookup sender)
                  (eth_send-cache mac eth_type_arp (arp_bytes (arp_reply p)) known)
                ∙ learned)
              (λ _. learned)))
