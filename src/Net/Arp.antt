-- ===== src/Net/Arp.antt =====
-- The ARP part of kernel/net/network.c with the Ethernet frames it sends.
pub mod Cache
pub mod Remember
pub mod Resolve
pub mod Learn
use rtjn_kernel.Prelude.{
  ℕ, zero, suc, ◌+◌, ◌-◌, ◌*◌, ◌/◌, ◌%◌, ◌^◌, List, [], ◌∷◌, ◌++◌, Option, none, some, Bool, true,
  false, not, ◌&&◌, ltb, leb, ◌==◌, ◌!=◌, if◌then◌else◌, get_or, set, take, replicate, length,
  bit_and, bit_or,
}
use rtjn_kernel.Prelude.Bits.{u32}
use rtjn_kernel.Prelude.Int.{pos, eqb_ℤ}
use rtjn_kernel.Text.{memcmp}
use rtjn_kernel.Net.Address.{Ip4, bytes, ip4_to_u32, u32_to_ip4}
use rtjn_kernel.Net.State.{
  Net, NetIface, ArpEntry, Mac, no_address, field, swap16, store16, load16, load_ip, load_bytes,
}

abbrev pub net_payload_max : ℕ
net_payload_max = 1500

abbrev pub eth_type_arp : ℕ
eth_type_arp = 0x0806

abbrev pub eth_type_ipv4 : ℕ
eth_type_ipv4 = 0x0800

abbrev pub arp_cache_size : ℕ
arp_cache_size = 8

abbrev pub arp_timeout_ticks : ℕ
arp_timeout_ticks = 200

-- The result is first: `false` is the -1. The card takes every frame of an interface that is up.
unfoldable pub net_send_frame : List ℕ → Net → Bool × Net
net_send_frame frame s =
    if not s.iface.up then (false, s) else (true, record s { sent = frame ∷ s.sent })

unfoldable pub eth_send : Mac → ℕ → List ℕ → Net → Bool × Net
unfolding net_send_frame
eth_send dst ethertype payload s =
    if ltb net_payload_max (length payload)
    then (false, s)
    else net_send_frame
        (field 6 dst
          ++ field 6 s.iface.mac
          ++ bit_and (ethertype / 2 ^ 8) 0xff ∷ bit_and ethertype 0xff ∷ payload)
        s

-- `memcmp(a.b, b.b, 4) == 0`
abbrev pub same_ip : Ip4 → Ip4 → Bool
same_ip a b = eqb_ℤ (memcmp (bytes a) (bytes b) 4) (pos 0)

abbrev pub blank_entry : ArpEntry
blank_entry = record { ip = no_address; mac = replicate 6 0; valid = false; age = 0 }

unfoldable pub arp_cache_boot : Net → Net
arp_cache_boot s = record s {
  arp_cache = replicate arp_cache_size blank_entry;
  arp_pending = false;
}

-- The entry is valid and for this address.
abbrev pub entry_for : Ip4 → ArpEntry → Bool
entry_for ip e = e.valid && same_ip e.ip ip

-- The first loop of `arp_cache_add`, at slot `i`.
unfoldable pub find_entry : Ip4 → ℕ → List ArpEntry → Option ℕ
unfolding memcmp
find_entry ip i [] = none
find_entry ip i (e ∷ es) = if entry_for ip e then some i else find_entry ip (i + 1) es

-- The second loop, at slot `i`, with `oldest` and `oldest_age`.
unfoldable pub find_victim : ℕ → ℕ → ℕ → List ArpEntry → ℕ
find_victim i oldest oldest_age [] = oldest
find_victim i oldest oldest_age (e ∷ es) =
    let older = find_victim (i + 1) i e.age es in
    let kept = find_victim (i + 1) oldest oldest_age es in
    if not e.valid then i else if ltb e.age oldest_age then older else kept

abbrev pub refresh : Net → Mac → ArpEntry → ArpEntry
refresh s mac e = record e { mac = mac; age = u32 s.timer_ticks }

abbrev pub new_entry : Net → Ip4 → Mac → ArpEntry
new_entry s ip mac = record { ip = ip; mac = mac; valid = true; age = u32 s.timer_ticks }

-- The end of `arp_cache_add`: a resolution that waits for this address is over.
abbrev pub settle : Ip4 → Mac → Net → Net
settle ip mac s =
    if s.arp_pending && same_ip ip s.arp_pending_ip
    then record s { arp_pending_mac = mac; arp_pending = false }
    else s

-- `arp_cache_add` after its first loop.
abbrev pub add_to : Ip4 → Mac → Net → Option ℕ → Net
add_to ip mac s (some i) = record s {
  arp_cache = set s.arp_cache i (refresh s mac (get_or s.arp_cache i blank_entry));
}
add_to ip mac s none =
    let oldest = find_victim 0 0 0xffff_ffff s.arp_cache in
    settle ip mac (record s { arp_cache = set s.arp_cache oldest (new_entry s ip mac) })

unfoldable pub arp_cache_add : Ip4 → Mac → Net → Net
unfolding find_entry find_victim memcmp
arp_cache_add ip mac s = add_to ip mac s (find_entry ip 0 s.arp_cache)

unfoldable pub arp_cache_lookup : Ip4 → List ArpEntry → Option Mac
unfolding memcmp
arp_cache_lookup ip [] = none
arp_cache_lookup ip (e ∷ es) = if entry_for ip e then some e.mac else arp_cache_lookup ip es

-- `arp_packet_t`; the 16-bit fields hold what the packet has in memory.
pub record ArpPacket : Type 0 where
  pub htype : ℕ
  pub ptype : ℕ
  pub hlen : ℕ
  pub plen : ℕ
  pub opcode : ℕ
  pub sha : Mac
  pub spa : Ip4
  pub tha : Mac
  pub tpa : Ip4

abbrev pub sizeof_arp_packet : ℕ
sizeof_arp_packet = 28

abbrev pub arp_bytes : ArpPacket → List ℕ
arp_bytes p =
    store16 p.htype
    ++ store16 p.ptype
    ++ p.hlen ∷ p.plen ∷ store16 p.opcode
    ++ field 6 p.sha
    ++ bytes p.spa
    ++ field 6 p.tha
    ++ bytes p.tpa

abbrev pub arp_load : List ℕ → ArpPacket
arp_load pkt = record {
  htype = load16 pkt 0;
  ptype = load16 pkt 2;
  hlen = get_or pkt 4 0;
  plen = get_or pkt 5 0;
  opcode = load16 pkt 6;
  sha = load_bytes 6 pkt 8;
  spa = load_ip pkt 14;
  tha = load_bytes 6 pkt 18;
  tpa = load_ip pkt 24;
}

unfoldable pub arp_send_request : Ip4 → Net → Bool × Net
unfolding eth_send
arp_send_request target_ip s =
    eth_send (replicate 6 0) eth_type_arp
      (arp_bytes (record {
        htype = swap16 1;
        ptype = swap16 eth_type_ipv4;
        hlen = 6;
        plen = 4;
        opcode = swap16 1;
        sha = s.iface.mac;
        spa = s.iface.ip;
        tha = replicate 6 0;
        tpa = target_ip;
      }))
      s

-- The packet that answers a request.
abbrev pub arp_reply : ArpPacket → ArpPacket
arp_reply p = record {
  htype = p.htype;
  ptype = p.ptype;
  hlen = 6;
  plen = 4;
  opcode = swap16 2;
  sha = p.tha;
  spa = p.tpa;
  tha = p.sha;
  tpa = p.spa;
}

-- An address that goes through its number, as the handlers read it.
abbrev pub through_u32 : Ip4 → Ip4
through_u32 ip = u32_to_ip4 (ip4_to_u32 ip)

unfoldable pub arp_handle : List ℕ → Net → Bool × Net
unfolding arp_cache_add eth_send
arp_handle pkt s =
    let p = arp_load pkt in
    let known = arp_cache_add (through_u32 p.spa) p.sha s in
    let answered = (eth_send p.sha eth_type_arp (arp_bytes (arp_reply p)) known).1 in
    if ltb (length pkt) sizeof_arp_packet
    then (false, s)
    else if swap16 p.htype != 1
    then (false, s)
    else if swap16 p.opcode == 1 && same_ip (through_u32 p.tpa) s.iface.ip
    then (true, answered)
    else (true, known)

-- `rtl8139_poll`, with the interrupts that come during it, is a parameter.
module _ (rtl8139_poll : Net → Net) where
  -- The loop of `arp_resolve`; the fuel counts the polls, and `none` is no end within it.
  unfoldable pub await_reply : ℕ → ℕ → Net → Option Net
  await_reply zero start s = none
  await_reply (suc fuel) start s =
      let polled = rtl8139_poll s in
      let again = await_reply fuel start polled in
      if not s.arp_pending
      then some s
      else if polled.cancel_input
      then some polled
      else if leb arp_timeout_ticks (u32 (u32 polled.timer_ticks + 2 ^ 32 - start))
      then some polled
      else again

  -- After the loop.
  abbrev pub resolved : Net → Option Mac × Net
  resolved s =
      if s.arp_pending
      then (none, record s { arp_pending = false })
      else (some s.arp_pending_mac, s)

  abbrev pub resolve_sent : ℕ → ℕ → Bool × Net → Option (Option Mac × Net)
  resolve_sent fuel start (false, s) = some (none, record s { arp_pending = false })
  resolve_sent fuel start (true, s) = elim (await_reply fuel start s) [
    | none ↦ none
    | some t ↦ some (resolved t)
  ]

  -- The inner `none` is the -1.
  unfoldable pub arp_resolve : ℕ → Ip4 → Net → Option (Option Mac × Net)
  unfolding arp_cache_lookup arp_send_request await_reply
  arp_resolve fuel ip s = elim (arp_cache_lookup ip s.arp_cache) [
    | some mac ↦ some (some mac, s)
    | none ↦
        resolve_sent fuel (u32 s.timer_ticks)
          (arp_send_request ip (record s { arp_pending = true; arp_pending_ip = ip }))
  ]
