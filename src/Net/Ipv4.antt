-- ===== src/Net/Ipv4.antt =====
-- The IPv4 and ICMP parts of kernel/net/network.c, and the dispatch of received frames.
pub mod Header
pub mod Receive
pub mod Echo
use rtjn_kernel.Prelude.{
  ℕ, zero, suc, ◌+◌, ◌-◌, ◌*◌, ◌/◌, ◌%◌, ◌^◌, List, [], ◌∷◌, ◌++◌, Option, none, some, Bool, true,
  false, not, ◌&&◌, ◌||◌, ltb, leb, ◌==◌, ◌!=◌, if◌then◌else◌, get_or, set, take, drop, replicate,
  length, bit_and, bit_or, min,
}
use rtjn_kernel.Prelude.Bits.{u8, u16, u32}
use rtjn_kernel.Text.{memcpy}
use rtjn_kernel.Net.Address.{Ip4, bytes, ip4_to_u32, u32_to_ip4}
use rtjn_kernel.Net.Checksum.{ip_checksum}
use rtjn_kernel.Net.State.{
  Net, NetIface, ArpEntry, Mac, no_address, field, swap16, store16, load16, load_ip, load_bytes,
}
use rtjn_kernel.Net.Arp.{
  arp_resolve, arp_handle, eth_send, same_ip, through_u32, eth_type_arp, eth_type_ipv4,
  net_payload_max,
}

abbrev pub ip_proto_icmp : ℕ
ip_proto_icmp = 1

abbrev pub ip_proto_tcp : ℕ
ip_proto_tcp = 6

abbrev pub ip_proto_udp : ℕ
ip_proto_udp = 17

unfoldable pub is_local_network : Ip4 → NetIface → Bool
unfolding ip4_to_u32
is_local_network ip iface =
    let mask = ip4_to_u32 iface.netmask in
    bit_and (ip4_to_u32 ip) mask == bit_and (ip4_to_u32 iface.ip) mask

-- The 20 bytes of the header in front of and behind the checksum field.
abbrev pub header_front : ℕ → ℕ → List ℕ
header_front proto len =
    0x45 ∷ 0 ∷ store16 (swap16 (u16 (20 + len)))
    ++ store16 (swap16 0x4242)
    ++ store16 0
    ++ 64 ∷ u8 proto ∷ []

abbrev pub header_back : Ip4 → Ip4 → List ℕ
header_back src dst = bytes src ++ bytes dst

-- `hdr`, complete: the checksum is taken with its own field 0.
unfoldable pub ipv4_header : Ip4 → Ip4 → ℕ → ℕ → List ℕ
unfolding ip_checksum
ipv4_header src dst proto len =
    let c = ip_checksum (header_front proto len ++ store16 0 ++ header_back src dst) in
    header_front proto len ++ store16 (swap16 c) ++ header_back src dst

-- A received packet: refused with -1, not for this host, or the protocol, the place and the length
-- of what the header is in front of.
pub data Parsed : Type 0 where
  refused ignored : Parsed
  deliver : (proto offset len : ℕ) → Parsed

-- `ipv4_handle` up to its switch. The length is a `size_t`: the difference wraps.
unfoldable pub ipv4_parse : List ℕ → NetIface → Parsed
ipv4_parse pkt iface =
    let len = length pkt in
    let given = swap16 (load16 pkt 2) in
    let total = if ltb len given then u16 len else given in
    let ihl = u8 (bit_and (get_or pkt 0 0) 0x0f * 4) in
    if ltb len 20
    then refused
    else if not (same_ip (through_u32 (load_ip pkt 16)) iface.ip)
    then ignored
    else if ltb total 20
    then refused
    else if ltb ihl 20
    then refused
    else deliver (get_or pkt 9 0) ihl (u32 (total + 2 ^ 32 - ihl))

abbrev pub sizeof_icmp_header : ℕ
sizeof_icmp_header = 8

-- The `icmp_header_t` of a reply, with the checksum field in the middle.
abbrev pub echo_reply : List ℕ → ℕ → List ℕ
echo_reply pkt checksum =
    0 ∷ 0 ∷ store16 checksum ++ store16 (load16 pkt 4) ++ store16 (load16 pkt 6)

-- The answer to an echo request, cut to 512 bytes.
unfoldable pub echo_answer : List ℕ → ℕ → List ℕ
unfolding ip_checksum
echo_answer pkt len =
    let blen = min (len - sizeof_icmp_header) (512 - sizeof_icmp_header) in
    let body = load_bytes blen pkt sizeof_icmp_header in
    echo_reply pkt (swap16 (ip_checksum (echo_reply pkt 0 ++ body))) ++ body

-- A poll and the two transports are parameters; the fuel counts the polls of one resolution, and
-- `none` is a resolution that does not end within it.
module _ (rtl8139_poll : Net → Net) (fuel : ℕ) where
  -- The end of `ipv4_send`, with the answer of `arp_resolve`.
  abbrev pub send_to : List ℕ → Option (Option Mac × Net) → Option (Bool × Net)
  send_to pkt none = none
  send_to pkt (some (none, s)) = some (false, s)
  send_to pkt (some (some mac, s)) = some (eth_send mac eth_type_ipv4 pkt s)

  unfoldable pub ipv4_send : Ip4 → ℕ → List ℕ → Net → Option (Bool × Net)
  unfolding is_local_network ipv4_header arp_resolve
  ipv4_send dst proto payload s =
      let next_hop = if is_local_network dst s.iface then dst else s.iface.gateway in
      if not s.iface.up || ltb (net_payload_max - 20) (length payload)
      then some (false, s)
      else send_to (ipv4_header s.iface.ip dst proto (length payload) ++ payload)
          (arp_resolve rtl8139_poll fuel next_hop s)

  -- `pkt` is what stands at the pointer, and `len` the length that the caller passes: bytes
  -- behind the end of `pkt` are read as 0.
  unfoldable pub icmp_handle : List ℕ → ℕ → Ip4 → Net → Option (Bool × Net)
  unfolding ipv4_send echo_answer
  icmp_handle pkt len src s =
      let answered = ipv4_send src ip_proto_icmp (echo_answer pkt len) s in
      let expected =
        s.icmp_waiting && load16 pkt 4 == s.icmp_wait_id && load16 pkt 6 == s.icmp_wait_seq in
      if ltb len sizeof_icmp_header
      then some (false, s)
      else if get_or pkt 0 0 == 8
      then elim answered [ none ↦ none | some (sent, t) ↦ some (true, t) ]
      else if get_or pkt 0 0 == 0 && expected
      then some (true, record s { icmp_reply_recv = true })
      else some (true, s)

  module _ (udp_handle tcp_handle : List ℕ → ℕ → Net → Option (Bool × Net)) where
    -- The switch of `ipv4_handle`.
    abbrev pub dispatch : List ℕ → Net → Parsed → Option (Bool × Net)
    dispatch pkt s refused = some (false, s)
    dispatch pkt s ignored = some (true, s)
    dispatch pkt s (deliver proto offset len) =
        let rest = drop offset pkt in
        if proto == ip_proto_icmp
        then icmp_handle rest len (load_ip pkt 12) s
        else if proto == ip_proto_udp
        then udp_handle rest len s
        else if proto == ip_proto_tcp
        then tcp_handle rest len s
        else some (false, s)

    unfoldable pub ipv4_handle : List ℕ → Net → Option (Bool × Net)
    unfolding ipv4_parse icmp_handle
    ipv4_handle pkt s = dispatch pkt s (ipv4_parse pkt s.iface)

    abbrev pub is_zero_mac : Mac → Bool
    is_zero_mac mac =
        get_or mac 0 0 == 0
        && get_or mac 1 0 == 0
        && get_or mac 2 0 == 0
        && get_or mac 3 0 == 0
        && get_or mac 4 0 == 0
        && get_or mac 5 0 == 0

    -- A card without an address takes the sender's of the first frame.
    abbrev pub learn_mac : List ℕ → Net → Net
    learn_mac frame s =
        if is_zero_mac s.iface.mac
        then record s { iface = record s.iface { mac = load_bytes 6 frame 6 } }
        else s

    unfoldable pub net_handle_frame : List ℕ → Net → Option (Bool × Net)
    unfolding ipv4_handle arp_handle
    net_handle_frame frame s =
        let t = learn_mac frame s in
        let ethertype = swap16 (load16 frame 12) in
        let payload = drop 14 frame in
        if ltb (length frame) 14
        then some (false, s)
        else if ethertype == eth_type_arp
        then some (arp_handle payload t)
        else if ethertype == eth_type_ipv4
        then ipv4_handle payload t
        else some (false, t)
