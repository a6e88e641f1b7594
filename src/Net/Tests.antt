-- ===== src/Net/Tests.antt =====
-- The theorems on kernel/net at concrete addresses, caches and packets.
use rtjn_kernel.Prelude.{
  ℕ, ◌+◌, ◌/◌, ◌%◌, ◌≡◌, refl, arith, List, [], ◌∷◌, ◌++◌, none, some, true, false, replicate,
}
use rtjn_kernel.Text.{memcpy}
use rtjn_kernel.Net.Address.{Ip4, string_to_ip4, parse_octets, u32_to_ip4, ip4_to_u32}
use rtjn_kernel.Text.{memcmp}
use rtjn_kernel.Net.Address.{ip4_to_string}
use rtjn_kernel.Net.Address.Dotted.{string_to_ip4-ip4_to_string}
use rtjn_kernel.Net.Checksum.{ip_checksum, ip_checksum-verifies}
use rtjn_kernel.Net.State.{Net, NetIface, Mac, load_ip, load_bytes}
use rtjn_kernel.Net.Arp.{
  arp_cache_lookup, arp_cache_size, blank_entry, arp_handle, arp_resolve, arp_send_request,
  eth_send, net_send_frame,
}
use rtjn_kernel.Net.Arp.Resolve.{arp_resolve-Answered, Answered, TimedOut, polls, asked}
use rtjn_kernel.Prelude.Bits.{u32}
use rtjn_kernel.Net.Arp.Learn.{arp_handle-learns}
use rtjn_kernel.Net.Ipv4.{ipv4_parse, deliver}
use rtjn_kernel.Net.Ipv4.Receive.{ipv4_parse-Outcome, Outcome}

abbrev host : Ip4
host = record { b0 = 10; b1 = 0; b2 = 2; b3 = 15 }

abbrev gateway : Ip4
gateway = record { b0 = 10; b1 = 0; b2 = 2; b3 = 2 }

abbrev card : Mac
card = 82 ∷ 84 ∷ 0 ∷ 18 ∷ 52 ∷ 86 ∷ []

abbrev router : Mac
router = 82 ∷ 85 ∷ 10 ∷ 0 ∷ 2 ∷ 2 ∷ []

-- The interface as `net_init` and `net_link_up` leave it.
abbrev eth0 : NetIface
eth0 = record {
  name = 101 ∷ 116 ∷ 104 ∷ 48 ∷ [];
  mac = card;
  ip = host;
  netmask = record { b0 = 255; b1 = 255; b2 = 255; b3 = 0 };
  gateway = gateway;
  dns = record { b0 = 10; b1 = 0; b2 = 2; b3 = 3 };
  up = true;
}

abbrev idle_net : Net
idle_net = record {
  iface = eth0;
  arp_cache = replicate arp_cache_size blank_entry;
  arp_pending = false;
  arp_pending_ip = gateway;
  arp_pending_mac = replicate 6 0;
  icmp_waiting = false;
  icmp_wait_id = 0;
  icmp_wait_seq = 0;
  icmp_reply_recv = false;
  timer_ticks = 1000;
  cancel_input = false;
  sent = [];
}

-- A quiet poll, half a second long.
abbrev quiet : Net → Net
quiet s = record s { timer_ticks = s.timer_ticks + 100 }

-- "10.0.2.15"
string_to_ip4-host : string_to_ip4 (49 ∷ 48 ∷ 46 ∷ 48 ∷ 46 ∷ 50 ∷ 46 ∷ 49 ∷ 53 ∷ 0 ∷ []) ≡ some host
unfolding string_to_ip4 parse_octets
string_to_ip4-host = refl

ip_checksum-verifies_example :
    ip_checksum (
      (69 ∷ 0 ∷ [])
      ++ ip_checksum ((69 ∷ 0 ∷ []) ++ 0 ∷ 0 ∷ 1 ∷ 2 ∷ 3 ∷ []) / 256
        ∷ ip_checksum ((69 ∷ 0 ∷ []) ++ 0 ∷ 0 ∷ 1 ∷ 2 ∷ 3 ∷ []) % 256
        ∷ 1
        ∷ 2
        ∷ 3
        ∷ [])
    ≡ 0
ip_checksum-verifies_example =
    ip_checksum-verifies 1 (69 ∷ 0 ∷ []) (1 ∷ 2 ∷ 3 ∷ []) refl (omega arith)

nothing_known : arp_cache_lookup gateway idle_net.arp_cache ≡ none
unfolding arp_cache_lookup
nothing_known = refl

timed_out : TimedOut quiet (u32 1000) (polls quiet 2 (asked quiet gateway idle_net).1)
unfolding arp_send_request eth_send net_send_frame memcpy
timed_out = refl

arp_resolve-Answered_example : Answered quiet (arp_resolve quiet 2 gateway idle_net)
arp_resolve-Answered_example = arp_resolve-Answered quiet 1 gateway idle_net refl timed_out

-- A request of the gateway for the host's address.
abbrev request : List ℕ
request =
    0 ∷ 1 ∷ 8 ∷ 0 ∷ 6 ∷ 4 ∷ 0 ∷ 1 ∷ 82 ∷ 85 ∷ 10 ∷ 0 ∷ 2 ∷ 2 ∷ 10 ∷ 0 ∷ 2 ∷ 2 ∷ 0 ∷ 0 ∷ 0 ∷ 0 ∷ 0
    ∷ 0 ∷ 10 ∷ 0 ∷ 2 ∷ 15 ∷ []

arp_handle-learns_example :
    arp_cache_lookup (load_ip request 14) (arp_handle request idle_net).1.arp_cache
    ≡ some (load_bytes 6 request 8)
arp_handle-learns_example =
    arp_handle-learns request idle_net (omega arith) refl
      (omega arith, omega arith, omega arith, omega arith) refl

-- 4 bytes of UDP for the host.
abbrev datagram : List ℕ
datagram =
    69 ∷ 0 ∷ 0 ∷ 24 ∷ 0 ∷ 0 ∷ 0 ∷ 0 ∷ 64 ∷ 17 ∷ 0 ∷ 0 ∷ 10 ∷ 0 ∷ 2 ∷ 2 ∷ 10 ∷ 0 ∷ 2 ∷ 15 ∷ 1 ∷ 2 ∷ 3
    ∷ 4 ∷ []

ipv4_parse-Outcome_example : Outcome datagram eth0 (deliver 17 20 4)
unfolding ipv4_parse memcmp u32_to_ip4 ip4_to_u32
ipv4_parse-Outcome_example = ipv4_parse-Outcome datagram eth0

string_to_ip4-ip4_to_string_example :
    (s : List ℕ) × (ip4_to_string host 16 ≡ some s) × (string_to_ip4 s ≡ some host)
string_to_ip4-ip4_to_string_example =
    string_to_ip4-ip4_to_string host 16 (omega arith, omega arith, omega arith, omega arith)
      (omega arith)
