-- ===== src/Net/State.antt =====
-- The globals of kernel/net/network.c as one record, and the byte order of its fields.
use rtjn_kernel.Prelude.{
  ℕ, ◌+◌, ◌*◌, ◌/◌, ◌%◌, ◌^◌, List, [], ◌∷◌, Bool, get_or, bit_or, replicate, drop,
}
use rtjn_kernel.Prelude.Bits.{u16}
use rtjn_kernel.Text.{memcpy}
use rtjn_kernel.Net.Address.{Ip4}

-- `net_mac_t`, the six bytes of its array.
abbrev pub Mac : Type 0
Mac = List ℕ

-- `net_iface_t`
pub record NetIface : Type 0 where
  pub name : List ℕ
  pub mac : Mac
  pub ip : Ip4
  pub netmask : Ip4
  pub gateway : Ip4
  pub dns : Ip4
  pub up : Bool

-- `arp_entry_t`
pub record ArpEntry : Type 0 where
  pub ip : Ip4
  pub mac : Mac
  pub valid : Bool
  pub age : ℕ

-- `sent` is what went to the card, the last frame first; `cancel_input` and `timer_ticks` are set
-- by the interrupt handlers.
pub record Net : Type 0 where
  pub iface : NetIface
  pub arp_cache : List ArpEntry
  pub arp_pending : Bool
  pub arp_pending_ip : Ip4
  pub arp_pending_mac : Mac
  pub icmp_waiting : Bool
  pub icmp_wait_id : ℕ
  pub icmp_wait_seq : ℕ
  pub icmp_reply_recv : Bool
  pub timer_ticks : ℕ
  pub cancel_input : Bool
  pub sent : List (List ℕ)

abbrev pub no_address : Ip4
no_address = record { b0 = 0; b1 = 0; b2 = 0; b3 = 0 }

-- `n` bytes that `memcpy` puts into a field of a packet.
abbrev pub field : ℕ → List ℕ → List ℕ
field n xs = memcpy (replicate n 0) xs n

-- `(v >> 8) | (v << 8)` on a `uint16_t`.
abbrev pub swap16 : ℕ → ℕ
swap16 v = u16 (bit_or (v / 2 ^ 8) (v * 2 ^ 8))

-- A `uint16_t` field in memory, low byte first.
abbrev pub store16 : ℕ → List ℕ
store16 v = v % 256 ∷ v / 256 ∷ []

abbrev pub load16 : List ℕ → ℕ → ℕ
load16 xs i = get_or xs i 0 + get_or xs (i + 1) 0 * 256

abbrev pub load_ip : List ℕ → ℕ → Ip4
load_ip xs i = record {
  b0 = get_or xs i 0;
  b1 = get_or xs (i + 1) 0;
  b2 = get_or xs (i + 2) 0;
  b3 = get_or xs (i + 3) 0;
}

abbrev pub load_bytes : ℕ → List ℕ → ℕ → List ℕ
load_bytes n xs i = field n (drop i xs)
