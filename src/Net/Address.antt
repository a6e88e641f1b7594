-- ===== src/Net/Address.antt =====
-- Addresses of kernel/net/network.c: `net_ip4_t`, its number and its dotted form.
pub mod Dotted
use rtjn_kernel.Prelude.{
  ℕ, ◌+◌, ◌-◌, ◌*◌, ◌/◌, ◌%◌, ◌^◌, ◌<◌, ◌≡◌, arith, List, [], ◌∷◌, Option, none, some, ltb, leb,
  ◌==◌, ◌!=◌, ◌&&◌, if◌then◌else◌, get_or, set, bit_and, bit_or, replicate, Bool, ap, ◌∙◌,
}
use rtjn_kernel.Prelude.{◌++◌, not, length, true, false}
use rtjn_kernel.Prelude.Int.{pos}
use rtjn_kernel.Text.{text}
use rtjn_kernel.Text.Number.{itoa_buf}
use rtjn_kernel.Prelude.Bits.{u8, u32, bit_or-shift, bit_and_mask}

-- `net_ip4_t`, the four bytes of its array.
pub record Ip4 : Type 0 where
  pub b0 : ℕ
  pub b1 : ℕ
  pub b2 : ℕ
  pub b3 : ℕ

-- The array as `memcmp` and `memcpy` read it.
abbrev pub bytes : Ip4 → List ℕ
bytes ip = ip.b0 ∷ ip.b1 ∷ ip.b2 ∷ ip.b3 ∷ []

abbrev pub IsAddress : Ip4 → Type 0
IsAddress ip = (ip.b0 < 256) × (ip.b1 < 256) × (ip.b2 < 256) × (ip.b3 < 256)

unfoldable pub ip4_to_u32 : Ip4 → ℕ
ip4_to_u32 ip =
    bit_or (bit_or (bit_or (u32 (ip.b0 * 2 ^ 24)) (u32 (ip.b1 * 2 ^ 16))) (u32 (ip.b2 * 2 ^ 8)))
      ip.b3

unfoldable pub u32_to_ip4 : ℕ → Ip4
u32_to_ip4 v = record {
  b0 = u8 (bit_and (v / 2 ^ 24) 0xff);
  b1 = u8 (bit_and (v / 2 ^ 16) 0xff);
  b2 = u8 (bit_and (v / 2 ^ 8) 0xff);
  b3 = u8 (bit_and v 0xff);
}

abbrev to_ip4 : List ℕ → Ip4
to_ip4 octets = record {
  b0 = u8 (get_or octets 0 0);
  b1 = u8 (get_or octets 1 0);
  b2 = u8 (get_or octets 2 0);
  b3 = u8 (get_or octets 3 0);
}

abbrev pub dot : ℕ
dot = 46

-- `*s >= '0' && *s <= '9'`
abbrev pub is_digit : ℕ → Bool
is_digit c = leb 48 c && leb c 57

-- The loop of `string_to_ip4` and its end, at `octets`, `idx` and `cur`; `none` is the -1.
unfoldable pub parse_octets : List ℕ → ℕ → ℕ → List ℕ → Option Ip4
parse_octets octets idx cur [] = if idx != 3 then none else some (to_ip4 (set octets 3 cur))
parse_octets octets idx cur (c ∷ cs) =
    let digit = parse_octets octets idx (cur * 10 + (c - 48)) cs in
    let next = parse_octets (set octets idx cur) (idx + 1) 0 cs in
    let done = if idx != 3 then none else some (to_ip4 (set octets 3 cur)) in
    if c == 0
    then done
    else if is_digit c
    then if ltb 255 (cur * 10 + (c - 48)) then none else digit
    else if c == dot
    then if leb 3 idx then none else next
    else none

unfoldable pub string_to_ip4 : List ℕ → Option Ip4
unfolding parse_octets
string_to_ip4 s = parse_octets (replicate 4 0) 0 0 s

-- The loop of `ip4_to_string` over the bytes that are left, with what is written so far and the
-- size of `out`; `none` is the -1.
unfoldable pub write_octets : Bool → List ℕ → List ℕ → ℕ → Option (List ℕ)
unfolding itoa_buf
write_octets first [] out n = some (if ltb (length out) n then out ++ 0 ∷ [] else out)
write_octets first (b ∷ bs) out n =
    let dotted = if not first && ltb (length out + 1) n then out ++ dot ∷ [] else out in
    let tmp = text (itoa_buf (pos b)) in
    let rest = write_octets false bs (dotted ++ tmp) n in
    if leb n (length dotted + length tmp) then none else rest

unfoldable pub ip4_to_string : Ip4 → ℕ → Option (List ℕ)
unfolding write_octets
ip4_to_string ip n = write_octets true (bytes ip) [] n

-- The bytes of an address in network order.
join_bytes :
    (ip : Ip4) → IsAddress ip → ip4_to_u32 ip ≡ ((ip.b0 * 256 + ip.b1) * 256 + ip.b2) * 256 + ip.b3
unfolding ip4_to_u32
join_bytes ip (h0, h1, h2, h3) =
    let w0 : u32 (ip.b0 * 2 ^ 24) ≡ ip.b0 * 2 ^ 24 = omega arith in
    let w1 : u32 (ip.b1 * 2 ^ 16) ≡ ip.b1 * 2 ^ 16 = omega arith in
    let w2 : u32 (ip.b2 * 2 ^ 8) ≡ ip.b2 * 2 ^ 8 = omega arith in
    let first : bit_or (u32 (ip.b0 * 2 ^ 24)) (u32 (ip.b1 * 2 ^ 16))
        ≡ (ip.b0 * 256 + ip.b1) * 2 ^ 16 =
      ap (λ t. bit_or t (u32 (ip.b1 * 2 ^ 16))) w0
      ∙ ap (bit_or (ip.b0 * 2 ^ 24)) w1
      ∙ bit_or-shift 24 ip.b0 (ip.b1 * 2 ^ 16) (omega arith)
      ∙ omega arith in
    let second : bit_or ((ip.b0 * 256 + ip.b1) * 2 ^ 16) (u32 (ip.b2 * 2 ^ 8))
        ≡ ((ip.b0 * 256 + ip.b1) * 256 + ip.b2) * 2 ^ 8 =
      ap (bit_or ((ip.b0 * 256 + ip.b1) * 2 ^ 16)) w2
      ∙ bit_or-shift 16 (ip.b0 * 256 + ip.b1) (ip.b2 * 2 ^ 8) (omega arith)
      ∙ omega arith in
    ap (λ t. bit_or (bit_or t (u32 (ip.b2 * 2 ^ 8))) ip.b3) first
    ∙ ap (λ t. bit_or t ip.b3) second
    ∙ bit_or-shift 8 ((ip.b0 * 256 + ip.b1) * 256 + ip.b2) ip.b3 h3

pub Ip4-eq : {a b : Ip4} → a.b0 ≡ b.b0 → a.b1 ≡ b.b1 → a.b2 ≡ b.b2 → a.b3 ≡ b.b3 → a ≡ b
Ip4-eq e0 e1 e2 e3 i = record { b0 = e0 i; b1 = e1 i; b2 = e2 i; b3 = e3 i }

split_number :
    (v : ℕ)
    → u32_to_ip4 v
      ≡ record { b0 = v / 2 ^ 24 % 256; b1 = v / 2 ^ 16 % 256; b2 = v / 2 ^ 8 % 256; b3 = v % 256 }
unfolding u32_to_ip4
split_number v =
    let m0 = bit_and_mask 8 (v / 2 ^ 24) in
    let m1 = bit_and_mask 8 (v / 2 ^ 16) in
    let m2 = bit_and_mask 8 (v / 2 ^ 8) in
    let m3 = bit_and_mask 8 v in
    Ip4-eq (omega (arith, m0)) (omega (arith, m1)) (omega (arith, m2)) (omega (arith, m3))

-- An address is the four bytes of its number.
pub u32_to_ip4-ip4_to_u32 : (ip : Ip4) → IsAddress ip → u32_to_ip4 (ip4_to_u32 ip) ≡ ip
u32_to_ip4-ip4_to_u32 ip (h0, h1, h2, h3) =
    let e = join_bytes ip (h0, h1, h2, h3) in
    split_number (ip4_to_u32 ip) ∙ Ip4-eq (omega arith) (omega arith) (omega arith) (omega arith)

-- A 32-bit number is the number of the address of its bytes.
pub ip4_to_u32-u32_to_ip4 : (v : ℕ) → v < 2 ^ 32 → ip4_to_u32 (u32_to_ip4 v) ≡ v
ip4_to_u32-u32_to_ip4 v h =
    ap ip4_to_u32 (split_number v)
    ∙ join_bytes _ (omega arith, omega arith, omega arith, omega arith)
    ∙ omega arith
