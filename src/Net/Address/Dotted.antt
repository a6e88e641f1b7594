-- ===== src/Net/Address/Dotted.antt =====
-- `string_to_ip4` of kernel/net/network.c reads what `ip4_to_string` writes.
use rtjn_kernel.Prelude.{
  ℕ, zero, suc, ◌+◌, ◌-◌, ◌*◌, ◌/◌, ◌%◌, ◌^◌, ◌≤◌, ◌<◌, ◌≡◌, refl, ap, ◌∙◌, arith, List, [], ◌∷◌,
  ◌++◌, true, false, leb, ltb, ◌==◌, some, length, set, length-append, append_assoc, replicate,
  leb→le, all_from, all_from-each,
}
use native.Mathlib.Nat.{
  pow-suc, div-add-mod', mod-lt, add-mul, mul_assoc, div-lt_iff_lt-mul, one-le-pow,
}
use rtjn_kernel.Prelude.Int.{pos}
use rtjn_kernel.Text.{text}
use rtjn_kernel.Text.Number.{digits_of, itoa_buf}
use rtjn_kernel.Text.Number.Parse.{le_mul, digits_of-cons, digits_of-done, scale-Scale}
use rtjn_kernel.Net.Address.{
  Ip4, IsAddress, dot, is_digit, parse_octets, string_to_ip4, write_octets, ip4_to_string, to_ip4,
  Ip4-eq,
}

parse_octets-digit :
    (o : List ℕ) (idx cur d : ℕ) (cs : List ℕ)
    → d < 10
    → cur * 10 + d ≤ 255
    → parse_octets o idx cur ((d + 48) ∷ cs) ≡ parse_octets o idx (cur * 10 + d) cs
unfolding parse_octets
parse_octets-digit o idx cur d cs h fits =
    let some_byte : (d + 48 == 0) ≡ false = ground arith in
    let digit : is_digit (d + 48) ≡ true = ground arith in
    let value : cur * 10 + (d + 48 - 48) ≡ cur * 10 + d = omega arith in
    let small : ltb 255 (cur * 10 + (d + 48 - 48)) ≡ false = ground arith in
    rw some_byte (rw digit (rw small (ap (λ c. parse_octets o idx c cs) value)))

-- The digits of a byte are read as the byte.
parse_octets-digits_of :
    (o : List ℕ) (idx fuel k cur rem : ℕ) (rest : List ℕ)
    → k < fuel
    → rem < 10 ^ suc k
    → cur * 10 ^ suc k + rem ≤ 255
    → parse_octets o idx cur (digits_of fuel (10 ^ k) rem ++ rest)
      ≡ parse_octets o idx (cur * 10 ^ suc k + rem) rest
parse_octets-digits_of o idx zero k cur rem rest h lt fits = absurd (omega arith)
parse_octets-digits_of o idx (suc fuel) zero cur rem rest h lt fits =
    let whole : cur * 10 + rem / 1 ≡ cur * 10 ^ 1 + rem = omega arith in
    ap (λ ds. parse_octets o idx cur (ds ++ rest)) (digits_of-cons fuel 1 rem (omega arith))
    ∙ parse_octets-digit o idx cur (rem / 1) (digits_of fuel (1 / 10) (rem % 1) ++ rest)
        (omega arith) (omega arith)
    ∙ ap (λ ds. parse_octets o idx (cur * 10 + rem / 1) (ds ++ rest))
        (digits_of-done fuel (rem % 1))
    ∙ ap (λ c. parse_octets o idx c rest) whole
parse_octets-digits_of o idx (suc fuel) (suc k) cur rem rest h lt fits =
    let p = 10 ^ suc k in
    let d = rem / p in
    let pos_p : 0 < p = one-le-pow (suc k) 10 (omega arith) in
    let top : 10 ^ suc (suc k) ≡ 10 * p = omega (arith, pow-suc 10 (suc k)) in
    let small : d < 10 = (div-lt_iff_lt-mul {k = p} {x = rem} {y = 10} pos_p).1 (omega arith) in
    let lower : p / 10 ≡ 10 ^ k = omega (arith, pow-suc 10 k) in
    let value : (cur * 10 + d) * p + rem % p ≡ cur * 10 ^ suc (suc k) + rem = omega (
      arith,
      add-mul (cur * 10) d p,
      mul_assoc cur 10 p,
      ap (λ q. cur * q) top,
      div-add-mod' rem p,
    ) in
    let room : cur * 10 + d ≤ 255 = omega (arith, le_mul (cur * 10 + d) p pos_p) in
    ap (λ ds. parse_octets o idx cur (ds ++ rest)) (digits_of-cons fuel p rem pos_p)
    ∙ parse_octets-digit o idx cur d (digits_of fuel (p / 10) (rem % p) ++ rest) small room
    ∙ ap (λ q. parse_octets o idx (cur * 10 + d) (digits_of fuel q (rem % p) ++ rest)) lower
    ∙ parse_octets-digits_of o idx fuel k (cur * 10 + d) (rem % p) rest (omega arith)
        (mod-lt rem pos_p) (omega arith)
    ∙ ap (λ c. parse_octets o idx c rest) value

text-cons : (d : ℕ) (ds : List ℕ) → text ((d + 48) ∷ ds) ≡ (d + 48) ∷ text ds
text-cons d ds = let some_byte : (d + 48 == 0) ≡ false = ground arith in rw some_byte refl

-- The text of the digits is all of them, one more than the exponent.
text-digits_of :
    (fuel k rem : ℕ)
    → k < fuel
    → (text (digits_of fuel (10 ^ k) rem ++ 0 ∷ []) ≡ digits_of fuel (10 ^ k) rem)
      × (length (digits_of fuel (10 ^ k) rem) ≡ suc k)
text-digits_of zero k rem h = absurd (omega arith)
text-digits_of (suc fuel) zero rem h =
    let shape =
      digits_of-cons fuel 1 rem (omega arith)
      ∙ ap (λ ds. (rem / 1 + 48) ∷ ds) (digits_of-done fuel (rem % 1)) in
    rw shape (text-cons (rem / 1) (0 ∷ []), refl)
text-digits_of (suc fuel) (suc k) rem h =
    let p = 10 ^ suc k in
    let pos_p : 0 < p = one-le-pow (suc k) 10 (omega arith) in
    let lower : p / 10 ≡ 10 ^ k = omega (arith, pow-suc 10 k) in
    let (ih, size) = text-digits_of fuel k (rem % p) (omega arith) in
    let shape =
      digits_of-cons fuel p rem pos_p
      ∙ ap (λ q. (rem / p + 48) ∷ digits_of fuel q (rem % p)) lower in
    rw shape (
      text-cons (rem / p) (digits_of fuel (10 ^ k) (rem % p) ++ 0 ∷ [])
          ∙ ap (λ ds. (rem / p + 48) ∷ ds) ih,
      ap suc size,
    )

abbrev octet : ℕ → List ℕ
octet b = text (itoa_buf (pos b))

three_bytes : all_from (λ b. leb (length (octet b)) 3) 0 256 ≡ true
unfolding itoa_buf
three_bytes = refl

-- A byte is written with three digits at most.
length-octet : (b : ℕ) → b < 256 → length (octet b) ≤ 3
length-octet b h =
    leb→le (length (octet b)) 3 (
      all_from-each (λ b. leb (length (octet b)) 3) 256 0 b three_bytes (omega arith) (omega arith))

octet-read :
    (o : List ℕ) (idx b : ℕ) (rest : List ℕ)
    → b < 256
    → parse_octets o idx 0 (octet b ++ rest) ≡ parse_octets o idx b rest
unfolding itoa_buf
octet-read o idx b rest h =
    let (k, le, l, lt) = scale-Scale 10 0 b (omega arith) in
    let shown : octet b ≡ digits_of 11 (10 ^ k) b =
      ap (λ q. text (digits_of 11 q b ++ 0 ∷ [])) l ∙ (text-digits_of 11 k b (omega arith)).0 in
    ap (λ ds. parse_octets o idx 0 (ds ++ rest)) shown
    ∙ parse_octets-digits_of o idx 11 k 0 b rest (omega arith) lt (omega arith)
    ∙ ap (λ c. parse_octets o idx c rest) (omega arith)

AllBytes : List ℕ → Type 0
AllBytes [] = Unit {0}
AllBytes (b ∷ bs) = (b < 256) × AllBytes bs

-- What follows the first byte of an address.
abbrev tail : List ℕ → List ℕ
tail [] = 0 ∷ []
tail (b ∷ bs) = dot ∷ (octet b ++ tail bs)

write_octets-tail :
    (bs out : List ℕ) (n : ℕ)
    → AllBytes bs
    → length out + 4 * length bs < n
    → write_octets false bs out n ≡ some (out ++ tail bs)
unfolding write_octets AllBytes
write_octets-tail [] out n all h =
    let room : ltb (length out) n ≡ true = ground arith in rw room refl
write_octets-tail (b ∷ bs) out n (lt, all) h =
    let small = length-octet b lt in
    let dotted = out ++ dot ∷ [] in
    let size = length-append out (dot ∷ []) in
    let size' = length-append dotted (octet b) in
    let room : ltb (length out + 1) n ≡ true = ground arith in
    let fits : leb n (length dotted + length (octet b)) ≡ false = ground arith in
    rw room (
      rw fits (
        write_octets-tail bs (dotted ++ octet b) n all (omega arith)
        ∙ ap some (
            append_assoc dotted (octet b) (tail bs)
            ∙ append_assoc out (dot ∷ []) (octet b ++ tail bs))))

parse_octets-dot :
    (o : List ℕ) (idx cur : ℕ) (cs : List ℕ)
    → idx < 3
    → parse_octets o idx cur (dot ∷ cs) ≡ parse_octets (set o idx cur) (idx + 1) 0 cs
unfolding parse_octets
parse_octets-dot o idx cur cs h = let inside : leb 3 idx ≡ false = ground arith in rw inside refl

-- One byte and the dot behind it.
octet-dot-read :
    (o : List ℕ) (idx b : ℕ) (rest : List ℕ)
    → idx < 3
    → b < 256
    → parse_octets o idx 0 (octet b ++ dot ∷ rest) ≡ parse_octets (set o idx b) (idx + 1) 0 rest
octet-dot-read o idx b rest hi hb =
    octet-read o idx b (dot ∷ rest) hb ∙ parse_octets-dot o idx b rest hi

parse_octets-end :
    (a b c d : ℕ)
    → parse_octets (a ∷ b ∷ c ∷ 0 ∷ []) 3 d (0 ∷ []) ≡ some (to_ip4 (a ∷ b ∷ c ∷ d ∷ []))
unfolding parse_octets
parse_octets-end a b c d = refl

-- In a buffer of 16 bytes or more, ip4_to_string writes every address, and string_to_ip4 reads
-- it back.
pub string_to_ip4-ip4_to_string :
    (ip : Ip4) (n : ℕ)
    → IsAddress ip
    → 16 ≤ n
    → (s : List ℕ) × (ip4_to_string ip n ≡ some s) × (string_to_ip4 s ≡ some ip)
unfolding ip4_to_string string_to_ip4 write_octets AllBytes
string_to_ip4-ip4_to_string ip n (h0, h1, h2, h3) h =
    let small = length-octet ip.b0 h0 in
    let fits : leb n (0 + length (octet ip.b0)) ≡ false = ground arith in
    let others = ip.b1 ∷ ip.b2 ∷ ip.b3 ∷ [] in
    (
      octet ip.b0 ++ tail others,
      rw fits (write_octets-tail others (octet ip.b0) n (h1, (h2, (h3, tt))) (omega arith)),
      octet-dot-read (replicate 4 0) 0 ip.b0 _ (omega arith) h0
          ∙ octet-dot-read (ip.b0 ∷ 0 ∷ 0 ∷ 0 ∷ []) 1 ip.b1 _ (omega arith) h1
          ∙ octet-dot-read (ip.b0 ∷ ip.b1 ∷ 0 ∷ 0 ∷ []) 2 ip.b2 _ (omega arith) h2
          ∙ octet-read (ip.b0 ∷ ip.b1 ∷ ip.b2 ∷ 0 ∷ []) 3 ip.b3 (0 ∷ []) h3
          ∙ parse_octets-end ip.b0 ip.b1 ip.b2 ip.b3
          ∙ ap some (Ip4-eq (omega arith) (omega arith) (omega arith) (omega arith)),
    )
