-- ===== src/Checksum.antt =====
-- cpworker/src/packet_split.c, the checksum core (RFC 1071) and the checksums of IPv4, TCP and UDP,
-- on a little-endian host with SSE2, as x86_64 is. A pointer to a header is the list of the bytes
-- from there on.
pub mod WordSum
pub mod Sum
pub mod Fold
pub mod Verify
mod Examples
use cloud_probe.Prelude.{
  ℕ, zero, suc, ◌+◌, ◌-◌, ◌*◌, ◌/◌, ◌%◌, List, Option, none, some, leb, ltb, ◌==◌, if◌then◌else◌,
  drop, byte_at, u16, u32, slice,
}

-- `u16[i]` for a `const uint16_t *`.
abbrev pub u16_at : List ℕ → ℕ → ℕ
u16_at p i = byte_at p (2 * i) + 256 * byte_at p (2 * i + 1)

-- `htons`: the two bytes change places.
abbrev pub htons : ℕ → ℕ
htons v = v % 256 * 256 + v / 256 % 256

pub cksum_fold : ℕ → ℕ
cksum_fold sum =
    let once = u32 (sum / 65536 + sum % 65536) in u16 (u32 (once / 65536 + once % 65536))

-- The four 32-bit lanes of the vector `vsum`.
pub record Lanes : Type 0 where
  pub l0 : ℕ
  pub l1 : ℕ
  pub l2 : ℕ
  pub l3 : ℕ

-- One round of the SSE2 loop: 16 words, unpacked to 32 bits, four to a vector.
pub vector_step : List ℕ → Lanes → Lanes
vector_step p v = record {
  l0 = u32 (u32 (u32 (u32 (v.l0 + u16_at p 0) + u16_at p 4) + u16_at p 8) + u16_at p 12);
  l1 = u32 (u32 (u32 (u32 (v.l1 + u16_at p 1) + u16_at p 5) + u16_at p 9) + u16_at p 13);
  l2 = u32 (u32 (u32 (u32 (v.l2 + u16_at p 2) + u16_at p 6) + u16_at p 10) + u16_at p 14);
  l3 = u32 (u32 (u32 (u32 (v.l3 + u16_at p 3) + u16_at p 7) + u16_at p 11) + u16_at p 15);
}

-- The pointer, the length that is left and the sum.
pub record Walk {ℓ} (S : Type ℓ) : Type ℓ where
  pub at : List ℕ
  pub len : ℕ
  pub sum : S

-- `while (len >= 32)`. The first argument is fuel; the length is enough.
pub vector_loop : ℕ → List ℕ → ℕ → Lanes → Walk Lanes
vector_loop zero p len v = record { at = p; len = len; sum = v }
vector_loop (suc f) p len v =
    let rest = vector_loop f (drop 32 p) (len - 32) (vector_step p v) in
    if leb 32 len then rest else record { at = p; len = len; sum = v }

-- The horizontal reduction: two shuffles, two additions, and lane 0.
pub reduce : Lanes → ℕ
reduce v = u32 (u32 (v.l0 + v.l2) + u32 (v.l1 + v.l3))

pub add_four : List ℕ → ℕ → ℕ
add_four p sum = u32 (u32 (u32 (u32 (sum + u16_at p 0) + u16_at p 1) + u16_at p 2) + u16_at p 3)

pub add_eight : List ℕ → ℕ → ℕ
unfolding add_four
add_eight p sum =
    u32 (u32 (u32 (u32 (add_four p sum + u16_at p 4) + u16_at p 5) + u16_at p 6) + u16_at p 7)

-- `while (len >= 16)`
pub unrolled_loop : ℕ → List ℕ → ℕ → ℕ → Walk ℕ
unrolled_loop zero p len sum = record { at = p; len = len; sum = sum }
unrolled_loop (suc f) p len sum =
    let rest = unrolled_loop f (drop 16 p) (len - 16) (add_eight p sum) in
    if leb 16 len then rest else record { at = p; len = len; sum = sum }

-- `if (len >= 8)`
pub half_step : List ℕ → ℕ → ℕ → Walk ℕ
half_step p len sum =
    if leb 8 len
    then record { at = drop 8 p; len = len - 8; sum = add_four p sum }
    else record { at = p; len = len; sum = sum }

-- `while (len >= 2)`
pub word_loop : ℕ → List ℕ → ℕ → ℕ → Walk ℕ
word_loop zero p len sum = record { at = p; len = len; sum = sum }
word_loop (suc f) p len sum =
    let rest = word_loop f (drop 2 p) (len - 2) (u32 (sum + u16_at p 0)) in
    if leb 2 len then rest else record { at = p; len = len; sum = sum }

pub cksum_accumulate : List ℕ → ℕ → ℕ → ℕ
cksum_accumulate buf len initial_sum =
    let v = vector_loop len buf len (record { l0 = 0; l1 = 0; l2 = 0; l3 = 0 }) in
    let sum = if leb 32 len then u32 (initial_sum + reduce v.sum) else initial_sum in
    let w = unrolled_loop v.len v.at v.len sum in
    let x = half_step w.at w.len w.sum in
    let y = word_loop x.len x.at x.len x.sum in
    if ltb 0 y.len then u32 (y.sum + byte_at y.at 0) else y.sum

-- `~` on a 16-bit value.
pub cksum_finish : ℕ → ℕ
cksum_finish partial_sum = 65535 - cksum_fold partial_sum

-- The low half of the first byte.
abbrev pub ihl : List ℕ → ℕ
ihl ip_hdr = byte_at ip_hdr 0 % 16

pub calculate_ip_checksum : List ℕ → ℕ
calculate_ip_checksum ip_hdr =
    if ihl ip_hdr == 5
    then cksum_finish (u32 (u32 (add_eight ip_hdr 0 + u16_at ip_hdr 8) + u16_at ip_hdr 9))
    else cksum_finish (cksum_accumulate ip_hdr (ihl ip_hdr * 4) 0)

-- The words of an address, from a byte offset on.
abbrev words_at : List ℕ → ℕ → ℕ → ℕ
words_at p off zero = 0
words_at p off (suc n) = u16_at (drop off p) n + words_at p off n

-- The addends stay far below 2 ^ 32.
pub calculate_pseudo_header_sum : Option (List ℕ) → Option (List ℕ) → ℕ → ℕ → ℕ
calculate_pseudo_header_sum (some ip_hdr) ipv6_hdr protocol l4_len =
    u32 (words_at ip_hdr 12 2 + words_at ip_hdr 16 2 + htons protocol + htons l4_len)
calculate_pseudo_header_sum none (some ipv6_hdr) protocol l4_len =
    u32 (words_at ipv6_hdr 8 8 + words_at ipv6_hdr 24 8 + htons l4_len + htons protocol)
calculate_pseudo_header_sum none none protocol l4_len = 0

abbrev pub ipproto_tcp : ℕ
ipproto_tcp = 6

abbrev pub ipproto_udp : ℕ
ipproto_udp = 17

pub calculate_tcp_checksum : Option (List ℕ) → Option (List ℕ) → List ℕ → ℕ → ℕ
calculate_tcp_checksum ip_hdr ipv6_hdr tcp_hdr tcp_len = cksum_finish (
    cksum_accumulate tcp_hdr tcp_len
      (calculate_pseudo_header_sum ip_hdr ipv6_hdr ipproto_tcp tcp_len))

pub calculate_udp_checksum : Option (List ℕ) → Option (List ℕ) → List ℕ → ℕ → ℕ
calculate_udp_checksum ip_hdr ipv6_hdr udp_hdr udp_len = cksum_finish (
    cksum_accumulate udp_hdr udp_len
      (calculate_pseudo_header_sum ip_hdr ipv6_hdr ipproto_udp udp_len))

-- RFC 768: a computed checksum of zero is sent as all ones.
pub udp_checksum_for_wire : ℕ → ℕ
udp_checksum_for_wire check = if check == 0 then 0xffff else check
