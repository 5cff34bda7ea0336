-- ===== src/Split/Fragment.antt =====
-- `calculate_fragment_count` and `build_fragment` of cpworker/src/packet_split.c. The frame that the
-- code writes to `output_buf` is the value; none is -1. A `max_payload_size` below 0 does what 0 does.
pub mod Payload
pub mod Fields
pub mod Header
use cloud_probe.Prelude.{
  ℕ, ◌+◌, ◌-◌, ◌*◌, ◌/◌, List, ◌++◌, drop, Bool, Option, none, some, leb, ltb, ◌==◌, ◌||◌,
  if◌then◌else◌, u16, u32, be32_at, put_be16, put_be32, put_le16, slice,
}
use cloud_probe.Checksum.{
  calculate_ip_checksum, calculate_tcp_checksum, calculate_udp_checksum, udp_checksum_for_wire,
}
use cloud_probe.Split.Parse.{ParseResult}

pub calculate_fragment_count : ParseResult → ℕ → ℕ
calculate_fragment_count r max_payload_size =
    if max_payload_size == 0 || leb r.payload_len max_payload_size
    then 1
    else (r.payload_len + max_payload_size - 1) / max_payload_size

-- The field at an offset is cleared and then set to a checksum of the whole, where that is asked for.
unfoldable pub renew_check : Bool → List ℕ → ℕ → (List ℕ → ℕ) → List ℕ
renew_check recalculate buf at checksum =
    let zeroed = put_le16 buf at 0 in
    if recalculate then put_le16 zeroed at (checksum zeroed) else buf

-- The two arguments that the checksum functions take the IP header by.
pub ipv4_header : ParseResult → List ℕ → Option (List ℕ)
ipv4_header r buf = if r.is_ipv4 then some (drop r.ip_offset buf) else none

pub ipv6_header : ParseResult → List ℕ → Option (List ℕ)
ipv6_header r buf = if r.is_ipv4 then none else some (drop r.ip_offset buf)

unfoldable pub update_ip : ParseResult → Bool → ℕ → List ℕ → List ℕ
update_ip r recalculate size buf =
    if r.is_ipv4
    then renew_check recalculate
        (put_be16 buf (r.ip_offset + 2) (u16 (r.ip_hdr_len + r.l4_hdr_len + size)))
        (r.ip_offset + 10) (λ b. calculate_ip_checksum (drop r.ip_offset b))
    else if r.is_ipv6
    then put_be16 buf (r.ip_offset + 4) (u16 (r.ipv6_ext_len + r.l4_hdr_len + size))
    else buf

-- `tcp_len` and `udp_len`.
abbrev pub l4_len : ParseResult → ℕ → ℕ
l4_len r size = u16 (r.l4_hdr_len + size)

-- Without an IP header the cleared field stays.
pub tcp_check : ParseResult → ℕ → List ℕ → ℕ
tcp_check r size b =
    if r.is_ipv4 || r.is_ipv6
    then calculate_tcp_checksum (ipv4_header r b) (ipv6_header r b) (drop r.l4_offset b)
        (l4_len r size)
    else 0

pub udp_check : ParseResult → ℕ → List ℕ → ℕ
udp_check r size b =
    if r.is_ipv4 || r.is_ipv6
    then udp_checksum_for_wire (
        calculate_udp_checksum (ipv4_header r b) (ipv6_header r b) (drop r.l4_offset b)
          (l4_len r size))
    else 0

unfoldable pub update_l4 : ParseResult → Bool → ℕ → ℕ → List ℕ → List ℕ
update_l4 r recalculate payload_offset size buf =
    if r.is_tcp
    then renew_check (recalculate)
        (put_be32 buf (r.l4_offset + 4) (u32 (be32_at buf (r.l4_offset + 4) + payload_offset)))
        (r.l4_offset + 16) (tcp_check r size)
    else if r.is_udp
    then renew_check (recalculate) (put_be16 buf (r.l4_offset + 4) (l4_len r size))
        (r.l4_offset + 6) (udp_check r size)
    else buf

-- `frag_payload_size`
unfoldable pub frag_payload_size : ParseResult → ℕ → ℕ → ℕ
frag_payload_size r index max_payload_size =
    let remaining = r.payload_len - index * max_payload_size in
    if ltb max_payload_size remaining then max_payload_size else remaining

-- The two `memcpy`.
unfoldable pub copied : ParseResult → List ℕ → ℕ → ℕ → List ℕ
copied r pkt_data payload_offset size =
    slice pkt_data 0 r.payload_offset ++ slice pkt_data (r.payload_offset + payload_offset) size

unfoldable pub build_fragment : ParseResult → List ℕ → ℕ → ℕ → Bool → Option (List ℕ)
build_fragment r pkt_data index max_payload_size recalculate =
    let payload_offset = index * max_payload_size in
    let size = frag_payload_size r index max_payload_size in
    if size == 0
    then none
    else some (
        update_l4 r recalculate payload_offset size
          (update_ip r recalculate size (copied r pkt_data payload_offset size)))
