-- ===== src/Split/Parse.antt =====
-- `parse_packet` of cpworker/src/packet_split.c. The pointers of `packet_parse_result_t` are the
-- offsets beside them, added to `pkt_data`, so only the offsets are kept. Each read of the packet is
-- checked against the bytes that are there.
pub mod Safe
use cloud_probe.Prelude.{
  ℕ, zero, suc, ◌+◌, ◌-◌, ◌*◌, ◌/◌, ◌%◌, List, Bool, true, false, ◌||◌, not, ltb, ◌==◌,
  if◌then◌else◌, u16,
}
use cloud_probe.Prelude.Outcome.{
  Outcome, ok, rejected, out_of_fuel, ◌>>=◌, ◌>>◌, reject_if, read, read16,
}

-- `packet_parse_result_t`
pub record ParseResult : Type 0 where
  pub is_ipv4 : Bool
  pub is_ipv6 : Bool
  pub is_tcp : Bool
  pub is_udp : Bool
  pub has_vlan : Bool
  pub eth_offset : ℕ
  pub vlan_offset : ℕ
  pub ip_offset : ℕ
  pub l4_offset : ℕ
  pub payload_offset : ℕ
  pub ip_hdr_len : ℕ
  pub ipv6_ext_len : ℕ
  pub l4_hdr_len : ℕ
  pub payload_len : ℕ

-- What `memset` leaves.
abbrev pub cleared : ParseResult
cleared = record {
  is_ipv4 = false;
  is_ipv6 = false;
  is_tcp = false;
  is_udp = false;
  has_vlan = false;
  eth_offset = 0;
  vlan_offset = 0;
  ip_offset = 0;
  l4_offset = 0;
  payload_offset = 0;
  ip_hdr_len = 0;
  ipv6_ext_len = 0;
  l4_hdr_len = 0;
  payload_len = 0;
}

abbrev pub ethertype_ip : ℕ
ethertype_ip = 0x0800

abbrev pub ethertype_ipv6 : ℕ
ethertype_ipv6 = 0x86dd

-- ETHERTYPE_VLAN, ETHERTYPE_DOT1AD and the two legacy types.
unfoldable pub is_vlan_ethertype : ℕ → Bool
is_vlan_ethertype t = t == 0x8100 || t == 0x88a8 || t == 0x9100 || t == 0x9200

-- `while` over the VLAN tags, with the frame's type and the offset behind the tags so far.
pub record Tags : Type 0 where
  pub result : ParseResult
  pub ether_type : ℕ
  pub offset : ℕ

pub note_vlan : ParseResult → ℕ → ParseResult
note_vlan r offset = if r.has_vlan then r else record r { has_vlan = true; vlan_offset = offset }

pub skip_vlan : ℕ → List ℕ → ℕ → ParseResult → ℕ → ℕ → Outcome Tags
skip_vlan zero pkt_data caplen r ether_type offset = out_of_fuel
skip_vlan (suc f) pkt_data caplen r ether_type offset =
    let next = do
      reject_if (ltb caplen (offset + 4))
      inner ← read16 pkt_data (offset + 2)
      skip_vlan f pkt_data caplen (note_vlan r offset) inner (u16 (offset + 4))
    in if is_vlan_ethertype ether_type
      then next
      else ok (record { result = r; ether_type = ether_type; offset = offset })

-- The transport header at an offset: which, its length, and the offset behind it.
pub record L4 : Type 0 where
  pub is_tcp : Bool
  pub hdr_len : ℕ
  pub payload_offset : ℕ

-- The code for TCP and UDP, which `parse_packet` has once for IPv4 and once more for IPv6.
pub parse_l4 : List ℕ → ℕ → ℕ → ℕ → Outcome L4
parse_l4 pkt_data caplen protocol offset =
    let tcp = do
      reject_if (ltb caplen (offset + 20))
      offx2 ← read pkt_data (offset + 12)
      reject_if (ltb (offx2 / 16) 5)
      reject_if (ltb caplen (offset + offx2 / 16 * 4))
      ok (record {
        is_tcp = true;
        hdr_len = offx2 / 16 * 4;
        payload_offset = u16 (offset + offx2 / 16 * 4);
      })
    in let udp = do
      reject_if (ltb caplen (offset + 8))
      ok (record { is_tcp = false; hdr_len = 8; payload_offset = u16 (offset + 8) })
      in if protocol == 6 then tcp else if protocol == 17 then udp else rejected

-- The mask `IPV4_FLAG_MF | IPV4_OFFSET_MASK` is the low 14 bits.
pub parse_ipv4 : List ℕ → ℕ → ParseResult → ℕ → Outcome ParseResult
parse_ipv4 pkt_data caplen r offset = do
  reject_if (ltb caplen (offset + 20))
  first ← read pkt_data offset
  reject_if (ltb (first % 16) 5)
  let hdr_len = first % 16 * 4
  reject_if (ltb caplen (offset + hdr_len))
  frag_off ← read16 pkt_data (offset + 6)
  reject_if (not (frag_off % 0x4000 == 0))
  protocol ← read pkt_data (offset + 9)
  l4 ← parse_l4 pkt_data caplen protocol (u16 (offset + hdr_len))
  tot_len ← read16 pkt_data (offset + 2)
  reject_if (ltb tot_len (u16 (hdr_len + l4.hdr_len)))
  ok (record r {
    is_ipv4 = true;
    is_tcp = l4.is_tcp;
    is_udp = not l4.is_tcp;
    ip_hdr_len = hdr_len;
    l4_offset = u16 (offset + hdr_len);
    l4_hdr_len = l4.hdr_len;
    payload_offset = l4.payload_offset;
    payload_len = tot_len - u16 (hdr_len + l4.hdr_len);
  })

-- The extension headers that are skipped: the next header, their length, the offset behind them.
pub record Extensions : Type 0 where
  pub nexthdr : ℕ
  pub ext_len : ℕ
  pub offset : ℕ

-- IPPROTO_HOPOPTS, IPPROTO_ROUTING, IPPROTO_DSTOPTS.
unfoldable pub is_extension : ℕ → Bool
is_extension nexthdr = nexthdr == 0 || nexthdr == 43 || nexthdr == 60

pub skip_extensions : ℕ → List ℕ → ℕ → ℕ → ℕ → ℕ → Outcome Extensions
skip_extensions zero pkt_data caplen nexthdr ext_len offset = out_of_fuel
skip_extensions (suc f) pkt_data caplen nexthdr ext_len offset =
    let next = do
      reject_if (ltb caplen (offset + 2))
      ext_nexthdr ← read pkt_data offset
      len ← read pkt_data (offset + 1)
      reject_if (ltb caplen (offset + (len + 1) * 8))
      skip_extensions f pkt_data caplen ext_nexthdr (u16 (ext_len + (len + 1) * 8))
          (u16 (offset + (len + 1) * 8))
    in if is_extension nexthdr
      then next
      else ok (record { nexthdr = nexthdr; ext_len = ext_len; offset = offset })

pub parse_ipv6 : List ℕ → ℕ → ParseResult → ℕ → Outcome ParseResult
parse_ipv6 pkt_data caplen r offset = do
  reject_if (ltb caplen (offset + 40))
  first ← read pkt_data (offset + 6)
  ext ← skip_extensions (caplen + 1) pkt_data caplen first 0 (u16 (offset + 40))
  reject_if (ext.nexthdr == 44)
  l4 ← parse_l4 pkt_data caplen ext.nexthdr ext.offset
  payload ← read16 pkt_data (offset + 4)
  reject_if (ltb payload (ext.ext_len + l4.hdr_len))
  ok (record r {
    is_ipv6 = true;
    is_tcp = l4.is_tcp;
    is_udp = not l4.is_tcp;
    ip_hdr_len = 40;
    ipv6_ext_len = ext.ext_len;
    l4_offset = ext.offset;
    l4_hdr_len = l4.hdr_len;
    payload_offset = l4.payload_offset;
    payload_len = payload - ext.ext_len - l4.hdr_len;
  })

-- The check of the lengths against the captured bytes, at the end.
pub clamp_payload : ℕ → ParseResult → Outcome ParseResult
clamp_payload caplen r =
    let max_payload = u16 (caplen - r.payload_offset) in
    do
      reject_if (ltb caplen r.payload_offset)
      ok (record r {
        payload_len = if ltb max_payload r.payload_len then max_payload else r.payload_len;
      })

pub parse_packet : List ℕ → ℕ → Outcome ParseResult
parse_packet pkt_data caplen = do
  reject_if (ltb caplen 14)
  ether_type ← read16 pkt_data 12
  tags ← skip_vlan (caplen + 1) pkt_data caplen cleared ether_type 14
  let r = record (tags.result) { ip_offset = tags.offset }
  parsed ←
      if tags.ether_type == ethertype_ip
      then parse_ipv4 pkt_data caplen r tags.offset
      else if tags.ether_type == ethertype_ipv6
      then parse_ipv6 pkt_data caplen r tags.offset
      else rejected
  clamp_payload caplen parsed
