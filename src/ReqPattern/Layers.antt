-- ===== src/ReqPattern/Layers.antt =====
-- The `extract_ipport_from_*` functions of cpworker/src/req_pattern.c: addresses and ports of a packet,
-- of the innermost one where it is VXLAN. `return 0` is `rejected`, after which nothing has changed.
pub mod Safe
use cloud_probe.Prelude.{
  ℕ, zero, suc, ◌+◌, ◌*◌, ◌%◌, List, Bool, true, false, ◌&&◌, leb, ltb, ◌==◌, if◌then◌else◌,
}
use cloud_probe.Prelude.Outcome.{
  Outcome, ok, rejected, out_of_fuel, ◌>>=◌, ◌>>◌, reject_if, read, read16, read_bytes, or_keep,
}
use cloud_probe.Split.Parse.{ethertype_ip, ethertype_ipv6, is_vlan_ethertype}
use cloud_probe.ReqPattern.Parser.{IpAddr, ipv4, ipv6}

-- `*sip`, `*sport`, `*dip`, `*dport` and the flags IPPORT_FLAGS_IP and IPPORT_FLAGS_PORT.
pub record Extracted : Type 0 where
  pub has_ip : Bool
  pub has_port : Bool
  pub sip : IpAddr
  pub sport : ℕ
  pub dip : IpAddr
  pub dport : ℕ

-- The Ethernet type behind the tags, and where its data begin.
pub record Inner : Type 0 where
  pub eth_type : ℕ
  pub offset : ℕ

pub skip_tags : ℕ → List ℕ → ℕ → ℕ → ℕ → Outcome Inner
skip_tags zero pkt_data caplen eth_type offset = out_of_fuel
skip_tags (suc f) pkt_data caplen eth_type offset =
    let next = do
      reject_if (ltb caplen (offset + 4))
      inner ← read16 pkt_data (offset + 2)
      skip_tags f pkt_data caplen inner (offset + 4)
    in if is_vlan_ethertype eth_type
      then next
      else ok (record { eth_type = eth_type; offset = offset })

pub extract_tcp : List ℕ → ℕ → ℕ → Extracted → Outcome Extracted
extract_tcp pkt_data caplen offset e = do
  reject_if (ltb caplen (offset + 20))
  sport ← read16 pkt_data offset
  dport ← read16 pkt_data (offset + 2)
  ok (record e { sport = sport; dport = dport; has_port = true })

-- The addresses of an IP header, with no ports yet.
abbrev pub with_addresses : Extracted → IpAddr → IpAddr → Extracted
with_addresses e sip dip = record e { sip = sip; dip = dip; sport = 0; dport = 0; has_ip = true }

mutual
  pub extract_ether : ℕ → List ℕ → ℕ → ℕ → Extracted → Outcome Extracted
  extract_ether zero pkt_data caplen offset e = out_of_fuel
  extract_ether (suc f) pkt_data caplen offset e = do
    reject_if (ltb caplen (offset + 14))
    eth_type ← read16 pkt_data (offset + 12)
    inner ← skip_tags (caplen + 1) pkt_data caplen eth_type (offset + 14)
    if inner.eth_type == ethertype_ip
        then extract_ipv4 f pkt_data caplen inner.offset e
        else if inner.eth_type == ethertype_ipv6
        then extract_ipv6 f pkt_data caplen inner.offset e
        else rejected

  pub extract_ipv4 : ℕ → List ℕ → ℕ → ℕ → Extracted → Outcome Extracted
  extract_ipv4 zero pkt_data caplen offset e = out_of_fuel
  extract_ipv4 (suc f) pkt_data caplen offset e = do
    reject_if (ltb caplen (offset + 20))
    first ← read pkt_data offset
    saddr ← read_bytes pkt_data (offset + 12) 4
    daddr ← read_bytes pkt_data (offset + 16) 4
    protocol ← read pkt_data (offset + 9)
    extract_l4 f pkt_data caplen protocol (offset + first % 16 * 4)
        (with_addresses e (ipv4 saddr) (ipv4 daddr))

  pub extract_ipv6 : ℕ → List ℕ → ℕ → ℕ → Extracted → Outcome Extracted
  extract_ipv6 zero pkt_data caplen offset e = out_of_fuel
  extract_ipv6 (suc f) pkt_data caplen offset e = do
    reject_if (ltb caplen (offset + 40))
    saddr ← read_bytes pkt_data (offset + 8) 16
    daddr ← read_bytes pkt_data (offset + 24) 16
    nexthdr ← read pkt_data (offset + 6)
    extract_l4 f pkt_data caplen nexthdr (offset + 40) (with_addresses e (ipv6 saddr) (ipv6 daddr))

  -- The end of both: `flags |=` what the transport layer gives.
  pub extract_l4 : ℕ → List ℕ → ℕ → ℕ → ℕ → Extracted → Outcome Extracted
  extract_l4 zero pkt_data caplen protocol offset e = out_of_fuel
  extract_l4 (suc f) pkt_data caplen protocol offset e =
      let udp = or_keep e (extract_udp f pkt_data caplen offset e) in
      if protocol == 6
      then or_keep e (extract_tcp pkt_data caplen offset e)
      else if protocol == 17
      then udp
      else ok e

  pub extract_udp : ℕ → List ℕ → ℕ → ℕ → Extracted → Outcome Extracted
  extract_udp zero pkt_data caplen offset e = out_of_fuel
  extract_udp (suc f) pkt_data caplen offset e = do
    reject_if (ltb caplen (offset + 8))
    sport ← read16 pkt_data offset
    dport ← read16 pkt_data (offset + 2)
    let e' = record e { sport = sport; dport = dport; has_port = true }
    let nested = or_keep e' (extract_maybe_vxlan f pkt_data caplen (offset + 8) e')
    if leb 4700 dport && ltb dport 4800 then nested else ok e'

  pub extract_maybe_vxlan : ℕ → List ℕ → ℕ → ℕ → Extracted → Outcome Extracted
  extract_maybe_vxlan zero pkt_data caplen offset e = out_of_fuel
  extract_maybe_vxlan (suc f) pkt_data caplen offset e = do
    reject_if (ltb caplen (offset + 8 + 14 + 20))
    extract_ether f pkt_data caplen (offset + 8) e
