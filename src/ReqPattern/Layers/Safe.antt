-- ===== src/ReqPattern/Layers/Safe.antt =====
-- The reads and the nesting of the `extract_ipport_from_*` functions (cpworker/src/req_pattern.c).
use cloud_probe.Prelude.{
  ℕ, zero, suc, ◌+◌, ◌*◌, ◌%◌, ◌≤◌, ◌<◌, ◌≡◌, refl, List, true, ◌&&◌, leb, ltb, ltb_false→le, ◌==◌,
  length, arith,
}
use cloud_probe.Prelude.Outcome.{
  Ensures, holds, turned_down, guarded, branches, binds, read-Ensures, read16-Ensures,
  read_bytes-Ensures, or_keep-Ensures, Ensures-weaken,
}
use cloud_probe.Split.Parse.{ethertype_ip, ethertype_ipv6, is_vlan_ethertype}
use cloud_probe.ReqPattern.Layers.{
  Extracted, Inner, skip_tags, extract_tcp, extract_ether, extract_ipv4, extract_ipv6, extract_l4,
  extract_udp, extract_maybe_vxlan,
}

unfoldable pub HasIp : Extracted → Type 0
HasIp e = e.has_ip ≡ true

module _ (pkt_data : List ℕ) (caplen : ℕ) (inside : caplen ≤ length pkt_data) where
  skip_tags-Ensures :
      (f eth_type offset : ℕ)
      → offset ≤ caplen
      → caplen < f + offset
      → Ensures (λ (i : Inner). offset ≤ i.offset) (skip_tags f pkt_data caplen eth_type offset)
  unfolding skip_tags
  skip_tags-Ensures zero eth_type offset high fuel = absurd (omega arith)
  skip_tags-Ensures (suc f) eth_type offset high fuel =
      branches (is_vlan_ethertype eth_type)
        (λ _. guarded (ltb caplen (offset + 4)) λ g.
          let g = ltb_false→le caplen (offset + 4) g in
          binds (read16-Ensures pkt_data (offset + 2) (omega arith)) λ inner _.
            Ensures-weaken (λ i h. omega arith)
              (skip_tags-Ensures f inner (offset + 4) g (omega arith)))
        λ _. holds (omega arith)

  extract_tcp-Ensures :
      (offset : ℕ) (e : Extracted) → HasIp e → Ensures HasIp (extract_tcp pkt_data caplen offset e)
  unfolding extract_tcp HasIp
  extract_tcp-Ensures offset e h = guarded (ltb caplen (offset + 20)) λ g.
      let g = ltb_false→le caplen (offset + 20) g in
      binds (read16-Ensures pkt_data offset (omega arith))
        λ sport _. binds (read16-Ensures pkt_data (offset + 2) (omega arith)) λ dport _. holds h

  mutual
    unfolding extract_ether extract_ipv4 extract_ipv6 extract_l4 extract_udp extract_maybe_vxlan
        HasIp

    pub extract_ether-Ensures :
        (f offset : ℕ) (e : Extracted)
        → 5 ≤ f
        → caplen + 5 ≤ f + offset
        → Ensures HasIp (extract_ether f pkt_data caplen offset e)
    extract_ether-Ensures zero offset e some fuel = absurd (omega arith)
    extract_ether-Ensures (suc f) offset e some fuel = guarded (ltb caplen (offset + 14)) λ g.
        let g = ltb_false→le caplen (offset + 14) g in
        binds (read16-Ensures pkt_data (offset + 12) (omega arith)) λ eth_type _.
          binds (skip_tags-Ensures (caplen + 1) eth_type (offset + 14) g (omega arith)) λ inner on.
            branches (inner.eth_type == ethertype_ip)
              (λ _. extract_ipv4-Ensures f inner.offset e (omega arith) (omega arith))
              λ _.
                branches (inner.eth_type == ethertype_ipv6)
                  (λ _. extract_ipv6-Ensures f inner.offset e (omega arith) (omega arith))
                  λ _. turned_down

    extract_ipv4-Ensures :
        (f offset : ℕ) (e : Extracted)
        → 4 ≤ f
        → caplen + 18 ≤ f + offset
        → Ensures HasIp (extract_ipv4 f pkt_data caplen offset e)
    extract_ipv4-Ensures zero offset e some fuel = absurd (omega arith)
    extract_ipv4-Ensures (suc f) offset e some fuel = guarded (ltb caplen (offset + 20)) λ g.
        let g = ltb_false→le caplen (offset + 20) g in
        binds (read-Ensures pkt_data offset (omega arith)) λ first _.
          binds (read_bytes-Ensures pkt_data (offset + 12) 4 (omega arith)) λ saddr _.
            binds (read_bytes-Ensures pkt_data (offset + 16) 4 (omega arith)) λ daddr _.
              binds (read-Ensures pkt_data (offset + 9) (omega arith)) λ protocol _.
                extract_l4-Ensures f protocol (offset + first % 16 * 4) _ refl (omega arith)
                  (omega arith)

    extract_ipv6-Ensures :
        (f offset : ℕ) (e : Extracted)
        → 4 ≤ f
        → caplen + 18 ≤ f + offset
        → Ensures HasIp (extract_ipv6 f pkt_data caplen offset e)
    extract_ipv6-Ensures zero offset e some fuel = absurd (omega arith)
    extract_ipv6-Ensures (suc f) offset e some fuel = guarded (ltb caplen (offset + 40)) λ g.
        let g = ltb_false→le caplen (offset + 40) g in
        binds (read_bytes-Ensures pkt_data (offset + 8) 16 (omega arith)) λ saddr _.
          binds (read_bytes-Ensures pkt_data (offset + 24) 16 (omega arith)) λ daddr _.
            binds (read-Ensures pkt_data (offset + 6) (omega arith)) λ nexthdr _.
              extract_l4-Ensures f nexthdr (offset + 40) _ refl (omega arith) (omega arith)

    extract_l4-Ensures :
        (f protocol offset : ℕ) (e : Extracted)
        → HasIp e
        → 3 ≤ f
        → caplen + 17 ≤ f + offset
        → Ensures HasIp (extract_l4 f pkt_data caplen protocol offset e)
    extract_l4-Ensures zero protocol offset e h some fuel = absurd (omega arith)
    extract_l4-Ensures (suc f) protocol offset e h some fuel =
        branches (protocol == 6) (λ _. or_keep-Ensures e h (extract_tcp-Ensures offset e h))
          λ _.
            branches (protocol == 17)
              (λ _.
                or_keep-Ensures e h (extract_udp-Ensures f offset e h (omega arith) (omega arith)))
              λ _. holds h

    extract_udp-Ensures :
        (f offset : ℕ) (e : Extracted)
        → HasIp e
        → 2 ≤ f
        → caplen + 16 ≤ f + offset
        → Ensures HasIp (extract_udp f pkt_data caplen offset e)
    extract_udp-Ensures zero offset e h some fuel = absurd (omega arith)
    extract_udp-Ensures (suc f) offset e h some fuel = guarded (ltb caplen (offset + 8)) λ g.
        let g = ltb_false→le caplen (offset + 8) g in
        binds (read16-Ensures pkt_data offset (omega arith)) λ sport _.
          binds (read16-Ensures pkt_data (offset + 2) (omega arith)) λ dport _.
            branches (leb 4700 dport && ltb dport 4800)
              (λ _.
                or_keep-Ensures _ h
                  (extract_maybe_vxlan-Ensures f (offset + 8) _ h (omega arith) (omega arith)))
              λ _. holds h

    extract_maybe_vxlan-Ensures :
        (f offset : ℕ) (e : Extracted)
        → HasIp e
        → 1 ≤ f
        → caplen + 23 ≤ f + offset
        → Ensures HasIp (extract_maybe_vxlan f pkt_data caplen offset e)
    extract_maybe_vxlan-Ensures zero offset e h some fuel = absurd (omega arith)
    extract_maybe_vxlan-Ensures (suc f) offset e h some fuel =
        guarded (ltb caplen (offset + 8 + 14 + 20)) λ g.
          let g = ltb_false→le caplen (offset + 8 + 14 + 20) g in
          extract_ether-Ensures f (offset + 8) e (omega arith) (omega arith)
