-- ===== src/Split/Parse/Safe.antt =====
-- What the result of `parse_packet` (cpworker/src/packet_split.c) is held to, part by part.
use cloud_probe.Prelude.{
  ℕ, zero, suc, ◌+◌, ◌-◌, ◌*◌, ◌/◌, ◌%◌, ◌<◌, ◌≤◌, ◌≡◌, refl, List, false, not, ltb, ltb_false→le,
  ◌==◌, if◌then◌else◌, Bool-cases, inl, inr, length, u16, byte_at, be16_at, arith,
}
use cloud_probe.Prelude.Outcome.{
  Ensures, holds, turned_down, guarded, branches, binds, read-Ensures, read16-Ensures,
}
use cloud_probe.Split.Parse.{
  ParseResult, cleared, ethertype_ip, ethertype_ipv6, is_vlan_ethertype, Tags, note_vlan, skip_vlan,
  L4, parse_l4, parse_ipv4, Extensions, is_extension, skip_extensions, parse_ipv6, clamp_payload,
  parse_packet,
}

-- Nothing is said of an IP header yet.
IsBare : ParseResult → Type 0
IsBare r = (r.is_ipv4 ≡ false) × (r.is_ipv6 ≡ false) × (r.ipv6_ext_len ≡ 0)

-- The headers follow one another, each at least as long as its fixed part, and the payload lies
-- within the captured bytes.
unfoldable pub IsLaidOut : ℕ → ParseResult → Type 0
IsLaidOut caplen r =
    (14 ≤ r.ip_offset)
    × ((if r.is_ipv4 then 20 else 40) ≤ r.ip_hdr_len)
    × (r.l4_offset ≡ r.ip_offset + r.ip_hdr_len + r.ipv6_ext_len)
    × ((if r.is_tcp then 20 else 8) ≤ r.l4_hdr_len)
    × (r.payload_offset ≡ r.l4_offset + r.l4_hdr_len)
    × (r.payload_offset + r.payload_len ≤ caplen)

-- One network and one transport protocol, and the payload within what the IP header's length field
-- says of it. IPv4 has no extension headers, the IPv6 header a fixed length.
unfoldable pub IsLabelled : List ℕ → ParseResult → Type 0
IsLabelled pkt_data r =
    (r.is_ipv6 ≡ not r.is_ipv4)
    × (r.is_udp ≡ not r.is_tcp)
    × (if r.is_ipv4
        then (r.ip_hdr_len ≡ byte_at pkt_data r.ip_offset % 16 * 4)
          × (r.ipv6_ext_len ≡ 0)
          × (r.ip_hdr_len + r.l4_hdr_len + r.payload_len ≤ be16_at pkt_data (r.ip_offset + 2))
        else (r.ip_hdr_len ≡ 40)
          × (r.ipv6_ext_len + r.l4_hdr_len + r.payload_len ≤ be16_at pkt_data (r.ip_offset + 4)))

-- What holds before the last check, of which the payload's end is the matter.
IsParsed : List ℕ → ℕ → ParseResult → Type 0
IsParsed pkt_data caplen r =
    (14 ≤ r.ip_offset)
    × ((if r.is_ipv4 then 20 else 40) ≤ r.ip_hdr_len)
    × (r.l4_offset ≡ r.ip_offset + r.ip_hdr_len + r.ipv6_ext_len)
    × ((if r.is_tcp then 20 else 8) ≤ r.l4_hdr_len)
    × (r.payload_offset ≡ r.l4_offset + r.l4_hdr_len)
    × (r.payload_offset ≤ caplen)
    × IsLabelled pkt_data r

clamped_le : (m p : ℕ) → ((if ltb m p then m else p) ≤ m) × ((if ltb m p then m else p) ≤ p)
clamped_le m p = ground arith

note_vlan-IsBare : (r : ParseResult) (offset : ℕ) → IsBare r → IsBare (note_vlan r offset)
unfolding note_vlan IsBare
note_vlan-IsBare r offset h = elim (Bool-cases r.has_vlan) [ inl e ↦ rw e h | inr e ↦ rw e h ]

module _ (pkt_data : List ℕ) (caplen : ℕ) (inside : caplen ≤ length pkt_data)
    (small : caplen ≤ 65535) where
  skip_vlan-Ensures :
      (f : ℕ) (r : ParseResult) (ether_type offset : ℕ)
      → IsBare r
      → 14 ≤ offset
      → offset ≤ caplen
      → caplen < f + offset
      → Ensures
          (λ (t : Tags). IsBare t.result × (14 ≤ t.offset) × (t.offset ≤ caplen))
          (skip_vlan f pkt_data caplen r ether_type offset)
  unfolding skip_vlan
  skip_vlan-Ensures zero r ether_type offset b low high fuel = absurd (omega arith)
  skip_vlan-Ensures (suc f) r ether_type offset b low high fuel =
      branches (is_vlan_ethertype ether_type)
        (λ _. guarded (ltb caplen (offset + 4)) λ g.
          let fits : offset + 4 ≤ caplen = ltb_false→le caplen (offset + 4) g in
          binds (read16-Ensures pkt_data (offset + 2) (omega arith)) λ inner e.
            skip_vlan-Ensures f (note_vlan r offset) inner (u16 (offset + 4))
              (note_vlan-IsBare r offset b) (omega arith) (omega arith) (omega arith))
        λ _. holds (b, low, high)

  parse_l4-Ensures :
      (protocol offset : ℕ)
      → offset ≤ caplen
      → Ensures
          (λ (l : L4).
            ((if l.is_tcp then 20 else 8) ≤ l.hdr_len)
            × (l.payload_offset ≡ offset + l.hdr_len)
            × (l.payload_offset ≤ caplen))
          (parse_l4 pkt_data caplen protocol offset)
  unfolding parse_l4
  parse_l4-Ensures protocol offset high =
      branches (protocol == 6)
        (λ _. guarded (ltb caplen (offset + 20)) λ g.
          let fits : offset + 20 ≤ caplen = ltb_false→le caplen (offset + 20) g in
          binds (read-Ensures pkt_data (offset + 12) (omega arith)) λ offx2 e.
            guarded (ltb (offx2 / 16) 5) λ g5. guarded (ltb caplen (offset + offx2 / 16 * 4)) λ g6.
              let low = ltb_false→le (offx2 / 16) 5 g5 in
              let high' = ltb_false→le caplen (offset + offx2 / 16 * 4) g6 in
              holds (omega arith, omega arith, omega arith))
        λ _.
          branches (protocol == 17)
            (λ _. guarded (ltb caplen (offset + 8)) λ g.
              let high' = ltb_false→le caplen (offset + 8) g in
              holds (omega arith, omega arith, omega arith))
            λ _. turned_down

  skip_extensions-Ensures :
      (f nexthdr ext_len offset start : ℕ)
      → offset ≡ start + ext_len
      → offset ≤ caplen
      → caplen < f + offset
      → Ensures
          (λ (e : Extensions). (e.offset ≡ start + e.ext_len) × (e.offset ≤ caplen))
          (skip_extensions f pkt_data caplen nexthdr ext_len offset)
  unfolding skip_extensions
  skip_extensions-Ensures zero nexthdr ext_len offset start at high fuel = absurd (omega arith)
  skip_extensions-Ensures (suc f) nexthdr ext_len offset start at high fuel =
      branches (is_extension nexthdr)
        (λ _. guarded (ltb caplen (offset + 2)) λ g.
          let g = ltb_false→le caplen (offset + 2) g in
          binds (read-Ensures pkt_data offset (omega arith)) λ ext_nexthdr e1.
            binds (read-Ensures pkt_data (offset + 1) (omega arith)) λ len e2.
              guarded (ltb caplen (offset + (len + 1) * 8)) λ g2.
                let g2 = ltb_false→le caplen (offset + (len + 1) * 8) g2 in
                skip_extensions-Ensures f ext_nexthdr (u16 (ext_len + (len + 1) * 8))
                  (u16 (offset + (len + 1) * 8)) start (omega arith) (omega arith) (omega arith))
        λ _. holds (at, high)

  parse_ipv4-Ensures :
      (r : ParseResult) (offset : ℕ)
      → IsBare r
      → r.ip_offset ≡ offset
      → 14 ≤ offset
      → offset ≤ caplen
      → Ensures (IsParsed pkt_data caplen) (parse_ipv4 pkt_data caplen r offset)
  unfolding parse_ipv4 IsBare IsParsed IsLabelled
  parse_ipv4-Ensures r offset (b, b6, b7) at low high = guarded (ltb caplen (offset + 20)) λ g.
      let g = ltb_false→le caplen (offset + 20) g in
      binds (read-Ensures pkt_data offset (omega arith)) λ first e1.
        guarded (ltb (first % 16) 5) λ g5.
          let g5 = ltb_false→le (first % 16) 5 g5 in
          guarded (ltb caplen (offset + first % 16 * 4)) λ g6.
            let g6 = ltb_false→le caplen (offset + first % 16 * 4) g6 in
            binds (read16-Ensures pkt_data (offset + 6) (omega arith)) λ frag_off e2.
              guarded (not (frag_off % 0x4000 == 0)) λ _.
                binds (read-Ensures pkt_data (offset + 9) (omega arith)) λ protocol e3.
                  binds (parse_l4-Ensures protocol (u16 (offset + first % 16 * 4)) (omega arith))
                    λ l4 (len, start, end).
                      binds (read16-Ensures pkt_data (offset + 2) (omega arith)) λ tot_len e5.
                        guarded (ltb tot_len (u16 (first % 16 * 4 + l4.hdr_len))) λ g7.
                          let g7 = ltb_false→le tot_len (u16 (first % 16 * 4 + l4.hdr_len)) g7 in
                          holds (
                            (omega arith),
                            (omega arith),
                            (omega arith),
                            len,
                            (omega arith),
                            end,
                            (b6, refl, rw at (omega arith, b7, omega arith)),
                          )

  parse_ipv6-Ensures :
      (r : ParseResult) (offset : ℕ)
      → IsBare r
      → r.ip_offset ≡ offset
      → 14 ≤ offset
      → offset ≤ caplen
      → Ensures (IsParsed pkt_data caplen) (parse_ipv6 pkt_data caplen r offset)
  unfolding parse_ipv6 IsBare IsParsed IsLabelled
  parse_ipv6-Ensures r offset (b, b6, b7) at low high = guarded (ltb caplen (offset + 40)) λ g.
      let g = ltb_false→le caplen (offset + 40) g in
      binds (read-Ensures pkt_data (offset + 6) (omega arith)) λ first e1.
        binds
          (skip_extensions-Ensures (caplen + 1) first 0 (u16 (offset + 40)) (offset + 40)
            (omega arith) (omega arith) (omega arith))
          λ ext (after, within). guarded (ext.nexthdr == 44) λ _.
            binds (parse_l4-Ensures ext.nexthdr ext.offset within) λ l4 (len, start, end).
              binds (read16-Ensures pkt_data (offset + 4) (omega arith)) λ payload e5.
                guarded (ltb payload (ext.ext_len + l4.hdr_len)) λ g7.
                  let g7 = ltb_false→le payload (ext.ext_len + l4.hdr_len) g7 in
                  rw b (
                    holds (
                      (omega arith),
                      (omega arith),
                      (omega arith),
                      len,
                      start,
                      end,
                      (refl, refl, rw at (refl, omega arith)),
                    ))

  clamp_payload-Ensures :
      (r : ParseResult)
      → IsParsed pkt_data caplen r
      → Ensures (λ r'. IsLaidOut caplen r' × IsLabelled pkt_data r') (clamp_payload caplen r)
  unfolding clamp_payload IsLaidOut IsParsed IsLabelled
  clamp_payload-Ensures r (h1, h2, h3, h4, h5, h6, (h7, h8, h9)) =
      guarded (ltb caplen r.payload_offset) λ g.
        let g = ltb_false→le caplen r.payload_offset g in
        let (left, kept) = clamped_le (u16 (caplen - r.payload_offset)) r.payload_len in
        elim (Bool-cases r.is_ipv4) [
          | inl e ↦ holds ((h1, h2, h3, h4, h5, (omega arith)), (h7, h8, rw e (ground arith)))
          | inr e ↦ holds ((h1, h2, h3, h4, h5, (omega arith)), (h7, h8, rw e (ground arith)))
        ]

  -- On a frame of at most 65535 bytes, all of them there, the parser either rejects or gives a result
  -- of which the headers follow one another, each as long as it must be, with the payload within the
  -- captured bytes and within the IP header's length field; it neither reads outside the frame nor
  -- uses up the fuel of a loop.
  pub parse_packet-Ensures :
      Ensures (λ r. IsLaidOut caplen r × IsLabelled pkt_data r) (parse_packet pkt_data caplen)
  unfolding parse_packet IsBare
  parse_packet-Ensures = guarded (ltb caplen 14) λ g.
      let g = ltb_false→le caplen 14 g in
      binds (read16-Ensures pkt_data 12 (omega arith)) λ ether_type e1.
        binds
          (skip_vlan-Ensures (caplen + 1) cleared ether_type 14 (refl, refl, refl) (omega arith) g
            (omega arith))
          λ tags (bare, low, high).
            binds
              (branches (tags.ether_type == ethertype_ip)
                (λ _.
                  parse_ipv4-Ensures (record (tags.result) { ip_offset = tags.offset }) tags.offset
                    bare refl low high)
                λ _.
                  branches (tags.ether_type == ethertype_ipv6)
                    (λ _.
                      parse_ipv6-Ensures (record (tags.result) { ip_offset = tags.offset })
                        tags.offset bare refl low high)
                    λ _. turned_down)
              λ parsed h. clamp_payload-Ensures parsed h
