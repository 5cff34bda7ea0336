-- ===== src/Split/Examples.antt =====
-- A UDP frame over IPv4 with five bytes of payload, whole and in fragments of two.
use cloud_probe.Prelude.{
  ℕ, ◌+◌, ◌≡◌, refl, List, [], ◌∷◌, true, false, some, length, drop, slice, arith, be16_at,
}
use cloud_probe.Prelude.Outcome.{Ensures}
use cloud_probe.Split.Parse.{ParseResult, parse_packet}
use cloud_probe.Split.Parse.Safe.{IsLaidOut, IsLabelled, parse_packet-Ensures}
use cloud_probe.Split.Fragment.{
  calculate_fragment_count, build_fragment, frag_payload_size, copied, update_ip, update_l4,
  renew_check,
}
use cloud_probe.Split.Fragment.Payload.{build_fragment_total, sent_payload, sent_payload_complete}
use cloud_probe.Split.Fragment.Header.{build_fragment-verifies}
use cloud_probe.Checksum.{cksum_fold, cksum_accumulate}
use cloud_probe.Checksum.Verify.{AreBytes}
use cloud_probe.Split.Fragment.Fields.{build_fragment_fields}

abbrev frame : List ℕ
frame =
    1 ∷ 1 ∷ 1 ∷ 1 ∷ 1 ∷ 1 ∷ 2 ∷ 2 ∷ 2 ∷ 2 ∷ 2 ∷ 2 ∷ 8 ∷ 0 ∷ 0x45 ∷ 0 ∷ 0 ∷ 33 ∷ 0 ∷ 1 ∷ 0 ∷ 0 ∷ 64
    ∷ 17 ∷ 0 ∷ 0 ∷ 10 ∷ 0 ∷ 0 ∷ 1 ∷ 10 ∷ 0 ∷ 0 ∷ 2 ∷ 0 ∷ 53 ∷ 0 ∷ 99 ∷ 0 ∷ 13 ∷ 0 ∷ 0 ∷ 65 ∷ 66 ∷ 67
    ∷ 68 ∷ 69 ∷ []

abbrev result : ParseResult
result = record {
  is_ipv4 = true;
  is_ipv6 = false;
  is_tcp = false;
  is_udp = true;
  has_vlan = false;
  eth_offset = 0;
  vlan_offset = 0;
  ip_offset = 14;
  l4_offset = 34;
  payload_offset = 42;
  ip_hdr_len = 20;
  ipv6_ext_len = 0;
  l4_hdr_len = 8;
  payload_len = 5;
}

result-IsLaidOut : IsLaidOut 47 result
unfolding IsLaidOut
result-IsLaidOut = (omega arith, omega arith, refl, omega arith, refl, omega arith)

result-IsLabelled : IsLabelled frame result
unfolding IsLabelled
result-IsLabelled = (refl, refl, (refl, refl, omega arith))

parse_packet-Ensures_example :
    Ensures (λ r. IsLaidOut 47 r × IsLabelled frame r) (parse_packet frame 47)
parse_packet-Ensures_example = parse_packet-Ensures frame 47 (omega arith) (omega arith)

sent_payload_complete_example :
    sent_payload result frame 2 true (calculate_fragment_count result 2) ≡ slice frame 42 5
sent_payload_complete_example =
    sent_payload_complete 47 result result-IsLaidOut frame (omega arith) 2 (omega arith) true
      (omega arith)

-- The second fragment without a checksum: the IP length is 30, the UDP length 10.
abbrev second : List ℕ
second =
    1 ∷ 1 ∷ 1 ∷ 1 ∷ 1 ∷ 1 ∷ 2 ∷ 2 ∷ 2 ∷ 2 ∷ 2 ∷ 2 ∷ 8 ∷ 0 ∷ 0x45 ∷ 0 ∷ 0 ∷ 30 ∷ 0 ∷ 1 ∷ 0 ∷ 0 ∷ 64
    ∷ 17 ∷ 0 ∷ 0 ∷ 10 ∷ 0 ∷ 0 ∷ 1 ∷ 10 ∷ 0 ∷ 0 ∷ 2 ∷ 0 ∷ 53 ∷ 0 ∷ 99 ∷ 0 ∷ 10 ∷ 0 ∷ 0 ∷ 67 ∷ 68 ∷ []

builds_second : build_fragment result frame 1 2 false ≡ some second
unfolding build_fragment frag_payload_size copied update_ip update_l4 renew_check
builds_second = refl

build_fragment_fields_example :
    (14 + be16_at second 16 ≡ length second) × (34 + be16_at second 38 ≡ length second)
build_fragment_fields_example =
    build_fragment_fields 47 (omega arith) result frame result-IsLaidOut result-IsLabelled
      (omega arith) 1 2 false second builds_second

built :
    (f : List ℕ) × (build_fragment result frame 1 2 true ≡ some f)
    × (length f ≡ 42 + 2)
    × (drop 42 f ≡ slice frame 44 2)
built =
    build_fragment_total 47 result result-IsLaidOut frame (omega arith) 1 2 true (omega arith)
      (omega arith)

frame-AreBytes : AreBytes frame
frame-AreBytes = ground arith

build_fragment-verifies_example : cksum_fold (cksum_accumulate (drop 14 built.0) 20 0) ≡ 0xffff
build_fragment-verifies_example =
    build_fragment-verifies 47 (omega arith) result frame result-IsLaidOut result-IsLabelled
      (omega arith) 1 2 built.0 frame-AreBytes refl built.1
