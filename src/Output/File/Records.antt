-- ===== src/Output/File/Records.antt =====
-- The counters and the records of cpworker/src/output_file.c.
use cloud_probe.Prelude.{
  ℕ, ◌<◌, ◌≡◌, ◌^◌, refl, List, Bool, if◌then◌else◌, if_both, arith, ◌≤◌, ◌⊎◌, inl, inr, ltb, ◌&&◌,
  Bool-cases, sym, ap, ◌∙◌,
}
use mathlib.Core.Path.{subst}
use cloud_probe.Packet.{PktDir, PktHdr}
use cloud_probe.Output.{is_unknown, throttled}
use cloud_probe.Output.Counts.{
  HasRoom, IsCounted, IsCounted-forwarded, IsCounted-ratelimited, IsCounted-direction_dropped,
}
use cloud_probe.Output.File.{FileOutput, sliced_header, file_output_snaplen, file_write_packet}

-- The bytes that are left of `n` where a slice is asked for: all without one, otherwise the smaller of
-- the two numbers.
abbrev pub IsCut : ℕ → ℕ → ℕ → Type 0
IsCut slice n m =
    ((slice ≡ 0) × (m ≡ n)) ⊎ ((0 < slice) × (m ≤ slice) × (m ≤ n) × ((m ≡ slice) ⊎ (m ≡ n)))

IsCut-both : (slice n : ℕ) → IsCut slice n (if ltb 0 slice && ltb slice n then slice else n)
IsCut-both slice n = elim (Bool-cases (ltb 0 slice)) [
  | inl e ↦ elim (Bool-cases (ltb slice n)) [
    | inl l ↦ rw (e, l) (inr (ground (arith, e), omega arith, ground (arith, l), inl refl))
    | inr l ↦ rw (e, l) (inr (ground (arith, e), ground (arith, l), omega arith, inr refl))
  ]
  | inr e ↦ rw e (inl (ground (arith, e), refl))
]

sliced_header-IsCut :
    (slice : ℕ) (header : PktHdr)
    → let hdr = sliced_header slice header in
      (hdr ≡ record header { caplen = hdr.caplen }) × IsCut slice header.caplen hdr.caplen
unfolding sliced_header
sliced_header-IsCut slice header =
    let test = ltb 0 slice && ltb slice header.caplen in
    if_both
      (λ (h : PktHdr).
        IsCut slice header.caplen (if test then slice else header.caplen)
        → h.caplen ≡ (if test then slice else header.caplen)
        → (h ≡ record header { caplen = h.caplen }) × IsCut slice header.caplen h.caplen)
      test (λ e c q. (refl, subst (IsCut slice header.caplen) (sym q) c))
      (λ e c q. (refl, subst (IsCut slice header.caplen) (sym q) c))
      (IsCut-both slice header.caplen) (ground arith)

sliced_header-within :
    (slice snaplen : ℕ) (header : PktHdr)
    → ((sliced_header slice header).caplen ≤ file_output_snaplen snaplen slice)
      ⊎ (snaplen < header.caplen)
unfolding sliced_header file_output_snaplen
sliced_header-within slice snaplen header = elim (Bool-cases (ltb snaplen header.caplen)) [
  | inl e ↦ inr (ground (arith, e))
  | inr e ↦ inl (ground (arith, e))
]

file_output_snaplen-IsCut :
    (slice snaplen : ℕ) → IsCut slice snaplen (file_output_snaplen snaplen slice)
unfolding file_output_snaplen
file_output_snaplen-IsCut slice snaplen = IsCut-both slice snaplen

module _ {W : Type 0} (pcap_dump : W → PktHdr → List ℕ → W) where
  -- With room in the counters for one more packet and fewer than 2 ^ 32 captured bytes: the file output
  -- counts each packet once over its four pairs of counters, with n bytes, and as forwarded exactly if
  -- it returns 0. It then writes one record, with the header of the packet but n as its captured
  -- bytes, and none otherwise. Here n is the number of captured bytes without a slice, otherwise the
  -- smaller of that number and the slice. The snap length of the file is cut by the slice in the same
  -- way, and n is at most that, unless more than the snap length of the capturer was captured.
  pub file_write_packet-IsCounted :
      (part : ℕ → ℕ → ℕ) (o : FileOutput) (w : W) (header : PktHdr) (pkt_data : List ℕ)
      (direct : PktDir) (snaplen : ℕ)
      → HasRoom o.stats
      → header.caplen < 2 ^ 32
      → let (o', w', good) = file_write_packet pcap_dump part o w header pkt_data direct in
        let file_snaplen = file_output_snaplen snaplen o.slice in
        (n : ℕ) × IsCut o.slice header.caplen n
        × IsCounted o.stats o'.stats n good
        × (w' ≡ (if good then pcap_dump w (record header { caplen = n }) pkt_data else w))
        × IsCut o.slice snaplen file_snaplen
        × ((n ≤ file_snaplen) ⊎ (snaplen < header.caplen))
  unfolding file_write_packet
  file_write_packet-IsCounted part o w header pkt_data direct snaplen room small =
      let hdr = sliced_header o.slice header in
      let (same, cut) = sliced_header-IsCut o.slice header in
      let few : hdr.caplen < 2 ^ 32 = sliced_few hdr.caplen cut in
      let (counted, dumped) =
        if_both P (is_unknown direct)
          (λ _. (IsCounted-direction_dropped hdr.caplen o.stats room few, refl))
          (λ _.
            if_both P (throttled part o.rate_limit_mbps o.throttle hdr.caplen hdr).1
              (λ _. (IsCounted-forwarded hdr.caplen o.stats room few, refl))
              (λ _. (IsCounted-ratelimited hdr.caplen o.stats room few, refl))) in
      let good = (file_write_packet pcap_dump part o w header pkt_data direct).2 in
      (
        hdr.caplen,
        cut,
        counted,
        dumped ∙ ap (λ h. if good then pcap_dump w h pkt_data else w) same,
        file_output_snaplen-IsCut o.slice snaplen,
        sliced_header-within o.slice snaplen header,
      )
    where
      P : FileOutput × W × Bool → Type 0
      P v =
          IsCounted o.stats (v.0).stats (sliced_header o.slice header).caplen v.2
          × (v.1 ≡ (if v.2 then pcap_dump w (sliced_header o.slice header) pkt_data else w))

      sliced_few : (n : ℕ) → IsCut o.slice header.caplen n → n < 2 ^ 32
      sliced_few n (inl (none, all)) = omega (arith, all, small)
      sliced_few n (inr (some, least, at_most, which)) = omega (arith, at_most, small)
