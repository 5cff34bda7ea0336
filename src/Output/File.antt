-- ===== src/Output/File.antt =====
-- cpworker/src/output_file.c: each packet is written to a capture file. `pcap_dump` of libpcap is a
-- parameter, on a state `W` of what is outside.
pub mod Records
mod Examples
use cloud_probe.Prelude.{
  ℕ, ◌<◌, ◌≡◌, ◌^◌, refl, List, Bool, true, false, ltb, ◌&&◌, if◌then◌else◌, if_both, arith, ◌≤◌,
}
use cloud_probe.Stats.{OutputStats}
use cloud_probe.RateLimit.{TokenBucket}
use cloud_probe.Packet.{PktDir, PktHdr}
use cloud_probe.Output.{forwarded, direction_dropped, ratelimited, count, is_unknown, throttled}
use cloud_probe.Output.Counts.{
  HasRoom, IsCounted, IsCounted-forwarded, IsCounted-ratelimited, IsCounted-direction_dropped,
}

-- `file_output_t`
pub record FileOutput : Type 0 where
  pub stats : OutputStats
  pub rate_limit_mbps : ℕ
  pub throttle : TokenBucket
  pub slice : ℕ

-- The header of the record: a slice shortens `caplen` and leaves `len`.
pub sliced_header : ℕ → PktHdr → PktHdr
sliced_header slice header =
    if ltb 0 slice && ltb slice header.caplen then record header { caplen = slice } else header

pub file_output_snaplen : ℕ → ℕ → ℕ
file_output_snaplen snaplen slice = if ltb 0 slice && ltb slice snaplen then slice else snaplen

module _ {W : Type 0} (pcap_dump : W → PktHdr → List ℕ → W) where
  -- The flag is `return 0`.
  pub file_write_packet :
      (ℕ → ℕ → ℕ) → FileOutput → W → PktHdr → List ℕ → PktDir → FileOutput × W × Bool
  file_write_packet part output w header pkt_data direct =
      let hdr = sliced_header output.slice header in
      let (throttle, pass) = throttled part output.rate_limit_mbps output.throttle hdr.caplen hdr in
      if is_unknown direct
      then (record output { stats = count direction_dropped hdr.caplen output.stats }, w, false)
      else if pass
      then (
        record output { throttle = throttle; stats = count forwarded hdr.caplen output.stats },
        pcap_dump w hdr pkt_data,
        true,
      )
      else (
        record output { throttle = throttle; stats = count ratelimited hdr.caplen output.stats },
        w,
        false,
      )
