-- ===== src/Output.antt =====
-- What the outputs share: `output_frame_len` of cpworker/src/output.h and the four ways in which a packet
-- ends in the counters, each of which is two calls in the source; and cpworker/src/output_null.c.
-- A `slice` below 0 does what 0 does.
pub mod Counts
pub mod Vxlan
pub mod Zmq
pub mod Gre
pub mod File
mod Samples
mod Examples
use cloud_probe.Prelude.{ℕ, List, Bool, true, false, ◌&&◌, ltb, if◌then◌else◌, ◌*◌}
use cloud_probe.Stats.{OutputStats, bytes_stats_add, packets_stats_add}
use cloud_probe.RateLimit.{TokenBucket, token_bucket_init, token_bucket_consume}
use cloud_probe.Packet.{PktDir, unknown, PktHdr}

pub output_frame_len : ℕ → ℕ → ℕ → ℕ
output_frame_len caplen slice max_len =
    let frame_len = if ltb 0 slice && ltb slice caplen then slice else caplen in
    if ltb frame_len max_len then frame_len else max_len

pub data Fate : Type 0 where
  forwarded direction_dropped ratelimited failed : Fate

pub count : Fate → ℕ → OutputStats → OutputStats
count forwarded frame_len s = record s {
  fwd_bytes = bytes_stats_add s.fwd_bytes frame_len;
  fwd_packets = packets_stats_add s.fwd_packets 1;
}
count direction_dropped frame_len s = record s {
  direction_drop_bytes = bytes_stats_add s.direction_drop_bytes frame_len;
  direction_drop_packets = packets_stats_add s.direction_drop_packets 1;
}
count ratelimited frame_len s = record s {
  ratelimit_drop_bytes = bytes_stats_add s.ratelimit_drop_bytes frame_len;
  ratelimit_drop_packets = packets_stats_add s.ratelimit_drop_packets 1;
}
count failed frame_len s = record s {
  error_drop_bytes = bytes_stats_add s.error_drop_bytes frame_len;
  error_drop_packets = packets_stats_add s.error_drop_packets 1;
}

-- `direct == PKT_DIR_UNKNOWN`
abbrev pub is_unknown : PktDir → Bool
is_unknown unknown = true
is_unknown d = false

-- The limit, which every output asks before it sends: `rate_limit_mbps` of 0 is none.
pub throttled : (ℕ → ℕ → ℕ) → ℕ → TokenBucket → ℕ → PktHdr → TokenBucket × Bool
throttled part rate_limit_mbps throttle frame_len header =
    if ltb 0 rate_limit_mbps
    then token_bucket_consume part throttle frame_len (header.ts)
    else (throttle, true)

-- `null_output_t`
pub record NullOutput : Type 0 where
  pub stats : OutputStats
  pub rate_limit_mbps : ℕ
  pub throttle : TokenBucket
  pub slice : ℕ

abbrev pub size_max : ℕ
size_max = 0xffff_ffff_ffff_ffff

-- The flag is `return 0`.
pub null_send_packet : (ℕ → ℕ → ℕ) → NullOutput → PktHdr → List ℕ → PktDir → NullOutput × Bool
null_send_packet part output header pkt_data direct =
    let frame_len = output_frame_len header.caplen output.slice size_max in
    let (throttle, pass) = throttled part output.rate_limit_mbps output.throttle frame_len header in
    if is_unknown direct
    then (record output { stats = count direction_dropped frame_len output.stats }, false)
    else if pass
    then (
      record output { throttle = throttle; stats = count forwarded frame_len output.stats },
      true,
    )
    else (
      record output { throttle = throttle; stats = count ratelimited frame_len output.stats },
      false,
    )
