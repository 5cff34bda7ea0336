-- ===== src/Output/Gre.antt =====
-- cpworker/src/output_gre.c, output_gre.h and gre.h: each packet goes out in one GRE packet. `sendto` is
-- a parameter, on a state `W` of what is outside; its loop and the counts of its errors are those of
-- the VXLAN output, line for line. The text of an error is left out.
pub mod Sends
mod Examples
use cloud_probe.Prelude.{
  ℕ, ◌+◌, ◌-◌, ◌*◌, ◌/◌, ◌%◌, ◌^◌, ◌<◌, ◌≡◌, ◌∙◌, refl, List, [], ◌∷◌, ◌++◌, take, drop, length,
  Bool, true, false, if◌then◌else◌, if_both, u32, be16_at, be32_at, replicate, arith, slice,
  length-take, length-append, take-append, drop-append, append_assoc, byte_at-append_right, sym, ap,
  min, ◌≤◌,
}
use cloud_probe.Stats.{OutputStats}
use cloud_probe.RateLimit.{TokenBucket}
use cloud_probe.Packet.{PktDir, unknown, noncheck, incoming, outgoing, PktHdr}
use cloud_probe.Output.{
  output_frame_len, forwarded, direction_dropped, ratelimited, failed, count, is_unknown, throttled,
}
use cloud_probe.Output.Counts.{
  HasRoom, IsCounted, output_frame_len-le, IsCounted-forwarded, IsCounted-failed,
  IsCounted-ratelimited, IsCounted-direction_dropped,
}
use cloud_probe.Output.Vxlan.{
  SendResult, ErrorInfo, check_error_info, send_loop, write_at, be32_bytes, direct_code,
}

abbrev pub max_frame_len : ℕ
max_frame_len = 65535

-- `GRE_OUTPUT_BUFSIZE`
abbrev pub bufsize : ℕ
bufsize = 65551

-- `gre_output_t`
pub record GreOutput : Type 0 where
  pub stats : OutputStats
  pub rate_limit_mbps : ℕ
  pub throttle : TokenBucket
  pub slice : ℕ
  pub service_tag : ℕ
  pub buf : List ℕ
  pub error_info : ErrorInfo

-- The buffer that `gre_output_new` leaves: the key flag, Ethernet over GRE, the tag, and zeros.
pub new_buf : ℕ → List ℕ
new_buf service_tag = 0x20 ∷ 0 ∷ 0x65 ∷ 0x58 ∷ (be32_bytes (u32 service_tag) ++ replicate 65543 0)

-- `(output->service_tag & 0x0FFFFFFF) | (direct << 28)`
pub keybit : ℕ → PktDir → ℕ
keybit service_tag direct = service_tag % 2 ^ 28 + direct_code direct % 16 * 2 ^ 28

-- `buf` once the key and the frame are written.
pub fill_buf : GreOutput → List ℕ → PktDir → List ℕ
fill_buf output frame direct =
    write_at (write_at output.buf 4 (be32_bytes (keybit output.service_tag direct))) 8 frame

module _ {W : Type 0} (sendto : W → List ℕ → W × SendResult) where
  -- The flag is `return 0`.
  pub gre_send_packet :
      (ℕ → ℕ → ℕ) → GreOutput → W → PktHdr → List ℕ → PktDir → GreOutput × W × Bool
  gre_send_packet part output w header pkt_data direct =
      let frame_len = output_frame_len header.caplen output.slice max_frame_len in
      let (throttle, pass) =
        throttled part output.rate_limit_mbps output.throttle frame_len header in
      let buf = fill_buf output (take frame_len pkt_data) direct in
      let (info, w', good) =
        send_loop sendto 10 (take (8 + frame_len) buf)
          (check_error_info output.error_info header.ts.tv_sec) w in
      let output' = record output { throttle = throttle; buf = buf; error_info = info } in
      if is_unknown direct
      then (record output { stats = count direction_dropped frame_len output.stats }, w, false)
      else if pass
      then if good
        then (record output' { stats = count forwarded frame_len output.stats }, w', true)
        else (record output' { stats = count failed frame_len output.stats }, w', false)
      else (
        record output { throttle = throttle; stats = count ratelimited frame_len output.stats },
        w,
        false,
      )
