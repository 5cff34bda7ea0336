-- ===== src/Output/Zmq/Feed.antt =====
-- The records of the ZeroMQ output (cpworker/src/output_zmq.c) as frames of its receiver
-- (cptools/recvzmq/main.c).
use cloud_probe.Prelude.{
  ℕ, ◌+◌, ◌-◌, ◌^◌, ◌<◌, ◌≤◌, ◌≡◌, ◌∙◌, sym, ap, refl, ◌⊎◌, List, ◌++◌, take, drop, slice, length,
  arith, u16, u32,
}
use cloud_probe.RateLimit.{Timeval}
use cloud_probe.Packet.{PktDir, PktHdr}
use cloud_probe.Output.Vxlan.{direct_code, be32_bytes}
use cloud_probe.Output.Zmq.{
  ZmqOutput, max_frame_len, be16_bytes, make_mpls_hdr, l2_header_len, pkt_hdr, packet_record,
  heartbeat_frame, heartbeat_record,
}
use cloud_probe.Output.Zmq.Batch.{length-packet_record}
use cloud_probe.Output.Zmq.Wire.{record_frame, l2_header_len-steps}
use cloud_probe.Receiver.Reading.{Frame, IsFrame, encode}

-- The frame of a packet: the start of the captured one up to the last type field, the MPLS type and
-- header, and the payload up to `n` bytes of the captured frame.
pub sent_frame : ℕ → PktHdr → List ℕ → ℕ → ℕ → PktDir → Frame
sent_frame service_tag header p l2 n d = record {
  header = record {
    ts = record { tv_sec = u32 header.ts.tv_sec; tv_usec = u32 header.ts.tv_usec };
    caplen = n + 4;
    len = u32 (header.len + 4);
  };
  bytes =
      take (l2 - 2) p
      ++ (be16_bytes 0x8847 ++ (make_mpls_hdr (direct_code d) service_tag ++ slice p l2 (n - l2)));
}

pub sent_heartbeat : Timeval → Frame
sent_heartbeat tv = record {
  header = record {
    ts = record { tv_sec = u32 tv.tv_sec; tv_usec = u32 tv.tv_usec };
    caplen = 14;
    len = 14;
  };
  bytes = heartbeat_frame;
}

pub heartbeat_record-encode : (tv : Timeval) → heartbeat_record tv ≡ encode (sent_heartbeat tv)
unfolding heartbeat_record sent_heartbeat pkt_hdr
heartbeat_record-encode tv = refl

pub heartbeat-IsFrame : (tv : Timeval) → IsFrame (sent_heartbeat tv)
unfolding sent_heartbeat
heartbeat-IsFrame tv = record {
  whole = refl;
  short = omega arith;
  sec = omega arith;
  usec = omega arith;
  wire = omega arith;
}

-- The lengths as they are cast.
frame_numbers :
    (ts : Timeval) (len : ℕ) (bytes : List ℕ) (v : ℕ)
    → v ≡ length bytes
    → v < 2 ^ 16
    → be16_bytes (u16 v) ++ (pkt_hdr ts (u16 v) len ++ bytes)
      ≡ encode (record {
        header = record {
          ts = record { tv_sec = u32 ts.tv_sec; tv_usec = u32 ts.tv_usec };
          caplen = v;
          len = u32 len;
        };
        bytes = bytes;
      })
unfolding pkt_hdr
frame_numbers ts len bytes v e h =
    let times =
      λ (rest : List ℕ). be32_bytes (u32 ts.tv_sec) ++ (be32_bytes (u32 ts.tv_usec) ++ rest) in
    let end = be32_bytes (u32 len) ++ bytes in
    ap (λ a. be16_bytes a ++ (times (be32_bytes (u32 a) ++ end))) {x = u16 v} {y = v} (omega arith)
    ∙ ap (λ a. be16_bytes v ++ (times (be32_bytes a ++ end))) {x = u32 v} {y = v} (omega arith)
    ∙ ap (λ a. be16_bytes a ++ (times (be32_bytes v ++ end))) e

-- What `packet_record` writes is the frame, encoded.
pub packet_record-encode :
    (o : ZmqOutput) (header : PktHdr) (p : List ℕ) (caplen l2 n : ℕ) (d : PktDir)
    → l2_header_len p caplen ≡ l2
    → 14 ≤ l2
    → l2 ≤ n
    → n ≤ length p
    → n ≤ max_frame_len
    → (packet_record o header p l2 n d ≡ encode (sent_frame o.service_tag header p l2 n d))
      × IsFrame (sent_frame o.service_tag header p l2 n d)
unfolding packet_record pkt_hdr sent_frame
packet_record-encode o header p caplen l2 n d q h k m small =
    let steps : (l2 ≡ 14) ⊎ (18 ≤ l2) = ground (arith, l2_header_len-steps p caplen) in
    let bytes = drop 18 (packet_record o header p l2 n d) in
    let same = record_frame o header p l2 n d steps (omega arith) in
    let long : length bytes ≡ n + 4 = omega (arith, length-packet_record o header p l2 n d h k m) in
    (
      ap (λ b. be16_bytes (u16 (n + 4)) ++ (pkt_hdr header.ts (u16 (n + 4)) (header.len + 4) ++ b))
            same
          ∙ frame_numbers header.ts (header.len + 4) _ (n + 4) (sym long ∙ ap length same)
              (omega arith),
      record {
        whole = omega (arith, ap length same, long);
        short = omega (arith, ap length same, long);
        sec = omega arith;
        usec = omega arith;
        wire = omega arith;
      },
    )
