-- ===== src/Output/Counts.antt =====
-- The counters of an output before and after a packet (cpworker/src/output_null.c).
use cloud_probe.Prelude.{
  ℕ, ◌+◌, ◌^◌, ◌<◌, ◌≤◌, ◌≡◌, List, Bool, true, false, arith, if_both, if◌then◌else◌,
}
use cloud_probe.Stats.{OutputStats, BytesStats, PacketsStats, bytes_stats_add, packets_stats_add}
use cloud_probe.Stats.Laws.{
  bytes_value, packets_value, BytesIsNormal, PacketsIsNormal, bytes_stats_add-value,
  packets_stats_add-value,
}
use cloud_probe.Packet.{PktDir, PktHdr}
use cloud_probe.Output.{
  output_frame_len, Fate, forwarded, direction_dropped, ratelimited, failed, count, is_unknown,
  throttled, NullOutput, null_send_packet, size_max,
}

-- All packets and all bytes, whatever became of them.
unfoldable pub packets_seen : OutputStats → ℕ
packets_seen s =
    packets_value s.fwd_packets
    + packets_value s.direction_drop_packets
    + packets_value s.error_drop_packets
    + packets_value s.ratelimit_drop_packets

unfoldable pub bytes_seen : OutputStats → ℕ
bytes_seen s =
    bytes_value s.fwd_bytes
    + bytes_value s.direction_drop_bytes
    + bytes_value s.error_drop_bytes
    + bytes_value s.ratelimit_drop_bytes

-- A pair of counters that takes one more packet without an overflow.
pub record TakesOne (bytes : BytesStats) (packets : PacketsStats) : Type 0 where
  pub bytes_normal : BytesIsNormal bytes
  pub packets_normal : PacketsIsNormal packets
  pub bytes_room : bytes.eib + 2 < 2 ^ 64
  pub packets_room : packets.peta + 2 < 2 ^ 64

pub record HasRoom (s : OutputStats) : Type 0 where
  pub fwd : TakesOne s.fwd_bytes s.fwd_packets
  pub direction_drop : TakesOne s.direction_drop_bytes s.direction_drop_packets
  pub error_drop : TakesOne s.error_drop_bytes s.error_drop_packets
  pub ratelimit_drop : TakesOne s.ratelimit_drop_bytes s.ratelimit_drop_packets

one_more :
    (b : BytesStats) (p : PacketsStats) (n : ℕ)
    → TakesOne b p
    → n < 2 ^ 32
    → (bytes_value (bytes_stats_add b n) ≡ bytes_value b + n)
      × (packets_value (packets_stats_add p 1) ≡ packets_value p + 1)
one_more b p n t h = (
  (bytes_stats_add-value b t.bytes_normal n (omega arith) (omega (arith, t.bytes_room))).1,
  (packets_stats_add-value p t.packets_normal 1 (omega arith) (omega (arith, t.packets_room))).1,
)

pub count-seen :
    (fate : Fate) (n : ℕ) (s : OutputStats)
    → HasRoom s
    → n < 2 ^ 32
    → (packets_seen (count fate n s) ≡ packets_seen s + 1)
      × (bytes_seen (count fate n s) ≡ bytes_seen s + n)
unfolding count packets_seen bytes_seen
count-seen forwarded n s r h =
    let (b, p) = one_more s.fwd_bytes s.fwd_packets n r.fwd h in (omega arith, omega arith)
count-seen direction_dropped n s r h =
    let (b, p) = one_more s.direction_drop_bytes s.direction_drop_packets n r.direction_drop h in
    (omega arith, omega arith)
count-seen ratelimited n s r h =
    let (b, p) = one_more s.ratelimit_drop_bytes s.ratelimit_drop_packets n r.ratelimit_drop h in
    (omega arith, omega arith)
count-seen failed n s r h =
    let (b, p) = one_more s.error_drop_bytes s.error_drop_packets n r.error_drop h in
    (omega arith, omega arith)

pub output_frame_len-le :
    (caplen slice m : ℕ)
    → (output_frame_len caplen slice m ≤ caplen) × (output_frame_len caplen slice m ≤ m)
unfolding output_frame_len
output_frame_len-le caplen slice m = ground arith

-- What the counters say of one packet: it is seen once, with its length, and it is forwarded exactly
-- if the output says so.
unfoldable pub IsCounted : OutputStats → OutputStats → ℕ → Bool → Type 0
IsCounted before after n good =
    (packets_seen after ≡ packets_seen before + 1)
    × (bytes_seen after ≡ bytes_seen before + n)
    × (packets_value after.fwd_packets ≡ packets_value before.fwd_packets + (if good then 1 else 0))
    × (bytes_value after.fwd_bytes ≡ bytes_value before.fwd_bytes + (if good then n else 0))

pub IsCounted-forwarded :
    (n : ℕ) (s : OutputStats) → HasRoom s → n < 2 ^ 32 → IsCounted s (count forwarded n s) n true
unfolding IsCounted count
IsCounted-forwarded n s r h =
    let (p, b) = count-seen forwarded n s r h in
    let (b1, p1) = one_more s.fwd_bytes s.fwd_packets n r.fwd h in (p, b, p1, b1)

pub IsCounted-direction_dropped :
    (n : ℕ) (s : OutputStats)
    → HasRoom s
    → n < 2 ^ 32
    → IsCounted s (count direction_dropped n s) n false
unfolding IsCounted count
IsCounted-direction_dropped n s r h =
    let (p, b) = count-seen direction_dropped n s r h in (p, b, omega arith, omega arith)

pub IsCounted-ratelimited :
    (n : ℕ) (s : OutputStats) → HasRoom s → n < 2 ^ 32 → IsCounted s (count ratelimited n s) n false
unfolding IsCounted count
IsCounted-ratelimited n s r h =
    let (p, b) = count-seen ratelimited n s r h in (p, b, omega arith, omega arith)

pub IsCounted-failed :
    (n : ℕ) (s : OutputStats) → HasRoom s → n < 2 ^ 32 → IsCounted s (count failed n s) n false
unfolding IsCounted count
IsCounted-failed n s r h =
    let (p, b) = count-seen failed n s r h in (p, b, omega arith, omega arith)

-- With room in the counters for one more packet, the null output counts each packet once over its
-- four pairs of counters, with the frame's length, and as forwarded exactly if it returns 0.
null_send_packet-IsCounted :
    (part : ℕ → ℕ → ℕ) (o : NullOutput) (header : PktHdr) (pkt_data : List ℕ) (direct : PktDir)
    → HasRoom o.stats
    → header.caplen < 2 ^ 32
    → let (o', good) = null_send_packet part o header pkt_data direct in
      IsCounted o.stats o'.stats (output_frame_len header.caplen o.slice size_max) good
unfolding null_send_packet
null_send_packet-IsCounted part o header pkt_data direct room small =
    let n = output_frame_len header.caplen o.slice size_max in
    let short : n < 2 ^ 32 = omega (arith, output_frame_len-le header.caplen o.slice size_max) in
    if_both (λ (r : NullOutput × Bool). IsCounted o.stats (r.0).stats n r.1) (is_unknown direct)
      (λ _. IsCounted-direction_dropped n o.stats room short)
      λ _.
        if_both (λ (r : NullOutput × Bool). IsCounted o.stats (r.0).stats n r.1)
          (throttled part o.rate_limit_mbps o.throttle n header).1
          (λ _. IsCounted-forwarded n o.stats room short)
          λ _. IsCounted-ratelimited n o.stats room short
