-- ===== src/Output/Zmq/Calls.antt =====
-- The batch under the calls of the ZeroMQ output (cpworker/src/output_zmq.c).
use cloud_probe.Prelude.{
  ℕ, ◌+◌, ◌*◌, ◌≤◌, ◌≡◌, refl, ◌⊎◌, List, [], ◌++◌, length, Bool, false, ltb, ◌==◌, ◌&&◌, u16,
  arith, if_both, length-append,
}
use mathlib.Core.Path.{subst}
use cloud_probe.RateLimit.{Timeval}
use cloud_probe.Packet.{PktDir, PktHdr}
use cloud_probe.Output.{output_frame_len, is_unknown, throttled}
use cloud_probe.Output.Counts.{output_frame_len-le}
use cloud_probe.Output.Zmq.{
  ZmqOutput, max_frame_len, max_batch_buf_size, l2_header_len, packet_record, heartbeat_record,
  pkt_hdr, zmq_frame_len, append_packet, append_heartbeat, clear_batch, open_batch, must_flush,
  is_stale, zmq_flush_packet, zmq_flush_if_stale, make_room, add_packet, drop_packet,
  zmq_send_packet, zmq_send_heartbeat_packet, zmq_heartbeat, coarse_due, heartbeat_due,
}
use cloud_probe.Output.Zmq.Batch.{
  Framed, Framed-snoc, Framed-nil, l2_header_len_bounds, length-packet_record,
  packet_record-IsRecord, heartbeat_record-IsRecord,
}

-- The position is the end of the records and lies in the buffer; a record takes 32 bytes or more, so
-- `pkts_num` has not wrapped; and the records stay apart.
pub record BatchOf (pkts_num heartbeat_num batch_bufpos data_bytes : ℕ) (records : List ℕ)
    : Type 0 where
  pub at_end : batch_bufpos ≡ 24 + length records
  pub within : batch_bufpos ≤ max_batch_buf_size
  pub sized : 24 + 32 * pkts_num ≤ batch_bufpos
  pub beats : heartbeat_num ≤ pkts_num
  pub counted : data_bytes + 24 ≤ batch_bufpos
  pub little : data_bytes ≤ max_frame_len * pkts_num
  pub framed : Framed pkts_num records

abbrev pub IsBatch : ZmqOutput → Type 0
IsBatch o = BatchOf o.pkts_num o.heartbeat_num o.batch_bufpos o.data_bytes o.records

empty : BatchOf 0 0 24 0 []
empty = record {
  at_end = refl;
  within = omega arith;
  sized = omega arith;
  beats = omega arith;
  counted = omega arith;
  little = omega arith;
  framed = Framed-nil;
}

append_packet-IsBatch :
    (o : ZmqOutput) (header : PktHdr) (p : List ℕ) (l2 n : ℕ) (d : PktDir)
    → IsBatch o
    → 14 ≤ l2
    → l2 ≤ n
    → n ≤ length p
    → n ≤ max_frame_len
    → o.batch_bufpos + 18 + (n + 4) ≤ max_batch_buf_size
    → IsBatch (append_packet o header p l2 n d)
unfolding append_packet
append_packet-IsBatch o header p l2 n d b h k m small room =
    let long = length-packet_record o header p l2 n d h k m in
    let joined = length-append o.records (packet_record o header p l2 n d) in
    record {
      at_end = omega (arith, b.at_end, long, joined);
      within = omega arith;
      sized = omega (arith, b.sized);
      beats = omega (arith, b.beats, b.sized);
      counted = omega (arith, b.counted);
      little = omega (arith, b.little, b.counted, b.sized);
      framed =
          subst (λ v. Framed v (o.records ++ packet_record o header p l2 n d))
            (omega (arith, b.sized))
            (Framed-snoc o.pkts_num o.records _ b.framed
              (packet_record-IsRecord o header p l2 n d h k m small));
    }

pub append_heartbeat-IsBatch :
    (o : ZmqOutput) (tv : Timeval)
    → IsBatch o
    → o.batch_bufpos + 32 ≤ max_batch_buf_size
    → IsBatch (append_heartbeat o tv)
unfolding append_heartbeat heartbeat_record pkt_hdr
append_heartbeat-IsBatch o tv b room =
    let joined = length-append o.records (heartbeat_record tv) in
    record {
      at_end = omega (arith, b.at_end, joined);
      within = omega arith;
      sized = omega (arith, b.sized);
      beats = omega (arith, b.beats, b.sized);
      counted = omega (arith, b.counted);
      little = omega (arith, b.little, b.counted, b.sized);
      framed =
          subst (λ v. Framed v (o.records ++ heartbeat_record tv)) (omega (arith, b.sized))
            (Framed-snoc o.pkts_num o.records _ b.framed (heartbeat_record-IsRecord tv));
    }

-- A frame keeps its Ethernet header and its tags, and has no more bytes than were captured.
pub zmq_frame_len_bounds :
    (p : List ℕ) (caplen slice : ℕ)
    → let l2 = l2_header_len p (output_frame_len caplen 0 max_frame_len) in
      (l2 ≡ 0)
      ⊎ ((14 ≤ l2)
          × (l2 ≤ zmq_frame_len caplen slice l2)
          × (zmq_frame_len caplen slice l2 ≤ caplen)
          × (zmq_frame_len caplen slice l2 ≤ max_frame_len))
unfolding zmq_frame_len
zmq_frame_len_bounds p caplen slice = ground (
  arith,
  l2_header_len_bounds p (output_frame_len caplen 0 max_frame_len),
  output_frame_len-le caplen 0 max_frame_len,
  output_frame_len-le caplen slice max_frame_len,
)

pub zmq_frame_len_ok :
    (p : List ℕ) (caplen slice : ℕ)
    → let l2 = l2_header_len p (output_frame_len caplen 0 max_frame_len) in
      (l2 == 0) ≡ false
      → (14 ≤ l2)
        × (l2 ≤ zmq_frame_len caplen slice l2)
        × (zmq_frame_len caplen slice l2 ≤ caplen)
        × (zmq_frame_len caplen slice l2 ≤ max_frame_len)
zmq_frame_len_ok p caplen slice e = ground (arith, zmq_frame_len_bounds p caplen slice)

module _ {W : Type 0} (zmq_send : W → List ℕ → W × Bool) where
  pub zmq_flush_packet-IsBatch : (o : ZmqOutput) (w : W) → IsBatch (zmq_flush_packet zmq_send o w).0
  unfolding zmq_flush_packet clear_batch
  zmq_flush_packet-IsBatch o w = empty

  pub zmq_flush_if_stale-IsBatch :
      (o : ZmqOutput) (w : W) (now : ℕ)
      → IsBatch o
      → IsBatch (zmq_flush_if_stale zmq_send o w now).0
  unfolding zmq_flush_if_stale
  zmq_flush_if_stale-IsBatch o w now b =
      if_both (λ (r : ZmqOutput × W). IsBatch r.0) (is_stale o now)
        (λ _. zmq_flush_packet-IsBatch o w) (λ _. b)

  -- With room for a record of the length.
  pub make_room-IsBatch :
      (o : ZmqOutput) (w : W) (t n : ℕ)
      → IsBatch o
      → n ≤ 65535
      → IsBatch (make_room zmq_send o w t n).0
        × ((make_room zmq_send o w t n).0.batch_bufpos + 18 + n ≤ max_batch_buf_size)
  unfolding make_room zmq_flush_packet clear_batch must_flush
  make_room-IsBatch o w t n b small =
      if_both
        (λ (r : ZmqOutput × W). IsBatch r.0 × (r.0.batch_bufpos + 18 + n ≤ max_batch_buf_size))
        (must_flush o t n) (λ _. (empty, omega arith)) (λ e. (b, ground arith))

  open_batch-IsBatch : (o : ZmqOutput) (t : ℕ) → IsBatch o → IsBatch (open_batch o t)
  unfolding open_batch
  open_batch-IsBatch o t b = if_both IsBatch (o.pkts_num == 0) (λ _. b) (λ _. b)

  add_packet-IsBatch :
      (o : ZmqOutput) (w : W) (header : PktHdr) (p : List ℕ) (l2 n : ℕ) (d : PktDir)
      → IsBatch o
      → 14 ≤ l2
      → l2 ≤ n
      → n ≤ length p
      → n ≤ max_frame_len
      → IsBatch (add_packet zmq_send o w header p l2 n d).0
  unfolding add_packet
  add_packet-IsBatch o w header p l2 n d b h k m small =
      let opened = open_batch o header.ts.tv_sec in
      let (b', room) =
        make_room-IsBatch opened w header.ts.tv_sec (u16 (n + 4)) (open_batch-IsBatch o _ b)
          (omega arith) in
      append_packet-IsBatch _ header p l2 n d b' h k m small (omega arith)

  pub zmq_send_packet-IsBatch :
      (part : ℕ → ℕ → ℕ) (o : ZmqOutput) (w : W) (header : PktHdr) (p : List ℕ) (d : PktDir)
      → IsBatch o
      → header.caplen ≤ length p
      → IsBatch (zmq_send_packet zmq_send part o w header p d).0
  unfolding zmq_send_packet add_packet drop_packet
  zmq_send_packet-IsBatch part o w header p d b long =
      let l2 = l2_header_len p (output_frame_len header.caplen 0 max_frame_len) in
      let n = zmq_frame_len header.caplen o.slice l2 in
      if_both P (l2 == 0) (λ _. zmq_flush_if_stale-IsBatch _ w header.ts.tv_sec b)
        (λ e.
          if_both P (is_unknown d) (λ _. zmq_flush_if_stale-IsBatch _ w header.ts.tv_sec b)
            (λ _.
              if_both P (throttled part o.rate_limit_mbps o.throttle n header).1
                (λ _.
                  let (h, k, c, m) = zmq_frame_len_ok p header.caplen o.slice e in
                  add_packet-IsBatch _ w header p l2 n d b h k (omega arith) m)
                (λ _. zmq_flush_if_stale-IsBatch _ w header.ts.tv_sec b)))
    where
      P : ZmqOutput × W × Bool → Type 0
      P r = IsBatch r.0

  pub zmq_heartbeat-IsBatch :
      (o : ZmqOutput) (w : W) (now : ℕ) (tv : Timeval)
      → IsBatch o
      → IsBatch (zmq_heartbeat zmq_send o w now tv).0
  unfolding zmq_heartbeat zmq_send_heartbeat_packet
  zmq_heartbeat-IsBatch o w now tv b =
      let (o', w') = zmq_flush_if_stale zmq_send o w now in
      if_both (λ (r : ZmqOutput × W). IsBatch r.0)
        (ltb 0 o'.heartbeat_ms && (coarse_due o' now && heartbeat_due o' tv))
        (λ _. zmq_flush_packet-IsBatch _ _) (λ _. zmq_flush_if_stale-IsBatch o w now b)

  -- From a batch whose position is the end of its records and lies in the buffer, that has 32 bytes or
  -- more for each of `pkts_num` records, which stay apart: whatever `zmq_send` does, a packet of which
  -- the captured bytes are there leaves such a batch, and so does a heartbeat.
  pub zmq_calls-IsBatch :
      (part : ℕ → ℕ → ℕ) (o : ZmqOutput) (w : W) (header : PktHdr) (p : List ℕ) (d : PktDir)
      (now : ℕ) (now_tv : Timeval)
      → IsBatch o
      → header.caplen ≤ length p
      → IsBatch (zmq_send_packet zmq_send part o w header p d).0
        × IsBatch (zmq_heartbeat zmq_send o w now now_tv).0
  zmq_calls-IsBatch part o w header p d now now_tv b long =
      (zmq_send_packet-IsBatch part o w header p d b long, zmq_heartbeat-IsBatch o w now now_tv b)
