-- ===== src/Output/Zmq/Conserve.antt =====
-- What the calls of the ZeroMQ output add to its counters and its batch (cpworker/src/output_zmq.c).
use cloud_probe.Prelude.{
  ℕ, suc, ◌+◌, ◌^◌, ◌<◌, ◌≤◌, List, ◌++◌, Bool, ◌==◌, if◌then◌else◌, u16, u64, arith, if_both,
  if_pair,
}
use cloud_probe.Stats.{OutputStats}
use cloud_probe.Packet.{PktDir, PktHdr}
use cloud_probe.Output.{
  output_frame_len, is_unknown, throttled, direction_dropped, ratelimited, failed,
}
use cloud_probe.Output.Zmq.{
  ZmqOutput, max_frame_len, l2_header_len, zmq_frame_len, check_error_info, batch_hdr,
  append_packet, clear_batch, open_batch, must_flush, is_stale, zmq_flush_packet,
  zmq_flush_if_stale, make_room, add_packet, drop_packet, zmq_send_packet,
}
use cloud_probe.Output.Zmq.Calls.{IsBatch, zmq_frame_len_ok, make_room-IsBatch}
use cloud_probe.Output.Zmq.Tally.{
  TakesAll, TakesAll-fewer, Sees, count-Sees, packets_total, bytes_total, Adds, settle_batch-Sees,
}

module _ {W : Type 0} (zmq_send : W → List ℕ → W × Bool) where
  pub zmq_flush_packet-Adds :
      (k : ℕ) (o : ZmqOutput) (w : W)
      → TakesAll (suc k) o.stats
      → IsBatch o
      → Adds k o (zmq_flush_packet zmq_send o w).0 0 0
  unfolding zmq_flush_packet clear_batch packets_total bytes_total
  zmq_flush_packet-Adds k o w r b =
      let g =
        settle_batch-Sees k (record o { error_info = check_error_info o.error_info o.first_pktsec })
          (zmq_send w (batch_hdr o ++ o.records)).1 r b in
      record { takes = g.takes; packets = omega (arith, g.packets); bytes = omega (arith, g.bytes) }

  pub zmq_flush_if_stale-Adds :
      (k : ℕ) (o : ZmqOutput) (w : W) (now : ℕ)
      → TakesAll (suc k) o.stats
      → IsBatch o
      → Adds k o (zmq_flush_if_stale zmq_send o w now).0 0 0
  unfolding zmq_flush_if_stale packets_total bytes_total
  zmq_flush_if_stale-Adds k o w now r b =
      if_both (λ (v : ZmqOutput × W). Adds k o v.0 0 0) (is_stale o now)
        (λ _. zmq_flush_packet-Adds k o w r b)
        (λ _. record { takes = TakesAll-fewer k _ r; packets = omega arith; bytes = omega arith })

  -- A packet that is counted at once.
  drop_packet-Adds :
      (o : ZmqOutput) (s : OutputStats) (w : W) (now n : ℕ)
      → Sees 1 o.stats s 1 n
      → IsBatch o
      → Adds 0 o (drop_packet zmq_send (record o { stats = s }) w now).0 1 n
  unfolding drop_packet packets_total bytes_total
  drop_packet-Adds o s w now n g b =
      let f = zmq_flush_if_stale-Adds 0 (record o { stats = s }) w now g.takes b in
      record {
        takes = f.takes;
        packets = omega (arith, f.packets, g.packets);
        bytes = omega (arith, f.bytes, g.bytes);
      }

  make_room-Adds :
      (k : ℕ) (o : ZmqOutput) (w : W) (t n : ℕ)
      → TakesAll (suc k) o.stats
      → IsBatch o
      → Adds k o (make_room zmq_send o w t n).0 0 0
  unfolding make_room packets_total bytes_total
  make_room-Adds k o w t n r b =
      if_both (λ (v : ZmqOutput × W). Adds k o v.0 0 0) (must_flush o t n)
        (λ _.
          let f = zmq_flush_packet-Adds k o w r b in
          record { takes = f.takes; packets = f.packets; bytes = f.bytes })
        (λ _. record { takes = TakesAll-fewer k _ r; packets = omega arith; bytes = omega arith })

  append_packet-Adds :
      (k : ℕ) (o : ZmqOutput) (header : PktHdr) (p : List ℕ) (l2 n : ℕ) (d : PktDir)
      → TakesAll k o.stats
      → IsBatch o
      → n < 2 ^ 16
      → Adds k o (append_packet o header p l2 n d) 1 n
  unfolding append_packet packets_total bytes_total
  append_packet-Adds k o header p l2 n d r b h = record {
    takes = r;
    packets = omega (arith, b.beats, b.sized, b.within);
    bytes = omega (arith, b.counted, b.within);
  }

  room_then_append :
      (o : ZmqOutput) (w : W) (header : PktHdr) (p : List ℕ) (l2 n : ℕ) (d : PktDir)
      → TakesAll 1 o.stats
      → IsBatch o
      → n ≤ max_frame_len
      → Adds 0 o
          (append_packet (make_room zmq_send o w header.ts.tv_sec (u16 (n + 4))).0 header p l2 n d)
          1
          n
  unfolding packets_total bytes_total
  room_then_append o w header p l2 n d r b h =
      let t = header.ts.tv_sec in
      let f = make_room-Adds 0 o w t (u16 (n + 4)) r b in
      let (b', _) = make_room-IsBatch zmq_send o w t (u16 (n + 4)) b (omega arith) in
      let g = append_packet-Adds 0 _ header p l2 n d f.takes b' (omega arith) in
      record {
        takes = g.takes;
        packets = omega (arith, g.packets, f.packets);
        bytes = omega (arith, g.bytes, f.bytes);
      }

  add_packet-Adds :
      (o : ZmqOutput) (w : W) (header : PktHdr) (p : List ℕ) (l2 n : ℕ) (d : PktDir)
      → TakesAll 1 o.stats
      → IsBatch o
      → n ≤ max_frame_len
      → Adds 0 o (add_packet zmq_send o w header p l2 n d).0 1 n
  unfolding add_packet open_batch packets_total bytes_total
  add_packet-Adds o w header p l2 n d r b h =
      if_both
        (λ (v : ZmqOutput).
          Adds 0 o
            (append_packet (make_room zmq_send v w header.ts.tv_sec (u16 (n + 4))).0 header p l2 n
              d)
            1 n)
        (o.pkts_num == 0)
        (λ _.
          let g =
            room_then_append (record o { first_pktsec = header.ts.tv_sec }) w header p l2 n d r b
              h in
          record { takes = g.takes; packets = g.packets; bytes = g.bytes })
        (λ _. room_then_append o w header p l2 n d r b h)

  -- Whatever `zmq_send` does, from a sound batch and with room in the counters: a call adds one to the
  -- packets that were counted or wait in the batch, and the length of the packet to their bytes: the
  -- captured length where the Ethernet header or a tag was cut short, otherwise that of its frame.
  pub zmq_send_packet-Adds :
      (part : ℕ → ℕ → ℕ) (o : ZmqOutput) (w : W) (header : PktHdr) (p : List ℕ) (d : PktDir)
      → IsBatch o
      → TakesAll 2 o.stats
      → header.caplen < 2 ^ 32
      → let l2 = l2_header_len p (output_frame_len header.caplen 0 max_frame_len) in
        Adds 0 o
          (zmq_send_packet zmq_send part o w header p d).0
          1
          (if l2 == 0 then header.caplen else zmq_frame_len header.caplen o.slice l2)
  unfolding zmq_send_packet packets_total bytes_total
  zmq_send_packet-Adds part o w header p d b r small =
      let l2 = l2_header_len p (output_frame_len header.caplen 0 max_frame_len) in
      let n = zmq_frame_len header.caplen o.slice l2 in
      if_pair P (l2 == 0)
        (λ _.
          let g =
            drop_packet-Adds
              (record o {
                error_info = record o.error_info {
                  nb_too_small_packets = u64 (o.error_info.nb_too_small_packets + 1);
                };
              })
              _ w header.ts.tv_sec header.caplen (count-Sees 1 failed header.caplen o.stats r small)
              b in
          record { takes = g.takes; packets = g.packets; bytes = g.bytes })
        (λ e.
          let (_, _, c, m) = zmq_frame_len_ok p header.caplen o.slice e in
          let short : n < 2 ^ 32 = omega arith in
          if_both (P n) (is_unknown d)
            (λ _.
              drop_packet-Adds o _ w header.ts.tv_sec n
                (count-Sees 1 direction_dropped n o.stats r short) b)
            (λ _.
              if_both (P n) (throttled part o.rate_limit_mbps o.throttle n header).1
                (λ _.
                  let g =
                    add_packet-Adds
                      (record o {
                        throttle = (throttled part o.rate_limit_mbps o.throttle n header).0;
                      })
                      w header p l2 n d (TakesAll-fewer 1 _ r) b m in
                  record { takes = g.takes; packets = g.packets; bytes = g.bytes })
                (λ _.
                  let g =
                    drop_packet-Adds
                      (record o {
                        throttle = (throttled part o.rate_limit_mbps o.throttle n header).0;
                      })
                      _ w header.ts.tv_sec n (count-Sees 1 ratelimited n o.stats r short) b in
                  record { takes = g.takes; packets = g.packets; bytes = g.bytes })))
    where
      P : ℕ → ZmqOutput × W × Bool → Type 0
      P n v = Adds 0 o v.0 1 n
