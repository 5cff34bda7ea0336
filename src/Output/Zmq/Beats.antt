-- ===== src/Output/Zmq/Beats.antt =====
-- What a heartbeat and the end of the ZeroMQ output do to its counters and its batch
-- (cpworker/src/output_zmq.c).
use cloud_probe.Prelude.{
  ℕ, ◌+◌, ◌≤◌, ◌≡◌, refl, List, Bool, ltb, if◌then◌else◌, ◌&&◌, arith, if_both, ltb_false→le,
}
use cloud_probe.RateLimit.{Timeval}
use cloud_probe.Output.Counts.{packets_seen, bytes_seen}
use cloud_probe.Output.Zmq.{
  ZmqOutput, max_batch_buf_size, append_heartbeat, clear_batch, zmq_flush_packet,
  zmq_flush_if_stale, zmq_send_heartbeat_packet, zmq_heartbeat, coarse_due, heartbeat_due,
  zmq_output_destroy,
}
use cloud_probe.Output.Zmq.Calls.{
  IsBatch, append_heartbeat-IsBatch, zmq_flush_packet-IsBatch, zmq_flush_if_stale-IsBatch,
}
use cloud_probe.Output.Zmq.Tally.{TakesAll, TakesAll-fewer, packets_total, bytes_total, Adds}
use cloud_probe.Output.Zmq.Conserve.{zmq_flush_packet-Adds, zmq_flush_if_stale-Adds}

module _ {W : Type 0} (zmq_send : W → List ℕ → W × Bool) where
  flushed-room :
      (o : ZmqOutput) (w : W)
      → (zmq_flush_packet zmq_send o w).0.batch_bufpos + 32 ≤ max_batch_buf_size
  unfolding zmq_flush_packet clear_batch
  flushed-room o w = omega arith

  append_heartbeat-Adds :
      (o : ZmqOutput) (tv : Timeval)
      → TakesAll 1 o.stats
      → IsBatch o
      → Adds 1 o (append_heartbeat o tv) 0 0
  unfolding append_heartbeat packets_total bytes_total
  append_heartbeat-Adds o tv r b = record {
    takes = r;
    packets = omega (arith, b.beats, b.sized, b.within);
    bytes = omega arith;
  }

  Adds-then : (k l : ℕ) (o p q : ZmqOutput) → Adds k o p 0 0 → Adds l p q 0 0 → Adds l o q 0 0
  Adds-then k l o p q f g = record {
    takes = g.takes;
    packets = omega (arith, f.packets, g.packets);
    bytes = omega (arith, f.bytes, g.bytes);
  }

  -- With another time of the last packet.
  Adds-last :
      (k : ℕ) (o p : ZmqOutput) (tv : Timeval)
      → Adds k o p 0 0
      → Adds k o (record p { last_pkt_tv = tv }) 0 0
  unfolding packets_total bytes_total
  Adds-last k o p tv g = record { takes = g.takes; packets = g.packets; bytes = g.bytes }

  room_for_heartbeat-Adds :
      (o : ZmqOutput) (w : W)
      → TakesAll 2 o.stats
      → IsBatch o
      → let v =
          if ltb max_batch_buf_size (o.batch_bufpos + 2 + 16 + 14)
          then zmq_flush_packet zmq_send o w
          else (o, w) in
        Adds 1 o v.0 0 0 × IsBatch v.0 × (v.0.batch_bufpos + 32 ≤ max_batch_buf_size)
  unfolding packets_total bytes_total
  room_for_heartbeat-Adds o w r b =
      if_both
        (λ (v : ZmqOutput × W).
          Adds 1 o v.0 0 0 × IsBatch v.0 × (v.0.batch_bufpos + 32 ≤ max_batch_buf_size))
        (ltb max_batch_buf_size (o.batch_bufpos + 2 + 16 + 14))
        (λ _. (
          zmq_flush_packet-Adds zmq_send 1 o w r b,
          zmq_flush_packet-IsBatch zmq_send o w,
          flushed-room o w,
        ))
        (λ e. (
          record { takes = TakesAll-fewer 1 _ r; packets = omega arith; bytes = omega arith },
          b,
          omega (arith, ltb_false→le max_batch_buf_size (o.batch_bufpos + 2 + 16 + 14) e),
        ))

  zmq_send_heartbeat_packet-Adds :
      (o : ZmqOutput) (w : W) (tv : Timeval)
      → TakesAll 2 o.stats
      → IsBatch o
      → Adds 0 o (zmq_send_heartbeat_packet zmq_send o w tv).0 0 0
  unfolding zmq_send_heartbeat_packet
  zmq_send_heartbeat_packet-Adds o w tv r b =
      let v =
        if ltb max_batch_buf_size (o.batch_bufpos + 2 + 16 + 14)
        then zmq_flush_packet zmq_send o w
        else (o, w) in
      let (g, b', room) = room_for_heartbeat-Adds o w r b in
      let h = append_heartbeat-Adds v.0 tv g.takes b' in
      let f =
        zmq_flush_packet-Adds zmq_send 0 (append_heartbeat v.0 tv) v.1 h.takes
          (append_heartbeat-IsBatch v.0 tv b' room) in
      Adds-last 0 o _ tv (Adds-then 1 0 o v.0 _ g (Adds-then 1 0 v.0 _ _ h f))

  flushed :
      (o : ZmqOutput) (w : W)
      → TakesAll 3 o.stats
      → IsBatch o
      → let gone = (zmq_flush_packet zmq_send o w).0 in
        (packets_seen gone.stats ≡ packets_total o)
        × (bytes_seen gone.stats ≡ bytes_total o)
        × (gone.pkts_num ≡ 0)
  unfolding packets_total bytes_total zmq_flush_packet clear_batch
  flushed o w r b =
      let f = zmq_flush_packet-Adds zmq_send 2 o w r b in
      (omega (arith, f.packets), omega (arith, f.bytes), refl)

  -- Whatever `zmq_send` does: with room in the counters, a heartbeat changes neither the number of
  -- packets nor that of bytes that were counted or wait, and when the output is destroyed nothing
  -- waits and all that did is counted.
  pub zmq_heartbeat-Adds :
      (o : ZmqOutput) (w : W) (now : ℕ) (tv : Timeval)
      → IsBatch o
      → TakesAll 3 o.stats
      → let gone = (zmq_output_destroy zmq_send o w).0 in
        Adds 0 o (zmq_heartbeat zmq_send o w now tv).0 0 0
        × (packets_seen gone.stats ≡ packets_total o)
        × (bytes_seen gone.stats ≡ bytes_total o)
        × (gone.pkts_num ≡ 0)
  unfolding zmq_heartbeat zmq_output_destroy packets_total bytes_total
  zmq_heartbeat-Adds o w now tv b r =
      let (o', w') = zmq_flush_if_stale zmq_send o w now in
      let f = zmq_flush_if_stale-Adds zmq_send 2 o w now r b in
      let b' = zmq_flush_if_stale-IsBatch zmq_send o w now b in
      let last =
        if_both (λ (v : ZmqOutput × W). Destroyed o v.0) (ltb 0 o.pkts_num) (λ _. flushed o w r b)
          (λ e.
            let none_left = ltb_false→le 0 o.pkts_num e in
            (omega arith, omega (arith, b.little), omega arith)) in
      (
        if_both (λ (v : ZmqOutput × W). Adds 0 o v.0 0 0)
            (ltb 0 o'.heartbeat_ms && (coarse_due o' now && heartbeat_due o' tv))
            (λ _. Adds-then 2 0 o o' _ f (zmq_send_heartbeat_packet-Adds o' w' tv f.takes b'))
            (λ _. record {
              takes = TakesAll-fewer 0 _ (TakesAll-fewer 1 _ f.takes);
              packets = f.packets;
              bytes = f.bytes;
            }),
        last.0,
        last.1,
        last.2,
      )
    where
      Destroyed : ZmqOutput → ZmqOutput → Type 0
      Destroyed o gone =
          (packets_seen gone.stats ≡ packets_total o)
          × (bytes_seen gone.stats ≡ bytes_total o)
          × (gone.pkts_num ≡ 0)
