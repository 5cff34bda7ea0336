-- ===== src/Output/Zmq/Tally.antt =====
-- The counters of the ZeroMQ output and what still waits in the batch (cpworker/src/output_zmq.c).
use cloud_probe.Prelude.{ℕ, suc, ◌+◌, ◌-◌, ◌^◌, ◌<◌, ◌≡◌, Bool, true, false, arith}
use cloud_probe.Stats.{OutputStats, BytesStats, PacketsStats, bytes_stats_add, packets_stats_add}
use cloud_probe.Stats.Laws.{
  bytes_value, packets_value, BytesIsNormal, PacketsIsNormal, bytes_stats_add-value,
  packets_stats_add-value, bytes_stats_add-eib, packets_stats_add-peta,
}
use cloud_probe.Output.{Fate, forwarded, direction_dropped, ratelimited, failed, count}
use cloud_probe.Output.Counts.{packets_seen, bytes_seen}
use cloud_probe.Output.Zmq.{ZmqOutput, data_num, settle_batch}
use cloud_probe.Output.Zmq.Calls.{IsBatch}

-- A pair of counters that takes `k` amounts more without an overflow.
pub record Takes (k : ℕ) (b : BytesStats) (p : PacketsStats) : Type 0 where
  pub bytes_normal : BytesIsNormal b
  pub packets_normal : PacketsIsNormal p
  pub bytes_room : b.eib + k + 1 < 2 ^ 64
  pub packets_room : p.peta + k + 1 < 2 ^ 64

-- So do all four pairs.
pub record TakesAll (k : ℕ) (s : OutputStats) : Type 0 where
  pub fwd : Takes k s.fwd_bytes s.fwd_packets
  pub direction_drop : Takes k s.direction_drop_bytes s.direction_drop_packets
  pub error_drop : Takes k s.error_drop_bytes s.error_drop_packets
  pub ratelimit_drop : Takes k s.ratelimit_drop_bytes s.ratelimit_drop_packets

pub fewer : (k : ℕ) (b : BytesStats) (p : PacketsStats) → Takes (suc k) b p → Takes k b p
fewer k b p t = record {
  bytes_normal = t.bytes_normal;
  packets_normal = t.packets_normal;
  bytes_room = omega (arith, t.bytes_room);
  packets_room = omega (arith, t.packets_room);
}

pub TakesAll-fewer : (k : ℕ) (s : OutputStats) → TakesAll (suc k) s → TakesAll k s
TakesAll-fewer k s r = record {
  fwd = fewer k _ _ r.fwd;
  direction_drop = fewer k _ _ r.direction_drop;
  error_drop = fewer k _ _ r.error_drop;
  ratelimit_drop = fewer k _ _ r.ratelimit_drop;
}

pub record Grown (k : ℕ) (b : BytesStats) (p : PacketsStats) (n m : ℕ) : Type 0 where
  pub takes : Takes k (bytes_stats_add b n) (packets_stats_add p m)
  pub bytes_up : bytes_value (bytes_stats_add b n) ≡ bytes_value b + n
  pub packets_up : packets_value (packets_stats_add p m) ≡ packets_value p + m

pair_add :
    (k : ℕ) (b : BytesStats) (p : PacketsStats) (n m : ℕ)
    → Takes (suc k) b p
    → n < 2 ^ 32
    → m < 2 ^ 32
    → Grown k b p n m
pair_add k b p n m t hn hm =
    let (bn, bv) =
      bytes_stats_add-value b t.bytes_normal n (omega arith) (omega (arith, t.bytes_room)) in
    let (pn, pv) =
      packets_stats_add-value p t.packets_normal m (omega arith) (omega (arith, t.packets_room)) in
    record {
      takes = record {
        bytes_normal = bn;
        packets_normal = pn;
        bytes_room = omega (arith, bytes_stats_add-eib b n (omega arith), t.bytes_room);
        packets_room = omega (arith, packets_stats_add-peta p m (omega arith), t.packets_room);
      };
      bytes_up = bv;
      packets_up = pv;
    }

-- `m` packets of `n` bytes are seen more, and the counters take `k` amounts still.
pub record Sees (k : ℕ) (s t : OutputStats) (m n : ℕ) : Type 0 where
  pub takes : TakesAll k t
  pub packets : packets_seen t ≡ packets_seen s + m
  pub bytes : bytes_seen t ≡ bytes_seen s + n

pub count-Sees :
    (k : ℕ) (fate : Fate) (n : ℕ) (s : OutputStats)
    → TakesAll (suc k) s
    → n < 2 ^ 32
    → Sees k s (count fate n s) 1 n
unfolding count packets_seen bytes_seen
count-Sees k forwarded n s r h =
    let g = pair_add k s.fwd_bytes s.fwd_packets n 1 r.fwd h (omega arith) in
    record {
      takes = record {
        fwd = g.takes;
        direction_drop = fewer k _ _ r.direction_drop;
        error_drop = fewer k _ _ r.error_drop;
        ratelimit_drop = fewer k _ _ r.ratelimit_drop;
      };
      packets = omega (arith, g.packets_up);
      bytes = omega (arith, g.bytes_up);
    }
count-Sees k direction_dropped n s r h =
    let g =
      pair_add k s.direction_drop_bytes s.direction_drop_packets n 1 r.direction_drop h
        (omega arith) in
    record {
      takes = record {
        fwd = fewer k _ _ r.fwd;
        direction_drop = g.takes;
        error_drop = fewer k _ _ r.error_drop;
        ratelimit_drop = fewer k _ _ r.ratelimit_drop;
      };
      packets = omega (arith, g.packets_up);
      bytes = omega (arith, g.bytes_up);
    }
count-Sees k ratelimited n s r h =
    let g =
      pair_add k s.ratelimit_drop_bytes s.ratelimit_drop_packets n 1 r.ratelimit_drop h
        (omega arith) in
    record {
      takes = record {
        fwd = fewer k _ _ r.fwd;
        direction_drop = fewer k _ _ r.direction_drop;
        error_drop = fewer k _ _ r.error_drop;
        ratelimit_drop = g.takes;
      };
      packets = omega (arith, g.packets_up);
      bytes = omega (arith, g.bytes_up);
    }
count-Sees k failed n s r h =
    let g = pair_add k s.error_drop_bytes s.error_drop_packets n 1 r.error_drop h (omega arith) in
    record {
      takes = record {
        fwd = fewer k _ _ r.fwd;
        direction_drop = fewer k _ _ r.direction_drop;
        error_drop = g.takes;
        ratelimit_drop = fewer k _ _ r.ratelimit_drop;
      };
      packets = omega (arith, g.packets_up);
      bytes = omega (arith, g.bytes_up);
    }

-- What was counted and what waits.
unfoldable pub packets_total : ZmqOutput → ℕ
packets_total o = packets_seen o.stats + (o.pkts_num - o.heartbeat_num)

unfoldable pub bytes_total : ZmqOutput → ℕ
bytes_total o = bytes_seen o.stats + o.data_bytes

pub record Adds (k : ℕ) (o o' : ZmqOutput) (m n : ℕ) : Type 0 where
  pub takes : TakesAll k o'.stats
  pub packets : packets_total o' ≡ packets_total o + m
  pub bytes : bytes_total o' ≡ bytes_total o + n

pub settle_batch-Sees :
    (k : ℕ) (o : ZmqOutput) (good : Bool)
    → TakesAll (suc k) o.stats
    → IsBatch o
    → Sees k o.stats (settle_batch o good).stats (o.pkts_num - o.heartbeat_num) o.data_bytes
unfolding settle_batch data_num packets_seen bytes_seen
settle_batch-Sees k o true r b =
    let g =
      pair_add k o.stats.fwd_bytes o.stats.fwd_packets o.data_bytes (data_num o) r.fwd
        (omega (arith, b.counted, b.within)) (omega arith) in
    record {
      takes = record {
        fwd = g.takes;
        direction_drop = fewer k _ _ r.direction_drop;
        error_drop = fewer k _ _ r.error_drop;
        ratelimit_drop = fewer k _ _ r.ratelimit_drop;
      };
      packets = omega (arith, g.packets_up, b.beats, b.sized, b.within);
      bytes = omega (arith, g.bytes_up);
    }
settle_batch-Sees k o false r b =
    let g =
      pair_add k o.stats.error_drop_bytes o.stats.error_drop_packets o.data_bytes (data_num o)
        r.error_drop (omega (arith, b.counted, b.within)) (omega arith) in
    record {
      takes = record {
        fwd = fewer k _ _ r.fwd;
        direction_drop = fewer k _ _ r.direction_drop;
        error_drop = g.takes;
        ratelimit_drop = fewer k _ _ r.ratelimit_drop;
      };
      packets = omega (arith, g.packets_up, b.beats, b.sized, b.within);
      bytes = omega (arith, g.bytes_up);
    }
