-- ===== src/Output/Samples.antt =====
-- A packet, counters, a bucket and a socket for the tests of the outputs (cpworker/src/output.h).
use cloud_probe.Prelude.{ℕ, ◌*◌, ◌/◌, List, ◌∷◌, replicate, length, arith}
use cloud_probe.Stats.{BytesStats, PacketsStats, OutputStats}
use cloud_probe.RateLimit.{TokenBucket}
use cloud_probe.Packet.{PktHdr}
use cloud_probe.Output.Counts.{TakesOne, HasRoom}
use cloud_probe.Output.Vxlan.{SendResult, sent}

abbrev pub no_bytes : BytesStats
no_bytes = record { bytes = 0; eib = 0 }

abbrev pub no_packets : PacketsStats
no_packets = record { packets = 0; peta = 0 }

abbrev pub fresh : OutputStats
fresh = record {
  fwd_bytes = no_bytes;
  fwd_packets = no_packets;
  direction_drop_bytes = no_bytes;
  direction_drop_packets = no_packets;
  error_drop_bytes = no_bytes;
  error_drop_packets = no_packets;
  ratelimit_drop_bytes = no_bytes;
  ratelimit_drop_packets = no_packets;
  heartbeat_packets = no_packets;
}

pub empty-TakesOne : TakesOne no_bytes no_packets
empty-TakesOne = record {
  bytes_normal = record { low = omega arith };
  packets_normal = record { low = omega arith };
  bytes_room = omega arith;
  packets_room = omega arith;
}

pub fresh-HasRoom : HasRoom fresh
fresh-HasRoom = record {
  fwd = empty-TakesOne;
  direction_drop = empty-TakesOne;
  error_drop = empty-TakesOne;
  ratelimit_drop = empty-TakesOne;
}

abbrev pub floor_share : ℕ → ℕ → ℕ
floor_share us rate = us * rate / 1_000_000

abbrev pub full : TokenBucket
full = record {
  rate_bps = 1_000_000;
  capacity = 1_000_000;
  tokens = 1_000_000;
  last_ts = record { tv_sec = 0; tv_usec = 0 };
}

abbrev pub short_header : PktHdr
short_header = record { ts = record { tv_sec = 5; tv_usec = 0 }; caplen = 60; len = 60 }

abbrev pub zeros : List ℕ
zeros = replicate 60 0

-- A socket that takes all and keeps it.
abbrev pub log_all : List (List ℕ) → List ℕ → List (List ℕ) × SendResult
log_all w d = (d ∷ w, sent (length d))
