-- ===== src/Stats.antt =====
-- cpworker/src/stats.c and stats.h: the byte and packet counters, each a number of units below the
-- carry limit beside a number of whole limits.
pub mod Laws
mod Examples
use cloud_probe.Prelude.{ℕ, ◌+◌, ◌-◌, ◌*◌, ◌/◌, ◌%◌, ◌^◌, u64, leb, if◌then◌else◌}

abbrev pub eib_in_bytes : ℕ
eib_in_bytes = 1024 * 1024 * 1024 * 1024 * 1024 * 1024

abbrev pub peta_in_packets : ℕ
peta_in_packets = 10_000_000_000_000_000

pub record BytesStats : Type 0 where
  pub bytes : ℕ
  pub eib : ℕ

pub record PacketsStats : Type 0 where
  pub packets : ℕ
  pub peta : ℕ

-- Each `+=` on a `uint64_t` wraps.
pub bytes_stats_add : BytesStats → ℕ → BytesStats
bytes_stats_add stat n =
    let new_eib = n / eib_in_bytes in
    let sum = u64 (stat.bytes + n % eib_in_bytes) in
    if leb eib_in_bytes sum
    then record { bytes = sum - eib_in_bytes; eib = u64 (stat.eib + u64 (new_eib + 1)) }
    else record { bytes = sum; eib = u64 (stat.eib + new_eib) }

pub bytes_stats_merge : BytesStats → BytesStats → BytesStats
bytes_stats_merge dst src =
    let total_bytes = u64 (dst.bytes + src.bytes) in
    let carry = total_bytes / eib_in_bytes in
    record { bytes = total_bytes % eib_in_bytes; eib = u64 (dst.eib + u64 (src.eib + carry)) }

pub packets_stats_add : PacketsStats → ℕ → PacketsStats
packets_stats_add stat n =
    let new_peta = n / peta_in_packets in
    let sum = u64 (stat.packets + n % peta_in_packets) in
    if leb peta_in_packets sum
    then record { packets = sum - peta_in_packets; peta = u64 (stat.peta + u64 (new_peta + 1)) }
    else record { packets = sum; peta = u64 (stat.peta + new_peta) }

pub packets_stats_merge : PacketsStats → PacketsStats → PacketsStats
packets_stats_merge dst src =
    let total_packets = u64 (dst.packets + src.packets) in
    let carry = total_packets / peta_in_packets in
    record {
      packets = total_packets % peta_in_packets;
      peta = u64 (dst.peta + u64 (src.peta + carry));
    }

-- `output_stats_t`
pub record OutputStats : Type 0 where
  pub fwd_bytes : BytesStats
  pub fwd_packets : PacketsStats
  pub direction_drop_bytes : BytesStats
  pub direction_drop_packets : PacketsStats
  pub error_drop_bytes : BytesStats
  pub error_drop_packets : PacketsStats
  pub ratelimit_drop_bytes : BytesStats
  pub ratelimit_drop_packets : PacketsStats
  pub heartbeat_packets : PacketsStats
