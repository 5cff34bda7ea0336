-- ===== src/Stats/Laws.antt =====
-- What a two-word counter of cpworker/src/stats.c counts.
use cloud_probe.Prelude.{ℕ, ◌+◌, ◌*◌, ◌/◌, ◌^◌, ◌<◌, ◌≤◌, ◌≡◌, arith}
use cloud_probe.Stats.{
  eib_in_bytes, peta_in_packets, BytesStats, PacketsStats, bytes_stats_add, bytes_stats_merge,
  packets_stats_add, packets_stats_merge,
}

-- The number that a counter stands for.
pub bytes_value : BytesStats → ℕ
bytes_value s = s.eib * eib_in_bytes + s.bytes

pub packets_value : PacketsStats → ℕ
packets_value s = s.peta * peta_in_packets + s.packets

-- The low word stays below the carry limit.
pub record BytesIsNormal (s : BytesStats) : Type 0 where
  pub low : s.bytes < eib_in_bytes

pub record PacketsIsNormal (s : PacketsStats) : Type 0 where
  pub low : s.packets < peta_in_packets

module _ (s : BytesStats) (v : BytesIsNormal s) where
  -- On a counter whose low word is below 1 EiB, adding n bytes (n below 2 ^ 64) keeps the low word
  -- below 1 EiB, and the counter's value grows by exactly n as long as the count of whole EiB
  -- stays below 2 ^ 64.
  pub bytes_stats_add-value :
      (n : ℕ)
      → n < 2 ^ 64
      → s.eib + n / eib_in_bytes + 1 < 2 ^ 64
      → BytesIsNormal (bytes_stats_add s n)
        × (bytes_value (bytes_stats_add s n) ≡ bytes_value s + n)
  unfolding bytes_value bytes_stats_add
  bytes_stats_add-value n hn fits = ground arith

  -- Merging two counters whose low words are below 1 EiB adds their values, and the low word of the
  -- result is below 1 EiB, as long as the counts of whole EiB add up to less than 2 ^ 64 - 1.
  pub bytes_stats_merge-value :
      (t : BytesStats)
      → BytesIsNormal t
      → s.eib + t.eib + 1 < 2 ^ 64
      → BytesIsNormal (bytes_stats_merge s t)
        × (bytes_value (bytes_stats_merge s t) ≡ bytes_value s + bytes_value t)
  unfolding bytes_value bytes_stats_merge
  bytes_stats_merge-value t w fits = ground arith

module _ (s : PacketsStats) (v : PacketsIsNormal s) where
  -- On a counter whose low word is below 10 ^ 16, adding n packets (n below 2 ^ 64) keeps the low
  -- word below 10 ^ 16, and the counter's value grows by exactly n as long as the high word stays
  -- below 2 ^ 64.
  pub packets_stats_add-value :
      (n : ℕ)
      → n < 2 ^ 64
      → s.peta + n / peta_in_packets + 1 < 2 ^ 64
      → PacketsIsNormal (packets_stats_add s n)
        × (packets_value (packets_stats_add s n) ≡ packets_value s + n)
  unfolding packets_value packets_stats_add
  packets_stats_add-value n hn fits = ground arith

  -- Merging two packet counters whose low words are below 10 ^ 16 adds their values, and the low
  -- word of the result is below 10 ^ 16, as long as the high words add up to less than 2 ^ 64 - 1.
  pub packets_stats_merge-value :
      (t : PacketsStats)
      → PacketsIsNormal t
      → s.peta + t.peta + 1 < 2 ^ 64
      → PacketsIsNormal (packets_stats_merge s t)
        × (packets_value (packets_stats_merge s t) ≡ packets_value s + packets_value t)
  unfolding packets_value packets_stats_merge
  packets_stats_merge-value t w fits = ground arith

-- An amount below the carry limit carries at most one.
pub bytes_stats_add-eib :
    (s : BytesStats) (n : ℕ) → n < eib_in_bytes → (bytes_stats_add s n).eib ≤ s.eib + 1
unfolding bytes_stats_add
bytes_stats_add-eib s n h = ground arith

pub packets_stats_add-peta :
    (s : PacketsStats) (n : ℕ) → n < peta_in_packets → (packets_stats_add s n).peta ≤ s.peta + 1
unfolding packets_stats_add
packets_stats_add-peta s n h = ground arith
