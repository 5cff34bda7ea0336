-- ===== src/Stats/Examples.antt =====
-- The laws of the counters at concrete numbers.
use cloud_probe.Prelude.{◌+◌, ◌≡◌, arith}
use cloud_probe.Stats.{BytesStats, PacketsStats, bytes_stats_add}
use cloud_probe.Stats.Laws.{bytes_value, BytesIsNormal, PacketsIsNormal, bytes_stats_add-value}

abbrev nearly_full : BytesStats
nearly_full = record { bytes = 1152921504606846970; eib = 1 }

abbrev many : PacketsStats
many = record { packets = 9999999999999999; peta = 2 }

nearly_full-BytesIsNormal : BytesIsNormal nearly_full
nearly_full-BytesIsNormal = record { low = omega arith }

many-PacketsIsNormal : PacketsIsNormal many
many-PacketsIsNormal = record { low = omega arith }

bytes_stats_add-value_example :
    BytesIsNormal (bytes_stats_add nearly_full 1500)
    × (bytes_value (bytes_stats_add nearly_full 1500) ≡ bytes_value nearly_full + 1500)
bytes_stats_add-value_example =
    bytes_stats_add-value nearly_full nearly_full-BytesIsNormal 1500 (omega arith) (omega arith)
