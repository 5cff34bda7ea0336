-- ===== src/Output/File/Examples.antt =====
-- A packet through the file output (cpworker/src/output_file.c).
use cloud_probe.Prelude.{ℕ, ◌<◌, ◌⊎◌, ◌≡◌, ◌≤◌, List, [], ◌∷◌, if◌then◌else◌, arith}
use cloud_probe.Packet.{PktHdr, incoming}
use cloud_probe.Output.Counts.{IsCounted}
use cloud_probe.Output.Samples.{fresh, fresh-HasRoom, floor_share, full, short_header, zeros}
use cloud_probe.Output.File.{FileOutput, file_write_packet, file_output_snaplen}
use cloud_probe.Output.File.Records.{IsCut, file_write_packet-IsCounted}

abbrev file_output : FileOutput
file_output = record { stats = fresh; rate_limit_mbps = 1; throttle = full; slice = 40 }

-- A file that keeps the headers of its records.
abbrev keep_header : List PktHdr → PktHdr → List ℕ → List PktHdr
keep_header w header pkt_data = header ∷ w

file_write_packet-IsCounted_example :
    let (o', w', good) =
      file_write_packet keep_header floor_share file_output [] short_header zeros incoming in
    let file_snaplen = file_output_snaplen 65535 40 in
    (n : ℕ) × IsCut 40 short_header.caplen n
    × IsCounted fresh o'.stats n good
    × (w' ≡ (if good then keep_header [] (record short_header { caplen = n }) zeros else []))
    × IsCut 40 65535 file_snaplen
    × ((n ≤ file_snaplen) ⊎ (65535 < short_header.caplen))
file_write_packet-IsCounted_example =
    file_write_packet-IsCounted keep_header floor_share file_output [] short_header zeros incoming
      65535 fresh-HasRoom (omega arith)
