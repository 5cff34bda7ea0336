-- ===== src/Output/Examples.antt =====
-- One packet at each output.
use cloud_probe.Prelude.{
  ◌++◌, ◌≤◌, ◌≡◌, take, drop, u32, length-replicate, ℕ, ◌*◌, List, [], ◌∷◌, replicate, true, false,
  length, arith,
}
use cloud_probe.Packet.{incoming}
use cloud_probe.Output.{output_frame_len}
use cloud_probe.Output.Counts.{IsCounted}
use cloud_probe.Output.Samples.{
  fresh, fresh-HasRoom, floor_share, full, short_header, zeros, log_all,
}
use cloud_probe.Output.Vxlan.{
  VxlanOutput, vxlan_send_packet, max_frame_len, bufsize, datagram_len, fill_buf, be32_bytes,
}
use cloud_probe.Output.Vxlan.Datagram.{fill_buf-datagram}
use cloud_probe.Output.Vxlan.Sends.{vxlan_send_packet-IsCounted}

abbrev vxlan_output : VxlanOutput
vxlan_output = record {
  stats = fresh;
  rate_limit_mbps = 1;
  throttle = full;
  slice = 0;
  vni_version = 2;
  vni = 77;
  capture_time = false;
  buf = replicate 100 0;
  max_payload_size = 10;
  recalculate_checksum = true;
  error_info = record {
    first_pktsec = 0;
    nb_nobufs_drops = 0;
    nb_partial_sends = 0;
    nb_other_send_error_drops = 0;
  };
}

vxlan_send_packet-IsCounted_example :
    let (o', _, good) =
      vxlan_send_packet log_all floor_share vxlan_output [] short_header zeros incoming in
    IsCounted fresh o'.stats (output_frame_len 60 0 max_frame_len) good
vxlan_send_packet-IsCounted_example =
    vxlan_send_packet-IsCounted log_all floor_share vxlan_output [] short_header zeros incoming
      fresh-HasRoom (omega arith)

abbrev full_buffer : List ℕ
full_buffer = replicate 65551 0

full_buffer-length : length full_buffer ≡ 65551
full_buffer-length = length-replicate {A = ℕ} 65551 0

abbrev timed_output : VxlanOutput
timed_output = record vxlan_output { buf = full_buffer; capture_time = true; vni_version = 1 }

fill_buf-datagram_example :
    (length (fill_buf timed_output short_header.ts (1 ∷ 2 ∷ 3 ∷ []) incoming) ≡ bufsize)
    × (datagram_len timed_output (1 ∷ 2 ∷ 3 ∷ []) ≤ bufsize)
    × (drop 8 (
          take
            (datagram_len timed_output (1 ∷ 2 ∷ 3 ∷ []))
            (fill_buf timed_output short_header.ts (1 ∷ 2 ∷ 3 ∷ []) incoming))
        ≡ (1 ∷ 2 ∷ 3 ∷ []) ++ (be32_bytes (u32 5) ++ be32_bytes (u32 (0 * 1000))))
fill_buf-datagram_example =
    fill_buf-datagram timed_output short_header.ts (1 ∷ 2 ∷ 3 ∷ []) incoming full_buffer-length
      (omega arith)
