-- ===== src/Output/Gre/Examples.antt =====
-- A packet through the GRE output (cpworker/src/output_gre.c).
use cloud_probe.Prelude.{[], arith}
use cloud_probe.Packet.{incoming}
use cloud_probe.Output.{output_frame_len}
use cloud_probe.Output.Counts.{IsCounted}
use cloud_probe.Output.Samples.{
  fresh, fresh-HasRoom, floor_share, full, short_header, zeros, log_all,
}
use cloud_probe.Output.Gre.{GreOutput, new_buf, gre_send_packet, max_frame_len}
use cloud_probe.Output.Gre.Sends.{gre_send_packet-IsCounted}

abbrev gre_output : GreOutput
gre_output = record {
  stats = fresh;
  rate_limit_mbps = 1;
  throttle = full;
  slice = 0;
  service_tag = 0x1000_0007;
  buf = new_buf 7;
  error_info = record {
    first_pktsec = 0;
    nb_nobufs_drops = 0;
    nb_partial_sends = 0;
    nb_other_send_error_drops = 0;
  };
}

gre_send_packet-IsCounted_example :
    let (o', _, good) =
      gre_send_packet log_all floor_share gre_output [] short_header zeros incoming in
    IsCounted fresh o'.stats (output_frame_len 60 0 max_frame_len) good
gre_send_packet-IsCounted_example =
    gre_send_packet-IsCounted log_all floor_share gre_output [] short_header zeros incoming
      fresh-HasRoom (omega arith)
