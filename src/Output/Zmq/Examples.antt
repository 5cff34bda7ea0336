-- ===== src/Output/Zmq/Examples.antt =====
-- Packets through the ZeroMQ output (cpworker/src/output_zmq.c).
use cloud_probe.Prelude.{
  ℕ, ltb, ◌-◌, ◌≡◌, ◌*◌, ◌+◌, refl, List, [], ◌∷◌, ◌++◌, slice, replicate, Bool, true, ◌==◌,
  if◌then◌else◌, some, arith,
}
use cloud_probe.Packet.{PktHdr, incoming}
use cloud_probe.Output.{output_frame_len}
use cloud_probe.Output.Counts.{packets_seen, bytes_seen}
use cloud_probe.Output.Samples.{fresh, floor_share, full, short_header, zeros, no_bytes, no_packets}
use cloud_probe.Output.Zmq.{
  ZmqOutput, max_frame_len, l2_header_len, zmq_frame_len, zmq_send_packet, zmq_heartbeat,
  zmq_output_destroy,
}
use cloud_probe.Output.Zmq.Batch.{Framed-nil}
use cloud_probe.Output.Zmq.Calls.{IsBatch, zmq_calls-IsBatch}
use cloud_probe.Output.Zmq.Tally.{Takes, Adds, packets_total, bytes_total}
use cloud_probe.Output.Zmq.Conserve.{zmq_send_packet-Adds}
use cloud_probe.Output.Zmq.Beats.{zmq_heartbeat-Adds}
use cloud_probe.Output.Zmq.Run.{Call, send, beat}
use cloud_probe.Output.Zmq.Uuid.{uuid_to_bytes, ReadsHex, uuid_to_bytes-bytes_to_uuid}
use cloud_probe.Receiver.{bytes_to_uuid, hex_char}

abbrev zmq_output : ZmqOutput
zmq_output = record {
  stats = fresh;
  rate_limit_mbps = 1;
  throttle = full;
  slice = 20;
  service_tag = 0x123;
  keybit = 0x123;
  uuid = replicate 16 9;
  pkts_num = 0;
  records = [];
  batch_bufpos = 24;
  first_pktsec = 0;
  heartbeat_num = 0;
  data_bytes = 0;
  heartbeat_ms = 1000;
  last_pkt_tv = record { tv_sec = 1; tv_usec = 0 };
  error_info = record {
    first_pktsec = 0;
    nb_drop_packets = 0;
    nb_drop_batches = 0;
    nb_too_small_packets = 0;
  };
}

-- A socket that keeps the messages.
abbrev keep_message : List (List ℕ) → List ℕ → List (List ℕ) × Bool
keep_message w m = (m ∷ w, true)

new-IsBatch : IsBatch zmq_output
new-IsBatch = record {
  at_end = refl;
  within = omega arith;
  sized = omega arith;
  beats = omega arith;
  counted = omega arith;
  little = omega arith;
  framed = Framed-nil;
}

few : Takes 3 no_bytes no_packets
few = record {
  bytes_normal = record { low = omega arith };
  packets_normal = record { low = omega arith };
  bytes_room = omega arith;
  packets_room = omega arith;
}

two : Takes 2 no_bytes no_packets
two = record {
  bytes_normal = record { low = omega arith };
  packets_normal = record { low = omega arith };
  bytes_room = omega arith;
  packets_room = omega arith;
}

zmq_send_packet-Adds_example :
    let l2 = l2_header_len zeros (output_frame_len 60 0 max_frame_len) in
    Adds 0 zmq_output
      (zmq_send_packet keep_message floor_share zmq_output [] short_header zeros incoming).0
      1
      (if l2 == 0 then 60 else zmq_frame_len 60 20 l2)
zmq_send_packet-Adds_example =
    zmq_send_packet-Adds keep_message floor_share zmq_output [] short_header zeros incoming
      new-IsBatch
      (record { fwd = two; direction_drop = two; error_drop = two; ratelimit_drop = two })
      (omega arith)

zmq_heartbeat-Adds_example :
    let gone = (zmq_output_destroy keep_message zmq_output []).0 in
    Adds 0 zmq_output
      (zmq_heartbeat keep_message zmq_output [] 7 (record { tv_sec = 7; tv_usec = 5 })).0
      0
      0
    × (packets_seen gone.stats ≡ packets_total zmq_output)
    × (bytes_seen gone.stats ≡ bytes_total zmq_output)
    × (gone.pkts_num ≡ 0)
zmq_heartbeat-Adds_example =
    zmq_heartbeat-Adds keep_message zmq_output [] 7 (record { tv_sec = 7; tv_usec = 5 }) new-IsBatch
      (record { fwd = few; direction_drop = few; error_drop = few; ratelimit_drop = few })

zmq_calls-IsBatch_example :
    IsBatch (zmq_send_packet keep_message floor_share zmq_output [] short_header zeros incoming).0
    × IsBatch (zmq_heartbeat keep_message zmq_output [] 7 (record { tv_sec = 7; tv_usec = 5 })).0
zmq_calls-IsBatch_example =
    zmq_calls-IsBatch keep_message floor_share zmq_output [] short_header zeros incoming 7
      (record { tv_sec = 7; tv_usec = 5 }) new-IsBatch (omega arith)

-- An Ethernet header with one VLAN tag and two bytes behind it.
abbrev tagged : List ℕ
tagged = replicate 12 5 ++ (0x81 ∷ 0 ∷ 0 ∷ 7 ∷ 8 ∷ 0 ∷ 1 ∷ 2 ∷ [])

-- A capture file as the list of its packets.
abbrev add_packet_to : List (PktHdr × List ℕ) → PktHdr → List ℕ → List (PktHdr × List ℕ)
add_packet_to file header bytes = file ++ (header, bytes) ∷ []

abbrev calls : List Call
calls = send short_header zeros incoming ∷ beat 7 (record { tv_sec = 7; tv_usec = 5 }) ∷ []

-- Two digits of which each is a number up to 9 or a small letter.
abbrev digit : ℕ → ℕ
digit c = if ltb c b'a' then c - b'0' else c - b'a' + 10

abbrev two_digits : List ℕ → ℕ × ℕ
two_digits [] = (0, 0)
two_digits (a ∷ []) = (digit a, 1)
two_digits (a ∷ b ∷ cs) = (digit a * 16 + digit b, 2)

two_digits-ReadsHex : ReadsHex two_digits
unfolding ReadsHex hex_char
two_digits-ReadsHex x y h k = ground arith

abbrev some_uuid : List ℕ
some_uuid = 1 ∷ 35 ∷ 69 ∷ 103 ∷ 137 ∷ 171 ∷ 205 ∷ 239 ∷ 0 ∷ 17 ∷ 34 ∷ 51 ∷ 68 ∷ 85 ∷ 102 ∷ 255 ∷ []

uuid_to_bytes-bytes_to_uuid_example :
    uuid_to_bytes two_digits (bytes_to_uuid some_uuid) ≡ some some_uuid
uuid_to_bytes-bytes_to_uuid_example =
    uuid_to_bytes-bytes_to_uuid two_digits some_uuid two_digits-ReadsHex refl (omega arith)
