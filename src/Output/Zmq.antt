-- ===== src/Output/Zmq.antt =====
-- cpworker/src/output_zmq.c, output_zmq.h and mpls.h: packets are gathered in a batch, each with an
-- MPLS header behind its Ethernet header and VLAN tags, and a batch is one ZeroMQ message. `zmq_send`
-- is a parameter, on a state `W` of what is outside; the text of an error is left out. `records` is
-- the buffer from behind the batch header up to `batch_bufpos`; a `heartbeat_ms` below 0 does what 0
-- does.
pub mod Batch
pub mod Calls
pub mod Wire
pub mod Tally
pub mod Conserve
pub mod Beats
pub mod Feed
pub mod Stream
pub mod Run
pub mod Uuid
mod Examples
use cloud_probe.Prelude.{
  ℕ, zero, suc, ◌+◌, ◌-◌, ◌*◌, ◌/◌, ◌%◌, ◌^◌, List, [], ◌∷◌, ◌++◌, take, drop, slice, Bool, true,
  false, ltb, leb, ◌==◌, not, if◌then◌else◌, ◌&&◌, ◌||◌, Option, none, some, be16_at, put_be16, u8,
  u16, u32, u64,
}
use cloud_probe.Stats.{OutputStats, bytes_stats_add, packets_stats_add}
use cloud_probe.RateLimit.{Timeval, TokenBucket}
use cloud_probe.Packet.{PktDir, PktHdr}
use cloud_probe.Split.Parse.{is_vlan_ethertype}
use cloud_probe.Output.{
  output_frame_len, forwarded, direction_dropped, ratelimited, failed, count, is_unknown, throttled,
}
use cloud_probe.Output.Vxlan.{be32_bytes, direct_code}

abbrev pub max_frame_len : ℕ
max_frame_len = 65531

abbrev pub max_batch_buf_size : ℕ
max_batch_buf_size = 1048576

abbrev pub flush_max_num : ℕ
flush_max_num = 65535

-- `sizeof(zmq_pkt_batch_hdr_t)`
abbrev pub batch_hdr_size : ℕ
batch_hdr_size = 24

abbrev pub be16_bytes : ℕ → List ℕ
be16_bytes n = n / 256 % 256 ∷ n % 256 ∷ []

-- `error_info`
pub record ErrorInfo : Type 0 where
  pub first_pktsec : ℕ
  pub nb_drop_packets : ℕ
  pub nb_drop_batches : ℕ
  pub nb_too_small_packets : ℕ

-- `zmq_output_t`, with the fields of its `zmq_pkts_buf_t` and of the batch header.
pub record ZmqOutput : Type 0 where
  pub stats : OutputStats
  pub rate_limit_mbps : ℕ
  pub throttle : TokenBucket
  pub slice : ℕ
  pub service_tag : ℕ
  pub keybit : ℕ
  pub uuid : List ℕ
  pub pkts_num : ℕ
  pub records : List ℕ
  pub batch_bufpos : ℕ
  pub first_pktsec : ℕ
  pub heartbeat_num : ℕ
  pub data_bytes : ℕ
  pub heartbeat_ms : ℕ
  pub last_pkt_tv : Timeval
  pub error_info : ErrorInfo

-- The bytes of the header: the magic bit with the direction, the upper 8 bits of the tag, the lower 4
-- with the bottom bit, and 255.
pub make_mpls_hdr : ℕ → ℕ → List ℕ
make_mpls_hdr direct service_tag =
    (128 + direct % 16 * 8) ∷ service_tag / 16 % 256 ∷ (1 + service_tag % 16 * 16) ∷ 255 ∷ []

-- `htons` of the version, the number of packets, the key and the UUID.
pub batch_hdr : ZmqOutput → List ℕ
batch_hdr o = be16_bytes 2 ++ (be16_bytes o.pkts_num ++ (be32_bytes o.keybit ++ o.uuid))

pub flush_error_info : ErrorInfo → ErrorInfo
flush_error_info info = record info {
  first_pktsec = 0;
  nb_drop_packets = 0;
  nb_drop_batches = 0;
  nb_too_small_packets = 0;
}

pub check_error_info : ErrorInfo → ℕ → ErrorInfo
check_error_info info first_pktsec =
    if info.first_pktsec == 0
    then record info { first_pktsec = first_pktsec }
    else if ltb (info.first_pktsec + 5) first_pktsec
    then record (flush_error_info info) { first_pktsec = first_pktsec }
    else info

-- The offset of the payload from `offset` on, 0 where the tags are cut short. Each tag has four bytes.
pub l2_loop : ℕ → List ℕ → ℕ → ℕ → ℕ → ℕ
l2_loop zero pkt_data caplen offset ether_type = 0
l2_loop (suc f) pkt_data caplen offset ether_type =
    let rest = l2_loop f pkt_data caplen (offset + 4) (be16_at pkt_data (offset + 2)) in
    if is_vlan_ethertype ether_type then if ltb caplen (offset + 4) then 0 else rest else offset

pub l2_header_len : List ℕ → ℕ → ℕ
l2_header_len pkt_data caplen =
    if ltb caplen 14 then 0 else l2_loop caplen pkt_data caplen 14 (be16_at pkt_data 12)

-- `zmq_pkt_hdr_t`
pub pkt_hdr : Timeval → ℕ → ℕ → List ℕ
pkt_hdr ts caplen len =
    be32_bytes (u32 ts.tv_sec)
    ++ (be32_bytes (u32 ts.tv_usec) ++ (be32_bytes (u32 caplen) ++ be32_bytes (u32 len)))

-- The Ethernet header, the VLAN tags and the MPLS header as they are copied, `l2_len` bytes and four.
pub labelled_header : ZmqOutput → List ℕ → ℕ → PktDir → List ℕ
labelled_header o pkt_data l2_len direct =
    let vlan_total_size = l2_len - 14 in
    let has_vlan = ltb 0 vlan_total_size in
    let eth = take 14 pkt_data in
    let tags = slice pkt_data 14 vlan_total_size in
    (if has_vlan then eth ++ put_be16 tags (vlan_total_size - 2) 0x8847 else put_be16 eth 12 0x8847)
    ++ make_mpls_hdr (direct_code direct) o.service_tag

-- What is written behind the batch: the length, the packet header and the labelled frame.
pub packet_record : ZmqOutput → PktHdr → List ℕ → ℕ → ℕ → PktDir → List ℕ
packet_record o header pkt_data l2_len frame_len direct =
    let record_len = u16 (frame_len + 4) in
    be16_bytes record_len
    ++ (pkt_hdr header.ts record_len (header.len + 4)
        ++ (labelled_header o pkt_data l2_len direct ++ slice pkt_data l2_len (frame_len - l2_len)))

-- Zero addresses and the type 0xFFFF.
abbrev pub heartbeat_frame : List ℕ
heartbeat_frame = 0 ∷ 0 ∷ 0 ∷ 0 ∷ 0 ∷ 0 ∷ 0 ∷ 0 ∷ 0 ∷ 0 ∷ 0 ∷ 0 ∷ 255 ∷ 255 ∷ []

pub heartbeat_record : Timeval → List ℕ
heartbeat_record tv = be16_bytes 14 ++ (pkt_hdr tv 14 14 ++ heartbeat_frame)

-- The captured packets of a batch.
pub data_num : ZmqOutput → ℕ
data_num o = u16 (o.pkts_num + 2 ^ 16 - o.heartbeat_num)

-- The counters and the errors of a batch that was handed over, or not.
pub settle_batch : ZmqOutput → Bool → ZmqOutput
settle_batch o true =
    let s = o.stats in
    record o {
      stats = record s {
        fwd_bytes = bytes_stats_add s.fwd_bytes o.data_bytes;
        fwd_packets = packets_stats_add s.fwd_packets (data_num o);
        heartbeat_packets = packets_stats_add s.heartbeat_packets o.heartbeat_num;
      };
    }
settle_batch o false =
    let s = o.stats in
    record o {
      stats = record s {
        error_drop_bytes = bytes_stats_add s.error_drop_bytes o.data_bytes;
        error_drop_packets = packets_stats_add s.error_drop_packets (data_num o);
      };
      error_info = record o.error_info {
        nb_drop_batches = u64 (o.error_info.nb_drop_batches + 1);
        nb_drop_packets = u64 (o.error_info.nb_drop_packets + data_num o);
      };
    }

-- The batch is empty.
pub clear_batch : ZmqOutput → ZmqOutput
clear_batch o = record o {
  first_pktsec = 0;
  batch_bufpos = batch_hdr_size;
  records = [];
  pkts_num = 0;
  heartbeat_num = 0;
  data_bytes = 0;
}

-- What `zmq_send_packet` writes once there is room.
pub append_packet : ZmqOutput → PktHdr → List ℕ → ℕ → ℕ → PktDir → ZmqOutput
append_packet o header pkt_data l2_len frame_len direct = record o {
  first_pktsec = if o.first_pktsec == 0 then header.ts.tv_sec else o.first_pktsec;
  records = o.records ++ packet_record o header pkt_data l2_len frame_len direct;
  batch_bufpos = u32 (o.batch_bufpos + 18 + frame_len + 4);
  pkts_num = u16 (o.pkts_num + 1);
  data_bytes = u32 (o.data_bytes + frame_len);
  last_pkt_tv = header.ts;
}

pub append_heartbeat : ZmqOutput → Timeval → ZmqOutput
append_heartbeat o tv = record o {
  first_pktsec = if o.pkts_num == 0 then tv.tv_sec else o.first_pktsec;
  records = o.records ++ heartbeat_record tv;
  batch_bufpos = u32 (o.batch_bufpos + 32);
  pkts_num = u16 (o.pkts_num + 1);
  heartbeat_num = u16 (o.heartbeat_num + 1);
}

pub is_stale : ZmqOutput → ℕ → Bool
is_stale o now = ltb 0 o.pkts_num && (not (o.first_pktsec == 0) && ltb (o.first_pktsec + 1) now)

-- With the time of the packet that opens an empty batch.
pub open_batch : ZmqOutput → ℕ → ZmqOutput
open_batch o tv_sec = if o.pkts_num == 0 then record o { first_pktsec = tv_sec } else o

-- Whether the batch goes out before a packet of `record_len` bytes is added.
pub must_flush : ZmqOutput → ℕ → ℕ → Bool
must_flush o tv_sec record_len =
    leb flush_max_num o.pkts_num
    || ((not (o.first_pktsec == 0) && ltb (o.first_pktsec + 1) tv_sec)
        || ltb max_batch_buf_size (o.batch_bufpos + 2 + 16 + record_len))

pub zmq_frame_len : ℕ → ℕ → ℕ → ℕ
zmq_frame_len caplen slice l2_len =
    let frame_len = output_frame_len caplen slice max_frame_len in
    if ltb frame_len l2_len then l2_len else frame_len

-- Whether a heartbeat may be due, by the second, and whether it is, by the clock.
pub coarse_due : ZmqOutput → ℕ → Bool
coarse_due o now = leb (o.heartbeat_ms + o.last_pkt_tv.tv_sec * 1000) (now * 1000 + 1000)

-- The quotient of the microseconds is rounded towards 0.
pub heartbeat_due : ZmqOutput → Timeval → Bool
heartbeat_due o tv =
    let last = o.last_pkt_tv in
    leb (o.heartbeat_ms + last.tv_sec * 1000 + (last.tv_usec - tv.tv_usec) / 1000)
      (tv.tv_sec * 1000 + (tv.tv_usec - last.tv_usec) / 1000)

module _ {W : Type 0} (zmq_send : W → List ℕ → W × Bool) where
  pub zmq_flush_packet : ZmqOutput → W → ZmqOutput × W
  zmq_flush_packet o w =
      let ready = record o { error_info = check_error_info o.error_info o.first_pktsec } in
      let (w', good) = zmq_send w (batch_hdr o ++ o.records) in
      (clear_batch (settle_batch ready good), w')

  pub zmq_flush_if_stale : ZmqOutput → W → ℕ → ZmqOutput × W
  zmq_flush_if_stale o w now = if is_stale o now then zmq_flush_packet o w else (o, w)

  -- The batch with room for a packet, flushed if need be.
  pub make_room : ZmqOutput → W → ℕ → ℕ → ZmqOutput × W
  make_room o w tv_sec record_len =
      let (o', w') = zmq_flush_packet o w in
      if must_flush o tv_sec record_len then (record o' { first_pktsec = tv_sec }, w') else (o, w)

  -- Where the packet passes its checks.
  pub add_packet : ZmqOutput → W → PktHdr → List ℕ → ℕ → ℕ → PktDir → ZmqOutput × W
  add_packet o w header pkt_data l2_len frame_len direct =
      let (o', w') =
        make_room (open_batch o header.ts.tv_sec) w header.ts.tv_sec (u16 (frame_len + 4)) in
      (append_packet o' header pkt_data l2_len frame_len direct, w')

  -- A packet that is not added.
  pub drop_packet : ZmqOutput → W → ℕ → ZmqOutput × W × Bool
  drop_packet o w now = let (o', w') = zmq_flush_if_stale o w now in (o', w', false)

  -- The flag is `return 0`.
  pub zmq_send_packet :
      (ℕ → ℕ → ℕ) → ZmqOutput → W → PktHdr → List ℕ → PktDir → ZmqOutput × W × Bool
  zmq_send_packet part o w header pkt_data direct =
      let now = header.ts.tv_sec in
      let l2_len = l2_header_len pkt_data (output_frame_len header.caplen 0 max_frame_len) in
      let frame_len = zmq_frame_len header.caplen o.slice l2_len in
      let (throttle, pass) = throttled part o.rate_limit_mbps o.throttle frame_len header in
      let tried = record o { throttle = throttle } in
      let (o', w') = add_packet tried w header pkt_data l2_len frame_len direct in
      if l2_len == 0
      then drop_packet
          (record o {
            stats = count failed header.caplen o.stats;
            error_info = record o.error_info {
              nb_too_small_packets = u64 (o.error_info.nb_too_small_packets + 1);
            };
          })
          w now
      else if is_unknown direct
      then drop_packet (record o { stats = count direction_dropped frame_len o.stats }) w now
      else if pass
      then (o', w', true)
      else drop_packet (record tried { stats = count ratelimited frame_len o.stats }) w now

  pub zmq_send_heartbeat_packet : ZmqOutput → W → Timeval → ZmqOutput × W
  zmq_send_heartbeat_packet o w tv =
      let full = ltb max_batch_buf_size (o.batch_bufpos + 2 + 16 + 14) in
      let (o', w') = if full then zmq_flush_packet o w else (o, w) in
      let (sent, w'') = zmq_flush_packet (append_heartbeat o' tv) w' in
      (record sent { last_pkt_tv = tv }, w'')

  -- `now_tv` is what `gettimeofday` gives.
  pub zmq_heartbeat : ZmqOutput → W → ℕ → Timeval → ZmqOutput × W
  zmq_heartbeat o w now now_tv =
      let (o', w') = zmq_flush_if_stale o w now in
      if ltb 0 o'.heartbeat_ms && (coarse_due o' now && heartbeat_due o' now_tv)
      then zmq_send_heartbeat_packet o' w' now_tv
      else (o', w')

  -- What is still in the batch goes out.
  pub zmq_output_destroy : ZmqOutput → W → ZmqOutput × W
  zmq_output_destroy o w = if ltb 0 o.pkts_num then zmq_flush_packet o w else (o, w)
