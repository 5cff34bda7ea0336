-- ===== src/Output/Zmq/Stream.antt =====
-- The frames that go into the ZeroMQ output (cpworker/src/output_zmq.c), and what its receiver
-- (cptools/recvzmq/main.c) makes of its messages.
use cloud_probe.Prelude.{
  ℕ, ◌+◌, ◌^◌, ◌<◌, ◌≤◌, ◌≡◌, ◌∙◌, sym, ap, refl, List, [], ◌∷◌, ◌++◌, length, Bool, true,
  if◌then◌else◌, ◌==◌, be16_at, arith, if_both, length-append, append_assoc, append-nil, u16,
}
use mathlib.Core.Path.{subst}
use cloud_probe.Prelude.Outcome.{ok}
use cloud_probe.RateLimit.{Timeval}
use cloud_probe.Packet.{PktDir, PktHdr}
use cloud_probe.Output.{output_frame_len, is_unknown, throttled}
use cloud_probe.Output.Zmq.{
  ZmqOutput, max_frame_len, l2_header_len, zmq_frame_len, packet_record, batch_hdr, append_packet,
  append_heartbeat, clear_batch, settle_batch, open_batch, must_flush, is_stale, zmq_flush_packet,
  zmq_flush_if_stale, make_room, add_packet, drop_packet, zmq_send_packet,
}
use cloud_probe.Output.Zmq.Calls.{IsBatch, zmq_frame_len_ok, make_room-IsBatch}
use cloud_probe.Receiver.{receive, handle_zmq_msg}
use cloud_probe.Receiver.Reading.{
  Frame, IsFrame, encode, encode_all, AllFrames, dump_all, dump_all-append, handle_zmq_msg_lem,
  receive_snoc,
}
use cloud_probe.Output.Zmq.Feed.{
  sent_frame, sent_heartbeat, heartbeat_record-encode, heartbeat-IsFrame, packet_record-encode,
}

-- A socket that takes every message, and keeps them in order.
abbrev pub keep_in_order : List (List ℕ) → List ℕ → List (List ℕ) × Bool
keep_in_order w m = (w ++ m ∷ [], true)

encode_all-snoc :
    (fs : List Frame) (f : Frame) → encode_all (fs ++ f ∷ []) ≡ encode_all fs ++ encode f
encode_all-snoc [] f = append-nil (encode f)
encode_all-snoc (g ∷ fs) f =
    ap (λ b. encode g ++ b) (encode_all-snoc fs f)
    ∙ sym (append_assoc (encode g) (encode_all fs) (encode f))

AllFrames-snoc : (fs : List Frame) (f : Frame) → AllFrames fs → IsFrame f → AllFrames (fs ++ f ∷ [])
AllFrames-snoc [] f a h = (h, tt)
AllFrames-snoc (g ∷ fs) f (p, a) h = (p, AllFrames-snoc fs f a h)

module _ {W : Type 0} (pcap_dump : W → PktHdr → List ℕ → W) (v : W) (tag : ℕ) where
  -- Of the frames, the receiver has written the first from the messages, and the others wait in the
  -- batch.
  pub record Feeds (o : ZmqOutput) (w : List (List ℕ)) (fs : List Frame) : Type 0 where
    pub sent : List Frame
    pub waiting : List Frame
    pub split : sent ++ waiting ≡ fs
    pub delivered : receive pcap_dump true w v ≡ (dump_all pcap_dump sent v, ok tt)
    pub in_batch : o.records ≡ encode_all waiting
    pub number : o.pkts_num ≡ length waiting
    pub frames : AllFrames waiting
    pub uuid : length o.uuid ≡ 16
    pub tagged : o.service_tag ≡ tag

  pub Feeds-same :
      (o p : ZmqOutput) (w : List (List ℕ)) (fs : List Frame)
      → Feeds o w fs
      → p.records ≡ o.records
      → p.pkts_num ≡ o.pkts_num
      → p.uuid ≡ o.uuid
      → p.service_tag ≡ o.service_tag
      → Feeds p w fs
  Feeds-same o p w fs f a b c d = record {
    sent = f.sent;
    waiting = f.waiting;
    split = f.split;
    delivered = f.delivered;
    in_batch = a ∙ f.in_batch;
    number = b ∙ f.number;
    frames = f.frames;
    uuid = ap length c ∙ f.uuid;
    tagged = d ∙ f.tagged;
  }

  pub flush-Feeds :
      (o : ZmqOutput) (w : List (List ℕ)) (fs : List Frame)
      → IsBatch o
      → Feeds o w fs
      → let r = zmq_flush_packet keep_in_order o w in Feeds r.0 r.1 fs
  unfolding zmq_flush_packet clear_batch settle_batch batch_hdr
  flush-Feeds o w fs b f = record {
    sent = fs;
    waiting = [];
    split = append-nil fs;
    delivered =
        let long : length (batch_hdr o) ≡ 24 = omega (arith, f.uuid) in
        let count : be16_at (batch_hdr o) 2 ≡ length f.waiting =
          omega (arith, f.number, b.sized, b.within) in
        let small : length (batch_hdr o ++ encode_all f.waiting) < 2 ^ 64 = omega (
          arith,
          length-append (batch_hdr o) (encode_all f.waiting),
          ap length f.in_batch,
          b.at_end,
          b.within,
        ) in
        let handled =
          handle_zmq_msg_lem pcap_dump (batch_hdr o) f.waiting (dump_all pcap_dump f.sent v) long
            count f.frames small in
        let joined = sym (dump_all-append pcap_dump f.sent f.waiting v) in
        receive_snoc pcap_dump w (batch_hdr o ++ o.records) v (dump_all pcap_dump f.sent v)
          (dump_all pcap_dump fs v) f.delivered
          (ap (λ m. handle_zmq_msg pcap_dump true (batch_hdr o ++ m) (dump_all pcap_dump f.sent v))
              f.in_batch
            ∙ handled
            ∙ ap (λ (x : W). (x, ok tt)) (joined ∙ ap (λ l. dump_all pcap_dump l v) f.split));
    in_batch = refl;
    number = refl;
    frames = tt;
    uuid = f.uuid;
    tagged = f.tagged;
  }

  pub flush_if_stale-Feeds :
      (o : ZmqOutput) (w : List (List ℕ)) (now : ℕ) (fs : List Frame)
      → IsBatch o
      → Feeds o w fs
      → let r = zmq_flush_if_stale keep_in_order o w now in Feeds r.0 r.1 fs
  unfolding zmq_flush_if_stale
  flush_if_stale-Feeds o w now fs b f =
      if_both (λ (r : ZmqOutput × List (List ℕ)). Feeds r.0 r.1 fs) (is_stale o now)
        (λ _. flush-Feeds o w fs b f) (λ _. f)

  make_room-Feeds :
      (o : ZmqOutput) (w : List (List ℕ)) (t n : ℕ) (fs : List Frame)
      → IsBatch o
      → Feeds o w fs
      → let r = make_room keep_in_order o w t n in Feeds r.0 r.1 fs
  unfolding make_room
  make_room-Feeds o w t n fs b f =
      if_both (λ (r : ZmqOutput × List (List ℕ)). Feeds r.0 r.1 fs) (must_flush o t n)
        (λ _. Feeds-same _ _ _ fs (flush-Feeds o w fs b f) refl refl refl refl) (λ _. f)

  -- A record more in the batch.
  Feeds-snoc :
      (o p : ZmqOutput) (w : List (List ℕ)) (frame : Frame) (fs : List Frame)
      → Feeds o w fs
      → IsFrame frame
      → p.records ≡ o.records ++ encode frame
      → p.pkts_num ≡ o.pkts_num + 1
      → p.uuid ≡ o.uuid
      → p.service_tag ≡ o.service_tag
      → Feeds p w (fs ++ frame ∷ [])
  Feeds-snoc o p w frame fs f good a b c d = record {
    sent = f.sent;
    waiting = f.waiting ++ frame ∷ [];
    split = sym (append_assoc f.sent f.waiting (frame ∷ [])) ∙ ap (λ l. l ++ frame ∷ []) f.split;
    delivered = f.delivered;
    in_batch = a ∙ ap (λ r. r ++ encode frame) f.in_batch ∙ sym (encode_all-snoc f.waiting frame);
    number = omega (arith, f.number, length-append f.waiting (frame ∷ []));
    frames = AllFrames-snoc f.waiting frame f.frames good;
    uuid = ap length c ∙ f.uuid;
    tagged = d ∙ f.tagged;
  }

  append_packet-Feeds :
      (o : ZmqOutput) (w : List (List ℕ)) (header : PktHdr) (p : List ℕ) (caplen l2 n : ℕ)
      (d : PktDir) (fs : List Frame)
      → IsBatch o
      → Feeds o w fs
      → l2_header_len p caplen ≡ l2
      → 14 ≤ l2
      → l2 ≤ n
      → n ≤ length p
      → n ≤ max_frame_len
      → Feeds (append_packet o header p l2 n d) w (fs ++ sent_frame tag header p l2 n d ∷ [])
  unfolding append_packet
  append_packet-Feeds o w header p caplen l2 n d fs b f q h k m small =
      let frame = sent_frame tag header p l2 n d in
      let (same, good) =
        subst
          (λ t.
            (packet_record o header p l2 n d ≡ encode (sent_frame t header p l2 n d))
            × IsFrame (sent_frame t header p l2 n d))
          f.tagged (packet_record-encode o header p caplen l2 n d q h k m small) in
      Feeds-snoc o _ w frame fs f good (ap (λ (r : List ℕ). o.records ++ r) same)
        (omega (arith, b.sized, b.within)) refl refl

  pub append_heartbeat-Feeds :
      (o : ZmqOutput) (w : List (List ℕ)) (tv : Timeval) (fs : List Frame)
      → IsBatch o
      → Feeds o w fs
      → Feeds (append_heartbeat o tv) w (fs ++ sent_heartbeat tv ∷ [])
  unfolding append_heartbeat
  append_heartbeat-Feeds o w tv fs b f =
      Feeds-snoc o _ w (sent_heartbeat tv) fs f (heartbeat-IsFrame tv)
        (ap (λ (r : List ℕ). o.records ++ r) (heartbeat_record-encode tv))
        (omega (arith, b.sized, b.within)) refl refl

  open_batch-Feeds :
      (o : ZmqOutput) (w : List (List ℕ)) (t : ℕ) (fs : List Frame)
      → IsBatch o
      → Feeds o w fs
      → IsBatch (open_batch o t) × Feeds (open_batch o t) w fs
  unfolding open_batch
  open_batch-Feeds o w t fs b f =
      if_both (λ (p : ZmqOutput). IsBatch p × Feeds p w fs) (o.pkts_num == 0)
        (λ _. (b, Feeds-same _ _ w fs f refl refl refl refl)) (λ _. (b, f))

  add_packet-Feeds :
      (o : ZmqOutput) (w : List (List ℕ)) (header : PktHdr) (p : List ℕ) (caplen l2 n : ℕ)
      (d : PktDir) (fs : List Frame)
      → IsBatch o
      → Feeds o w fs
      → l2_header_len p caplen ≡ l2
      → 14 ≤ l2
      → l2 ≤ n
      → n ≤ length p
      → n ≤ max_frame_len
      → let r = add_packet keep_in_order o w header p l2 n d in
        Feeds r.0 r.1 (fs ++ sent_frame tag header p l2 n d ∷ [])
  unfolding add_packet
  add_packet-Feeds o w header p caplen l2 n d fs b f q h k m small =
      let t = header.ts.tv_sec in
      let (b', f') = open_batch-Feeds o w t fs b f in
      let room = make_room-Feeds (open_batch o t) w t (u16 (n + 4)) fs b' f' in
      let (c, _) =
        make_room-IsBatch keep_in_order (open_batch o t) w t (u16 (n + 4)) b' (omega arith) in
      append_packet-Feeds _ _ header p caplen l2 n d fs c room q h k m small

  drop_packet-Feeds :
      (o : ZmqOutput) (w : List (List ℕ)) (now : ℕ) (fs : List Frame)
      → IsBatch o
      → Feeds o w fs
      → let r = drop_packet keep_in_order o w now in Feeds r.0 r.1 fs
  unfolding drop_packet
  drop_packet-Feeds o w now fs b f = flush_if_stale-Feeds o w now fs b f

  -- What `zmq_send_packet` takes, it takes as one frame more.
  pub zmq_send_packet-Feeds :
      (part : ℕ → ℕ → ℕ) (o : ZmqOutput) (w : List (List ℕ)) (header : PktHdr) (p : List ℕ)
      (d : PktDir) (fs : List Frame)
      → IsBatch o
      → Feeds o w fs
      → header.caplen ≤ length p
      → let l2 = l2_header_len p (output_frame_len header.caplen 0 max_frame_len) in
        let n = zmq_frame_len header.caplen o.slice l2 in
        let r = zmq_send_packet keep_in_order part o w header p d in
        Feeds r.0 r.1 (if r.2 then fs ++ sent_frame tag header p l2 n d ∷ [] else fs)
  unfolding zmq_send_packet drop_packet
  zmq_send_packet-Feeds part o w header p d fs b f long =
      let caplen = output_frame_len header.caplen 0 max_frame_len in
      let l2 = l2_header_len p caplen in
      let n = zmq_frame_len header.caplen o.slice l2 in
      let now = header.ts.tv_sec in
      let frame = sent_frame tag header p l2 n d in
      if_both (P frame) (l2 == 0)
        (λ _. drop_packet-Feeds _ w now fs b (Feeds-same _ _ w fs f refl refl refl refl))
        (λ e.
          if_both (P frame) (is_unknown d)
            (λ _. drop_packet-Feeds _ w now fs b (Feeds-same _ _ w fs f refl refl refl refl))
            (λ _.
              if_both (P frame) (throttled part o.rate_limit_mbps o.throttle n header).1
                (λ _.
                  let (h, k, c, m) = zmq_frame_len_ok p header.caplen o.slice e in
                  add_packet-Feeds _ w header p caplen l2 n d fs b
                    (Feeds-same _ _ w fs f refl refl refl refl) refl h k (omega arith) m)
                (λ _. drop_packet-Feeds _ w now fs b (Feeds-same _ _ w fs f refl refl refl refl))))
    where
      P : Frame → ZmqOutput × List (List ℕ) × Bool → Type 0
      P frame r = Feeds r.0 r.1 (if r.2 then fs ++ frame ∷ [] else fs)
