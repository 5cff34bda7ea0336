-- ===== src/Receiver/Reading.antt =====
-- Messages in the format of cpworker/src/output_zmq.h, as cptools/recvzmq/main.c reads them.
use cloud_probe.Prelude.{
  ℕ, suc, ◌+◌, ◌-◌, ◌/◌, ◌%◌, ◌<◌, ◌≤◌, ◌^◌, ◌≡◌, ◌∙◌, refl, sym, ap, List, [], ◌∷◌, ◌++◌, take,
  slice, length, byte_at, be16_at, be32_at, true, false, ltb, leb, arith, length-append,
  append_assoc, get_elem?-eq-get_or, byte_at-append_right, drop-append_right, take-append,
  get_elem?, some,
}
use mathlib.Core.Path.{subst}
use cloud_probe.Prelude.Outcome.{
  ok, rejected, fault, out_of_fuel, Outcome, read, read16, read_bytes, read_bytes_ok,
}
use cloud_probe.Packet.{PktHdr}
use cloud_probe.Output.Vxlan.{be32_bytes}
use cloud_probe.Receiver.{
  read32, PktAt, remain_size, read_pkt, after_ok, dump_read, write_packet, send_if, pkt_loop,
  handle_zmq_msg, receive,
}

-- A packet on its way: its header and its bytes.
pub record Frame : Type 0 where
  pub header : PktHdr
  pub bytes : List ℕ

-- The fields fit their words, and as many bytes are there as the header says.
pub record IsFrame (f : Frame) : Type 0 where
  pub whole : f.header.caplen ≡ length f.bytes
  pub short : length f.bytes < 2 ^ 16
  pub sec : f.header.ts.tv_sec < 2 ^ 32
  pub usec : f.header.ts.tv_usec < 2 ^ 32
  pub wire : f.header.len < 2 ^ 32

-- The length, the header and the bytes.
abbrev pub encode : Frame → List ℕ
encode f =
    (length f.bytes / 256 % 256 ∷ length f.bytes % 256 ∷ [])
    ++ (be32_bytes f.header.ts.tv_sec
        ++ (be32_bytes f.header.ts.tv_usec
            ++ (be32_bytes f.header.caplen ++ (be32_bytes f.header.len ++ f.bytes))))

abbrev pub encode_all : List Frame → List ℕ
encode_all [] = []
encode_all (f ∷ fs) = encode f ++ encode_all fs

abbrev pub AllFrames : List Frame → Type 0
AllFrames [] = Unit
AllFrames (f ∷ fs) = IsFrame f × AllFrames fs

read_in :
    (pre r : List ℕ) (k j : ℕ)
    → k ≡ length pre + j
    → j < length r
    → read (pre ++ r) k ≡ ok (byte_at r j)
unfolding read
read_in pre r k j e h =
    let l = length-append pre r in
    let inside : k < length (pre ++ r) = omega arith in
    let got : get_elem? (pre ++ r) k ≡ some (byte_at (pre ++ r) k) =
      get_elem?-eq-get_or (pre ++ r) k 0 inside in
    ground (arith, got, byte_at-append_right pre r k j e)

read16_in :
    (pre r : List ℕ) (k j : ℕ)
    → k ≡ length pre + j
    → j + 1 < length r
    → read16 (pre ++ r) k ≡ ok (be16_at r j)
unfolding read16
read16_in pre r k j e h =
    rw (read_in pre r k j e (omega arith), read_in pre r (k + 1) (j + 1) (omega arith) h) refl

read32_in :
    (pre r : List ℕ) (k j : ℕ)
    → k ≡ length pre + j
    → j + 3 < length r
    → read32 (pre ++ r) k ≡ ok (be32_at r j)
unfolding read32
read32_in pre r k j e h =
    rw
      (
        read16_in pre r k j e (omega arith),
        read16_in pre r (k + 2) (j + 2) (omega arith) (omega arith),
      )
      refl

-- The fields fit their words, whatever the header says of the bytes.
pub record Fits (f : Frame) : Type 0 where
  pub short : length f.bytes < 2 ^ 16
  pub sec : f.header.ts.tv_sec < 2 ^ 32
  pub usec : f.header.ts.tv_usec < 2 ^ 32
  pub cap : f.header.caplen < 2 ^ 32
  pub wire : f.header.len < 2 ^ 32

IsFrame-Fits : (f : Frame) → IsFrame f → Fits f
IsFrame-Fits f h = record {
  short = h.short;
  sec = h.sec;
  usec = h.usec;
  cap = omega (arith, h.whole, h.short);
  wire = h.wire;
}

-- Behind `pre`, the frame is found as it was written.
read_pkt_lem :
    (pre rest : List ℕ) (f : Frame)
    → Fits f
    → length (pre ++ (encode f ++ rest)) < 2 ^ 64
    → read_pkt (pre ++ (encode f ++ rest)) (length pre)
      ≡ ok (record { header = f.header; data_at = length pre + 18; data_len = length f.bytes })
unfolding read_pkt remain_size
read_pkt_lem pre rest f h small =
    let r = encode f ++ rest in
    let k = length pre in
    let l = length-append pre r in
    let m = length-append f.bytes rest in
    let first : ltb ((length (pre ++ r) + 2 ^ 64 - k) % 2 ^ 64) 18 ≡ false = ground (arith, l, m) in
    let size : be16_at r 0 ≡ length f.bytes = omega (arith, h.short) in
    let second : ltb ((length (pre ++ r) + 2 ^ 64 - (k + 18)) % 2 ^ 64) (length f.bytes) ≡ false =
      ground (arith, l, m) in
    let a : be32_at r 2 ≡ f.header.ts.tv_sec = omega (arith, h.sec) in
    let b : be32_at r 6 ≡ f.header.ts.tv_usec = omega (arith, h.usec) in
    let c : be32_at r 10 ≡ f.header.caplen = omega (arith, h.cap) in
    let d : be32_at r 14 ≡ f.header.len = omega (arith, h.wire) in
    rw (first, read16_in pre r k 0 (omega arith) (omega arith), size)
      (rw second (
        rw
          (
            read32_in pre r (k + 2) 2 refl (omega arith),
            read32_in pre r (k + 6) 6 refl (omega arith),
            read32_in pre r (k + 10) 10 refl (omega arith),
            read32_in pre r (k + 14) 14 refl (omega arith),
            a,
            b,
            c,
            d,
          )
          refl))

read16_front : (hdr r : List ℕ) → 4 ≤ length hdr → read16 (hdr ++ r) 2 ≡ ok (be16_at hdr 2)
read16_front [] r h = absurd (omega arith)
read16_front (x ∷ []) r h = absurd (omega arith)
read16_front (x ∷ y ∷ []) r h = absurd (omega arith)
read16_front (x ∷ y ∷ z ∷ []) r h = absurd (omega arith)
read16_front (x ∷ y ∷ z ∷ v ∷ hdr) r h =
    read16_in (x ∷ y ∷ []) (z ∷ v ∷ (hdr ++ r)) 2 0 refl (omega arith)

module _ {W : Type 0} (pcap_dump : W → PktHdr → List ℕ → W) where
  -- The packets written one after the other.
  unfoldable pub dump_all : List Frame → W → W
  dump_all [] w = w
  dump_all (f ∷ fs) w = dump_all fs (pcap_dump w f.header f.bytes)

  write_packet_lem :
      (pre rest : List ℕ) (f : Frame) (w : W) (offset : ℕ)
      → IsFrame f
      → offset ≡ length pre + 18
      → write_packet pcap_dump w f.header (pre ++ (encode f ++ rest)) offset
        ≡ (pcap_dump w f.header f.bytes, ok tt)
  unfolding write_packet dump_read
  write_packet_lem pre rest f w offset h e =
      let r = encode f ++ rest in
      let inside : offset + f.header.caplen ≤ length (pre ++ r) =
        omega (arith, h.whole, length-append pre r, length-append f.bytes rest) in
      let found : slice (pre ++ r) offset f.header.caplen ≡ f.bytes =
        ap (take f.header.caplen) (drop-append_right pre r offset 18 e)
        ∙ take-append f.bytes rest f.header.caplen h.whole in
      rw (read_bytes_ok (pre ++ r) offset f.header.caplen inside, found) refl

  pkt_loop_step :
      (k : ℕ) (msg : List ℕ) (offset : ℕ) (w : W) (p : PktAt) (v : W)
      → read_pkt msg offset ≡ ok p
      → write_packet pcap_dump w p.header msg p.data_at ≡ (v, ok tt)
      → pkt_loop pcap_dump (suc k) true msg offset w
        ≡ pkt_loop pcap_dump k true msg (p.data_at + p.data_len) v
  unfolding pkt_loop send_if
  pkt_loop_step k msg offset w p v e f = rw e (rw f refl)

  pkt_loop_lem :
      (fs : List Frame) (msg pre : List ℕ) (offset : ℕ) (w : W)
      → AllFrames fs
      → msg ≡ pre ++ encode_all fs
      → offset ≡ length pre
      → length msg < 2 ^ 64
      → pkt_loop pcap_dump (length fs) true msg offset w ≡ (dump_all fs w, ok tt)
  unfolding pkt_loop dump_all
  pkt_loop_lem [] msg pre offset w a e o s = refl
  pkt_loop_lem (f ∷ fs) msg pre offset w (h, a) e o s =
      let rest = encode_all fs in
      let found = read_pkt_lem pre rest f (IsFrame-Fits f h) (subst (λ m. length m < 2 ^ 64) e s) in
      let next =
        pkt_loop_lem fs (pre ++ (encode f ++ rest)) (pre ++ encode f)
          (length pre + 18 + length f.bytes) (pcap_dump w f.header f.bytes) a
          (sym (append_assoc pre (encode f) rest)) (omega (arith, length-append pre (encode f)))
          (subst (λ m. length m < 2 ^ 64) e s) in
      rw (e, o)
        (pkt_loop_step (length fs) (pre ++ (encode f ++ rest)) (length pre) w _ _ found
            (write_packet_lem pre rest f w (length pre + 18) h refl)
          ∙ next)

  -- A packet that the message has not.
  pkt_loop_fault :
      (k : ℕ) (msg : List ℕ) (offset : ℕ) (w : W) (p : PktAt)
      → read_pkt msg offset ≡ ok p
      → length msg < p.data_at + p.header.caplen
      → pkt_loop pcap_dump (suc k) true msg offset w ≡ (w, fault)
  unfolding pkt_loop send_if write_packet dump_read read_bytes
  pkt_loop_fault k msg offset w p e h =
      let beyond : leb (p.data_at + p.header.caplen) (length msg) ≡ false = ground arith in
      rw e (rw beyond refl)

  -- A message of a batch header with the number of the frames and of these frames is taken apart to
  -- the end, and each frame is written, in order.
  pub handle_zmq_msg_lem :
      (hdr : List ℕ) (fs : List Frame) (w : W)
      → length hdr ≡ 24
      → be16_at hdr 2 ≡ length fs
      → AllFrames fs
      → length (hdr ++ encode_all fs) < 2 ^ 64
      → handle_zmq_msg pcap_dump true (hdr ++ encode_all fs) w ≡ (dump_all fs w, ok tt)
  unfolding handle_zmq_msg
  handle_zmq_msg_lem hdr fs w long n a s =
      let msg = hdr ++ encode_all fs in
      let enough : ltb (length msg) 24 ≡ false =
        ground (arith, length-append hdr (encode_all fs)) in
      let number : read16 msg 2 ≡ ok (length fs) =
        read16_front hdr (encode_all fs) (omega arith) ∙ ap ok n in
      rw (enough, number) (pkt_loop_lem fs msg hdr 24 w a refl (sym long) s)

  -- The capture length of a record is not compared with the bytes of the record: where it says more
  -- than the message has from there on, the first packet is read beyond the end of the message.
  pub handle_zmq_msg-overread :
      (hdr rest : List ℕ) (f : Frame) (w : W)
      → length hdr ≡ 24
      → 0 < be16_at hdr 2
      → Fits f
      → length f.bytes + length rest < f.header.caplen
      → length (hdr ++ (encode f ++ rest)) < 2 ^ 64
      → handle_zmq_msg pcap_dump true (hdr ++ (encode f ++ rest)) w ≡ (w, fault)
  unfolding handle_zmq_msg
  handle_zmq_msg-overread hdr rest f w long n h more s =
      let msg = hdr ++ (encode f ++ rest) in
      let l = length-append hdr (encode f ++ rest) in
      let enough : ltb (length msg) 24 ≡ false = ground (arith, l) in
      let first = read16_front hdr (encode f ++ rest) (omega arith) in
      let e : be16_at hdr 2 ≡ suc (be16_at hdr 2 - 1) = omega arith in
      rw (enough, first, e)
        (pkt_loop_fault (be16_at hdr 2 - 1) msg 24 w _
          (subst
            (λ (k : ℕ).
              read_pkt msg k
              ≡ ok (record { header = f.header; data_at = k + 18; data_len = length f.bytes }))
            long (read_pkt_lem hdr rest f h s))
          (omega (arith, l, length-append f.bytes rest)))

  pub dump_all-append :
      (fs gs : List Frame) (w : W) → dump_all (fs ++ gs) w ≡ dump_all gs (dump_all fs w)
  unfolding dump_all
  dump_all-append [] gs w = refl
  dump_all-append (f ∷ fs) gs w = dump_all-append fs gs (pcap_dump w f.header f.bytes)

  after_ok_done :
      (x : W × Outcome (Unit {0})) (f : W → W × Outcome (Unit {0})) (v : W)
      → after_ok x f ≡ (v, ok tt)
      → (w : W) × (x ≡ (w, ok tt)) × (f w ≡ (v, ok tt))
  after_ok_done (w, ok u) f v e = (w, refl, e)
  after_ok_done (w, rejected) f v e = cc
  after_ok_done (w, fault) f v e = cc
  after_ok_done (w, out_of_fuel) f v e = cc

  -- One message more.
  pub receive_snoc :
      (ms : List (List ℕ)) (m : List ℕ) (w v u : W)
      → receive pcap_dump true ms w ≡ (v, ok tt)
      → handle_zmq_msg pcap_dump true m v ≡ (u, ok tt)
      → receive pcap_dump true (ms ++ m ∷ []) w ≡ (u, ok tt)
  unfolding receive
  receive_snoc [] m w v u e f =
      let same : w ≡ v = ap (λ (x : W × Outcome (Unit {0})). x.0) e in rw same (rw f refl)
  receive_snoc (n ∷ ms) m w v u e f =
      let (w', p, q) =
        after_ok_done (handle_zmq_msg pcap_dump true n w) (receive pcap_dump true ms) v e in
      rw p (receive_snoc ms m w' v u q f)
