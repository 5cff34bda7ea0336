-- ===== src/Output/Zmq/Batch.antt =====
-- The batch of the ZeroMQ output: how long its records are, and that they stay apart
-- (cpworker/src/output_zmq.c).
use cloud_probe.Prelude.{
  ℕ, zero, suc, ◌+◌, ◌-◌, ◌≤◌, ◌≡◌, ◌∙◌, sym, ap, refl, ◌⊎◌, inl, inr, List, [], ◌∷◌, ◌++◌, take,
  slice, length, ltb, be16_at, put_be16, u16, arith, if_both, length-append, length-take,
  length-slice, length-put_be16, append_assoc, append-nil, ltb_false→le,
}
use cloud_probe.RateLimit.{Timeval}
use cloud_probe.Packet.{PktDir, PktHdr}
use cloud_probe.Output.Vxlan.{direct_code}
use cloud_probe.Split.Parse.{is_vlan_ethertype}
use cloud_probe.Output.Zmq.{
  ZmqOutput, max_frame_len, l2_loop, l2_header_len, pkt_hdr, make_mpls_hdr, labelled_header,
  packet_record, heartbeat_record,
}

-- A record as it is read: two bytes of length, sixteen of header, and so many bytes.
pub record IsRecord (r : List ℕ) : Type 0 where
  pub head : 18 ≤ length r
  pub whole : length r ≡ 18 + be16_at r 0

abbrev pub AllRecords : List (List ℕ) → Type 0
AllRecords [] = Unit
AllRecords (r ∷ rs) = IsRecord r × AllRecords rs

abbrev pub concat : List (List ℕ) → List ℕ
concat [] = []
concat (r ∷ rs) = r ++ concat rs

-- The bytes are `n` records, one behind the other.
pub record Framed (n : ℕ) (bytes : List ℕ) : Type 0 where
  pub parts : List (List ℕ)
  pub records : AllRecords parts
  pub joined : bytes ≡ concat parts
  pub number : n ≡ length parts

concat-snoc : (rs : List (List ℕ)) (r : List ℕ) → concat (rs ++ r ∷ []) ≡ concat rs ++ r
concat-snoc [] r = append-nil r
concat-snoc (s ∷ rs) r = ap (λ x. s ++ x) (concat-snoc rs r) ∙ sym (append_assoc s (concat rs) r)

AllRecords-snoc :
    (rs : List (List ℕ)) (r : List ℕ) → AllRecords rs → IsRecord r → AllRecords (rs ++ r ∷ [])
AllRecords-snoc [] r a h = (h, tt)
AllRecords-snoc (s ∷ rs) r (p, a) h = (p, AllRecords-snoc rs r a h)

pub Framed-snoc :
    (n : ℕ) (bytes r : List ℕ) → Framed n bytes → IsRecord r → Framed (n + 1) (bytes ++ r)
Framed-snoc n bytes r f h = record {
  parts = f.parts ++ r ∷ [];
  records = AllRecords-snoc f.parts r f.records h;
  joined = ap (λ b. b ++ r) f.joined ∙ sym (concat-snoc f.parts r);
  number = omega (arith, f.number, length-append f.parts (r ∷ []));
}

pub Framed-nil : Framed 0 []
Framed-nil = record { parts = []; records = tt; joined = refl; number = refl }

-- What is found is no tag cut short, or an offset of at least the Ethernet header within the capture.
l2_loop_bounds :
    (f : ℕ) (p : List ℕ) (caplen offset t : ℕ)
    → 14 ≤ offset
    → offset ≤ caplen
    → (l2_loop f p caplen offset t ≡ 0)
      ⊎ ((14 ≤ l2_loop f p caplen offset t) × (l2_loop f p caplen offset t ≤ caplen))
unfolding l2_loop
l2_loop_bounds zero p caplen offset t h k = inl refl
l2_loop_bounds (suc f) p caplen offset t h k =
    if_both (λ (v : ℕ). (v ≡ 0) ⊎ ((14 ≤ v) × (v ≤ caplen))) (is_vlan_ethertype t)
      (λ _.
        if_both (λ (v : ℕ). (v ≡ 0) ⊎ ((14 ≤ v) × (v ≤ caplen))) (ltb caplen (offset + 4))
          (λ _. inl refl)
          (λ e.
            l2_loop_bounds f p caplen (offset + 4) (be16_at p (offset + 2)) (omega arith)
              (ltb_false→le caplen (offset + 4) e)))
      (λ _. inr (h, k))

pub l2_header_len_bounds :
    (p : List ℕ) (caplen : ℕ)
    → (l2_header_len p caplen ≡ 0)
      ⊎ ((14 ≤ l2_header_len p caplen) × (l2_header_len p caplen ≤ caplen))
unfolding l2_header_len
l2_header_len_bounds p caplen =
    if_both (λ (v : ℕ). (v ≡ 0) ⊎ ((14 ≤ v) × (v ≤ caplen))) (ltb caplen 14) (λ _. inl refl)
      (λ e.
        l2_loop_bounds caplen p caplen 14 (be16_at p 12) (omega arith) (ltb_false→le caplen 14 e))

length-labelled_header :
    (o : ZmqOutput) (p : List ℕ) (l2 : ℕ) (d : PktDir)
    → 14 ≤ l2
    → l2 ≤ length p
    → length (labelled_header o p l2 d) ≡ l2 + 4
unfolding labelled_header make_mpls_hdr
length-labelled_header o p l2 d h k =
    let eth = take 14 p in
    let tags = slice p 14 (l2 - 14) in
    if_both (λ (v : List ℕ). length (v ++ make_mpls_hdr (direct_code d) o.service_tag) ≡ l2 + 4)
      (ltb 0 (l2 - 14))
      (λ e. omega (
        arith,
        length-append (eth ++ put_be16 tags (l2 - 14 - 2) 0x8847)
            (make_mpls_hdr (direct_code d) o.service_tag),
        length-append eth (put_be16 tags (l2 - 14 - 2) 0x8847),
        length-put_be16 tags (l2 - 14 - 2) 0x8847,
        length-slice p 14 (l2 - 14) (omega arith),
        length-take 14 p,
      ))
      (λ e. omega (
        arith,
        length-append (put_be16 eth 12 0x8847) (make_mpls_hdr (direct_code d) o.service_tag),
        length-put_be16 eth 12 0x8847,
        length-take 14 p,
        ltb_false→le 0 (l2 - 14) e,
      ))

pub length-packet_record :
    (o : ZmqOutput) (header : PktHdr) (p : List ℕ) (l2 n : ℕ) (d : PktDir)
    → 14 ≤ l2
    → l2 ≤ n
    → n ≤ length p
    → length (packet_record o header p l2 n d) ≡ 18 + (n + 4)
unfolding packet_record pkt_hdr
length-packet_record o header p l2 n d h k m = omega (
  arith,
  length-append (labelled_header o p l2 d) (slice p l2 (n - l2)),
  length-labelled_header o p l2 d h (omega arith),
  length-slice p l2 (n - l2) (omega arith),
)

packet_record-len :
    (o : ZmqOutput) (header : PktHdr) (p : List ℕ) (l2 n : ℕ) (d : PktDir)
    → be16_at (packet_record o header p l2 n d) 0 ≡ u16 (n + 4)
unfolding packet_record
packet_record-len o header p l2 n d = omega arith

pub packet_record-IsRecord :
    (o : ZmqOutput) (header : PktHdr) (p : List ℕ) (l2 n : ℕ) (d : PktDir)
    → 14 ≤ l2
    → l2 ≤ n
    → n ≤ length p
    → n ≤ max_frame_len
    → IsRecord (packet_record o header p l2 n d)
packet_record-IsRecord o header p l2 n d h k m small = record {
  head = omega (arith, length-packet_record o header p l2 n d h k m);
  whole =
      omega
        (arith, length-packet_record o header p l2 n d h k m, packet_record-len o header p l2 n d);
}

pub heartbeat_record-IsRecord : (tv : Timeval) → IsRecord (heartbeat_record tv)
unfolding heartbeat_record pkt_hdr
heartbeat_record-IsRecord tv = record { head = omega arith; whole = refl }
