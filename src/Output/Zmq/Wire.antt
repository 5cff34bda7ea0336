-- ===== src/Output/Zmq/Wire.antt =====
-- A ZeroMQ message as its receiver takes it apart, by the format that cpworker/src/output_zmq.h gives,
-- and the frame in a record of it (cpworker/src/output_zmq.c).
use cloud_probe.Prelude.{
  ℕ, zero, suc, ◌+◌, ◌-◌, ◌*◌, ◌<◌, ◌≤◌, ◌≡◌, ◌∙◌, sym, ap, refl, ◌⊎◌, inl, inr, List, [], ◌∷◌,
  ◌++◌, take, drop, slice, length, Bool, true, ltb, leb, if◌then◌else◌, Option, none, some, be16_at,
  put_be16, arith, if_both, length-append, length-take, length-slice, append_assoc, le→leb, lt→ltb,
  take-append, take-take, drop-append, take-append-take-drop,
}
use cloud_probe.Packet.{PktDir, PktHdr}
use cloud_probe.Output.Vxlan.{direct_code}
use cloud_probe.Split.Parse.{is_vlan_ethertype}
use cloud_probe.Output.Zmq.{
  ZmqOutput, max_batch_buf_size, be16_bytes, l2_loop, l2_header_len, pkt_hdr, make_mpls_hdr,
  labelled_header, packet_record, batch_hdr, zmq_flush_packet,
}
use cloud_probe.Output.Zmq.Batch.{IsRecord, AllRecords, concat}
use cloud_probe.Output.Zmq.Calls.{IsBatch}

pub cons_some : List ℕ → Option (List (List ℕ)) → Option (List (List ℕ))
cons_some r none = none
cons_some r (some rs) = some (r ∷ rs)

-- The records of a message, by their length fields; `none` where they do not end with the message.
unfoldable pub read_records : ℕ → List ℕ → Option (List (List ℕ))
read_records f [] = some []
read_records zero (x ∷ xs) = none
read_records (suc f) (x ∷ xs) =
    let n = 18 + be16_at (x ∷ xs) 0 in
    let rest = cons_some (take n (x ∷ xs)) (read_records f (drop n (x ∷ xs))) in
    if leb n (length (x ∷ xs)) then rest else none

read_records-cons :
    (f : ℕ) (r rest : List ℕ)
    → IsRecord r
    → read_records (suc f) (r ++ rest) ≡ cons_some r (read_records f rest)
unfolding read_records
read_records-cons f [] rest h = absurd (omega (arith, h.head))
read_records-cons f (x ∷ []) rest h = absurd (omega (arith, h.head))
read_records-cons f (x ∷ y ∷ r) rest h =
    let n = 18 + (x * 256 + y) in
    let whole : n ≡ length (x ∷ y ∷ r) = omega (arith, h.whole) in
    let fits : leb n (length ((x ∷ y ∷ r) ++ rest)) ≡ true =
      le→leb n _ (omega (arith, length-append (x ∷ y ∷ r) rest)) in
    rw (fits) (rw (take-append (x ∷ y ∷ r) rest n whole, drop-append (x ∷ y ∷ r) rest n whole) refl)

pub read_records-concat :
    (rs : List (List ℕ)) (f : ℕ)
    → AllRecords rs
    → length rs ≤ f
    → read_records f (concat rs) ≡ some rs
unfolding cons_some read_records
read_records-concat [] zero a h = refl
read_records-concat [] (suc f) a h = refl
read_records-concat (r ∷ rs) zero a h = absurd (omega arith)
read_records-concat (r ∷ rs) (suc f) (p, a) h =
    read_records-cons f r (concat rs) p
    ∙ ap (cons_some r) (read_records-concat rs f a (omega arith))

put_be16-end :
    (xs : List ℕ) (k v : ℕ) → length xs ≡ k + 2 → put_be16 xs k v ≡ take k xs ++ be16_bytes v
put_be16-end [] k v h = absurd (omega arith)
put_be16-end (x ∷ []) k v h = absurd (omega arith)
put_be16-end (x ∷ y ∷ []) zero v h = refl
put_be16-end (x ∷ y ∷ z ∷ xs) zero v h = absurd (omega arith)
put_be16-end (x ∷ y ∷ xs) (suc k) v h =
    let e : suc k + 1 ≡ suc (k + 1) = omega arith in
    rw e (ap (λ w. x ∷ w) (put_be16-end (y ∷ xs) k v (omega arith)))

-- A message that `zmq_flush_packet` hands to `zmq_send` fills the buffer up to `batch_bufpos` and lies
-- in it, has the number of its records in its third and fourth byte, and behind its header comes
-- apart into so many records and nothing else; `zmq_send` here keeps what it is given.
read_records-flush :
    (o : ZmqOutput) (good : Bool)
    → IsBatch o
    → length o.uuid ≡ 16
    → let message = (zmq_flush_packet (λ (w : List ℕ) m. (m, good)) o []).1 in
      (length message ≡ o.batch_bufpos)
      × (o.batch_bufpos ≤ max_batch_buf_size)
      × (be16_at message 2 ≡ o.pkts_num)
      × ((rs : List (List ℕ)) × (read_records o.pkts_num (drop 24 message) ≡ some rs)
          × (length rs ≡ o.pkts_num))
unfolding zmq_flush_packet batch_hdr
read_records-flush o good b u =
    let f = b.framed in
    (
      omega (arith, length-append (batch_hdr o) o.records, b.at_end),
      b.within,
      omega (arith, b.sized, b.within),
      (
        f.parts,
        ap (read_records o.pkts_num) (drop-append o.uuid o.records 16 (sym u) ∙ f.joined)
            ∙ read_records-concat f.parts o.pkts_num f.records (omega (arith, f.number)),
        sym f.number,
      ),
    )

-- The offset is that of the Ethernet header, or it has tags.
l2_loop-steps :
    (f : ℕ) (p : List ℕ) (caplen offset t : ℕ)
    → (l2_loop f p caplen offset t ≡ 0)
      ⊎ ((l2_loop f p caplen offset t ≡ offset) ⊎ (offset + 4 ≤ l2_loop f p caplen offset t))
unfolding l2_loop
l2_loop-steps zero p caplen offset t = inl refl
l2_loop-steps (suc f) p caplen offset t =
    if_both (λ (v : ℕ). (v ≡ 0) ⊎ ((v ≡ offset) ⊎ (offset + 4 ≤ v))) (is_vlan_ethertype t)
      (λ _.
        if_both (λ (v : ℕ). (v ≡ 0) ⊎ ((v ≡ offset) ⊎ (offset + 4 ≤ v))) (ltb caplen (offset + 4))
          (λ _. inl refl)
          (λ _. ground (arith, l2_loop-steps f p caplen (offset + 4) (be16_at p (offset + 2)))))
      (λ _. inr (inl refl))

pub l2_header_len-steps :
    (p : List ℕ) (caplen : ℕ)
    → (l2_header_len p caplen ≡ 0) ⊎ ((l2_header_len p caplen ≡ 14) ⊎ (18 ≤ l2_header_len p caplen))
unfolding l2_header_len
l2_header_len-steps p caplen =
    if_both (λ (v : ℕ). (v ≡ 0) ⊎ ((v ≡ 14) ⊎ (18 ≤ v))) (ltb caplen 14) (λ _. inl refl)
      (λ _. l2_loop-steps caplen p caplen 14 (be16_at p 12))

labelled_header_lem :
    (o : ZmqOutput) (p : List ℕ) (l2 : ℕ) (d : PktDir)
    → (l2 ≡ 14) ⊎ (18 ≤ l2)
    → l2 ≤ length p
    → labelled_header o p l2 d
      ≡ (take (l2 - 2) p ++ be16_bytes 0x8847) ++ make_mpls_hdr (direct_code d) o.service_tag
unfolding labelled_header
labelled_header_lem o p l2 d (inl e) h = rw e (
    ap (λ v. v ++ make_mpls_hdr (direct_code d) o.service_tag)
      (put_be16-end (take 14 p) 12 0x8847 (omega (arith, length-take 14 p))
        ∙ ap (λ v. v ++ be16_bytes 0x8847) (take-take 12 14 p (omega arith))))
labelled_header_lem o p l2 d (inr g) h =
    let k = l2 - 14 - 2 in
    let tags = slice p 14 (l2 - 14) in
    rw (lt→ltb 0 (l2 - 14) (omega arith)) (
      ap (λ v. v ++ make_mpls_hdr (direct_code d) o.service_tag)
        (ap (λ v. take 14 p ++ v)
            (put_be16-end tags k 0x8847 (omega (arith, length-slice p 14 (l2 - 14) (omega arith)))
              ∙ ap (λ v. v ++ be16_bytes 0x8847) (take-take k (l2 - 14) (drop 14 p) (omega arith)))
          ∙ sym (append_assoc (take 14 p) (take k (drop 14 p)) (be16_bytes 0x8847))
          ∙ ap (λ v. v ++ be16_bytes 0x8847) (take-append-take-drop 14 k (l2 - 2) p (omega arith))))

-- The frame of a record: the start of the captured one, the type, the MPLS header and the payload.
pub record_frame :
    (o : ZmqOutput) (header : PktHdr) (p : List ℕ) (l2 n : ℕ) (d : PktDir)
    → (l2 ≡ 14) ⊎ (18 ≤ l2)
    → l2 ≤ length p
    → drop 18 (packet_record o header p l2 n d)
      ≡ take (l2 - 2) p
        ++ (be16_bytes 0x8847
            ++ (make_mpls_hdr (direct_code d) o.service_tag ++ slice p l2 (n - l2)))
unfolding packet_record pkt_hdr
record_frame o header p l2 n d g h =
    let mpls = make_mpls_hdr (direct_code d) o.service_tag in
    ap (λ v. v ++ slice p l2 (n - l2)) (labelled_header_lem o p l2 d g h)
    ∙ append_assoc (take (l2 - 2) p ++ be16_bytes 0x8847) mpls (slice p l2 (n - l2))
    ∙ append_assoc (take (l2 - 2) p) (be16_bytes 0x8847) (mpls ++ slice p l2 (n - l2))

-- The fuel of the tags, a unit for each captured byte, is never used up: with any other fuel that
-- covers the capture, four bytes a unit, the loop gives the same.
pub l2_loop-enough :
    (f g : ℕ) (p : List ℕ) (caplen offset t : ℕ)
    → offset ≤ caplen
    → caplen < offset + 4 * f
    → caplen < offset + 4 * g
    → l2_loop f p caplen offset t ≡ l2_loop g p caplen offset t
unfolding l2_loop
l2_loop-enough zero g p caplen offset t o h k = absurd (omega arith)
l2_loop-enough (suc f) zero p caplen offset t o h k = absurd (omega arith)
l2_loop-enough (suc f) (suc g) p caplen offset t o h k =
    ground (arith, l2_loop-enough f g p caplen (offset + 4) (be16_at p (offset + 2)))
