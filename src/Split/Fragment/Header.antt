-- ===== src/Split/Fragment/Header.antt =====
-- The IPv4 header checksum that `build_fragment` (cpworker/src/packet_split.c) writes.
use cloud_probe.Prelude.{
  Bool-cases, ◌==◌, if_true, byte_at-put_be16, ℕ, zero, suc, ◌+◌, ◌*◌, ◌%◌, ◌/◌, ◌<◌, ◌≤◌, ◌^◌, ◌≡◌,
  refl, sym, ap, ◌∙◌, inl, inr, List, [], ◌∷◌, ◌++◌, true, some, length, take, drop, set, byte_at,
  put_be16, put_le16, length-put_be16, length-put_le16, length-drop, length-set, get_or-set_self,
  get_or-set_ne, u16, slice, arith,
}
use cloud_probe.Split.Parse.{ParseResult}
use cloud_probe.Split.Parse.Safe.{IsLaidOut, IsLabelled}
use cloud_probe.Split.Fragment.{
  renew_check, update_ip, update_l4, frag_payload_size, copied, build_fragment,
}
use cloud_probe.Split.Fragment.Payload.{length-copied, frag_payload_size-eq}
use cloud_probe.Split.Fragment.Fields.{byte_at-update_l4, byte_at-copied, fields_of, nothing}
use cloud_probe.Checksum.{ihl, cksum_fold, cksum_accumulate, cksum_finish, calculate_ip_checksum}
use cloud_probe.Checksum.WordSum.{word_sum, byte_at-drop}
use cloud_probe.Checksum.Sum.{cksum_accumulate-eq-word_sum}
use cloud_probe.Checksum.Verify.{AreBytes, IsCleared, finish-verifies, ip_checksum-eq-accumulate}

word_sum-cong :
    (n : ℕ) (p q : List ℕ)
    → ((j : ℕ) → j < n → byte_at p j ≡ byte_at q j)
    → word_sum n p ≡ word_sum n q
unfolding word_sum
word_sum-cong zero p q h = refl
word_sum-cong (suc zero) p q h = h 0 (omega arith)
word_sum-cong (suc (suc n)) p q h = omega (
  arith,
  h 0 (omega arith),
  h 1 (omega arith),
  word_sum-cong n (drop 2 p) (drop 2 q) λ j lt.
      byte_at-drop 2 j (2 + j) p refl
      ∙ h (2 + j) (omega arith)
      ∙ sym (byte_at-drop 2 j (2 + j) q refl),
)

-- The sum reads only the bytes of its length.
pub cksum_accumulate-cong :
    (n : ℕ) (p q : List ℕ)
    → ((j : ℕ) → j < n → byte_at p j ≡ byte_at q j)
    → cksum_accumulate p n 0 ≡ cksum_accumulate q n 0
cksum_accumulate-cong n p q h = omega (
  arith,
  cksum_accumulate-eq-word_sum p n 0 (omega arith),
  cksum_accumulate-eq-word_sum q n 0 (omega arith),
  word_sum-cong n p q h,
)

drop-set_ahead :
    (k i j : ℕ) (xs : List ℕ) (v : ℕ) → k + i ≡ j → drop k (set xs j v) ≡ set (drop k xs) i v
drop-set_ahead zero i j xs v h = ap (λ m. set xs m v) (omega arith)
drop-set_ahead (suc k) i j [] v h = refl
drop-set_ahead (suc k) i zero (x ∷ xs) v h = absurd (omega arith)
drop-set_ahead (suc k) i (suc j) (x ∷ xs) v h = drop-set_ahead k i j xs v (omega arith)

AreBytes-drop : (k : ℕ) (xs : List ℕ) → AreBytes xs → AreBytes (drop k xs)
AreBytes-drop zero xs h = h
AreBytes-drop (suc k) [] h = tt
AreBytes-drop (suc k) (x ∷ xs) (b, h) = AreBytes-drop k xs h

AreBytes-take : (k : ℕ) (xs : List ℕ) → AreBytes xs → AreBytes (take k xs)
AreBytes-take zero xs h = tt
AreBytes-take (suc k) [] h = tt
AreBytes-take (suc k) (x ∷ xs) (b, h) = (b, AreBytes-take k xs h)

AreBytes-append : (xs ys : List ℕ) → AreBytes xs → AreBytes ys → AreBytes (xs ++ ys)
AreBytes-append [] ys h k = k
AreBytes-append (x ∷ xs) ys (b, h) k = (b, AreBytes-append xs ys h k)

AreBytes-set : (xs : List ℕ) (i v : ℕ) → AreBytes xs → v < 256 → AreBytes (set xs i v)
AreBytes-set [] i v h s = tt
AreBytes-set (x ∷ xs) zero v (b, h) s = (s, h)
AreBytes-set (x ∷ xs) (suc i) v (b, h) s = (b, AreBytes-set xs i v h s)

-- A header from an offset on, of which the checksum was cleared and is set now.
pub stored_header :
    (buf : List ℕ) (at n : ℕ)
    → AreBytes buf
    → n < 2 ^ 16
    → 20 ≤ n
    → at + n ≤ length buf
    → n ≡ byte_at buf at % 16 * 4
    → let z = put_le16 buf (at + 10) 0 in
      cksum_fold
        (cksum_accumulate (drop at (put_le16 z (at + 10) (calculate_ip_checksum (drop at z)))) n 0)
      ≡ 0xffff
stored_header buf at n bytes short long inside head =
    let z = put_le16 buf (at + 10) 0 in
    let hz = drop at z in
    let c = calculate_ip_checksum hz in
    let first : byte_at hz 0 ≡ byte_at buf at =
      byte_at-drop at 0 at z (omega arith)
      ∙ get_or-set_ne (set buf (at + 10) 0) (at + 10 + 1) at 0 0 (omega arith)
      ∙ get_or-set_ne buf (at + 10) at 0 0 (omega arith) in
    let moved : drop at (put_le16 z (at + 10) c) ≡ put_le16 hz 10 c =
      drop-set_ahead at 11 (at + 10 + 1) (set z (at + 10) (c % 256)) (c / 256 % 256) (omega arith)
      ∙ ap (λ v. set v 11 (c / 256 % 256)) (drop-set_ahead at 10 (at + 10) z (c % 256) refl) in
    let finished : c ≡ cksum_finish (cksum_accumulate hz n 0) =
      ip_checksum-eq-accumulate hz
      ∙ ap (λ m. cksum_finish (cksum_accumulate hz m 0)) {x = ihl hz * 4} {y = n} (omega arith) in
    let zero_low : byte_at hz 10 ≡ 0 =
      byte_at-drop at 10 (at + 10) z refl
      ∙ get_or-set_ne (set buf (at + 10) 0) (at + 10 + 1) (at + 10) 0 0 (omega arith)
      ∙ get_or-set_self buf (at + 10) 0 0 (omega arith) in
    let zero_high : byte_at hz 11 ≡ 0 =
      byte_at-drop at 11 (at + 10 + 1) z (omega arith)
      ∙ get_or-set_self (set buf (at + 10) 0) (at + 10 + 1) 0 0
          (omega (arith, length-set buf (at + 10) 0)) in
    let cleared : IsCleared hz n 5 0 = record {
      are_bytes = AreBytes-drop at z (
          AreBytes-set (set buf (at + 10) 0) (at + 10 + 1) 0
            (AreBytes-set buf (at + 10) 0 bytes (omega arith)) (omega arith));
      short = short;
      start = omega arith;
      inside = omega arith;
      complete = omega (arith, length-drop at z, length-put_le16 buf (at + 10) 0);
      clear = (zero_low, zero_high);
    } in
    ap (λ v. cksum_fold (cksum_accumulate v n 0)) moved
    ∙ ap (λ v. cksum_fold (cksum_accumulate (put_le16 hz 10 v) n 0)) finished
    ∙ finish-verifies hz n 5 0 cleared

update_ip-verifies :
    (caplen : ℕ) (r : ParseResult) (pkt_data : List ℕ)
    → IsLaidOut caplen r
    → IsLabelled pkt_data r
    → caplen < 2 ^ 16
    → r.is_ipv4 ≡ true
    → (size : ℕ) (buf : List ℕ) → AreBytes buf
    → r.ip_offset + r.ip_hdr_len ≤ length buf
    → byte_at buf r.ip_offset ≡ byte_at pkt_data r.ip_offset
    → cksum_fold (cksum_accumulate (drop r.ip_offset (update_ip r true size buf)) r.ip_hdr_len 0)
      ≡ 0xffff
unfolding update_ip renew_check IsLaidOut IsLabelled
update_ip-verifies caplen r pkt_data laid (_, _, labels) small v4 size buf bytes inside first =
    let (head, _, _) = if_true _ r.is_ipv4 v4 labels in
    let field = u16 (r.ip_hdr_len + r.l4_hdr_len + size) in
    let buf' = put_be16 buf (r.ip_offset + 2) field in
    let bytes' =
      AreBytes-set (set buf (r.ip_offset + 2) (field / 256 % 256)) (r.ip_offset + 2 + 1)
        (field % 256) (AreBytes-set buf (r.ip_offset + 2) (field / 256 % 256) bytes (omega arith))
        (omega arith) in
    let kept = byte_at-put_be16 buf (r.ip_offset + 2) field r.ip_offset (inl (omega arith)) in
    let long : 20 ≤ r.ip_hdr_len = ground arith in
    rw v4 (
      stored_header buf' r.ip_offset r.ip_hdr_len bytes' (omega arith) long
        (omega (arith, length-put_be16 buf (r.ip_offset + 2) field))
        (omega (arith, head, kept, first)))

AreBytes-copied :
    (r : ParseResult) (pkt_data : List ℕ) (k size : ℕ)
    → AreBytes pkt_data
    → AreBytes (copied r pkt_data k size)
unfolding copied
AreBytes-copied r pkt_data k size h =
    AreBytes-append (slice pkt_data 0 r.payload_offset) (slice pkt_data (r.payload_offset + k) size)
      (AreBytes-take r.payload_offset pkt_data h)
      (AreBytes-take size (drop (r.payload_offset + k) pkt_data)
        (AreBytes-drop (r.payload_offset + k) pkt_data h))

module _ (caplen : ℕ) (small : caplen < 2 ^ 16) (r : ParseResult) (pkt_data : List ℕ)
    (laid : IsLaidOut caplen r) (labelled : IsLabelled pkt_data r)
    (inside : caplen ≤ length pkt_data) where
  -- In each fragment that is built with its checksums from a result of an IPv4 frame below 65536 bytes, as
  -- the parser gives it, the sum over the IP header, its checksum included, folds to all ones.
  pub build_fragment-verifies :
      (index m : ℕ) (frame : List ℕ)
      → AreBytes pkt_data
      → r.is_ipv4 ≡ true
      → build_fragment r pkt_data index m true ≡ some frame
      → cksum_fold (cksum_accumulate (drop r.ip_offset frame) r.ip_hdr_len 0) ≡ 0xffff
  unfolding IsLaidOut
  build_fragment-verifies index m frame bytes v4 h =
      elim (Bool-cases (frag_payload_size r index m == 0)) [
        | inl e ↦
            absurd (nothing caplen small r pkt_data laid labelled inside index m true frame e h)
        | inr e ↦
            let k = index * m in
            let size = frag_payload_size r index m in
            let buf = copied r pkt_data k size in
            let ip = update_ip r true size buf in
            let fits : k + size ≤ r.payload_len = ground (arith, frag_payload_size-eq r index m) in
            rw (fields_of caplen small r pkt_data laid labelled inside index m true frame e h) (
              ap cksum_fold (
                cksum_accumulate-cong r.ip_hdr_len (drop r.ip_offset (update_l4 r true k size ip))
                  (drop r.ip_offset ip)
                  λ j lt.
                    byte_at-drop r.ip_offset j (r.ip_offset + j) (update_l4 r true k size ip) refl
                    ∙ byte_at-update_l4 caplen r laid true k size ip (r.ip_offset + j) (omega arith)
                    ∙ sym (byte_at-drop r.ip_offset j (r.ip_offset + j) ip refl))
              ∙ update_ip-verifies caplen r pkt_data laid labelled small v4 size buf
                  (AreBytes-copied r pkt_data k size bytes)
                  (omega (arith, length-copied caplen r laid pkt_data inside k size fits))
                  (byte_at-copied caplen small r pkt_data laid labelled inside k size r.ip_offset
                    (ground arith)))
      ]
