-- ===== src/Split/Fragment/Payload.antt =====
-- What `build_fragment` (cpworker/src/packet_split.c) copies into a fragment.
use cloud_probe.Prelude.{
  ℕ, zero, suc, ◌+◌, ◌-◌, ◌*◌, ◌<◌, ◌≤◌, min, ◌≡◌, refl, sym, ap, ap₂, ◌∙◌, List, [], ◌++◌, Bool,
  true, false, Bool-cases, inl, inr, none, some, length, length-append, drop, drop-append, slice,
  arith, put_be16, put_le16, put_be32, if_both, ne→==, ◌==◌, leb, leb→le, take, drop-drop,
  take-append-take-drop, length-put_be32, drop-put_be32, length-put_be16, length-put_le16,
  drop-put_be16, drop-put_le16, length-slice,
}
use native.Mathlib.Nat.{div-mul-le_self, lt-div-mul-add}
use cloud_probe.Split.Parse.{ParseResult}
use cloud_probe.Split.Parse.Safe.{IsLaidOut}
use cloud_probe.Split.Fragment.{
  calculate_fragment_count, renew_check, update_ip, update_l4, frag_payload_size, copied,
  build_fragment,
}

pub length-renew_check :
    (b : Bool) (buf : List ℕ) (at : ℕ) (c : List ℕ → ℕ)
    → length (renew_check b buf at c) ≡ length buf
unfolding renew_check
length-renew_check true buf at c =
    length-put_le16 (put_le16 buf at 0) at (c (put_le16 buf at 0)) ∙ length-put_le16 buf at 0
length-renew_check false buf at c = refl

pub drop-renew_check :
    (b : Bool) (buf : List ℕ) (n at : ℕ) (c : List ℕ → ℕ)
    → at + 1 < n
    → drop n (renew_check b buf at c) ≡ drop n buf
unfolding renew_check
drop-renew_check true buf n at c h =
    drop-put_le16 (put_le16 buf at 0) n at (c (put_le16 buf at 0)) h ∙ drop-put_le16 buf n at 0 h
drop-renew_check false buf n at c h = refl

pub length-update_ip :
    (r : ParseResult) (b : Bool) (size : ℕ) (buf : List ℕ)
    → length (update_ip r b size buf) ≡ length buf
unfolding update_ip
length-update_ip r b size buf =
    if_both (λ (v : List ℕ). length v ≡ length buf) r.is_ipv4
      (λ _. length-renew_check b (put_be16 buf _ _) _ _ ∙ length-put_be16 buf _ _)
      λ _.
        if_both (λ (v : List ℕ). length v ≡ length buf) r.is_ipv6 (λ _. length-put_be16 buf _ _)
          λ _. refl

pub length-update_l4 :
    (r : ParseResult) (b : Bool) (k size : ℕ) (buf : List ℕ)
    → length (update_l4 r b k size buf) ≡ length buf
unfolding update_l4
length-update_l4 r b k size buf =
    if_both (λ (v : List ℕ). length v ≡ length buf) r.is_tcp
      (λ _. length-renew_check b (put_be32 buf _ _) _ _ ∙ length-put_be32 buf _ _)
      λ _.
        if_both (λ (v : List ℕ). length v ≡ length buf) r.is_udp
          (λ _. length-renew_check b (put_be16 buf _ _) _ _ ∙ length-put_be16 buf _ _) λ _. refl

module _ (caplen : ℕ) (r : ParseResult) (laid : IsLaidOut caplen r) where
  pub drop-update_ip :
      (b : Bool) (size : ℕ) (buf : List ℕ)
      → drop r.payload_offset (update_ip r b size buf) ≡ drop r.payload_offset buf
  unfolding update_ip IsLaidOut
  drop-update_ip b size buf =
      if_both (λ (v : List ℕ). drop r.payload_offset v ≡ drop r.payload_offset buf) r.is_ipv4
        (λ e.
          drop-renew_check b (put_be16 buf _ _) _ (r.ip_offset + 10) _ (ground arith)
          ∙ drop-put_be16 buf _ (r.ip_offset + 2) _ (ground arith))
        λ e.
          if_both (λ (v : List ℕ). drop r.payload_offset v ≡ drop r.payload_offset buf) r.is_ipv6
            (λ _. drop-put_be16 buf _ (r.ip_offset + 4) _ (ground arith)) λ _. refl

  pub drop-update_l4 :
      (b : Bool) (k size : ℕ) (buf : List ℕ)
      → drop r.payload_offset (update_l4 r b k size buf) ≡ drop r.payload_offset buf
  unfolding update_l4 IsLaidOut
  drop-update_l4 b k size buf =
      if_both (λ (v : List ℕ). drop r.payload_offset v ≡ drop r.payload_offset buf) r.is_tcp
        (λ e.
          drop-renew_check b (put_be32 buf _ _) _ (r.l4_offset + 16) _ (ground arith)
          ∙ drop-put_be32 buf _ (r.l4_offset + 4) _ (ground arith))
        λ e.
          if_both (λ (v : List ℕ). drop r.payload_offset v ≡ drop r.payload_offset buf) r.is_udp
            (λ _.
              drop-renew_check b (put_be16 buf _ _) _ (r.l4_offset + 6) _ (ground arith)
              ∙ drop-put_be16 buf _ (r.l4_offset + 4) _ (ground arith))
            λ _. refl

-- A fragment takes a part of the payload, unless nothing of it is left.
pub frag_payload_size-eq :
    (r : ParseResult) (index max_payload_size : ℕ)
    → frag_payload_size r index max_payload_size
      ≡ min max_payload_size (r.payload_len - index * max_payload_size)
unfolding frag_payload_size
frag_payload_size-eq r index m = ground arith

module _ (caplen : ℕ) (r : ParseResult) (laid : IsLaidOut caplen r) (pkt_data : List ℕ)
    (inside : caplen ≤ length pkt_data) where
  pub length-copied :
      (k size : ℕ)
      → k + size ≤ r.payload_len
      → length (copied r pkt_data k size) ≡ r.payload_offset + size
  unfolding copied IsLaidOut
  length-copied k size fits = omega (
    arith,
    length-append (slice pkt_data 0 r.payload_offset) (slice pkt_data (r.payload_offset + k) size),
    length-slice pkt_data 0 r.payload_offset (omega arith),
    length-slice pkt_data (r.payload_offset + k) size (omega arith),
  )

  drop-copied :
      (k size : ℕ)
      → k + size ≤ r.payload_len
      → drop r.payload_offset (copied r pkt_data k size)
        ≡ slice pkt_data (r.payload_offset + k) size
  unfolding copied IsLaidOut
  drop-copied k size fits =
      drop-append (slice pkt_data 0 r.payload_offset) (slice pkt_data (r.payload_offset + k) size)
        r.payload_offset (sym (length-slice pkt_data 0 r.payload_offset (omega arith)))

  -- For a laid out result and a positive limit, a fragment that starts within the payload is built: the
  -- headers, and behind them the next bytes of the payload, as many as there are up to the limit.
  pub build_fragment_total :
      (index max_payload_size : ℕ) (b : Bool)
      → 0 < max_payload_size
      → index * max_payload_size < r.payload_len
      → let k = index * max_payload_size in
        let size = min max_payload_size (r.payload_len - k) in
        (frame : List ℕ) × (build_fragment r pkt_data index max_payload_size b ≡ some frame)
        × (length frame ≡ r.payload_offset + size)
        × (drop r.payload_offset frame ≡ slice pkt_data (r.payload_offset + k) size)
  unfolding build_fragment
  build_fragment_total index m b pos within =
      let k = index * m in
      let size = frag_payload_size r index m in
      let e = frag_payload_size-eq r index m in
      let fits : k + size ≤ r.payload_len = omega arith in
      let buf = copied r pkt_data k size in
      let ip = update_ip r b size buf in
      let nz : (size == 0) ≡ false = ne→== size 0 (omega arith) in
      (
        update_l4 r b k size ip,
        rw nz refl,
        length-update_l4 r b k size ip
            ∙ length-update_ip r b size buf
            ∙ length-copied k size fits
            ∙ ap (λ j. r.payload_offset + j) e,
        drop-update_l4 caplen r laid b k size ip
            ∙ drop-update_ip caplen r laid b size buf
            ∙ drop-copied k size fits
            ∙ ap (slice pkt_data (r.payload_offset + k)) e,
      )

-- The payloads of the first `n` fragments, one after the other.
pub sent_payload : ParseResult → List ℕ → ℕ → Bool → ℕ → List ℕ
sent_payload r pkt_data m b zero = []
sent_payload r pkt_data m b (suc n) =
    sent_payload r pkt_data m b n ++ elim (build_fragment r pkt_data n m b) [
      | none ↦ []
      | some frame ↦ drop r.payload_offset frame
    ]

module _ (caplen : ℕ) (r : ParseResult) (laid : IsLaidOut caplen r) (pkt_data : List ℕ)
    (inside : caplen ≤ length pkt_data) (m : ℕ) (pos : 0 < m) (b : Bool)
    (carries : 0 < r.payload_len) where
  sent_payload-eq :
      (n : ℕ)
      → n * m < r.payload_len + m
      → sent_payload r pkt_data m b n ≡ slice pkt_data r.payload_offset (min (n * m) r.payload_len)
  unfolding sent_payload
  sent_payload-eq zero h = ap (slice pkt_data r.payload_offset) {x = 0} (omega arith)
  sent_payload-eq (suc n) h =
      let (frame, built, _, payload) =
        build_fragment_total caplen r laid pkt_data inside n m b pos (omega arith) in
      let start =
        ap (slice pkt_data r.payload_offset) {x = min (n * m) r.payload_len} {y = n * m}
          (omega arith) in
      let size = min m (r.payload_len - n * m) in
      let first = sent_payload-eq n (omega arith) ∙ start in
      let second =
        payload
        ∙ ap (take size) (
            sym (
              drop-drop (n * m) r.payload_offset (r.payload_offset + n * m) pkt_data
                (omega arith))) in
      rw built (
        ap₂ (◌++◌) first second
        ∙ take-append-take-drop (n * m) size (min (suc n * m) r.payload_len)
            (drop r.payload_offset pkt_data) (omega arith))

  calculate_fragment_count_bounds :
      (calculate_fragment_count r m * m < r.payload_len + m)
      × (r.payload_len ≤ calculate_fragment_count r m * m)
  unfolding calculate_fragment_count
  calculate_fragment_count_bounds = elim (Bool-cases (leb r.payload_len m)) [
    | inl e ↦
        rw (ne→== m 0 (omega arith))
          (rw e (omega (arith, leb→le r.payload_len m e), omega (arith, leb→le r.payload_len m e)))
    | inr e ↦ rw (ne→== m 0 (omega arith)) (
        rw e (
          omega (
            arith,
            div-mul-le_self (r.payload_len + m - 1) m,
            lt-div-mul-add {a = r.payload_len + m - 1} {b = m} pos,
          ),
          omega (
            arith,
            div-mul-le_self (r.payload_len + m - 1) m,
            lt-div-mul-add {a = r.payload_len + m - 1} {b = m} pos,
          ),
        ))
  ]

  -- For a laid out result with some payload and a positive limit, the fragments that the code counts
  -- carry the payload of the packet, whole and in order.
  pub sent_payload_complete :
      sent_payload r pkt_data m b (calculate_fragment_count r m)
      ≡ slice pkt_data r.payload_offset r.payload_len
  sent_payload_complete =
      let (low, high) = calculate_fragment_count_bounds in
      sent_payload-eq (calculate_fragment_count r m) low
      ∙ ap (slice pkt_data r.payload_offset) (omega arith)
