-- ===== src/Split/Fragment/Fields.antt =====
-- What `build_fragment` (cpworker/src/packet_split.c) writes in the headers: lengths, sequence number.
use mathlib.Core.Option.{some-injective, some-ne-none}
use cloud_probe.Prelude.{
  sym, ◌≢◌, Bool-cases, ◌==◌, if_true, if_false, not, ap₂, ℕ, ◌+◌, ◌*◌, ◌^◌, ◌<◌, ◌≤◌, ◌≡◌, refl,
  ap, ◌∙◌, ◌⊎◌, inl, inr, List, drop, Bool, true, false, some, length, get_or-append, get_or-take,
  byte_at, be16_at, be32_at, put_be16, put_le16, put_be32, byte_at-put_be16, byte_at-put_le16,
  be16_at-put_be16, be32_at-put_be32, slice, length-slice, u16, u32, arith, if_both, if◌then◌else◌,
}
use cloud_probe.Checksum.{calculate_ip_checksum}
use cloud_probe.Split.Parse.{ParseResult}
use cloud_probe.Split.Parse.Safe.{IsLaidOut, IsLabelled}
use cloud_probe.Split.Fragment.{
  renew_check, update_ip, update_l4, frag_payload_size, copied, build_fragment, tcp_check,
  udp_check,
}
use cloud_probe.Split.Fragment.Payload.{
  length-update_l4, length-update_ip, length-copied, frag_payload_size-eq,
}

pub byte_at-renew_check :
    (b : Bool) (buf : List ℕ) (at j : ℕ) (c : List ℕ → ℕ)
    → (j < at) ⊎ (at + 1 < j)
    → byte_at (renew_check b buf at c) j ≡ byte_at buf j
unfolding renew_check
byte_at-renew_check true buf at j c h =
    byte_at-put_le16 (put_le16 buf at 0) at (c (put_le16 buf at 0)) j h
    ∙ byte_at-put_le16 buf at 0 j h
byte_at-renew_check false buf at j c h = refl

be16_at-renew_check :
    (b : Bool) (buf : List ℕ) (at j : ℕ) (c : List ℕ → ℕ)
    → j + 1 < at
    → be16_at (renew_check b buf at c) j ≡ be16_at buf j
be16_at-renew_check b buf at j c h =
    ap₂ (λ x y. x * 256 + y) (byte_at-renew_check b buf at j c (inl (omega arith)))
      (byte_at-renew_check b buf at (j + 1) c (inl h))

be32_at-renew_check :
    (b : Bool) (buf : List ℕ) (at j : ℕ) (c : List ℕ → ℕ)
    → j + 3 < at
    → be32_at (renew_check b buf at c) j ≡ be32_at buf j
be32_at-renew_check b buf at j c h =
    ap₂ (λ x y. x * 65536 + y) (be16_at-renew_check b buf at j c (omega arith))
      (be16_at-renew_check b buf at (j + 2) c (omega arith))

module _ (caplen : ℕ) (r : ParseResult) (laid : IsLaidOut caplen r) (b : Bool) where
  -- The network header's stores end before the transport header.
  pub byte_at-update_ip :
      (size : ℕ) (buf : List ℕ) (j : ℕ)
      → (j < r.ip_offset + 2) ⊎ (r.ip_offset + 11 < j)
      → byte_at (update_ip r b size buf) j ≡ byte_at buf j
  unfolding update_ip IsLaidOut
  byte_at-update_ip size buf j h =
      if_both (λ (v : List ℕ). byte_at v j ≡ byte_at buf j) r.is_ipv4
        (λ _.
          byte_at-renew_check b (put_be16 buf _ _) (r.ip_offset + 10) j _ (ground arith)
          ∙ byte_at-put_be16 buf (r.ip_offset + 2) _ j (ground arith))
        λ _.
          if_both (λ (v : List ℕ). byte_at v j ≡ byte_at buf j) r.is_ipv6
            (λ _. byte_at-put_be16 buf (r.ip_offset + 4) _ j (ground arith)) λ _. refl

  -- The transport header's begin after its ports.
  pub byte_at-update_l4 :
      (k size : ℕ) (buf : List ℕ) (j : ℕ)
      → j < r.l4_offset + 4
      → byte_at (update_l4 r b k size buf) j ≡ byte_at buf j
  unfolding update_l4
  byte_at-update_l4 k size buf j h =
      if_both (λ (v : List ℕ). byte_at v j ≡ byte_at buf j) r.is_tcp
        (λ _.
          byte_at-renew_check b (put_be32 buf _ _) (r.l4_offset + 16) j _ (ground arith)
          ∙ byte_at-put_be16 (put_be16 buf _ _) (r.l4_offset + 4 + 2) _ j (ground arith)
          ∙ byte_at-put_be16 buf (r.l4_offset + 4) _ j (ground arith))
        λ _.
          if_both (λ (v : List ℕ). byte_at v j ≡ byte_at buf j) r.is_udp
            (λ _.
              byte_at-renew_check b (put_be16 buf _ _) (r.l4_offset + 6) j _ (ground arith)
              ∙ byte_at-put_be16 buf (r.l4_offset + 4) _ j (ground arith))
            λ _. refl

  -- The length fields.
  ipv4_length :
      (size : ℕ) (buf : List ℕ)
      → r.is_ipv4 ≡ true
      → r.ip_offset + 20 ≤ length buf
      → r.ip_hdr_len + r.l4_hdr_len + size < 2 ^ 16
      → be16_at (update_ip r b size buf) (r.ip_offset + 2) ≡ r.ip_hdr_len + r.l4_hdr_len + size
  unfolding update_ip
  ipv4_length size buf e long small = rw e (
      be16_at-renew_check b
        (put_be16 buf (r.ip_offset + 2) (u16 (r.ip_hdr_len + r.l4_hdr_len + size)))
        (r.ip_offset + 10) (r.ip_offset + 2) (λ v. calculate_ip_checksum (drop r.ip_offset v))
        (omega arith)
      ∙ be16_at-put_be16 buf (r.ip_offset + 2) (u16 (r.ip_hdr_len + r.l4_hdr_len + size))
          (omega arith) (omega arith)
      ∙ omega arith)

  ipv6_length :
      (size : ℕ) (buf : List ℕ)
      → r.is_ipv4 ≡ false
      → r.is_ipv6 ≡ true
      → r.ip_offset + 20 ≤ length buf
      → r.ipv6_ext_len + r.l4_hdr_len + size < 2 ^ 16
      → be16_at (update_ip r b size buf) (r.ip_offset + 4) ≡ r.ipv6_ext_len + r.l4_hdr_len + size
  unfolding update_ip
  ipv6_length size buf e e6 long small = rw e (
      rw e6 (
        omega (
          arith,
          be16_at-put_be16 buf (r.ip_offset + 4) (u16 (r.ipv6_ext_len + r.l4_hdr_len + size))
              (omega arith) (omega arith),
        )))

  tcp_seq :
      (k size : ℕ) (buf : List ℕ)
      → r.is_tcp ≡ true
      → r.l4_offset + 20 ≤ length buf
      → be32_at (update_l4 r b k size buf) (r.l4_offset + 4)
        ≡ u32 (be32_at buf (r.l4_offset + 4) + k)
  unfolding update_l4
  tcp_seq k size buf e long =
      let seq = u32 (be32_at buf (r.l4_offset + 4) + k) in
      rw e (
        be32_at-renew_check b (put_be32 buf (r.l4_offset + 4) seq) (r.l4_offset + 16)
          (r.l4_offset + 4) (tcp_check _ size) (omega arith)
        ∙ be32_at-put_be32 buf (r.l4_offset + 4) seq (omega arith) (omega arith))

  udp_length :
      (k size : ℕ) (buf : List ℕ)
      → r.is_tcp ≡ false
      → r.is_udp ≡ true
      → r.l4_offset + 8 ≤ length buf
      → r.l4_hdr_len + size < 2 ^ 16
      → be16_at (update_l4 r b k size buf) (r.l4_offset + 4) ≡ r.l4_hdr_len + size
  unfolding update_l4
  udp_length k size buf e e17 long small = rw e (
      rw e17 (
        be16_at-renew_check b (put_be16 buf (r.l4_offset + 4) (u16 (r.l4_hdr_len + size)))
          (r.l4_offset + 6) (r.l4_offset + 4) (udp_check _ size) (omega arith)
        ∙ be16_at-put_be16 buf (r.l4_offset + 4) (u16 (r.l4_hdr_len + size)) (omega arith)
            (omega arith)
        ∙ omega arith))

module _ (caplen : ℕ) (small : caplen < 2 ^ 16) (r : ParseResult) (pkt_data : List ℕ)
    (laid : IsLaidOut caplen r) (labelled : IsLabelled pkt_data r)
    (inside : caplen ≤ length pkt_data) where
  pub byte_at-copied :
      (k size j : ℕ)
      → j < r.payload_offset
      → byte_at (copied r pkt_data k size) j ≡ byte_at pkt_data j
  unfolding copied IsLaidOut
  byte_at-copied k size j h =
      get_or-append (slice pkt_data 0 r.payload_offset) (slice pkt_data (r.payload_offset + k) size)
        j 0 (omega (arith, length-slice pkt_data 0 r.payload_offset (omega arith)))
      ∙ get_or-take r.payload_offset j pkt_data 0 h

  network_length :
      (k size : ℕ) (b : Bool)
      → k + size ≤ r.payload_len
      → let frame = update_l4 r b k size (update_ip r b size (copied r pkt_data k size)) in
        if r.is_ipv4
        then r.ip_offset + be16_at frame (r.ip_offset + 2) ≡ length frame
        else r.ip_offset + 40 + be16_at frame (r.ip_offset + 4) ≡ length frame
  unfolding IsLaidOut IsLabelled
  network_length k size b fits =
      let buf = copied r pkt_data k size in
      let ip = update_ip r b size buf in
      let (l6, _, labels) = labelled in
      let len = length-copied caplen r laid pkt_data inside k size fits in
      let all = length-update_l4 r b k size ip ∙ length-update_ip r b size buf ∙ len in
      if_both (λ (T : Type 0). T) r.is_ipv4
        (λ e.
          let (_, no_ext, _) = if_true _ r.is_ipv4 e labels in
          omega (
            arith,
            byte_at-update_l4 caplen r laid b k size ip (r.ip_offset + 2) (ground arith),
            byte_at-update_l4 caplen r laid b k size ip (r.ip_offset + 2 + 1) (ground arith),
            ipv4_length caplen r laid b size buf e (ground arith) (omega arith),
          ))
        λ e.
          let (at, _) = if_false _ r.is_ipv4 e labels in
          omega (
            arith,
            byte_at-update_l4 caplen r laid b k size ip (r.ip_offset + 4) (ground arith),
            byte_at-update_l4 caplen r laid b k size ip (r.ip_offset + 4 + 1) (ground arith),
            ipv6_length caplen r laid b size buf e (l6 ∙ ap not e) (ground arith) (omega arith),
          )

  -- The sequence number is still the packet's.
  be32_at-same :
      (k size : ℕ) (b : Bool)
      → r.is_tcp ≡ true
      → be32_at (update_ip r b size (copied r pkt_data k size)) (r.l4_offset + 4)
        ≡ be32_at pkt_data (r.l4_offset + 4)
  unfolding IsLaidOut
  be32_at-same k size b e =
      ap₂ (λ (x y : ℕ). x * 65536 + y) (word (r.l4_offset + 4) (omega arith) (ground arith))
        (word (r.l4_offset + 4 + 2) (omega arith) (ground arith))
    where
      byte :
          (j : ℕ)
          → r.l4_offset ≤ j
          → j < r.payload_offset
          → byte_at (update_ip r b size (copied r pkt_data k size)) j ≡ byte_at pkt_data j
      byte j low high =
          byte_at-update_ip caplen r laid b size (copied r pkt_data k size) j (inr (ground arith))
          ∙ byte_at-copied k size j high

      word :
          (j : ℕ)
          → r.l4_offset ≤ j
          → j + 1 < r.payload_offset
          → be16_at (update_ip r b size (copied r pkt_data k size)) j ≡ be16_at pkt_data j
      word j low high =
          ap₂ (λ x y. x * 256 + y) (byte j low (omega arith)) (byte (j + 1) (omega arith) high)

  transport_field :
      (k size : ℕ) (b : Bool)
      → k + size ≤ r.payload_len
      → let frame = update_l4 r b k size (update_ip r b size (copied r pkt_data k size)) in
        if r.is_tcp
        then be32_at frame (r.l4_offset + 4) ≡ u32 (be32_at pkt_data (r.l4_offset + 4) + k)
        else r.l4_offset + be16_at frame (r.l4_offset + 4) ≡ length frame
  unfolding IsLaidOut IsLabelled
  transport_field k size b fits =
      let buf = copied r pkt_data k size in
      let ip = update_ip r b size buf in
      let (_, l17, _) = labelled in
      let ip_len =
        length-update_ip r b size buf ∙ length-copied caplen r laid pkt_data inside k size fits in
      let all = length-update_l4 r b k size ip ∙ ip_len in
      if_both (λ (T : Type 0). T) r.is_tcp
        (λ e.
          tcp_seq caplen r laid b k size ip e (ground arith)
          ∙ ap (λ n. u32 (n + k)) (be32_at-same k size b e))
        λ e. omega (
          arith,
          udp_length caplen r laid b k size ip e (l17 ∙ ap not e) (ground arith) (omega arith),
        )

  pub fields_of :
      (index m : ℕ) (b : Bool) (frame : List ℕ)
      → (frag_payload_size r index m == 0) ≡ false
      → build_fragment r pkt_data index m b ≡ some frame
      → frame
        ≡ update_l4 r b (index * m) (frag_payload_size r index m) (
            update_ip r b
              (frag_payload_size r index m)
              (copied r pkt_data (index * m) (frag_payload_size r index m)))
  unfolding build_fragment
  fields_of index m b frame e h = some-injective frame _ (sym h ∙ rw e refl)

  pub nothing :
      (index m : ℕ) (b : Bool) (frame : List ℕ)
      → (frag_payload_size r index m == 0) ≡ true
      → build_fragment r pkt_data index m b ≢ some frame
  unfolding build_fragment
  nothing index m b frame e h = some-ne-none frame (sym h ∙ rw e refl)

  -- In each fragment that is built from a result of a frame below 65536 bytes, as the parser gives it,
  -- the IP length field reaches to the end of the fragment; the TCP sequence number is the packet's
  -- advanced by the payload before the fragment, modulo 2 ^ 32, or the UDP length reaches to the end.
  pub build_fragment_fields :
      (index m : ℕ) (b : Bool) (frame : List ℕ)
      → build_fragment r pkt_data index m b ≡ some frame
      → (if r.is_ipv4
          then r.ip_offset + be16_at frame (r.ip_offset + 2) ≡ length frame
          else r.ip_offset + 40 + be16_at frame (r.ip_offset + 4) ≡ length frame)
        × (if r.is_tcp
            then be32_at frame (r.l4_offset + 4)
              ≡ u32 (be32_at pkt_data (r.l4_offset + 4) + index * m)
            else r.l4_offset + be16_at frame (r.l4_offset + 4) ≡ length frame)
  unfolding build_fragment
  build_fragment_fields index m b frame h = elim (Bool-cases (frag_payload_size r index m == 0)) [
    | inl e ↦ absurd (nothing index m b frame e h)
    | inr e ↦
        let k = index * m in
        let size = frag_payload_size r index m in
        let fits : k + size ≤ r.payload_len = ground (arith, frag_payload_size-eq r index m) in
        rw (fields_of index m b frame e h)
          (network_length k size b fits, transport_field k size b fits)
  ]
