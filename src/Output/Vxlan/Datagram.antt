-- ===== src/Output/Vxlan/Datagram.antt =====
-- What a datagram of cpworker/src/output_vxlan.c carries behind its header.
use cloud_probe.Prelude.{
  Bool-cases, inl, inr, ◌%◌, ℕ, zero, suc, ◌+◌, ◌-◌, ◌≤◌, ◌≡◌, refl, ap, ◌∙◌, List, [], ◌∷◌, ◌++◌,
  take, drop, length, length-append, length-take, length-drop, drop-drop, drop-append, if_both,
  if◌then◌else◌, arith, u32, ◌*◌, ◌==◌,
}
use cloud_probe.RateLimit.{Timeval}
use cloud_probe.Packet.{PktDir, unknown, noncheck, incoming, outgoing}
use cloud_probe.Output.Vxlan.{
  VxlanOutput, write_at, be32_bytes, vni_bytes, fill_buf, datagram_len, max_frame_len, bufsize,
  rte_raw_cksum,
}

drop-append_past :
    (xs ys : List ℕ) (k : ℕ) → length xs ≤ k → drop k (xs ++ ys) ≡ drop (k - length xs) ys
drop-append_past [] ys k h = ap (λ j. drop j ys) (omega arith)
drop-append_past (x ∷ xs) ys zero h = absurd (omega arith)
drop-append_past (x ∷ xs) ys (suc k) h =
    drop-append_past xs ys k (omega arith) ∙ ap (λ j. drop j ys) (omega arith)

drop-take : (n m k : ℕ) (xs : List ℕ) → n + m ≡ k → drop n (take k xs) ≡ take m (drop n xs)
drop-take zero m k xs h = ap (λ j. take j xs) (omega arith)
drop-take (suc n) m zero xs h = absurd (omega arith)
drop-take (suc n) zero (suc k) [] h = refl
drop-take (suc n) (suc m) (suc k) [] h = refl
drop-take (suc n) m (suc k) (x ∷ xs) h = drop-take n m k xs (omega arith)

take-append_self : (xs ys : List ℕ) → take (length xs) (xs ++ ys) ≡ xs
take-append_self [] ys = refl
take-append_self (x ∷ xs) ys = ap (λ zs. x ∷ zs) (take-append_self xs ys)

-- A write leaves what lies behind it.
drop-write_at :
    (buf : List ℕ) (off k : ℕ) (bytes : List ℕ)
    → off + length bytes ≤ k
    → off ≤ length buf
    → drop k (write_at buf off bytes) ≡ drop k buf
drop-write_at buf off k bytes h inside =
    let n = length-take off buf in
    drop-append_past (take off buf) (bytes ++ drop (off + length bytes) buf) k (omega arith)
    ∙ drop-append_past bytes (drop (off + length bytes) buf) (k - length (take off buf))
        (omega arith)
    ∙ drop-drop (k - length (take off buf) - length bytes) (off + length bytes) k buf (omega arith)

length-write_at :
    (buf : List ℕ) (off : ℕ) (bytes : List ℕ)
    → off + length bytes ≤ length buf
    → length (write_at buf off bytes) ≡ length buf
length-write_at buf off bytes h = omega (
  arith,
  length-append (take off buf) (bytes ++ drop (off + length bytes) buf),
  length-append bytes (drop (off + length bytes) buf),
  length-take off buf,
  length-drop (off + length bytes) buf,
)

-- What the code writes from the payload's place on.
body : VxlanOutput → Timeval → List ℕ → List ℕ
body o ts frame =
    if o.capture_time
    then frame ++ (be32_bytes (u32 ts.tv_sec) ++ be32_bytes (u32 (ts.tv_usec * 1000)))
    else frame

length-body :
    (o : VxlanOutput) (ts : Timeval) (frame : List ℕ)
    → 8 + length (body o ts frame) ≡ datagram_len o frame
unfolding body datagram_len
length-body o ts frame = elim (Bool-cases o.capture_time) [
  | inl e ↦ rw e (
      omega (
        arith,
        length-append frame (be32_bytes (u32 ts.tv_sec) ++ be32_bytes (u32 (ts.tv_usec * 1000))),
      ))
  | inr e ↦ rw e refl
]

length-vni_bytes : (o : VxlanOutput) (d : PktDir) → length (vni_bytes o d) ≡ 4
unfolding vni_bytes
length-vni_bytes o unknown =
    if_both (λ (v : List ℕ). length v ≡ 4) (o.vni_version == 1) (λ _. refl) λ _. refl
length-vni_bytes o noncheck =
    if_both (λ (v : List ℕ). length v ≡ 4) (o.vni_version == 1) (λ _. refl) λ _. refl
length-vni_bytes o incoming =
    if_both (λ (v : List ℕ). length v ≡ 4) (o.vni_version == 1) (λ _. refl) λ _. refl
length-vni_bytes o outgoing =
    if_both (λ (v : List ℕ). length v ≡ 4) (o.vni_version == 1) (λ _. refl) λ _. refl

module _ (o : VxlanOutput) (ts : Timeval) (frame : List ℕ) (d : PktDir)
    (sized : length o.buf ≡ bufsize) (fits : length frame ≤ max_frame_len) where
  datagram_len-le : datagram_len o frame ≤ bufsize
  unfolding datagram_len
  datagram_len-le = ground arith

  -- A buffer of full size stays of full size; a frame of at most 65535 bytes, with the capture time
  -- where that is asked for, is what the datagram carries behind its header of 8 bytes, and the whole
  -- datagram lies in the buffer.
  pub fill_buf-datagram :
      (length (fill_buf o ts frame d) ≡ bufsize)
      × (datagram_len o frame ≤ bufsize)
      × (drop 8 (take (datagram_len o frame) (fill_buf o ts frame d)) ≡ (
          if o.capture_time
          then frame ++ (be32_bytes (u32 ts.tv_sec) ++ be32_bytes (u32 (ts.tv_usec * 1000)))
          else frame))
  unfolding fill_buf body
  fill_buf-datagram =
      let b = body o ts frame in
      let len = length-body o ts frame in
      let le = datagram_len-le in
      let four = length-vni_bytes o d in
      let first = write_at o.buf 8 b in
      let tagged = write_at first 4 (vni_bytes o d) in
      let n1 = length-write_at o.buf 8 b (omega arith) in
      let n2 = length-write_at first 4 (vni_bytes o d) (omega arith) in
      let check = rte_raw_cksum tagged 42 % 256 ∷ [] in
      let P : List ℕ → Type 0 = λ v. (length v ≡ bufsize) × (drop 8 v ≡ drop 8 first) in
      let behind : P tagged =
        (omega arith, drop-write_at first 4 8 (vni_bytes o d) (omega arith) (omega arith)) in
      let (size, same) =
        if_both P (o.vni_version == 1)
          (λ _. (
            length-write_at tagged 7 check (omega arith) ∙ behind.0,
            drop-write_at tagged 7 8 check (omega arith) (omega arith) ∙ behind.1,
          ))
          (λ _. behind) in
      (
        size,
        le,
        drop-take 8 (length b) (datagram_len o frame) (fill_buf o ts frame d) len
            ∙ ap (take (length b)) (
                same
                ∙ drop-append (take 8 o.buf) (b ++ drop (8 + length b) o.buf) 8
                    (omega (arith, length-take 8 o.buf)))
            ∙ take-append_self b (drop (8 + length b) o.buf),
      )
