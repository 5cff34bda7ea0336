-- ===== src/Output/Gre/Sends.antt =====
-- The counters and the datagrams of cpworker/src/output_gre.c.
use cloud_probe.Prelude.{
  ℕ, ◌+◌, ◌/◌, ◌%◌, ◌^◌, ◌<◌, ◌≡◌, ◌∙◌, List, ◌++◌, take, drop, length, Bool, if_both, be32_at,
  arith, length-take, length-append, take-append, drop-append, append_assoc, byte_at-append_right,
  sym, ap, ◌≤◌,
}
use cloud_probe.Packet.{PktDir, PktHdr}
use cloud_probe.Output.{output_frame_len, is_unknown, throttled}
use cloud_probe.Output.Counts.{
  HasRoom, IsCounted, output_frame_len-le, IsCounted-forwarded, IsCounted-failed,
  IsCounted-ratelimited, IsCounted-direction_dropped,
}
use cloud_probe.Output.Vxlan.{
  SendResult, check_error_info, send_loop, write_at, be32_bytes, direct_code,
}
use cloud_probe.Output.Gre.{max_frame_len, bufsize, GreOutput, keybit, fill_buf, gre_send_packet}

module _ {W : Type 0} (sendto : W → List ℕ → W × SendResult) where
  -- Whatever `sendto` does, the GRE output counts each packet once over its four pairs of counters,
  -- with the frame's length, and as forwarded exactly if it returns 0, with room in the counters for
  -- one more packet.
  pub gre_send_packet-IsCounted :
      (part : ℕ → ℕ → ℕ) (o : GreOutput) (w : W) (header : PktHdr) (pkt_data : List ℕ)
      (direct : PktDir)
      → HasRoom o.stats
      → header.caplen < 2 ^ 32
      → let (o', _, good) = gre_send_packet sendto part o w header pkt_data direct in
        IsCounted o.stats o'.stats (output_frame_len header.caplen o.slice max_frame_len) good
  unfolding gre_send_packet
  gre_send_packet-IsCounted part o w header pkt_data direct room small =
      let n = output_frame_len header.caplen o.slice max_frame_len in
      let short : n < 2 ^ 32 =
        omega (arith, output_frame_len-le header.caplen o.slice max_frame_len) in
      if_both P (is_unknown direct) (λ _. IsCounted-direction_dropped n o.stats room short)
        λ _.
          if_both P (throttled part o.rate_limit_mbps o.throttle n header).1
            (λ _.
              if_both P
                (send_loop sendto 10 (take (8 + n) (fill_buf o (take n pkt_data) direct))
                  (check_error_info o.error_info header.ts.tv_sec) w).2
                (λ _. IsCounted-forwarded n o.stats room short)
                λ _. IsCounted-failed n o.stats room short)
            λ _. IsCounted-ratelimited n o.stats room short
    where
      P : GreOutput × W × Bool → Type 0
      P v = IsCounted o.stats (v.0).stats (output_frame_len header.caplen o.slice max_frame_len) v.2

-- The datagram: from a buffer that has the GRE header and its whole size, the flags and the protocol
-- are those of the buffer, the key has the direction above the 28 bits of the tag, and behind the 8
-- bytes comes the frame.
fill_buf_lem :
    (o : GreOutput) (frame : List ℕ) (direct : PktDir)
    → length o.buf ≡ bufsize
    → length frame ≤ max_frame_len
    → let datagram = take (8 + length frame) (fill_buf o frame direct) in
      (take 4 datagram ≡ take 4 o.buf)
      × (be32_at datagram 4 / 2 ^ 28 ≡ direct_code direct % 16)
      × (be32_at datagram 4 % 2 ^ 28 ≡ o.service_tag % 2 ^ 28)
      × (drop 8 datagram ≡ frame)
unfolding fill_buf keybit
fill_buf_lem o frame direct h k =
    let key = be32_bytes (keybit o.service_tag direct) in
    let start = take 4 o.buf ++ key in
    let four : length (take 4 o.buf) ≡ 4 = omega (arith, length-take 4 o.buf) in
    let eight : length start ≡ 8 = omega (arith, length-append (take 4 o.buf) key) in
    let behind = drop (8 + length frame) (write_at o.buf 4 key) in
    let datagram : take (8 + length frame) (fill_buf o frame direct) ≡ start ++ frame =
      ap (λ v. take (8 + length frame) (v ++ (frame ++ behind)))
        (ap (λ v. take 8 v) (sym (append_assoc (take 4 o.buf) key (drop 8 o.buf)))
          ∙ take-append start (drop 8 o.buf) 8 (omega arith))
      ∙ ap (λ v. take (8 + length frame) v) (sym (append_assoc start frame behind))
      ∙ take-append (start ++ frame) behind (8 + length frame)
          (omega (arith, length-append start frame)) in
    let split = append_assoc (take 4 o.buf) key frame in
    let word : be32_at (start ++ frame) 4 ≡ keybit o.service_tag direct =
      rw
        (
          split,
          byte_at-append_right (take 4 o.buf) (key ++ frame) 4 0 (omega arith),
          byte_at-append_right (take 4 o.buf) (key ++ frame) 5 1 (omega arith),
          byte_at-append_right (take 4 o.buf) (key ++ frame) 6 2 (omega arith),
          byte_at-append_right (take 4 o.buf) (key ++ frame) 7 3 (omega arith),
        )
        (omega arith) in
    rw datagram (
      (
        ap (λ v. take 4 v) split ∙ take-append (take 4 o.buf) (key ++ frame) 4 (omega arith),
        omega (arith, word),
        omega (arith, word),
        drop-append start frame 8 (omega arith),
      ))
