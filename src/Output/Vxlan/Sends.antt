-- ===== src/Output/Vxlan/Sends.antt =====
-- The counters of the VXLAN output (cpworker/src/output_vxlan.c) over a packet.
use cloud_probe.Prelude.{
  ℕ, zero, suc, ◌+◌, ◌<◌, ◌^◌, ◌≡◌, refl, List, take, length, Bool, if_both, Option-cases, inl, inr,
  leb, ◌==◌, ◌||◌, arith,
}
use cloud_probe.Prelude.Outcome.{Outcome, ok, rejected, fault, out_of_fuel}
use cloud_probe.RateLimit.{Timeval}
use cloud_probe.Packet.{PktDir, PktHdr}
use cloud_probe.Split.Parse.{ParseResult, parse_packet}
use cloud_probe.Split.Fragment.{calculate_fragment_count, build_fragment}
use cloud_probe.Output.{output_frame_len, is_unknown, throttled}
use cloud_probe.Output.Counts.{
  HasRoom, IsCounted, output_frame_len-le, IsCounted-forwarded, IsCounted-failed,
  IsCounted-ratelimited, IsCounted-direction_dropped,
}
use cloud_probe.Output.Vxlan.{
  SendResult, VxlanOutput, do_send_packet, send_fragments, send_parsed, send_whole_or_split,
  vxlan_send_packet, check_error_info, max_frame_len,
}

module _ {W : Type 0} (sendto : W → List ℕ → W × SendResult) where
  send_fragments-stats :
      (more index : ℕ) (r : ParseResult) (p : List ℕ) (o : VxlanOutput) (w : W) (ts : Timeval)
      (d : PktDir)
      → ((send_fragments sendto more index r p o w ts d).0).stats ≡ o.stats
  unfolding send_fragments do_send_packet
  send_fragments-stats zero index r p o w ts d = refl
  send_fragments-stats (suc more) index r p o w ts d =
      elim (Option-cases (build_fragment r p index o.max_payload_size o.recalculate_checksum)) [
        | inl e ↦ rw (send_fragments, e) refl
        | inr (frame, e) ↦
            rw (send_fragments, e)
              (if_both (λ (x : VxlanOutput × W × Bool). (x.0).stats ≡ o.stats)
                (do_send_packet sendto o w ts frame d).2
                (λ _.
                  send_fragments-stats more (index + 1) r p (do_send_packet sendto o w ts frame d).0
                    _ ts d)
                λ _. refl)
      ]

  send_parsed-stats :
      (r : Outcome ParseResult) (o : VxlanOutput) (w : W) (ts : Timeval) (frame : List ℕ)
      (d : PktDir)
      → ((send_parsed sendto r o w ts frame d).0).stats ≡ o.stats
  unfolding send_parsed do_send_packet
  send_parsed-stats (ok r) o w ts frame d =
      if_both (λ (x : VxlanOutput × W × Bool). (x.0).stats ≡ o.stats)
        (calculate_fragment_count r o.max_payload_size == 1) (λ _. refl)
        λ _. send_fragments-stats (calculate_fragment_count r o.max_payload_size) 0 r frame o w ts d
  send_parsed-stats rejected o w ts frame d = refl
  send_parsed-stats fault o w ts frame d = refl
  send_parsed-stats out_of_fuel o w ts frame d = refl

  send_whole_or_split-stats :
      (o : VxlanOutput) (w : W) (ts : Timeval) (frame : List ℕ) (d : PktDir)
      → ((send_whole_or_split sendto o w ts frame d).0).stats ≡ o.stats
  unfolding send_whole_or_split do_send_packet
  send_whole_or_split-stats o w ts frame d =
      if_both (λ (x : VxlanOutput × W × Bool). (x.0).stats ≡ o.stats)
        (o.max_payload_size == 0 || leb (length frame) o.max_payload_size) (λ _. refl)
        λ _. send_parsed-stats (parse_packet frame (length frame)) o w ts frame d

  -- Whatever `sendto` does, and however many datagrams the packet takes, the VXLAN output counts each
  -- packet once over its four pairs of counters, with the frame's length, and as forwarded exactly if
  -- it returns 0, with room in the counters for one more packet.
  pub vxlan_send_packet-IsCounted :
      (part : ℕ → ℕ → ℕ) (o : VxlanOutput) (w : W) (header : PktHdr) (pkt_data : List ℕ)
      (direct : PktDir)
      → HasRoom o.stats
      → header.caplen < 2 ^ 32
      → let (o', _, good) = vxlan_send_packet sendto part o w header pkt_data direct in
        IsCounted o.stats o'.stats (output_frame_len header.caplen o.slice max_frame_len) good
  unfolding vxlan_send_packet
  vxlan_send_packet-IsCounted part o w header pkt_data direct room small =
      let n = output_frame_len header.caplen o.slice max_frame_len in
      let short : n < 2 ^ 32 =
        omega (arith, output_frame_len-le header.caplen o.slice max_frame_len) in
      let P : VxlanOutput × W × Bool → Type 0 = λ r. IsCounted o.stats (r.0).stats n r.2 in
      let (throttle, pass) = throttled part o.rate_limit_mbps o.throttle n header in
      let ready = record o {
        throttle = throttle;
        error_info = check_error_info o.error_info header.ts.tv_sec;
      } in
      let sent = send_whole_or_split sendto ready w header.ts (take n pkt_data) direct in
      let same = send_whole_or_split-stats ready w header.ts (take n pkt_data) direct in
      if_both P (is_unknown direct) (λ _. IsCounted-direction_dropped n o.stats room short)
        λ _.
          if_both P pass
            (λ _.
              if_both P sent.2 (λ _. rw same (IsCounted-forwarded n o.stats room short))
                λ _. rw same (IsCounted-failed n o.stats room short))
            λ _. IsCounted-ratelimited n o.stats room short
