-- ===== src/Output/Vxlan.antt =====
-- cpworker/src/output_vxlan.c: each packet goes out in a VXLAN datagram, or its payload in several.
-- `sendto` is a parameter, on a state `W` of what is outside; the text of an error is left out.
pub mod Sends
pub mod Datagram
use cloud_probe.Prelude.{
  ℕ, zero, suc, ◌+◌, ◌-◌, ◌*◌, ◌/◌, ◌%◌, ◌^◌, List, [], ◌∷◌, ◌++◌, take, drop, length, Bool, true,
  false, leb, ltb, ◌==◌, if◌then◌else◌, Option, none, some, byte_at, slice, u16, u32, u64, ◌||◌,
  ◌&&◌,
}
use cloud_probe.Prelude.Outcome.{Outcome, ok, rejected, fault, out_of_fuel}
use cloud_probe.Stats.{OutputStats}
use cloud_probe.RateLimit.{Timeval, TokenBucket}
use cloud_probe.Packet.{PktDir, unknown, noncheck, incoming, outgoing, PktHdr}
use cloud_probe.Checksum.{u16_at, Walk, add_four, word_loop}
use cloud_probe.Split.Parse.{ParseResult, parse_packet}
use cloud_probe.Split.Fragment.{calculate_fragment_count, build_fragment}
use cloud_probe.Output.{
  output_frame_len, forwarded, direction_dropped, ratelimited, failed, count, is_unknown, throttled,
}

-- What `sendto` gives back: the bytes sent, or -1 with `errno`.
pub data SendResult : Type 0 where
  sent : ℕ → SendResult
  nobufs other_error : SendResult

-- `error_info`
pub record ErrorInfo : Type 0 where
  pub first_pktsec : ℕ
  pub nb_nobufs_drops : ℕ
  pub nb_partial_sends : ℕ
  pub nb_other_send_error_drops : ℕ

-- `vxlan_output_t`
pub record VxlanOutput : Type 0 where
  pub stats : OutputStats
  pub rate_limit_mbps : ℕ
  pub throttle : TokenBucket
  pub slice : ℕ
  pub vni_version : ℕ
  pub vni : ℕ
  pub capture_time : Bool
  pub buf : List ℕ
  pub max_payload_size : ℕ
  pub recalculate_checksum : Bool
  pub error_info : ErrorInfo

abbrev pub max_frame_len : ℕ
max_frame_len = 65535

abbrev pub bufsize : ℕ
bufsize = 65551

-- `memcpy` into a buffer.
abbrev pub write_at : List ℕ → ℕ → List ℕ → List ℕ
write_at buf off bytes = take off buf ++ (bytes ++ drop (off + length bytes) buf)

abbrev pub be32_bytes : ℕ → List ℕ
be32_bytes n = n / 2 ^ 24 % 256 ∷ n / 2 ^ 16 % 256 ∷ n / 2 ^ 8 % 256 ∷ n % 256 ∷ []

-- The value of a direction; -1 is not sent.
abbrev pub direct_code : PktDir → ℕ
direct_code unknown = 2 ^ 32 - 1
direct_code noncheck = 0
direct_code incoming = 1
direct_code outgoing = 2

-- `__rte_raw_cksum`, eight bytes at a time and then two.
pub four_loop : ℕ → List ℕ → ℕ → ℕ → Walk ℕ
four_loop zero p len sum = record { at = p; len = len; sum = sum }
four_loop (suc f) p len sum =
    let rest = four_loop f (drop 8 p) (len - 8) (add_four p sum) in
    if leb 8 len then rest else record { at = p; len = len; sum = sum }

pub raw_cksum : List ℕ → ℕ → ℕ → ℕ
raw_cksum buf len sum =
    let v = four_loop len buf len sum in
    let w = word_loop v.len v.at v.len v.sum in
    if w.len == 1 then u32 (w.sum + byte_at w.at 0) else w.sum

pub raw_cksum_reduce : ℕ → ℕ
raw_cksum_reduce sum =
    let once = u32 (sum / 65536 + sum % 65536) in u16 (u32 (once / 65536 + once % 65536))

pub rte_raw_cksum : List ℕ → ℕ → ℕ
rte_raw_cksum buf len = raw_cksum_reduce (raw_cksum buf len 0x4a3b2d1c)

-- The four bytes of `vx_vni`: for version 1 a tag of the direction and 12 bits of the VNI, or the VNI
-- where no direction is checked, with a check byte of 0 so far.
pub vni_bytes : VxlanOutput → PktDir → List ℕ
vni_bytes output noncheck =
    if output.vni_version == 1
    then be32_bytes (u32 (output.vni * 256))
    else be32_bytes (u32 output.vni)
vni_bytes output direct =
    if output.vni_version == 1
    then direct_code direct % 16 * 16 ∷ output.vni / 256 % 16 ∷ output.vni % 256 ∷ 0 ∷ []
    else be32_bytes (u32 (output.vni + direct_code direct))

-- `buf` once the frame, the capture time and the header are written.
pub fill_buf : VxlanOutput → Timeval → List ℕ → PktDir → List ℕ
fill_buf output ts frame direct =
    let body =
      if output.capture_time
      then frame ++ (be32_bytes (u32 ts.tv_sec) ++ be32_bytes (u32 (ts.tv_usec * 1000)))
      else frame in
    let tagged = write_at (write_at output.buf 8 body) 4 (vni_bytes output direct) in
    if output.vni_version == 1
    then write_at tagged 7 (rte_raw_cksum tagged 42 % 256 ∷ [])
    else tagged

pub datagram_len : VxlanOutput → List ℕ → ℕ
datagram_len output frame = 8 + (if output.capture_time then length frame + 8 else length frame)

abbrev pub is_nobufs : SendResult → Bool
is_nobufs nobufs = true
is_nobufs r = false

-- The error counts are logged and cleared more than 5 seconds after the first of their packets.
pub check_error_info : ErrorInfo → ℕ → ErrorInfo
check_error_info info tv_sec =
    if info.first_pktsec == 0
    then record info { first_pktsec = tv_sec }
    else if ltb (info.first_pktsec + 5) tv_sec
    then record {
      first_pktsec = tv_sec;
      nb_nobufs_drops = 0;
      nb_partial_sends = 0;
      nb_other_send_error_drops = 0;
    }
    else info

module _ {W : Type 0} (sendto : W → List ℕ → W × SendResult) where
  -- One turn of the loop that does not go on.
  pub settle : List ℕ → ErrorInfo → W → SendResult → ErrorInfo × W × Bool
  settle datagram info w (sent n) =
      if ltb n (length datagram)
      then (record info { nb_partial_sends = u64 (info.nb_partial_sends + 1) }, w, false)
      else (info, w, true)
  settle datagram info w nobufs =
      (record info { nb_nobufs_drops = u64 (info.nb_nobufs_drops + 1) }, w, false)
  settle datagram info w other_error = (
    record info { nb_other_send_error_drops = u64 (info.nb_other_send_error_drops + 1) },
    w,
    false,
  )

  -- The loop, by the retries that are left, 10 at first.
  pub send_loop : ℕ → List ℕ → ErrorInfo → W → ErrorInfo × W × Bool
  send_loop zero datagram info w =
      let (w', result) = sendto w datagram in settle datagram info w' result
  send_loop (suc n) datagram info w =
      let (w', result) = sendto w datagram in
      let again = send_loop n datagram info w' in
      if is_nobufs result then again else settle datagram info w' result

  -- The flag is `return 0`, here and below.
  pub do_send_packet : VxlanOutput → W → Timeval → List ℕ → PktDir → VxlanOutput × W × Bool
  do_send_packet output w ts frame direct =
      let buf = fill_buf output ts frame direct in
      let (info, w', good) =
        send_loop 10 (take (datagram_len output frame) buf) output.error_info w in
      (record output { buf = buf; error_info = info }, w', good)

  -- The fragments from `index` on.
  pub send_fragments :
      ℕ → ℕ → ParseResult → List ℕ → VxlanOutput → W → Timeval → PktDir → VxlanOutput × W × Bool
  send_fragments zero index r pkt_data output w ts direct = (output, w, true)
  send_fragments (suc more) index r pkt_data output w ts direct =
      elim (build_fragment r pkt_data index output.max_payload_size output.recalculate_checksum) [
        | none ↦ (output, w, false)
        | some frame ↦
            let (output', w', good) = do_send_packet output w ts frame direct in
            let rest = send_fragments more (index + 1) r pkt_data output' w' ts direct in
            if good then rest else (output', w', false)
      ]

  -- After `parse_packet`. The last two outcomes are none of the code.
  pub send_parsed :
      Outcome ParseResult → VxlanOutput → W → Timeval → List ℕ → PktDir → VxlanOutput × W × Bool
  send_parsed (ok r) output w ts frame direct =
      let n = calculate_fragment_count r output.max_payload_size in
      let whole = do_send_packet output w ts frame direct in
      let fragments = send_fragments n 0 r frame output w ts direct in
      if n == 1 then whole else fragments
  send_parsed rejected output w ts frame direct = do_send_packet output w ts frame direct
  send_parsed fault output w ts frame direct = (output, w, false)
  send_parsed out_of_fuel output w ts frame direct = (output, w, false)

  pub send_whole_or_split : VxlanOutput → W → Timeval → List ℕ → PktDir → VxlanOutput × W × Bool
  send_whole_or_split output w ts frame direct =
      let whole = do_send_packet output w ts frame direct in
      let split = send_parsed (parse_packet frame (length frame)) output w ts frame direct in
      if output.max_payload_size == 0 || leb (length frame) output.max_payload_size
      then whole
      else split

  pub vxlan_send_packet :
      (ℕ → ℕ → ℕ) → VxlanOutput → W → PktHdr → List ℕ → PktDir → VxlanOutput × W × Bool
  vxlan_send_packet part output w header pkt_data direct =
      let frame_len = output_frame_len header.caplen output.slice max_frame_len in
      let (throttle, pass) =
        throttled part output.rate_limit_mbps output.throttle frame_len header in
      let ready = record output {
        throttle = throttle;
        error_info = check_error_info output.error_info header.ts.tv_sec;
      } in
      let (output', w', good) =
        send_whole_or_split ready w header.ts (take frame_len pkt_data) direct in
      if is_unknown direct
      then (record output { stats = count direction_dropped frame_len output.stats }, w, false)
      else if pass
      then if good
        then (record output' { stats = count forwarded frame_len output'.stats }, w', true)
        else (record output' { stats = count failed frame_len output'.stats }, w', false)
      else (
        record output { throttle = throttle; stats = count ratelimited frame_len output.stats },
        w,
        false,
      )
