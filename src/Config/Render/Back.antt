-- ===== src/Config/Render/Back.antt =====
-- The rendered capturers and outputs, and their parsers in cpworker/src/config.c.
use Prim.Native.String.{String}
use text.Mathlib.Text.{◌==◌}
use cloud_probe.Prelude.{
  ℕ, ◌*◌, ◌-◌, ◌^◌, ◌≤◌, ◌<◌, ◌≡◌, refl, Bool, true, false, ltb, none, some, arith, inl, inr,
  if_both,
}
use cloud_probe.Prelude.Int.{pos}
use cloud_probe.Tasks.{same_text}
use cloud_probe.Config.{
  integer, LibpcapConfig, DpdkPdumpConfig, CapturerConfig, libpcap, pcap_file, dpdk_pdump, Pmtudisc,
  pmtu_unset, pmtu_dont, pmtu_want, pmtu_do, VxlanConfig, GreConfig, ZmqConfig, RotatingFileConfig,
  int_max, get_integer, get_int64_range, clamp_int, snaplen_of, required_text, optional_text,
  optional_bool, optional_int, optional_range, parse_snaplen,
}
use cloud_probe.Config.Sure.{IsSnaplen}
use cloud_probe.Config.Sound.{IsLibpcap, IsDpdkPdump, IsCapturer, IsVni, IsVxlan, IsZmq}
use cloud_probe.Config.Capturer.{
  buffer_size_of, parse_buffer_size, parse_ring_size, parse_libpcap, parse_pcap_file,
  parse_dpdk_pdump, parse_engine, parse_capturer_config,
}
use cloud_probe.Config.Output.{
  pmtudisc_of, parse_pmtudisc, parse_split_config, parse_vni, parse_vxlan, parse_gre, parse_zmq,
  parse_rotating_file,
}
use cloud_probe.Config.Render.{
  find_member, item_of, text_of, double_of, boolean_of, json_values, plenty, libpcap_members,
  pcap_file_members, dpdk_pdump_members, typed, render_capturer, pmtudisc_members, split_members,
  vni_members, vxlan_members, gre_members, zmq_members, rotating_file_members, object, Members,
  member, no_members, nat,
}

pub clamp_int-back : (n : ℕ) → n ≤ int_max → clamp_int (integer (pos n)) ≡ some n
unfolding clamp_int
clamp_int-back n h = ground arith

snaplen_of-back : (b : Bool) (n : ℕ) → IsSnaplen n → snaplen_of b (integer (pos n)) ≡ some n
unfolding snaplen_of
snaplen_of-back b n h = ground arith

pub get_int64_range-back :
    (n lo hi : ℕ) → lo ≤ n → n ≤ hi → get_int64_range (some (integer (pos n))) lo hi ≡ some n
unfolding get_int64_range
get_int64_range-back n lo hi h k = ground arith

buffer_size_of-back :
    (n : ℕ) → (1 ≤ n) × (n * 1024 * 1024 ≤ int_max) → buffer_size_of (integer (pos n)) ≡ some n
unfolding buffer_size_of
buffer_size_of-back n h = ground arith

parse_libpcap-back :
    (c : LibpcapConfig)
    → IsLibpcap c
    → parse_libpcap json_values plenty (object (libpcap_members c)) ≡ some c
unfolding parse_libpcap libpcap_members item_of find_member text_of required_text optional_text
    parse_snaplen double_of get_integer parse_buffer_size optional_int optional_bool boolean_of
parse_libpcap-back c h =
    rw
      (
        snaplen_of-back true c.snaplen h.snaplen,
        buffer_size_of-back c.buffer_size_mb h.buffer_size,
        clamp_int-back c.timeout_ms h.timeout,
      )
      refl

parse_dpdk_pdump-back :
    (c : DpdkPdumpConfig)
    → IsDpdkPdump c
    → parse_dpdk_pdump json_values plenty (object (dpdk_pdump_members c)) ≡ some c
unfolding parse_dpdk_pdump dpdk_pdump_members item_of find_member text_of required_text
    optional_text parse_snaplen double_of get_integer parse_ring_size
parse_dpdk_pdump-back c h =
    rw
      (
        snaplen_of-back false c.snaplen h.snaplen,
        get_int64_range-back c.ring_size 2 (2 ^ 30) h.ring_size.0 h.ring_size.1,
      )
      refl

pub parse_capturer_config-back :
    (c : CapturerConfig)
    → IsCapturer c
    → parse_capturer_config json_values plenty (render_capturer c) ≡ some c
unfolding parse_capturer_config parse_engine render_capturer typed item_of find_member text_of
    required_text same_text parse_pcap_file pcap_file_members optional_text
parse_capturer_config-back (libpcap c) h = rw (parse_libpcap-back c h) refl
parse_capturer_config-back (pcap_file c) h = refl
parse_capturer_config-back (dpdk_pdump c) h = rw (parse_dpdk_pdump-back c h) refl

-- The pmtudisc behind the members that are always there, whatever follows.
pmtudisc-back :
    (m : Pmtudisc) (rest : Members)
    → find_member rest "pmtudisc" ≡ none
    → parse_pmtudisc json_values plenty (object (pmtudisc_members m rest)) ≡ some m
unfolding parse_pmtudisc pmtudisc_members item_of find_member text_of pmtudisc_of same_text
pmtudisc-back pmtu_unset rest e = rw e refl
pmtudisc-back pmtu_dont rest e = refl
pmtudisc-back pmtu_want rest e = refl
pmtudisc-back pmtu_do rest e = refl

pmtudisc_members-skip :
    (m : Pmtudisc) (rest : Members) (name : String)
    → ("pmtudisc" == name) ≡ false
    → find_member (pmtudisc_members m rest) name ≡ find_member rest name
unfolding pmtudisc_members find_member
pmtudisc_members-skip pmtu_unset rest name e = refl
pmtudisc_members-skip pmtu_dont rest name e = rw e refl
pmtudisc_members-skip pmtu_want rest name e = rw e refl
pmtudisc_members-skip pmtu_do rest name e = rw e refl

vni_members-pmtudisc : (v n : ℕ) → find_member (vni_members v n) "pmtudisc" ≡ none
unfolding vni_members find_member
vni_members-pmtudisc v n =
    if_both (λ (key : String). find_member (member key (nat n) no_members) "pmtudisc" ≡ none)
      (ltb 1 v) (λ _. refl) (λ _. refl)

vni-back :
    (v n : ℕ)
    → IsVni (v, n)
    → parse_vni json_values plenty
        (find_member (vni_members v n) "vni1")
        (find_member (vni_members v n) "vni2")
      ≡ some (v, n)
unfolding parse_vni vni_members find_member double_of
vni-back v n (inl (e, h)) =
    let small : ltb 0xFFFFFF n ≡ false = ground arith in
    rw (e, get_int64_range-back n 0 (2 ^ 32 - 1) (omega arith) (omega arith), small) refl
vni-back v n (inr (e, h)) =
    rw (e, get_int64_range-back n 0 (2 ^ 32 - 1) (omega arith) (omega arith)) refl

pub parse_vxlan-back :
    (c : VxlanConfig)
    → IsVxlan c
    → parse_vxlan json_values plenty (object (vxlan_members c)) ≡ some c
unfolding parse_vxlan vxlan_members item_of find_member text_of required_text optional_text
    optional_range double_of optional_bool boolean_of parse_split_config split_members
    parse_pmtudisc
parse_vxlan-back c h =
    let rest = vni_members c.vni_version c.vni in
    rw
      (
        get_int64_range-back c.port 1 65535 h.port.0 h.port.1,
        pmtudisc_members-skip c.pmtudisc rest "vni1" refl,
        pmtudisc_members-skip c.pmtudisc rest "vni2" refl,
        vni-back c.vni_version c.vni h.vni,
        pmtudisc-back c.pmtudisc rest (vni_members-pmtudisc c.vni_version c.vni),
        get_int64_range-back c.split.max_payload_size 0 65535 (omega arith) h.split,
      )
      refl

pub parse_gre-back :
    (c : GreConfig)
    → c.service_tag < 2 ^ 32
    → parse_gre json_values plenty (object (gre_members c)) ≡ some c
unfolding parse_gre gre_members item_of find_member text_of required_text optional_text
    optional_range double_of parse_pmtudisc
parse_gre-back c h =
    rw
      (
        get_int64_range-back c.service_tag 0 (2 ^ 32 - 1) (omega arith) (omega arith),
        pmtudisc-back c.pmtudisc no_members no_pmtudisc,
      )
      refl
  where
    no_pmtudisc : find_member no_members "pmtudisc" ≡ none
    no_pmtudisc = refl

pub parse_zmq-back :
    (c : ZmqConfig) → IsZmq c → parse_zmq json_values plenty (object (zmq_members c)) ≡ some c
unfolding parse_zmq zmq_members item_of find_member text_of required_text optional_text
    optional_range optional_int get_integer double_of
parse_zmq-back c h =
    rw
      (
        get_int64_range-back c.port 1 65535 h.port.0 h.port.1,
        clamp_int-back c.hwm h.hwm,
        get_int64_range-back c.service_tag 0 (2 ^ 32 - 1) (omega arith)
            (omega (arith, h.service_tag)),
        get_int64_range-back c.heartbeat_ms 0 60000 (omega arith) h.heartbeat,
      )
      refl

pub parse_rotating_file-back :
    (c : RotatingFileConfig)
    → c.max_file_interval ≤ int_max
    → parse_rotating_file json_values plenty (object (rotating_file_members c)) ≡ some c
unfolding parse_rotating_file rotating_file_members item_of find_member text_of required_text
    optional_int get_integer double_of
parse_rotating_file-back c h = rw (clamp_int-back c.max_file_interval h) refl
