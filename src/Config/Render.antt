-- ===== src/Config/Render.antt =====
-- JSON values as a data type, and a configuration of cpworker/src/config.c written in them.
pub mod Back
pub mod Whole
use Prim.Native.String.{String}
use text.Mathlib.Text.{◌==◌}
use cloud_probe.Prelude.{
  ℕ, ◌+◌, ◌*◌, ◌/◌, ◌-◌, ◌%◌, ◌^◌, ◌≤◌, ◌<◌, ◌≡◌, ◌∙◌, sym, ap, ap₂, refl, List, [], ◌∷◌, map, Bool,
  true, false, not, ltb, leb, if◌then◌else◌, Option, none, some, arith, inl, inr, and_true,
}
use cloud_probe.Prelude.Int.{pos}
use cloud_probe.Tasks.{Text, same_text, has_fingerprint, check_fingerprints}
use cloud_probe.Config.{
  codes, Double, integer, Json, Memory, LibpcapConfig, PcapFileConfig, DpdkPdumpConfig,
  CapturerConfig, libpcap, pcap_file, dpdk_pdump, Pmtudisc, pmtu_unset, pmtu_dont, pmtu_want,
  pmtu_do, SplitConfig, VxlanConfig, GreConfig, ZmqConfig, RotatingFileConfig, OutputKind, vxlan,
  gre, zmq, file, rotating_file, null, OutputConfig, ReqPatternConfig, req_none, req_auto,
  req_custom, TaskConfig, LogLevel, log_debug, log_info, log_warn, log_error, Config, int_max,
  max_libpcap_buffer_size_mb, get_integer, get_int64_range, clamp_int, snaplen_of, required_text,
  optional_text, optional_bool, optional_int, optional_range, parse_snaplen,
}

-- JSON values.
mutual
  pub data Value : Type 0 where
    str : Text → Value
    number : Double → Value
    boolean : Bool → Value
    object : Members → Value
    array : Values → Value

  pub data Members : Type 0 where
    no_members : Members
    member : String → Value → Members → Members

  pub data Values : Type 0 where
    no_values : Values
    value : Value → Values → Values

pub find_member : Members → String → Option Value
find_member no_members name = none
find_member (member key v ms) name = if key == name then some v else find_member ms name

pub values : Values → List Value
values no_values = []
values (value v vs) = v ∷ values vs

pub item_of : Value → String → Option Value
item_of (object ms) name = find_member ms name
item_of (str t) name = none
item_of (number n) name = none
item_of (boolean b) name = none
item_of (array vs) name = none

pub text_of : Value → Option Text
text_of (str t) = some t
text_of v = none

pub double_of : Value → Option Double
double_of (number n) = some n
double_of v = none

pub boolean_of : Value → Option Bool
boolean_of (boolean b) = some b
boolean_of v = none

pub has_members : Value → Bool
has_members (object ms) = true
has_members v = false

pub elements_of : Value → Option (List Value)
elements_of (array vs) = some (values vs)
elements_of v = none

abbrev pub json_values : Json Value
json_values = record {
  get_object_item = item_of;
  string_of = text_of;
  number_of = double_of;
  bool_of = boolean_of;
  is_object = has_members;
  array_of = elements_of;
}

-- Memory that is never used up.
abbrev pub plenty : Memory
plenty = record { strdup = λ t. some t; array_ok = λ n. true; block_ok = λ i. true }

abbrev pub nat : ℕ → Value
nat n = number (integer (pos n))

-- The members of the capturers.
pub libpcap_members : LibpcapConfig → Members
libpcap_members c = member "interface" (str c.interface) (
    member "netns" (str c.netns) (
      member "snaplen" (nat c.snaplen) (
        member "bpf" (str c.bpf_filter) (
          member "buffer_size_mb" (nat c.buffer_size_mb) (
            member "timeout_ms" (nat c.timeout_ms)
              (member "not_filter_output_hosts" (boolean c.not_filter_output_hosts) no_members))))))

pub pcap_file_members : PcapFileConfig → Members
pcap_file_members c =
    member "file_name" (str c.file_name) (member "bpf" (str c.bpf_filter) no_members)

pub dpdk_pdump_members : DpdkPdumpConfig → Members
dpdk_pdump_members c = member "interface" (str c.interface) (
    member "snaplen" (nat c.snaplen)
      (member "bpf" (str c.bpf_filter) (member "ring_size" (nat c.ring_size) no_members)))

-- A part with its name as the type.
pub typed : String → Members → Members → Members
typed name part rest = member "type" (str (codes name)) (member name (object part) rest)

pub render_capturer : CapturerConfig → Value
render_capturer (libpcap c) = object (typed "libpcap" (libpcap_members c) no_members)
render_capturer (pcap_file c) = object (typed "pcap_file" (pcap_file_members c) no_members)
render_capturer (dpdk_pdump c) = object (typed "dpdk_pdump" (dpdk_pdump_members c) no_members)

-- The members that an unset or a none leaves out stand last.
pub pmtudisc_members : Pmtudisc → Members → Members
pmtudisc_members pmtu_unset rest = rest
pmtudisc_members pmtu_dont rest = member "pmtudisc" (str (codes "dont")) rest
pmtudisc_members pmtu_want rest = member "pmtudisc" (str (codes "want")) rest
pmtudisc_members pmtu_do rest = member "pmtudisc" (str (codes "do")) rest

pub split_members : SplitConfig → Members
split_members c =
    member "max_payload_size" (nat c.max_payload_size)
      (member "recalculate_checksum" (boolean c.recalculate_checksum) no_members)

pub vni_members : ℕ → ℕ → Members
vni_members version vni = member (if ltb 1 version then "vni2" else "vni1") (nat vni) no_members

pub vxlan_members : VxlanConfig → Members
vxlan_members c = member "host" (str c.host) (
    member "port" (nat c.port) (
      member "capture_time" (boolean c.capture_time) (
        member "bind_device" (str c.bind_device) (
          member "split" (object (split_members c.split))
            (pmtudisc_members c.pmtudisc (vni_members c.vni_version c.vni))))))

pub gre_members : GreConfig → Members
gre_members c = member "host" (str c.host) (
    member "service_tag" (nat c.service_tag)
      (member "bind_device" (str c.bind_device) (pmtudisc_members c.pmtudisc no_members)))

pub zmq_members : ZmqConfig → Members
zmq_members c = member "host" (str c.host) (
    member "port" (nat c.port) (
      member "hwm" (nat c.hwm) (
        member "service_tag" (nat c.service_tag)
          (member "uuid" (str c.uuid) (member "heartbeat_ms" (nat c.heartbeat_ms) no_members)))))

pub rotating_file_members : RotatingFileConfig → Members
rotating_file_members c =
    member "file_root" (str c.file_root)
      (member "max_file_interval" (nat c.max_file_interval) no_members)

pub kind_members : OutputKind → Members → Members
kind_members (vxlan c) rest = typed "vxlan" (vxlan_members c) rest
kind_members (gre c) rest = typed "gre" (gre_members c) rest
kind_members (zmq c) rest = typed "zmq" (zmq_members c) rest
kind_members (file name) rest = typed "file" (member "name" (str name) no_members) rest
kind_members (rotating_file c) rest = typed "rotating_file" (rotating_file_members c) rest
kind_members null rest = member "type" (str (codes "null")) rest

pub render_output : OutputConfig → Value
render_output c = object (
    member "rate_limit_mbps" (nat c.rate_limit_mbps)
      (member "slice" (nat c.slice) (kind_members c.kind no_members)))

pub render_outputs : List OutputConfig → Values
render_outputs [] = no_values
render_outputs (c ∷ cs) = value (render_output c) (render_outputs cs)

pub req_pattern_members : ReqPatternConfig → Members
req_pattern_members req_none = no_members
req_pattern_members req_auto =
    member "req_pattern" (object (member "type" (str (codes "auto")) no_members)) no_members
req_pattern_members (req_custom pattern) =
    member "req_pattern"
      (object (typed "custom" (member "pattern" (str pattern) no_members) no_members)) no_members

-- No fingerprint is the empty text.
pub fingerprint_text : Option Text → Text
fingerprint_text none = []
fingerprint_text (some t) = t

pub render_task : TaskConfig → Value
render_task c = object (
    member "fingerprint" (str (fingerprint_text c.fingerprint)) (
      member "capturer" (render_capturer c.capturer)
        (member "outputs" (array (render_outputs c.outputs)) (req_pattern_members c.req_pattern))))

pub render_tasks : List TaskConfig → Values
render_tasks [] = no_values
render_tasks (c ∷ cs) = value (render_task c) (render_tasks cs)

pub log_level_text : LogLevel → Text
log_level_text log_debug = codes "DEBUG"
log_level_text log_info = codes "INFO"
log_level_text log_warn = codes "WARN"
log_level_text log_error = codes "ERROR"

pub control_members : Option Text → Members
control_members none = no_members
control_members (some path) =
    member "control" (object (typed "unix" (member "path" (str path) no_members) no_members))
      no_members

pub config_members : Config → Members
config_members c =
    (member "tasks" (array (render_tasks c.tasks)) (
      member "log_level" (str (log_level_text c.log_level)) (
        member "cpu_affinity" (str c.cpu_affinity) (
          member "execution_model" (str (if c.pipeline then codes "pipeline" else codes "rtc")) (
            member "pipeline" (object (member "buffer_size_mb" (nat c.buffer_size_mb) no_members))
              (control_members c.control))))))

pub render_config : Config → Value
render_config c = object (config_members c)
