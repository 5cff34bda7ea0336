-- ===== src/Config/Output.antt =====
-- `parse_output_config` and `parse_split_config` of cpworker/src/config.c.
use cloud_probe.Prelude.{ℕ, ◌-◌, ◌^◌, ◌%◌, false, ltb, if◌then◌else◌, Option, none, some}
use cloud_probe.Tasks.{Text, same_text}
use cloud_probe.Config.{
  codes, if_there, ◌>>=◌, Json, Memory, Pmtudisc, pmtu_unset, pmtu_dont, pmtu_want, pmtu_do,
  SplitConfig, VxlanConfig, GreConfig, ZmqConfig, RotatingFileConfig, OutputKind, vxlan, gre, zmq,
  file, rotating_file, null, OutputConfig, get_int64_range, required_text, optional_text,
  optional_bool, optional_int, optional_range,
}

-- The text of a pmtudisc that is there.
unfoldable pub pmtudisc_of : Text → Option Pmtudisc
pmtudisc_of t =
    if same_text t (codes "do")
    then some pmtu_do
    else if same_text t (codes "dont")
    then some pmtu_dont
    else if same_text t (codes "want")
    then some pmtu_want
    else none

module _ {J : Type 0} (js : Json J) (mem : Memory) where
  unfoldable pub parse_pmtudisc : J → Option Pmtudisc
  parse_pmtudisc obj =
      if_there (js.get_object_item obj "pmtudisc") (some pmtu_unset)
        λ item. js.string_of item >>= pmtudisc_of

  unfoldable pub parse_split_config : Option J → Option SplitConfig
  parse_split_config none = some record { max_payload_size = 0; recalculate_checksum = false }
  parse_split_config (some obj) = do
    max_payload_size ← optional_range js mem obj "max_payload_size" 0 0 65535
    recalculate_checksum ← optional_bool js mem obj "recalculate_checksum"
    some record { max_payload_size = max_payload_size; recalculate_checksum = recalculate_checksum }

  -- The version and the VNI: of `vni1` the low 24 bits are kept.
  unfoldable pub parse_vni : Option J → Option J → Option (ℕ × ℕ)
  parse_vni (some vni1) (some vni2) = none
  parse_vni (some vni1) none = do
    value ← get_int64_range (js.number_of vni1) 0 (2 ^ 32 - 1)
    some (1, if ltb 0xFFFFFF value then value % 2 ^ 24 else value)
  parse_vni none (some vni2) = do
    value ← get_int64_range (js.number_of vni2) 0 (2 ^ 32 - 1)
    some (2, value)
  parse_vni none none = none

  unfoldable pub parse_vxlan : J → Option VxlanConfig
  parse_vxlan obj = do
    host ← required_text js mem obj "host"
    port ← optional_range js mem obj "port" 4789 1 65535
    capture_time ← optional_bool js mem obj "capture_time"
    vni ← parse_vni (js.get_object_item obj "vni1") (js.get_object_item obj "vni2")
    bind_device ← optional_text js mem obj "bind_device"
    pmtudisc ← parse_pmtudisc obj
    split ← parse_split_config (js.get_object_item obj "split")
    some record {
      host = host;
      port = port;
      capture_time = capture_time;
      vni_version = vni.0;
      vni = vni.1;
      bind_device = bind_device;
      pmtudisc = pmtudisc;
      split = split;
    }

  unfoldable pub parse_gre : J → Option GreConfig
  parse_gre obj = do
    host ← required_text js mem obj "host"
    service_tag ← optional_range js mem obj "service_tag" 0x0FFFFFFF 0 (2 ^ 32 - 1)
    bind_device ← optional_text js mem obj "bind_device"
    pmtudisc ← parse_pmtudisc obj
    some record {
      host = host;
      service_tag = service_tag;
      bind_device = bind_device;
      pmtudisc = pmtudisc;
    }

  unfoldable pub parse_zmq : J → Option ZmqConfig
  parse_zmq obj = do
    host ← required_text js mem obj "host"
    port_item ← js.get_object_item obj "port"
    port ← get_int64_range (js.number_of port_item) 1 65535
    hwm ← optional_int js mem obj "hwm" 100
    service_tag ← optional_range js mem obj "service_tag" 0xFFFFFFFF 0 (2 ^ 32 - 1)
    uuid ← optional_text js mem obj "uuid"
    heartbeat_ms ← optional_range js mem obj "heartbeat_ms" 0 0 60000
    some record {
      host = host;
      port = port;
      hwm = hwm;
      service_tag = service_tag;
      uuid = uuid;
      heartbeat_ms = heartbeat_ms;
    }

  unfoldable pub parse_rotating_file : J → Option RotatingFileConfig
  parse_rotating_file obj = do
    file_root ← required_text js mem obj "file_root"
    max_file_interval ← optional_int js mem obj "max_file_interval" 60
    some record { file_root = file_root; max_file_interval = max_file_interval }

  -- The part that the type names.
  unfoldable pub parse_kind : J → Text → Option OutputKind
  parse_kind output_obj type =
      if same_text type (codes "vxlan")
      then (do obj ← js.get_object_item output_obj "vxlan"; c ← parse_vxlan obj; some (vxlan c))
      else if same_text type (codes "gre")
      then (do obj ← js.get_object_item output_obj "gre"; c ← parse_gre obj; some (gre c))
      else if same_text type (codes "zmq")
      then (do obj ← js.get_object_item output_obj "zmq"; c ← parse_zmq obj; some (zmq c))
      else if same_text type (codes "file")
      then (do
        obj ← js.get_object_item output_obj "file"
        name ← required_text js mem obj "name"
        some (file name))
      else if same_text type (codes "rotating_file")
      then (do
        obj ← js.get_object_item output_obj "rotating_file"
        c ← parse_rotating_file obj
        some (rotating_file c))
      else if same_text type (codes "null")
      then some null
      else none

  unfoldable pub parse_output_config : J → Option OutputConfig
  parse_output_config output_obj = do
    type ← required_text js mem output_obj "type"
    rate_limit_mbps ← optional_int js mem output_obj "rate_limit_mbps" 0
    slice ← optional_int js mem output_obj "slice" 0
    kind ← parse_kind output_obj type
    some record { rate_limit_mbps = rate_limit_mbps; slice = slice; kind = kind }
