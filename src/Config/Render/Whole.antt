-- ===== src/Config/Render/Whole.antt =====
-- The rendered tasks and configuration, and their parsers in cpworker/src/config.c.
use cloud_probe.Prelude.{
  ℕ, ◌+◌, ◌*◌, ◌/◌, ◌-◌, ◌^◌, ◌≤◌, ◌<◌, ◌≡◌, sym, ap, refl, List, [], ◌∷◌, map, Bool, true, false,
  not, if◌then◌else◌, Option, none, some, arith, and_true,
}
use cloud_probe.Tasks.{Text, same_text, has_fingerprint, check_fingerprints}
use cloud_probe.Config.{
  codes, CapturerConfig, libpcap, pcap_file, dpdk_pdump, OutputKind, vxlan, gre, zmq, file,
  rotating_file, null, OutputConfig, ReqPatternConfig, req_none, req_auto, req_custom, TaskConfig,
  LogLevel, log_debug, log_info, log_warn, log_error, Config, get_integer, required_text,
  optional_text, optional_int,
}
use cloud_probe.Config.Sound.{IsKind, IsOutput, AllOutputs, IsTask, AllTasks, IsConfig}
use cloud_probe.Config.Output.{parse_kind, parse_output_config}
use cloud_probe.Config.Parse.{
  key_of, log_level_of, execution_model_of, parse_custom, parse_pattern_kind,
  parse_req_pattern_config, parse_fingerprint, fingerprint_of, parse_req_pattern, parse_outputs,
  parse_task_config, parse_tasks, parse_tasks_json, parse_control_config, parse_log_level,
  parse_execution_model, parse_buffer_size_mb, parse_control, parse_config_json,
}
use cloud_probe.Config.Render.{
  find_member, item_of, text_of, double_of, has_members, elements_of, json_values, plenty, typed,
  render_capturer, kind_members, render_output, render_outputs, req_pattern_members,
  fingerprint_text, render_task, render_tasks, log_level_text, control_members, config_members,
  render_config, values, Value, object, Members, member, no_members, nat,
}
use cloud_probe.Config.Render.Back.{
  clamp_int-back, get_int64_range-back, parse_capturer_config-back, parse_vxlan-back,
  parse_gre-back, parse_zmq-back, parse_rotating_file-back,
}

-- The text of the type.
type_name : OutputKind → Text
type_name (vxlan c) = codes "vxlan"
type_name (gre c) = codes "gre"
type_name (zmq c) = codes "zmq"
type_name (file name) = codes "file"
type_name (rotating_file c) = codes "rotating_file"
type_name null = codes "null"

-- The output with its rate and its slice.
abbrev output_object : Value → Value → OutputKind → Value
output_object rate slice k =
    object (member "rate_limit_mbps" rate (member "slice" slice (kind_members k no_members)))

type-back :
    (rate slice : Value) (k : OutputKind)
    → required_text json_values plenty (output_object rate slice k) "type" ≡ some (type_name k)
unfolding required_text kind_members typed item_of find_member text_of type_name
type-back rate slice (vxlan c) = refl
type-back rate slice (gre c) = refl
type-back rate slice (zmq c) = refl
type-back rate slice (file name) = refl
type-back rate slice (rotating_file c) = refl
type-back rate slice null = refl

parse_kind-back :
    (rate slice : Value) (k : OutputKind)
    → IsKind k
    → parse_kind json_values plenty (output_object rate slice k) (type_name k) ≡ some k
unfolding parse_kind kind_members typed item_of find_member type_name same_text required_text
    text_of
parse_kind-back rate slice (vxlan c) h = rw (parse_vxlan-back c h) refl
parse_kind-back rate slice (gre c) h = rw (parse_gre-back c h) refl
parse_kind-back rate slice (zmq c) h = rw (parse_zmq-back c h) refl
parse_kind-back rate slice (file name) h = refl
parse_kind-back rate slice (rotating_file c) h = rw (parse_rotating_file-back c h) refl
parse_kind-back rate slice null h = refl

parse_output_config-back :
    (c : OutputConfig)
    → IsOutput c
    → parse_output_config json_values plenty (render_output c) ≡ some c
unfolding parse_output_config render_output item_of find_member optional_int get_integer double_of
parse_output_config-back c h =
    rw
      (
        type-back (nat c.rate_limit_mbps) (nat c.slice) c.kind,
        clamp_int-back c.rate_limit_mbps h.rate_int,
        clamp_int-back c.slice h.slice,
        parse_kind-back (nat c.rate_limit_mbps) (nat c.slice) c.kind h.kind,
      )
      refl

parse_outputs-back :
    (i : ℕ) (cs : List OutputConfig)
    → AllOutputs cs
    → parse_outputs json_values plenty i (values (render_outputs cs)) ≡ some cs
unfolding parse_outputs render_outputs values has_members render_output
parse_outputs-back i [] h = refl
parse_outputs-back i (c ∷ cs) (h, hs) =
    rw (parse_output_config-back c h, parse_outputs-back (i + 1) cs hs) refl

req_pattern-back :
    (r : ReqPatternConfig)
    → parse_req_pattern json_values plenty (find_member (req_pattern_members r) "req_pattern")
      ≡ some r
unfolding parse_req_pattern req_pattern_members find_member has_members parse_req_pattern_config
    required_text item_of text_of parse_pattern_kind same_text parse_custom typed optional_text
req_pattern-back req_none = refl
req_pattern-back req_auto = refl
req_pattern-back (req_custom pattern) = refl

fingerprint-back :
    (f : Option Text) → ¬ (f ≡ some []) → fingerprint_of json_values plenty (fingerprint_text f) ≡ f
unfolding fingerprint_of fingerprint_text
fingerprint-back none h = refl
fingerprint-back (some []) h = absurd (h refl)
fingerprint-back (some (x ∷ xs)) h = refl

capturer_is_object : (c : CapturerConfig) → has_members (render_capturer c) ≡ true
unfolding has_members render_capturer
capturer_is_object (libpcap c) = refl
capturer_is_object (pcap_file c) = refl
capturer_is_object (dpdk_pdump c) = refl

parse_task_config-back :
    (c : TaskConfig) → IsTask c → parse_task_config json_values plenty (render_task c) ≡ some c
unfolding parse_task_config render_task item_of find_member parse_fingerprint text_of elements_of
parse_task_config-back c h =
    rw
      (
        fingerprint-back c.fingerprint h.named,
        req_pattern-back c.req_pattern,
        capturer_is_object c.capturer,
        parse_capturer_config-back c.capturer h.capturer,
        parse_outputs-back 0 c.outputs h.outputs,
      )
      refl

parse_tasks-back :
    (seen : List TaskConfig) (i : ℕ) (cs : List TaskConfig)
    → AllTasks cs
    → check_fingerprints (map key_of seen) (map key_of cs) ≡ true
    → parse_tasks json_values plenty seen i (values (render_tasks cs)) ≡ some cs
unfolding parse_tasks render_tasks values has_members render_task check_fingerprints
parse_tasks-back seen i [] h u = refl
parse_tasks-back seen i (c ∷ cs) (h, hs) u =
    let (new, rest) =
      and_true (not (has_fingerprint c.fingerprint (map key_of seen)))
        (check_fingerprints (map key_of (c ∷ seen)) (map key_of cs)) u in
    rw (parse_task_config-back c h, new, parse_tasks-back (c ∷ seen) (i + 1) cs hs rest) refl

log_level-back : (l : LogLevel) → log_level_of (log_level_text l) ≡ some l
unfolding log_level_of log_level_text same_text
log_level-back log_debug = refl
log_level-back log_info = refl
log_level-back log_warn = refl
log_level-back log_error = refl

execution_model-back :
    (b : Bool) → execution_model_of (if b then codes "pipeline" else codes "rtc") ≡ some b
unfolding execution_model_of same_text
execution_model-back true = refl
execution_model-back false = refl

control-back :
    (o : Option Text)
    → parse_control json_values plenty (find_member (control_members o) "control") ≡ some o
unfolding parse_control control_members find_member has_members parse_control_config required_text
    item_of text_of typed same_text
control-back none = refl
control-back (some path) = refl

buffer_size-back :
    (b : Bool) (n : ℕ) (ms : Members)
    → find_member ms "pipeline" ≡ some (object (member "buffer_size_mb" (nat n) no_members))
    → (if b then (1 ≤ n) × (n * 1024 * 1024 < 2 ^ 64) else n ≡ 0)
    → parse_buffer_size_mb json_values plenty b (object ms) ≡ some n
unfolding parse_buffer_size_mb item_of find_member has_members double_of
buffer_size-back true n ms e h =
    rw e (
      rw (get_int64_range-back n 1 ((2 ^ 64 - 1) / (1024 * 1024)) (omega arith) (omega arith)) refl)
buffer_size-back false n ms e h = ap some (sym h)

-- Each sound configuration is accepted: written as JSON values and read with memory that is never used
-- up, it is the configuration again.
pub parse_config_json-render :
    (c : Config) → IsConfig c → parse_config_json json_values plenty (render_config c) ≡ some c
unfolding parse_config_json parse_tasks_json render_config config_members item_of find_member
    elements_of text_of parse_log_level optional_text parse_execution_model
parse_config_json-render c h =
    rw
      (
        parse_tasks-back [] 0 c.tasks h.tasks h.unique,
        log_level-back c.log_level,
        execution_model-back c.pipeline,
        buffer_size-back c.pipeline c.buffer_size_mb (config_members c) refl h.buffer_size,
        control-back c.control,
      )
      refl
