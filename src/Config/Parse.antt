-- ===== src/Config/Parse.antt =====
-- The tasks, the control socket and the whole configuration in cpworker/src/config.c.
use cloud_probe.Prelude.{
  ℕ, ◌+◌, ◌-◌, ◌*◌, ◌/◌, ◌^◌, List, [], ◌∷◌, Bool, true, false, not, if◌then◌else◌, Option, none,
  some, leb, ◌&&◌, map, length,
}
use cloud_probe.Tasks.{Text, same_text, has_fingerprint}
use cloud_probe.Config.{
  codes, ◌>>=◌, ◌>>◌, require, Json, Memory, OutputConfig, ReqPatternConfig, req_none, req_auto,
  req_custom, TaskConfig, LogLevel, log_debug, log_info, log_warn, log_error, Config,
  get_int64_range, required_text, optional_text,
}
use cloud_probe.Config.Capturer.{parse_capturer_config}
use cloud_probe.Config.Output.{parse_output_config}

-- What the reload compares of a task.
abbrev pub key_of : TaskConfig → cloud_probe.Tasks.TaskConfig
key_of c = record { fingerprint = c.fingerprint }

-- `strcasecmp`, of a text with one in capitals.
abbrev pub to_upper : ℕ → ℕ
to_upper c = if leb b'a' c && leb c b'z' then c - 32 else c

unfoldable pub log_level_of : Text → Option LogLevel
log_level_of t =
    let up = map to_upper t in
    if same_text up (codes "DEBUG")
    then some log_debug
    else if same_text up (codes "INFO")
    then some log_info
    else if same_text up (codes "WARN")
    then some log_warn
    else if same_text up (codes "ERROR")
    then some log_error
    else none

unfoldable pub execution_model_of : Text → Option Bool
execution_model_of t =
    if same_text t (codes "rtc")
    then some false
    else if same_text t (codes "pipeline")
    then some true
    else none

module _ {J : Type 0} (js : Json J) (mem : Memory) where
  unfoldable pub parse_custom : J → Option ReqPatternConfig
  parse_custom obj = do
    custom ← js.get_object_item obj "custom"
    require (js.is_object custom)
    pattern ← optional_text js mem custom "pattern"
    some (req_custom pattern)

  unfoldable pub parse_pattern_kind : J → Text → Option ReqPatternConfig
  parse_pattern_kind obj type =
      if same_text type (codes "auto")
      then some req_auto
      else if same_text type (codes "custom")
      then parse_custom obj
      else none

  unfoldable pub parse_req_pattern_config : J → Option ReqPatternConfig
  parse_req_pattern_config obj = do
    type ← required_text js mem obj "type"
    parse_pattern_kind obj type

  -- The empty text is no fingerprint; strdup is not tested.
  unfoldable pub fingerprint_of : Text → Option Text
  fingerprint_of [] = none
  fingerprint_of (x ∷ xs) = mem.strdup (x ∷ xs)

  unfoldable pub parse_fingerprint : Option J → Option (Option Text)
  parse_fingerprint none = some none
  parse_fingerprint (some item) = do text ← js.string_of item; some (fingerprint_of text)

  unfoldable pub parse_req_pattern : Option J → Option ReqPatternConfig
  parse_req_pattern none = do type ← mem.strdup (codes "none"); some req_none
  parse_req_pattern (some item) = do require (js.is_object item); parse_req_pattern_config item

  -- The loop over the outputs, from the one at index `i`.
  unfoldable pub parse_outputs : ℕ → List J → Option (List OutputConfig)
  parse_outputs i [] = some []
  parse_outputs i (item ∷ items) = do
    require (js.is_object item && mem.block_ok i)
    output ← parse_output_config js mem item
    rest ← parse_outputs (i + 1) items
    some (output ∷ rest)

  unfoldable pub parse_task_config : J → Option TaskConfig
  parse_task_config task_obj = do
    fingerprint ← parse_fingerprint (js.get_object_item task_obj "fingerprint")
    req_pattern ← parse_req_pattern (js.get_object_item task_obj "req_pattern")
    capturer_obj ← js.get_object_item task_obj "capturer"
    require (js.is_object capturer_obj)
    capturer ← parse_capturer_config js mem capturer_obj
    outputs_obj ← js.get_object_item task_obj "outputs"
    items ← js.array_of outputs_obj
    require (mem.array_ok (length items))
    outputs ← parse_outputs 0 items
    some record {
      fingerprint = fingerprint;
      req_pattern = req_pattern;
      capturer = capturer;
      outputs = outputs;
    }

  -- The loop over the tasks, with those before in any order.
  unfoldable pub parse_tasks : List TaskConfig → ℕ → List J → Option (List TaskConfig)
  parse_tasks seen i [] = some []
  parse_tasks seen i (item ∷ items) = do
    require (js.is_object item && mem.block_ok i)
    task ← parse_task_config item
    require (not (has_fingerprint task.fingerprint (map key_of seen)))
    rest ← parse_tasks (task ∷ seen) (i + 1) items
    some (task ∷ rest)

  unfoldable pub parse_tasks_json : J → Option (List TaskConfig)
  parse_tasks_json json = do
    require (mem.block_ok 0)
    tasks_obj ← js.get_object_item json "tasks"
    items ← js.array_of tasks_obj
    require (mem.array_ok (length items))
    parse_tasks [] 0 items

  unfoldable pub parse_control_config : J → Option Text
  parse_control_config control_obj = do
    type ← required_text js mem control_obj "type"
    require (same_text type (codes "unix"))
    unix_obj ← js.get_object_item control_obj "unix"
    required_text js mem unix_obj "path"

  unfoldable pub parse_log_level : Option J → Option LogLevel
  parse_log_level none = some log_info
  parse_log_level (some item) = js.string_of item >>= log_level_of

  unfoldable pub parse_execution_model : Option J → Option Bool
  parse_execution_model none = some false
  parse_execution_model (some item) = js.string_of item >>= execution_model_of

  -- The largest size is SIZE_MAX / (1024 * 1024).
  unfoldable pub parse_buffer_size_mb : Bool → J → Option ℕ
  parse_buffer_size_mb false json = some 0
  parse_buffer_size_mb true json = do
    obj ← js.get_object_item json "pipeline"
    require (js.is_object obj)
    item ← js.get_object_item obj "buffer_size_mb"
    get_int64_range (js.number_of item) 1 ((2 ^ 64 - 1) / (1024 * 1024))

  unfoldable pub parse_control : Option J → Option (Option Text)
  parse_control none = some none
  parse_control (some item) = do
    require (js.is_object item && mem.block_ok 0)
    path ← parse_control_config item
    some (some path)

  unfoldable pub parse_config_json : J → Option Config
  parse_config_json json = do
    require (mem.block_ok 0)
    tasks ← parse_tasks_json json
    log_level ← parse_log_level (js.get_object_item json "log_level")
    cpu_affinity ← optional_text js mem json "cpu_affinity"
    pipeline ← parse_execution_model (js.get_object_item json "execution_model")
    buffer_size_mb ← parse_buffer_size_mb pipeline json
    control ← parse_control (js.get_object_item json "control")
    some record {
      log_level = log_level;
      cpu_affinity = cpu_affinity;
      pipeline = pipeline;
      buffer_size_mb = buffer_size_mb;
      control = control;
      tasks = tasks;
    }
