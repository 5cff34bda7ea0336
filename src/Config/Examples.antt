-- ===== src/Config/Examples.antt =====
-- A configuration of two tasks, as cpworker/src/config.c reads it.
use cloud_probe.Prelude.{◌≡◌, inl, refl, sym, [], ◌∷◌, map, true, false, none, some, arith}
use mathlib.Core.Option.{some-injective}
use cloud_probe.Tasks.{same_text, same_fingerprint, has_fingerprint, check_fingerprints}
use cloud_probe.Config.{
  codes, libpcap, pcap_file, pmtu_do, VxlanConfig, ZmqConfig, OutputKind, vxlan, zmq, null,
  OutputConfig, req_auto, req_none, TaskConfig, log_info, Config,
}
use cloud_probe.Config.Parse.{key_of, parse_config_json}
use cloud_probe.Config.Sound.{Copies, IsKind, IsOutput, IsConfig}
use cloud_probe.Config.Valid.{parse_config_json-IsConfig}
use cloud_probe.Config.Render.{json_values, plenty, render_config}
use cloud_probe.Config.Render.Whole.{parse_config_json-render}

abbrev tunnel : VxlanConfig
tunnel = record {
  host = codes "10.0.0.1";
  port = 4789;
  capture_time = false;
  vni_version = 1;
  vni = 7;
  bind_device = [];
  pmtudisc = pmtu_do;
  split = record { max_payload_size = 1400; recalculate_checksum = true };
}

abbrev queue : ZmqConfig
queue = record {
  host = codes "10.0.0.1";
  port = 5555;
  hwm = 100;
  service_tag = 3;
  uuid = [];
  heartbeat_ms = 1000;
}

abbrev output_of : OutputKind → OutputConfig
output_of kind = record { rate_limit_mbps = 10; slice = 0; kind = kind }

abbrev live_task : TaskConfig
live_task = record {
  fingerprint = some (codes "a");
  req_pattern = req_auto;
  capturer = libpcap (record {
    interface = codes "eth0";
    snaplen = 2048;
    netns = [];
    bpf_filter = codes "tcp";
    buffer_size_mb = 16;
    timeout_ms = 1000;
    not_filter_output_hosts = false;
  });
  outputs = output_of (vxlan tunnel) ∷ output_of (zmq queue) ∷ [];
}

abbrev replay_task : TaskConfig
replay_task = record {
  fingerprint = none;
  req_pattern = req_none;
  capturer = pcap_file (record { file_name = codes "in.pcap"; bpf_filter = [] });
  outputs = output_of null ∷ [];
}

abbrev pub two_tasks : Config
two_tasks = record {
  log_level = log_info;
  cpu_affinity = [];
  pipeline = true;
  buffer_size_mb = 64;
  control = some (codes "/run/probe.sock");
  tasks = live_task ∷ replay_task ∷ [];
}

two_tasks_unique : check_fingerprints [] (map key_of two_tasks.tasks) ≡ true
unfolding check_fingerprints has_fingerprint same_fingerprint same_text
two_tasks_unique = refl

output_of_sound : (kind : OutputKind) → IsKind kind → IsOutput (output_of kind)
output_of_sound kind h = record {
  rate = omega arith;
  rate_int = omega arith;
  slice = omega arith;
  kind = h;
}

two_tasks_sound : IsConfig two_tasks
two_tasks_sound = record {
  tasks = (
    record {
      named = λ e. cc;
      capturer = record {
        snaplen = (omega arith, omega arith);
        buffer_size = (omega arith, omega arith);
        timeout = omega arith;
      };
      outputs = (
        output_of_sound (vxlan tunnel) (record {
          port = (omega arith, omega arith);
          vni = inl (refl, omega arith);
          split = omega arith;
        }),
        (
          output_of_sound (zmq queue) (record {
            port = (omega arith, omega arith);
            hwm = omega arith;
            service_tag = omega arith;
            heartbeat = omega arith;
          }),
          tt,
        ),
      );
    },
    (record { named = λ e. cc; capturer = tt; outputs = (output_of_sound null tt, tt) }, tt),
  );
  unique = two_tasks_unique;
  buffer_size = (omega arith, omega arith);
}

plenty-Copies : Copies plenty
unfolding Copies
plenty-Copies t u e = sym (some-injective _ _ e)

parse_config_json-render_example :
    parse_config_json json_values plenty (render_config two_tasks) ≡ some two_tasks
parse_config_json-render_example = parse_config_json-render two_tasks two_tasks_sound

parse_config_json-IsConfig_example : IsConfig two_tasks
parse_config_json-IsConfig_example =
    parse_config_json-IsConfig json_values plenty (render_config two_tasks) two_tasks plenty-Copies
      parse_config_json-render_example
