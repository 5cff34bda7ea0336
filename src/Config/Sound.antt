-- ===== src/Config/Sound.antt =====
-- Configurations with their numbers in their ranges: what the parsers of cpworker/src/config.c check.
use cloud_probe.Prelude.{
  ℕ, ◌*◌, ◌^◌, ◌<◌, ◌≤◌, ◌≡◌, ◌⊎◌, List, [], ◌∷◌, map, true, if◌then◌else◌, some,
}
use cloud_probe.Tasks.{Text, check_fingerprints}
use cloud_probe.Config.{
  Memory, LibpcapConfig, DpdkPdumpConfig, CapturerConfig, libpcap, pcap_file, dpdk_pdump,
  VxlanConfig, ZmqConfig, OutputKind, vxlan, gre, zmq, file, rotating_file, null, OutputConfig,
  TaskConfig, Config, int_max,
}
use cloud_probe.Config.Sure.{IsSnaplen}
use cloud_probe.Config.Parse.{key_of}

pub record IsLibpcap (c : LibpcapConfig) : Type 0 where
  pub snaplen : IsSnaplen c.snaplen
  pub buffer_size : (1 ≤ c.buffer_size_mb) × (c.buffer_size_mb * 1024 * 1024 ≤ int_max)
  pub timeout : c.timeout_ms ≤ int_max

pub record IsDpdkPdump (c : DpdkPdumpConfig) : Type 0 where
  pub snaplen : IsSnaplen c.snaplen
  pub ring_size : (2 ≤ c.ring_size) × (c.ring_size ≤ 2 ^ 30)

abbrev pub IsCapturer : CapturerConfig → Type 0
IsCapturer (libpcap c) = IsLibpcap c
IsCapturer (pcap_file c) = Unit {0}
IsCapturer (dpdk_pdump c) = IsDpdkPdump c

-- The version and the VNI.
abbrev pub IsVni : ℕ × ℕ → Type 0
IsVni v = ((v.0 ≡ 1) × (v.1 < 2 ^ 24)) ⊎ ((v.0 ≡ 2) × (v.1 < 2 ^ 32))

abbrev pub IsPort : ℕ → Type 0
IsPort n = (1 ≤ n) × (n ≤ 65535)

pub record IsVxlan (c : VxlanConfig) : Type 0 where
  pub port : IsPort c.port
  pub vni : IsVni (c.vni_version, c.vni)
  pub split : c.split.max_payload_size ≤ 65535

pub record IsZmq (c : ZmqConfig) : Type 0 where
  pub port : IsPort c.port
  pub hwm : c.hwm ≤ int_max
  pub service_tag : c.service_tag < 2 ^ 32
  pub heartbeat : c.heartbeat_ms ≤ 60000

abbrev pub IsKind : OutputKind → Type 0
IsKind (vxlan c) = IsVxlan c
IsKind (gre c) = c.service_tag < 2 ^ 32
IsKind (zmq c) = IsZmq c
IsKind (file name) = Unit {0}
IsKind (rotating_file c) = c.max_file_interval ≤ int_max
IsKind null = Unit {0}

-- The rate in bits a second fits 64 bits.
pub record IsOutput (c : OutputConfig) : Type 0 where
  pub rate : c.rate_limit_mbps * 1000000 < 2 ^ 64
  pub rate_int : c.rate_limit_mbps ≤ int_max
  pub slice : c.slice ≤ int_max
  pub kind : IsKind c.kind

abbrev pub AllOutputs : List OutputConfig → Type 0
AllOutputs [] = Unit {0}
AllOutputs (c ∷ cs) = IsOutput c × AllOutputs cs

pub record IsTask (c : TaskConfig) : Type 0 where
  pub named : ¬ (c.fingerprint ≡ some [])
  pub capturer : IsCapturer c.capturer
  pub outputs : AllOutputs c.outputs

abbrev pub AllTasks : List TaskConfig → Type 0
AllTasks [] = Unit {0}
AllTasks (c ∷ cs) = IsTask c × AllTasks cs

-- The size of the buffer in bytes is no less than 1 MiB and fits a size_t.
pub record IsConfig (c : Config) : Type 0 where
  pub tasks : AllTasks c.tasks
  pub unique : check_fingerprints [] (map key_of c.tasks) ≡ true
  pub buffer_size :
      if c.pipeline
      then (1 ≤ c.buffer_size_mb) × (c.buffer_size_mb * 1024 * 1024 < 2 ^ 64)
      else c.buffer_size_mb ≡ 0

-- A copy of a text has its characters.
unfoldable pub Copies : Memory → Type 0
Copies mem = (t u : Text) → mem.strdup t ≡ some u → u ≡ t
