-- ===== src/Config/Valid.antt =====
-- What holds of a configuration that cpworker/src/config.c accepts.
use cloud_probe.Prelude.{
  ℕ, ◌+◌, ◌-◌, ◌*◌, ◌/◌, ◌^◌, ◌<◌, ◌≤◌, ◌≡◌, inl, inr, refl, List, [], ◌∷◌, map, Bool, true, false,
  not, ltb, ◌&&◌, if◌then◌else◌, Option, none, some, arith, if_both, length,
}
use cloud_probe.Prelude.Int.{pos, negsuc}
use cloud_probe.Tasks.{Text, same_text, has_fingerprint, check_fingerprints}
use cloud_probe.Config.{
  codes, Double, integer, fractional, infinite, Json, Memory, SplitConfig, GreConfig,
  RotatingFileConfig, TaskConfig, Config, int_max, get_integer, required_text, optional_text,
  optional_bool,
}
use cloud_probe.Config.Sure.{
  Sure, accepted, refused, Sure-some, Sure-weaken, binds, after_any, there, required,
  get_int64_range-Sure, optional_int-Sure, optional_range-Sure, parse_snaplen-Sure,
}
use cloud_probe.Config.Capturer.{
  buffer_size_of, parse_buffer_size, parse_ring_size, parse_libpcap, parse_pcap_file,
  parse_dpdk_pdump, parse_engine, parse_capturer_config,
}
use cloud_probe.Config.Output.{
  parse_pmtudisc, parse_split_config, parse_vni, parse_vxlan, parse_gre, parse_zmq,
  parse_rotating_file, parse_kind, parse_output_config,
}
use cloud_probe.Config.Parse.{
  key_of, parse_fingerprint, fingerprint_of, parse_req_pattern, parse_outputs, parse_task_config,
  parse_tasks, parse_tasks_json, parse_log_level, parse_execution_model, parse_buffer_size_mb,
  parse_control, parse_config_json,
}
use cloud_probe.Config.Sound.{
  IsLibpcap, IsDpdkPdump, IsCapturer, IsVni, IsVxlan, IsZmq, IsKind, IsOutput, AllOutputs, IsTask,
  AllTasks, IsConfig, Copies,
}

abbrev IsBufferSize : ℕ → Type 0
IsBufferSize n = (1 ≤ n) × (n * 1024 * 1024 ≤ int_max)

buffer_size_of-Sure : (d : Double) → Sure IsBufferSize (buffer_size_of d)
unfolding buffer_size_of
buffer_size_of-Sure (integer (pos n)) =
    if_both (Sure IsBufferSize) (ltb 0 n) (λ e. accepted (ground (arith, e))) (λ _. refused)
buffer_size_of-Sure (integer (negsuc n)) = refused
buffer_size_of-Sure (infinite true) = accepted (omega arith)
buffer_size_of-Sure (infinite false) = refused
buffer_size_of-Sure fractional = refused

module _ {J : Type 0} (js : Json J) (mem : Memory) where
  parse_libpcap-Sure : (obj : J) → Sure IsLibpcap (parse_libpcap js mem obj)
  unfolding parse_libpcap parse_buffer_size
  parse_libpcap-Sure obj = after_any (required_text js mem obj "interface") λ i.
      after_any (optional_text js mem obj "netns") λ n.
        binds (parse_snaplen-Sure js mem obj true) λ s hs.
          after_any (optional_text js mem obj "bpf") λ f.
            binds
              (there (js.get_object_item obj "buffer_size_mb") (accepted (omega arith))
                λ item. after_any (get_integer (js.number_of item)) buffer_size_of-Sure)
              λ b hb. binds (optional_int-Sure js mem obj "timeout_ms" 0 (omega arith)) λ t ht.
                after_any (optional_bool js mem obj "not_filter_output_hosts")
                  λ _. accepted (record { snaplen = hs; buffer_size = hb; timeout = ht })

  parse_dpdk_pdump-Sure : (obj : J) → Sure IsDpdkPdump (parse_dpdk_pdump js mem obj)
  unfolding parse_dpdk_pdump parse_ring_size
  parse_dpdk_pdump-Sure obj = after_any (required_text js mem obj "interface") λ i.
      binds (parse_snaplen-Sure js mem obj false) λ s hs.
        after_any (optional_text js mem obj "bpf") λ f.
          binds
            (there (js.get_object_item obj "ring_size") (accepted (omega arith))
              λ item. get_int64_range-Sure (js.number_of item) 2 (2 ^ 30))
            λ r hr. accepted (record { snaplen = hs; ring_size = hr })

  parse_capturer_config-Sure : (obj : J) → Sure IsCapturer (parse_capturer_config js mem obj)
  unfolding parse_capturer_config parse_engine
  parse_capturer_config-Sure obj = after_any (required_text js mem obj "type") λ t.
      if_both (Sure IsCapturer) (same_text t (codes "libpcap"))
        (λ _.
          after_any (js.get_object_item obj "libpcap")
            λ o. binds (parse_libpcap-Sure o) λ c h. accepted h)
        (λ _.
          if_both (Sure IsCapturer) (same_text t (codes "pcap_file"))
            (λ _.
              after_any (js.get_object_item obj "pcap_file")
                λ o. after_any (parse_pcap_file js mem o) λ c. accepted tt)
            (λ _.
              if_both (Sure IsCapturer) (same_text t (codes "dpdk_pdump"))
                (λ _.
                  after_any (js.get_object_item obj "dpdk_pdump")
                    λ o. binds (parse_dpdk_pdump-Sure o) λ c h. accepted h)
                (λ _. refused)))

  parse_vni-Sure : (a b : Option J) → Sure IsVni (parse_vni js mem a b)
  unfolding parse_vni
  parse_vni-Sure (some v) (some w) = refused
  parse_vni-Sure (some v) none =
      binds (get_int64_range-Sure (js.number_of v) 0 (2 ^ 32 - 1))
        λ n h. accepted (inl (refl, ground arith))
  parse_vni-Sure none (some w) =
      binds (get_int64_range-Sure (js.number_of w) 0 (2 ^ 32 - 1))
        λ n h. accepted (inr (refl, omega arith))
  parse_vni-Sure none none = refused

  parse_split_config-Sure :
      (o : Option J)
      → Sure (λ (c : SplitConfig). c.max_payload_size ≤ 65535) (parse_split_config js mem o)
  unfolding parse_split_config
  parse_split_config-Sure none = accepted (omega arith)
  parse_split_config-Sure (some obj) =
      binds
        (optional_range-Sure js mem obj "max_payload_size" 0 0 65535 (omega arith) (omega arith))
        λ m h. after_any (optional_bool js mem obj "recalculate_checksum") λ b. accepted h.1

  parse_vxlan-Sure : (obj : J) → Sure IsVxlan (parse_vxlan js mem obj)
  unfolding parse_vxlan
  parse_vxlan-Sure obj = after_any (required_text js mem obj "host") λ t.
      binds (optional_range-Sure js mem obj "port" 4789 1 65535 (omega arith) (omega arith)) λ p hp.
        after_any (optional_bool js mem obj "capture_time") λ c.
          binds (parse_vni-Sure (js.get_object_item obj "vni1") (js.get_object_item obj "vni2"))
            λ v hv. after_any (optional_text js mem obj "bind_device") λ b.
              after_any (parse_pmtudisc js mem obj) λ m.
                binds (parse_split_config-Sure (js.get_object_item obj "split"))
                  λ s hs. accepted (record { port = hp; vni = hv; split = hs })

  parse_gre-Sure :
      (obj : J) → Sure (λ (c : GreConfig). c.service_tag < 2 ^ 32) (parse_gre js mem obj)
  unfolding parse_gre
  parse_gre-Sure obj = after_any (required_text js mem obj "host") λ t.
      binds
        (optional_range-Sure js mem obj "service_tag" 0x0FFFFFFF 0 (2 ^ 32 - 1) (omega arith)
          (omega arith))
        λ s hs.
          after_any (optional_text js mem obj "bind_device")
            λ b. after_any (parse_pmtudisc js mem obj) λ m. accepted (omega (arith, hs))

  parse_zmq-Sure : (obj : J) → Sure IsZmq (parse_zmq js mem obj)
  unfolding parse_zmq
  parse_zmq-Sure obj = after_any (required_text js mem obj "host") λ t.
      after_any (js.get_object_item obj "port") λ item.
        binds (get_int64_range-Sure (js.number_of item) 1 65535) λ p hp.
          binds (optional_int-Sure js mem obj "hwm" 100 (omega arith)) λ w hw.
            binds
              (optional_range-Sure js mem obj "service_tag" 0xFFFFFFFF 0 (2 ^ 32 - 1) (omega arith)
                (omega arith))
              λ s hs. after_any (optional_text js mem obj "uuid") λ u.
                binds
                  (optional_range-Sure js mem obj "heartbeat_ms" 0 0 60000 (omega arith)
                    (omega arith))
                  λ b hb. accepted (record {
                    port = hp;
                    hwm = hw;
                    service_tag = omega (arith, hs);
                    heartbeat = hb.1;
                  })

  parse_rotating_file-Sure :
      (obj : J)
      → Sure
          (λ (c : RotatingFileConfig). c.max_file_interval ≤ int_max)
          (parse_rotating_file js mem obj)
  unfolding parse_rotating_file
  parse_rotating_file-Sure obj = after_any (required_text js mem obj "file_root") λ t.
      binds (optional_int-Sure js mem obj "max_file_interval" 60 (omega arith)) λ n h. accepted h

  parse_kind-Sure : (obj : J) (t : Text) → Sure IsKind (parse_kind js mem obj t)
  unfolding parse_kind
  parse_kind-Sure obj t =
      if_both (Sure IsKind) (same_text t (codes "vxlan"))
        (λ _.
          after_any (js.get_object_item obj "vxlan")
            λ o. binds (parse_vxlan-Sure o) λ c h. accepted h)
        (λ _.
          if_both (Sure IsKind) (same_text t (codes "gre"))
            (λ _.
              after_any (js.get_object_item obj "gre")
                λ o. binds (parse_gre-Sure o) λ c h. accepted h)
            (λ _.
              if_both (Sure IsKind) (same_text t (codes "zmq"))
                (λ _.
                  after_any (js.get_object_item obj "zmq")
                    λ o. binds (parse_zmq-Sure o) λ c h. accepted h)
                (λ _.
                  if_both (Sure IsKind) (same_text t (codes "file"))
                    (λ _.
                      after_any (js.get_object_item obj "file")
                        λ o. after_any (required_text js mem o "name") λ c. accepted tt)
                    (λ _.
                      if_both (Sure IsKind) (same_text t (codes "rotating_file"))
                        (λ _.
                          after_any (js.get_object_item obj "rotating_file")
                            λ o. binds (parse_rotating_file-Sure o) λ c h. accepted h)
                        (λ _.
                          if_both (Sure IsKind) (same_text t (codes "null")) (λ _. accepted tt)
                            (λ _. refused))))))

  parse_output_config-Sure : (obj : J) → Sure IsOutput (parse_output_config js mem obj)
  unfolding parse_output_config
  parse_output_config-Sure obj = after_any (required_text js mem obj "type") λ t.
      binds (optional_int-Sure js mem obj "rate_limit_mbps" 0 (omega arith)) λ r hr.
        binds (optional_int-Sure js mem obj "slice" 0 (omega arith)) λ s hs.
          binds (parse_kind-Sure obj t) λ k hk.
            accepted (record { rate = omega (arith, hr); rate_int = hr; slice = hs; kind = hk })

  parse_outputs-Sure : (i : ℕ) (items : List J) → Sure AllOutputs (parse_outputs js mem i items)
  unfolding parse_outputs
  parse_outputs-Sure i [] = accepted tt
  parse_outputs-Sure i (item ∷ items) = required (js.is_object item && mem.block_ok i) λ _.
      binds (parse_output_config-Sure item)
        λ c h. binds (parse_outputs-Sure (i + 1) items) λ cs hs. accepted (h, hs)

  parse_fingerprint-Sure :
      (o : Option J) → Copies mem → Sure (λ f. ¬ (f ≡ some [])) (parse_fingerprint js mem o)
  unfolding parse_fingerprint fingerprint_of Copies
  parse_fingerprint-Sure none h = accepted (λ e. cc)
  parse_fingerprint-Sure (some item) h = after_any (js.string_of item) λ t. accepted (not_empty t)
    where
      not_empty : (t : Text) → ¬ (fingerprint_of js mem t ≡ some [])
      not_empty [] e = cc
      not_empty (x ∷ xs) e = cc (h (x ∷ xs) [] e)

  parse_task_config-Sure : (obj : J) → Copies mem → Sure IsTask (parse_task_config js mem obj)
  unfolding parse_task_config
  parse_task_config-Sure obj h =
      binds (parse_fingerprint-Sure (js.get_object_item obj "fingerprint") h) λ f hf.
        after_any (parse_req_pattern js mem (js.get_object_item obj "req_pattern")) λ r.
          after_any (js.get_object_item obj "capturer") λ co. required (js.is_object co) λ _.
            binds (parse_capturer_config-Sure co) λ c hc.
              after_any (js.get_object_item obj "outputs") λ oo. after_any (js.array_of oo) λ items.
                required (mem.array_ok (length items)) λ _.
                  binds (parse_outputs-Sure 0 items)
                    λ os ho. accepted (record { named = hf; capturer = hc; outputs = ho })

  -- With the fingerprints of the tasks before.
  parse_tasks-Sure :
      (seen : List TaskConfig) (i : ℕ) (items : List J)
      → Copies mem
      → Sure
          (λ cs. AllTasks cs × (check_fingerprints (map key_of seen) (map key_of cs) ≡ true))
          (parse_tasks js mem seen i items)
  unfolding parse_tasks check_fingerprints
  parse_tasks-Sure seen i [] h = accepted (tt, refl)
  parse_tasks-Sure seen i (item ∷ items) h = required (js.is_object item && mem.block_ok i) λ _.
      binds (parse_task_config-Sure item h) λ c hc.
        required (not (has_fingerprint c.fingerprint (map key_of seen))) λ e.
          binds (parse_tasks-Sure (c ∷ seen) (i + 1) items h)
            λ cs hs. accepted ((hc, hs.0), ground (arith, e, hs.1))

  parse_buffer_size_mb-Sure :
      (b : Bool) (json : J)
      → Sure
          (λ n. if b then (1 ≤ n) × (n * 1024 * 1024 < 2 ^ 64) else n ≡ 0)
          (parse_buffer_size_mb js mem b json)
  unfolding parse_buffer_size_mb
  parse_buffer_size_mb-Sure false json = accepted refl
  parse_buffer_size_mb-Sure true json = after_any (js.get_object_item json "pipeline") λ obj.
      required (js.is_object obj) λ _. after_any (js.get_object_item obj "buffer_size_mb") λ item.
        Sure-weaken (λ n h. (h.0, omega (arith, h.1)))
          (get_int64_range-Sure (js.number_of item) 1 ((2 ^ 64 - 1) / (1024 * 1024)))

  parse_config_json-Sure : (json : J) → Copies mem → Sure IsConfig (parse_config_json js mem json)
  unfolding parse_config_json parse_tasks_json
  parse_config_json-Sure json h = required (mem.block_ok 0) λ _.
      binds
        (required (mem.block_ok 0) λ _. after_any (js.get_object_item json "tasks") λ obj.
          after_any (js.array_of obj)
            λ items. required (mem.array_ok (length items)) λ _. parse_tasks-Sure [] 0 items h)
        λ ts ht. after_any (parse_log_level js mem (js.get_object_item json "log_level")) λ l.
          after_any (optional_text js mem json "cpu_affinity") λ a.
            after_any (parse_execution_model js mem (js.get_object_item json "execution_model"))
              λ p. binds (parse_buffer_size_mb-Sure p json) λ n hn.
                after_any (parse_control js mem (js.get_object_item json "control"))
                  λ o. accepted (record { tasks = ht.0; unique = ht.1; buffer_size = hn })

  -- Whatever values the file has, whichever texts cannot be copied and whichever arrays by their sizes and
  -- blocks by their indices cannot be allocated, as long as a copy has the characters of its text: a configuration that is accepted is sound. Its numbers are in their ranges, ports from 1 to
  -- 65535 and a VNI of 24 bits, or of 32 where it is the second form, among them; the rate of an output in
  -- bits a second and the size of the buffer in bytes fit 64 bits; no fingerprint is empty or stands twice.
  pub parse_config_json-IsConfig :
      (json : J) (c : Config) → Copies mem → parse_config_json js mem json ≡ some c → IsConfig c
  parse_config_json-IsConfig json c h e = Sure-some (parse_config_json-Sure json h) e
