-- ===== src/Config/Capturer.antt =====
-- `parse_capturer_config` of cpworker/src/config.c.
use cloud_probe.Prelude.{ℕ, ◌^◌, true, false, ltb, if◌then◌else◌, Option, none, some}
use cloud_probe.Prelude.Int.{pos, negsuc}
use cloud_probe.Tasks.{Text, same_text}
use cloud_probe.Config.{
  codes, if_there, ◌>>=◌, Double, integer, fractional, infinite, Json, Memory, LibpcapConfig,
  PcapFileConfig, DpdkPdumpConfig, CapturerConfig, libpcap, pcap_file, dpdk_pdump,
  max_libpcap_buffer_size_mb, get_integer, get_int64_range, required_text, optional_text,
  optional_bool, optional_int, parse_snaplen,
}

-- A buffer size that is there: more than 0, and no more than libpcap takes.
unfoldable pub buffer_size_of : Double → Option ℕ
buffer_size_of (integer (pos n)) =
    if ltb 0 n
    then some (if ltb max_libpcap_buffer_size_mb n then max_libpcap_buffer_size_mb else n)
    else none
buffer_size_of (integer (negsuc n)) = none
buffer_size_of (infinite true) = some max_libpcap_buffer_size_mb
buffer_size_of (infinite false) = none
buffer_size_of fractional = none

module _ {J : Type 0} (js : Json J) (mem : Memory) where
  unfoldable pub parse_buffer_size : J → Option ℕ
  parse_buffer_size obj =
      if_there (js.get_object_item obj "buffer_size_mb") (some 256)
        λ item. get_integer (js.number_of item) >>= buffer_size_of

  unfoldable pub parse_ring_size : J → Option ℕ
  parse_ring_size obj =
      if_there (js.get_object_item obj "ring_size") (some 2048)
        λ item. get_int64_range (js.number_of item) 2 (2 ^ 30)

  unfoldable pub parse_libpcap : J → Option LibpcapConfig
  parse_libpcap obj = do
    interface ← required_text js mem obj "interface"
    netns ← optional_text js mem obj "netns"
    snaplen ← parse_snaplen js mem obj true
    bpf_filter ← optional_text js mem obj "bpf"
    buffer_size_mb ← parse_buffer_size obj
    timeout_ms ← optional_int js mem obj "timeout_ms" 0
    not_filter_output_hosts ← optional_bool js mem obj "not_filter_output_hosts"
    some record {
      interface = interface;
      snaplen = snaplen;
      netns = netns;
      bpf_filter = bpf_filter;
      buffer_size_mb = buffer_size_mb;
      timeout_ms = timeout_ms;
      not_filter_output_hosts = not_filter_output_hosts;
    }

  unfoldable pub parse_pcap_file : J → Option PcapFileConfig
  parse_pcap_file obj = do
    file_name ← required_text js mem obj "file_name"
    bpf_filter ← optional_text js mem obj "bpf"
    some record { file_name = file_name; bpf_filter = bpf_filter }

  unfoldable pub parse_dpdk_pdump : J → Option DpdkPdumpConfig
  parse_dpdk_pdump obj = do
    interface ← required_text js mem obj "interface"
    snaplen ← parse_snaplen js mem obj false
    bpf_filter ← optional_text js mem obj "bpf"
    ring_size ← parse_ring_size obj
    some record {
      interface = interface;
      snaplen = snaplen;
      bpf_filter = bpf_filter;
      ring_size = ring_size;
    }

  -- The part that the type names.
  unfoldable pub parse_engine : J → Text → Option CapturerConfig
  parse_engine engine_obj type =
      if same_text type (codes "libpcap")
      then (do
        obj ← js.get_object_item engine_obj "libpcap"
        c ← parse_libpcap obj
        some (libpcap c))
      else if same_text type (codes "pcap_file")
      then (do
        obj ← js.get_object_item engine_obj "pcap_file"
        c ← parse_pcap_file obj
        some (pcap_file c))
      else if same_text type (codes "dpdk_pdump")
      then (do
        obj ← js.get_object_item engine_obj "dpdk_pdump"
        c ← parse_dpdk_pdump obj
        some (dpdk_pdump c))
      else none

  unfoldable pub parse_capturer_config : J → Option CapturerConfig
  parse_capturer_config engine_obj = do
    type ← required_text js mem engine_obj "type"
    parse_engine engine_obj type
