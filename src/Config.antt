-- ===== src/Config.antt =====
-- The configuration of cpworker: cpworker/src/config.h, and what cpworker/src/config.c shares in reading
-- it. cJSON is the parameter `Json`, with the calls that the source makes: a member by its name, and
-- what is a string, a number, a Boolean, an object or an array. `Memory` answers for strdup and calloc.
-- Texts of errors and warnings are left out; `none` is an error.
mod Examples
pub mod Capturer
pub mod Output
pub mod Parse
pub mod Sure
pub mod Sound
pub mod Valid
pub mod Render
pub mod Filter
use Prim.Native.Char.{code}
use Prim.Native.String.{String}
use cloud_probe.Prelude.{
  ℕ, ◌+◌, ◌-◌, ◌^◌, List, [], ◌∷◌, Bool, true, false, ltb, leb, ◌==◌, ◌&&◌, if◌then◌else◌, Option,
  none, some,
}
use cloud_probe.Prelude.Int.{ℤ, pos, negsuc}
use cloud_probe.Tasks.{Text}

-- The characters of a literal.
abbrev pub codes : String → Text
codes String.[] = []
codes (String.◌∷◌ c s) = code c ∷ codes s

infixl 5 ◌>>=◌ ◌>>◌
abbrev pub ◌>>=◌ {ℓ κ} : {A : Type ℓ} {B : Type κ} → Option A → (A → Option B) → Option B
none >>= f = none
some a >>= f = f a

abbrev pub ◌>>◌ {ℓ} : {B : Type ℓ} → Option (Unit {0}) → Option B → Option B
m >> k = m >>= λ _. k

-- An error unless the test holds.
abbrev pub require : Bool → Option (Unit {0})
require true = some tt
require false = none

-- A member that may be missing.
abbrev pub if_there {ℓ} : {J : Type 0} {A : Type ℓ} → Option J → A → (J → A) → A
if_there none m f = m
if_there (some item) m f = f item

-- A `double`: an integer, a number that is none, or an infinity with its sign, which cJSON gives for
-- a number that is too large.
pub data Double : Type 0 where
  integer : ℤ → Double
  fractional : Double
  infinite : Bool → Double

-- The calls of cJSON.
pub record Json (J : Type 0) : Type 0 where
  pub get_object_item : J → String → Option J
  pub string_of : J → Option Text
  pub number_of : J → Option Double
  pub bool_of : J → Option Bool
  pub is_object : J → Bool
  pub array_of : J → Option (List J)

-- What strdup gives for a text, and whether an array of so many pointers and the block of the task or
-- output at an index could be allocated, that at 0 for the configuration and the control socket too. In
-- the source two calls with the same text or index may be answered differently.
pub record Memory : Type 0 where
  pub strdup : Text → Option Text
  pub array_ok : ℕ → Bool
  pub block_ok : ℕ → Bool

pub record LibpcapConfig : Type 0 where
  pub interface : Text
  pub snaplen : ℕ
  pub netns : Text
  pub bpf_filter : Text
  pub buffer_size_mb : ℕ
  pub timeout_ms : ℕ
  pub not_filter_output_hosts : Bool

pub record PcapFileConfig : Type 0 where
  pub file_name : Text
  pub bpf_filter : Text

pub record DpdkPdumpConfig : Type 0 where
  pub interface : Text
  pub snaplen : ℕ
  pub bpf_filter : Text
  pub ring_size : ℕ

-- `type` tells which of the union it is.
pub data CapturerConfig : Type 0 where
  libpcap : LibpcapConfig → CapturerConfig
  pcap_file : PcapFileConfig → CapturerConfig
  dpdk_pdump : DpdkPdumpConfig → CapturerConfig

-- -1, and the IP_PMTUDISC_* that the texts name.
pub data Pmtudisc : Type 0 where
  pmtu_unset pmtu_dont pmtu_want pmtu_do : Pmtudisc

pub record SplitConfig : Type 0 where
  pub max_payload_size : ℕ
  pub recalculate_checksum : Bool

pub record VxlanConfig : Type 0 where
  pub host : Text
  pub port : ℕ
  pub capture_time : Bool
  pub vni_version : ℕ
  pub vni : ℕ
  pub bind_device : Text
  pub pmtudisc : Pmtudisc
  pub split : SplitConfig

pub record GreConfig : Type 0 where
  pub host : Text
  pub service_tag : ℕ
  pub bind_device : Text
  pub pmtudisc : Pmtudisc

pub record ZmqConfig : Type 0 where
  pub host : Text
  pub port : ℕ
  pub hwm : ℕ
  pub service_tag : ℕ
  pub uuid : Text
  pub heartbeat_ms : ℕ

pub record RotatingFileConfig : Type 0 where
  pub file_root : Text
  pub max_file_interval : ℕ

pub data OutputKind : Type 0 where
  vxlan : VxlanConfig → OutputKind
  gre : GreConfig → OutputKind
  zmq : ZmqConfig → OutputKind
  file : Text → OutputKind
  rotating_file : RotatingFileConfig → OutputKind
  null : OutputKind

pub record OutputConfig : Type 0 where
  pub rate_limit_mbps : ℕ
  pub slice : ℕ
  pub kind : OutputKind

-- The pattern of `custom`.
pub data ReqPatternConfig : Type 0 where
  req_none req_auto : ReqPatternConfig
  req_custom : Text → ReqPatternConfig

pub record TaskConfig : Type 0 where
  pub fingerprint : Option Text
  pub req_pattern : ReqPatternConfig
  pub capturer : CapturerConfig
  pub outputs : List OutputConfig

-- LOG_DEBUG to LOG_ERROR.
pub data LogLevel : Type 0 where
  log_debug log_info log_warn log_error : LogLevel

-- A `control` is of the type `unix`, with its path.
pub record Config : Type 0 where
  pub log_level : LogLevel
  pub cpu_affinity : Text
  pub pipeline : Bool
  pub buffer_size_mb : ℕ
  pub control : Option Text
  pub tasks : List TaskConfig

abbrev pub int_max : ℕ
int_max = 2 ^ 31 - 1

abbrev pub default_snaplen : ℕ
default_snaplen = 2048

abbrev pub max_snaplen : ℕ
max_snaplen = 262144

-- INT_MAX / 1024 / 1024
abbrev pub max_libpcap_buffer_size_mb : ℕ
max_libpcap_buffer_size_mb = 2047

-- `cjson_get_integer`: what `floor` does not change.
pub get_integer : Option Double → Option Double
get_integer (some fractional) = none
get_integer (some (integer n)) = some (integer n)
get_integer (some (infinite b)) = some (infinite b)
get_integer none = none

-- `cjson_get_int64_range`, for bounds that are not negative.
pub get_int64_range : Option Double → ℕ → ℕ → Option ℕ
get_int64_range (some (integer (pos n))) lo hi = if leb lo n && leb n hi then some n else none
get_int64_range (some (integer (negsuc n))) lo hi = none
get_int64_range (some fractional) lo hi = none
get_int64_range (some (infinite b)) lo hi = none
get_int64_range none lo hi = none

-- Not below 0, and no more than INT_MAX.
pub clamp_int : Double → Option ℕ
clamp_int (integer (pos n)) = some (if ltb int_max n then int_max else n)
clamp_int (integer (negsuc n)) = none
clamp_int (infinite true) = some int_max
clamp_int (infinite false) = none
clamp_int fractional = none

-- The value of a snaplen that is there; the flag is `non_positive_means_max`.
pub snaplen_of : Bool → Double → Option ℕ
snaplen_of flag (integer (pos n)) =
    if n == 0
    then if flag then some max_snaplen else none
    else some (if ltb max_snaplen n then max_snaplen else n)
snaplen_of flag (integer (negsuc n)) = if flag then some max_snaplen else none
snaplen_of flag (infinite true) = some max_snaplen
snaplen_of flag (infinite false) = if flag then some max_snaplen else none
snaplen_of flag fractional = none

module _ {J : Type 0} (js : Json J) (mem : Memory) where
  -- A string that has to be there.
  pub required_text : J → String → Option Text
  required_text obj name = do
    item ← js.get_object_item obj name
    text ← js.string_of item
    mem.strdup text

  -- A string that is empty where it is missing.
  pub optional_text : J → String → Option Text
  optional_text obj name =
      if_there (js.get_object_item obj name) (mem.strdup [])
        λ item. js.string_of item >>= mem.strdup

  -- A Boolean that is false where it is missing.
  pub optional_bool : J → String → Option Bool
  optional_bool obj name =
      if_there (js.get_object_item obj name) (some false) λ item. js.bool_of item

  -- An integer of at least 0, with what it is where it is missing.
  pub optional_int : J → String → ℕ → Option ℕ
  optional_int obj name missing =
      if_there (js.get_object_item obj name) (some missing)
        λ item. get_integer (js.number_of item) >>= clamp_int

  pub optional_range : J → String → ℕ → ℕ → ℕ → Option ℕ
  optional_range obj name missing lo hi =
      if_there (js.get_object_item obj name) (some missing)
        λ item. get_int64_range (js.number_of item) lo hi

  pub parse_snaplen : J → Bool → Option ℕ
  parse_snaplen obj non_positive_means_max =
      if_there (js.get_object_item obj "snaplen") (some default_snaplen)
        λ item. get_integer (js.number_of item) >>= snaplen_of non_positive_means_max
