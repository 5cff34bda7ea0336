-- ===== src/Config/Filter.antt =====
-- `bpf_filter_exclude_task_output_hosts` of cpworker/src/config.c: the filter text that leaves out the
-- traffic to the hosts that the tasks forward to. The texts are without their final NUL.
mod Examples
pub mod Hosts
pub mod Fits
use cloud_probe.Prelude.{
  ℕ, ◌+◌, List, [], ◌∷◌, ◌++◌, length, Bool, true, false, ◌||◌, ◌==◌, not, if◌then◌else◌, Option,
  none, some,
}
use cloud_probe.Tasks.{Text, same_text}
use cloud_probe.Config.{
  codes, OutputKind, vxlan, gre, zmq, file, rotating_file, null, OutputConfig, TaskConfig,
}

pub output_forward_host : OutputKind → Option Text
output_forward_host (vxlan c) = some c.host
output_forward_host (gre c) = some c.host
output_forward_host (zmq c) = some c.host
output_forward_host (file name) = none
output_forward_host (rotating_file c) = none
output_forward_host null = none

-- The loop that looks for a host among those before.
pub seen_host : List Text → Text → Bool
seen_host [] host = false
seen_host (h ∷ hosts) host = same_text h host || seen_host hosts host

pub add_host : List Text → Option Text → List Text
add_host hosts none = hosts
add_host hosts (some host) = if seen_host hosts host then hosts else hosts ++ host ∷ []

pub output_hosts : List Text → List OutputConfig → List Text
output_hosts hosts [] = hosts
output_hosts hosts (o ∷ os) = output_hosts (add_host hosts (output_forward_host o.kind)) os

pub task_hosts : List Text → List TaskConfig → List Text
task_hosts hosts [] = hosts
task_hosts hosts (t ∷ ts) = task_hosts (output_hosts hosts t.outputs) ts

-- `buf_size`, which each new host adds to.
pub hosts_size : List Text → ℕ
hosts_size [] = 0
hosts_size (h ∷ hosts) = length h + length (codes " and not host ") + hosts_size hosts

pub buf_size : Text → List Text → ℕ
buf_size bpf hosts = length bpf + 1 + 2 + hosts_size hosts

-- The loop that prints the hosts.
pub print_hosts : Bool → List Text → Text
print_hosts is_first [] = []
print_hosts is_first (h ∷ hosts) =
    (if is_first then [] else codes " and ")
    ++ (codes "not host " ++ (h ++ print_hosts false hosts))

pub filter_text : Text → List Text → Text
filter_text [] hosts = print_hosts true hosts
filter_text (c ∷ cs) hosts = b'(' ∷ ((c ∷ cs) ++ (b')' ∷ print_hosts false hosts))

-- The flags are calloc's and malloc's; the array of hosts is only made where there is an output.
pub count_outputs : List TaskConfig → ℕ
count_outputs [] = 0
count_outputs (t ∷ ts) = length t.outputs + count_outputs ts

pub bpf_filter_exclude_task_output_hosts : Bool → Bool → Text → List TaskConfig → Option Text
bpf_filter_exclude_task_output_hosts calloc_ok malloc_ok bpf tasks =
    if calloc_ok || count_outputs tasks == 0
    then if malloc_ok then some (filter_text bpf (task_hosts [] tasks)) else none
    else none
