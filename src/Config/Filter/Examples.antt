-- ===== src/Config/Filter/Examples.antt =====
-- The filter text of cpworker/src/config.c where two outputs forward to one host.
use cloud_probe.Prelude.{◌≡◌, refl, true, false, none, some, ◌⊎◌, ◌&&◌}
use cloud_probe.Tasks.{Text, same_text}
use cloud_probe.Config.{codes}
use cloud_probe.Config.Examples.{two_tasks}
use cloud_probe.Config.Filter.{
  output_forward_host, seen_host, add_host, output_hosts, task_hosts, print_hosts, filter_text,
  count_outputs, bpf_filter_exclude_task_output_hosts,
}
use cloud_probe.Config.Filter.Fits.{Excludes, filter_exclude-Excludes}

filter_two_tasks :
    bpf_filter_exclude_task_output_hosts true true (codes "tcp") two_tasks.tasks
    ≡ some (codes "(tcp) and not host 10.0.0.1")
unfolding bpf_filter_exclude_task_output_hosts filter_text print_hosts task_hosts output_hosts
    add_host seen_host output_forward_host count_outputs same_text
filter_two_tasks = refl

filter_exclude-Excludes_example :
    let made = bpf_filter_exclude_task_output_hosts true true (codes "tcp") two_tasks.tasks in
    ((text : Text) × (made ≡ some text) × Excludes (codes "tcp") two_tasks.tasks text)
    ⊎ ((made ≡ none) × ((true && true) ≡ false))
filter_exclude-Excludes_example = filter_exclude-Excludes true true (codes "tcp") two_tasks.tasks
