-- ===== src/Reload.antt =====
-- The reload protocol of cpworker/src/task.c: the main thread and the reload thread pass one message
-- to and fro, each through the mailbox that the other reads. A turn of a thread is one step, since a
-- mailbox is the only variable that both write while a reload runs, and it is exchanged atomically.
-- Left out: log lines, the pointer to the counters, and the wait in `reload_do_reclaim` until the
-- output thread has drained its ring.
pub mod Stages
pub mod Main
pub mod Thread
pub mod Reach
pub mod Progress
pub mod Commit
mod Examples
use cloud_probe.Prelude.{
  ℕ, suc, ◌+◌, ◌-◌, ◌*◌, List, [], ◌∷◌, Bool, true, false, not, ◌&&◌, ◌||◌, ◌==◌, if◌then◌else◌,
  Option, none, some, u64,
}
use cloud_probe.Allocator.{SimpleAllocator, simple_allocator_capacity, simple_allocator_resize}
use cloud_probe.Tasks.{
  Task, TaskError, Config, Heap, Answers, parse_config_file, validate_fingerprints,
  collect_surviving_tasks, build_full_task_set, reclaim_old_resources,
}

-- `reload_phase_t`
pub data Phase : Type 0 where
  idle awaiting_survivors awaiting_new_tasks awaiting_reclaim : Phase

-- `reload_msg_t`
pub data Msg : Type 0 where
  req_plan : List Task → Msg
  rpt_survivors : List Task → Msg
  req_build : List Task → Msg
  rpt_new_tasks : Config → List Task → List TaskError → Msg
  req_reclaim : Config → List TaskError → List Task → Msg
  rpt_reclaimed : Msg
  rpt_error : Option (List Task) → Msg

-- `task_manager_t` and the variables of the protocol; the last three lists are `reload_runtime_ctx_t`.
pub record Reload : Type 0 where
  pub pipeline : Bool
  pub alloc : SimpleAllocator
  pub config : Config
  pub tasks : List Task
  pub errors : List TaskError
  pub phase : Phase
  pub signal : Bool
  pub main_mbox : Option Msg
  pub reload_mbox : Option Msg
  pub new_config : Option Config
  pub current_tasks : Option (List Task)
  pub old_tasks : Option (List Task)
  pub heap : Heap

pub task_manager_reload_signal : Reload → Reload
task_manager_reload_signal s = record s { signal = true }

pub free_config : Heap → Heap
free_config h = record h { configs = h.configs - 1 }

pub free_task_list_wrappers : Heap → Heap
free_task_list_wrappers h = record h { task_lists = h.task_lists - 1 }

abbrev pub null_read : Heap → Heap
null_read h = record h { fault = true }

-- The main thread.

pub request_build : List Task → Reload → Reload
request_build old_tasks s = record s { reload_mbox = some (req_build old_tasks) }

pub request_reclaim : Config → List TaskError → List Task → Reload → Reload
request_reclaim old_config old_errors new_tasks s = record s {
  reload_mbox = some (req_reclaim old_config old_errors new_tasks);
}

pub restore_full_list_on_build_failure : Option (List Task) → Reload → Reload
restore_full_list_on_build_failure none s = s
restore_full_list_on_build_failure (some old) s = record s {
  tasks = old;
  heap = free_task_list_wrappers s.heap;
}

abbrev pub to_idle : Reload → Reload
to_idle s = record s { phase = idle }

pub main_handle_survivors : Msg → Reload → Reload
main_handle_survivors (rpt_survivors survivors) s =
    record (request_build s.tasks (record s { tasks = survivors })) { phase = awaiting_new_tasks }
main_handle_survivors msg s = to_idle s

-- The allocator follows the new buffer size, where both configurations run the pipeline.
pub resize_pipeline : Bool → Config → SimpleAllocator → SimpleAllocator
resize_pipeline pipeline config alloc =
    let new_capacity = u64 (config.buffer_size_mb * 1024 * 1024) in
    if pipeline && config.pipeline
    then if new_capacity == simple_allocator_capacity alloc
      then alloc
      else simple_allocator_resize alloc new_capacity
    else alloc

pub commit_new_tasks : Config → List Task → List TaskError → Reload → Reload
commit_new_tasks config new_tasks errors s = record s {
  heap = free_task_list_wrappers s.heap;
  tasks = new_tasks;
  errors = errors;
  config = config;
  alloc = resize_pipeline s.pipeline config s.alloc;
}

pub main_handle_new_tasks : Msg → Reload → Reload
main_handle_new_tasks (rpt_error restore) s = to_idle (restore_full_list_on_build_failure restore s)
main_handle_new_tasks (rpt_new_tasks config new_tasks errors) s =
    record (request_reclaim s.config s.errors new_tasks
      (commit_new_tasks config new_tasks errors s)) { phase = awaiting_reclaim }
main_handle_new_tasks msg s = to_idle s

-- Each of its three branches ends the reload.
pub main_handle_reclaimed : Msg → Reload → Reload
main_handle_reclaimed msg s = to_idle s

pub start_if_idle : Phase → Reload → Reload
start_if_idle idle s =
    if s.signal
    then record s {
      signal = false;
      reload_mbox = some (req_plan s.tasks);
      phase = awaiting_survivors;
    }
    else s
start_if_idle p s = s

pub try_start_reload : Reload → Reload
try_start_reload s = start_if_idle s.phase s

pub main_dispatch : Phase → Msg → Reload → Reload
main_dispatch awaiting_survivors msg s = main_handle_survivors msg s
main_dispatch awaiting_new_tasks msg s = main_handle_new_tasks msg s
main_dispatch awaiting_reclaim msg s = main_handle_reclaimed msg s
main_dispatch idle msg s = s

pub main_receive : Option Msg → Reload → Reload
main_receive none s = s
main_receive (some msg) s = main_dispatch s.phase msg s

pub task_manager_reload_cycle : Reload → Reload
task_manager_reload_cycle s =
    try_start_reload (main_receive s.main_mbox (record s { main_mbox = none }))

-- The reload thread.

pub reload_ctx_reset_cycle_state : Reload → Reload
reload_ctx_reset_cycle_state s = record s { old_tasks = none; current_tasks = none }

pub report_error : Option (List Task) → Reload → Reload
report_error restore s = record s { main_mbox = some (rpt_error restore) }

-- The three ends of `reload_do_plan` after the parser, `parsed` its configuration.
pub plan_survivors : Option (List Task) → Config → Reload → Reload
plan_survivors none config s =
    reload_ctx_reset_cycle_state (report_error none (record s { heap = free_config s.heap }))
plan_survivors (some survivors) config s = record s {
  heap = record s.heap { task_lists = s.heap.task_lists + 1 };
  new_config = some config;
  main_mbox = some (rpt_survivors survivors);
}

pub plan_parsed : Answers → Option Config → List Task → Reload → Reload
plan_parsed a none current s = reload_ctx_reset_cycle_state (report_error none s)
plan_parsed a (some config) current s =
    let s' = record s { heap = record s.heap { configs = s.heap.configs + 1 } } in
    if validate_fingerprints config.tasks
    then plan_survivors (collect_surviving_tasks a config current) config s'
    else reload_ctx_reset_cycle_state (report_error none (record s' { heap = free_config s'.heap }))

pub reload_do_plan : Answers → List Task → Reload → Reload
reload_do_plan a current s =
    plan_parsed a (parse_config_file a) current (record s { current_tasks = some current })

-- With the two pointers that the source takes from `ctx`.
pub build_with : Answers → Option Config → Option (List Task) → List Task → Reload → Reload
build_with a (some config) (some current) old s =
    let r = build_full_task_set a config current s.heap in
    if r.good
    then record s {
      heap = r.heap;
      main_mbox = some (rpt_new_tasks config r.tasks r.errors);
      new_config = none;
    }
    else reload_ctx_reset_cycle_state
        (record (report_error (some old) s) { heap = free_config r.heap; new_config = none })
build_with a config current old s = record s { heap = null_read s.heap }

pub reload_do_build : Answers → List Task → Reload → Reload
reload_do_build a old s =
    build_with a s.new_config s.current_tasks old (record s { old_tasks = some old })

pub reload_do_reclaim : Option (List Task) → List Task → Reload → Reload
reload_do_reclaim (some old) new_tasks s =
    record (reload_ctx_reset_cycle_state
      (record s { heap = reclaim_old_resources old new_tasks s.heap })) {
        main_mbox = some rpt_reclaimed;
      }
reload_do_reclaim none new_tasks s = record s { heap = null_read s.heap }

pub reload_handle_error_from_main : Option Config → Reload → Reload
reload_handle_error_from_main (some c) s =
    reload_ctx_reset_cycle_state (record s { new_config = none; heap = free_config s.heap })
reload_handle_error_from_main none s = reload_ctx_reset_cycle_state s

pub reload_dispatch : Answers → Msg → Reload → Reload
reload_dispatch a (req_plan current) s = reload_do_plan a current s
reload_dispatch a (req_build old) s = reload_do_build a old s
reload_dispatch a (req_reclaim old_config old_errors new_tasks) s =
    reload_do_reclaim s.old_tasks new_tasks s
reload_dispatch a (rpt_error restore) s = reload_handle_error_from_main s.new_config s
reload_dispatch a msg s = s

pub reload_receive : Answers → Option Msg → Reload → Reload
reload_receive a none s = s
reload_receive a (some msg) s = reload_dispatch a msg s

-- One turn of `task_manager_reload_loop`.
pub reload_turn : Answers → Reload → Reload
reload_turn a s = reload_receive a s.reload_mbox (record s { reload_mbox = none })

-- What is allocated before the program reads its configuration, the first.
abbrev pub one_config : Heap
one_config = record {
  live = λ n. false;
  next = 0;
  configs = 1;
  task_lists = 0;
  error_lists = 0;
  fault = false;
}

-- `task_manager_destroy`: no list keeps a capture.
pub task_manager_destroy : Reload → Heap
task_manager_destroy s = reclaim_old_resources s.tasks [] s.heap

-- The loop is that of `build_full_task_set` where no task runs. `alloc` is of the pipeline; where it
-- fails to be created the program ends, and so it does where the loop fails, with `none`.
pub task_manager_new : Answers → Config → SimpleAllocator → Option Reload
task_manager_new a config alloc =
    let r = build_full_task_set a config [] one_config in
    if r.good
    then some record {
      pipeline = config.pipeline;
      alloc = alloc;
      config = config;
      tasks = r.tasks;
      errors = r.errors;
      phase = idle;
      signal = false;
      main_mbox = none;
      reload_mbox = none;
      new_config = none;
      current_tasks = none;
      old_tasks = none;
      heap = r.heap;
    }
    else none
