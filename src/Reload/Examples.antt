-- ===== src/Reload/Examples.antt =====
-- Task lists and reloads of a few tasks (cpworker/src/task.c).
use cloud_probe.Prelude.{ℕ, ◌≡◌, refl, List, [], ◌∷◌, true, false, ◌==◌, Option, none, some}
use cloud_probe.Allocator.{SimpleAllocator}
use cloud_probe.Tasks.{
  Task, TaskConfig, Config, Heap, Answers, check_fingerprints, has_fingerprint, same_fingerprint,
  same_text, find_task_by_fingerprint, build_full_task_set, build_from, place_task, add_placed,
  parse_config_file, validate_fingerprints, collect_surviving_tasks, survivors_from, keep_survivor,
}
use cloud_probe.Tasks.Owners.{owns}
use cloud_probe.Tasks.Holds.{Holds}
use cloud_probe.Tasks.Places.{Places}
use cloud_probe.Reload.{
  Reload, idle, task_manager_new, one_config, task_manager_reload_cycle, task_manager_reload_signal,
  task_manager_destroy, reload_turn, main_receive, main_dispatch, main_handle_survivors,
  main_handle_new_tasks, main_handle_reclaimed, request_build, request_reclaim, commit_new_tasks,
  try_start_reload, start_if_idle, reload_receive, reload_dispatch, reload_do_plan, plan_parsed,
  plan_survivors, reload_do_build, build_with, reload_do_reclaim, reload_ctx_reset_cycle_state,
}
use cloud_probe.Reload.Reach.{
  Event, signalled, main_runs, reload_runs, step, Reach, start, later, Reach-destroy,
}
use cloud_probe.Reload.Progress.{round, rounds-idle}
use cloud_probe.Reload.Commit.{view, committed, Reach-view}

abbrev named : ℕ → TaskConfig
named n = record { fingerprint = some (n ∷ []) }

-- Two tasks, of which the second has no fingerprint.
abbrev old_config : Config
old_config = record {
  tasks = named 65 ∷ record { fingerprint = none } ∷ [];
  pipeline = true;
  buffer_size_mb = 1;
}

-- The first task and another.
abbrev new_config : Config
new_config = record { tasks = named 65 ∷ named 66 ∷ []; pipeline = true; buffer_size_mb = 2 }

-- Every allocation succeeds and every capture starts.
abbrev all_good : Option Config → Answers
all_good parsed = record {
  parsed = parsed;
  tasks_ok = true;
  errors_ok = true;
  capture_ok = λ i. true;
  wrapper_ok = λ i. true;
  error_ok = λ i. true;
}

-- The second wrapper cannot be allocated.
abbrev one_bad : Answers
one_bad = record (all_good none) { wrapper_ok = λ i. i == 0 }

abbrev pool : SimpleAllocator
pool = record { capacity = 1048576; used = 0 }

abbrev old_tasks : List Task
old_tasks =
    record { index = 0; fingerprint = some (65 ∷ []); task = 0 }
    ∷ record { index = 1; fingerprint = none; task = 1 }
    ∷ []

abbrev two_live : Heap
two_live = record one_config { live = owns old_tasks; next = 2; task_lists = 1; error_lists = 1 }

abbrev started : Reload
started = elim (task_manager_new (all_good none) old_config pool) [
  | some s ↦ s
  | none ↦ record {
    pipeline = true;
    alloc = pool;
    config = old_config;
    tasks = [];
    errors = [];
    phase = idle;
    signal = false;
    main_mbox = none;
    reload_mbox = none;
    new_config = none;
    current_tasks = none;
    old_tasks = none;
    heap = one_config;
  }
]

started_lem : task_manager_new (all_good none) old_config pool ≡ some started
unfolding task_manager_new build_full_task_set build_from add_placed place_task
    find_task_by_fingerprint
started_lem = refl

old_config-checked : check_fingerprints [] old_config.tasks ≡ true
unfolding check_fingerprints has_fingerprint same_fingerprint same_text
old_config-checked = refl

-- Until the new tasks are built.
abbrev half_way : List Event
half_way =
    reload_runs (all_good none)
    ∷ main_runs
    ∷ reload_runs (all_good (some new_config))
    ∷ main_runs
    ∷ signalled
    ∷ []

abbrev after : List Event → Reload
after [] = started
after (e ∷ es) = step e (after es)

after-Reach : (es : List Event) → Reach started (after es)
after-Reach [] = start
after-Reach (e ∷ es) = later e (after-Reach es)

-- A whole reload.
abbrev whole : List Event
whole = main_runs ∷ reload_runs (all_good none) ∷ main_runs ∷ half_way

-- The phase after the one, and the signal after the other.
runs : ((after whole).phase ≡ idle) × ((after half_way).signal ≡ false)
unfolding task_manager_new build_full_task_set build_from add_placed place_task
    find_task_by_fingerprint same_fingerprint same_text has_fingerprint check_fingerprints step
    task_manager_reload_cycle task_manager_reload_signal reload_turn main_receive main_dispatch
    main_handle_survivors main_handle_new_tasks main_handle_reclaimed request_build request_reclaim
    commit_new_tasks try_start_reload start_if_idle reload_receive reload_dispatch reload_do_plan
    plan_parsed plan_survivors reload_do_build build_with reload_do_reclaim
    reload_ctx_reset_cycle_state parse_config_file validate_fingerprints collect_surviving_tasks
    survivors_from keep_survivor
runs = (refl, refl)

Reach-destroy_example :
    Holds (after whole).heap (owns (after whole).tasks) 1 1 1
    × Holds (task_manager_destroy (after whole)) (λ n. false) 0 0 0
Reach-destroy_example =
    Reach-destroy (all_good none) old_config pool started (after whole) old_config-checked
      started_lem (after-Reach whole) runs.0

rounds-idle_example : (round one_bad (round one_bad (round one_bad (after half_way)))).phase ≡ idle
rounds-idle_example =
    rounds-idle (all_good none) old_config pool started (after half_way) one_bad one_bad one_bad
      old_config-checked started_lem (after-Reach half_way) runs.1

-- The turn that gets the new tasks.
Reach-view_example :
    view (step main_runs (after half_way))
    ≡ committed main_runs (after half_way) (view (after half_way))
Reach-view_example =
    Reach-view (all_good none) old_config pool started (after half_way) main_runs old_config-checked
      started_lem (after-Reach half_way)
