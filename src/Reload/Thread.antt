-- ===== src/Reload/Thread.antt =====
-- The turns of the reload thread, from stage to stage (cpworker/src/task.c).
use cloud_probe.Prelude.{
  ℕ, suc, ◌≡◌, ◌+◌, List, Bool, Option, none, some, refl, arith, if_both, Option-cases, inl, inr,
}
use cloud_probe.Tasks.{
  Task, Config, Heap, Answers, parse_config_file, collect_surviving_tasks, validate_fingerprints,
  build_full_task_set,
}
use cloud_probe.Tasks.Owners.{owns, Distinct}
use cloud_probe.Tasks.Unique.{Unique}
use cloud_probe.Tasks.Holds.{
  Holds, Subset, collect_surviving_tasks-Subset, parse_config_file-Unique,
}
use cloud_probe.Tasks.Sets.{built-Holds, built-Distinct, built-Kept, unbuilt-Holds, reclaim-Holds}
use cloud_probe.Reload.{
  awaiting_survivors, awaiting_new_tasks, Reload, reload_turn, reload_receive, reload_dispatch,
  reload_do_plan, reload_do_build, reload_do_reclaim, plan_parsed, plan_survivors, build_with,
  reload_ctx_reset_cycle_state, report_error, free_config,
}
use cloud_probe.Reload.Stages.{
  At, Settled, Settled-same, Stage, at_rest, planning, plan_failed, planned, building, build_failed,
  built, reclaiming, reclaimed,
}

-- One configuration more, and given back.
freed :
    (h : Heap) (held : ℕ → Bool) (c l e : ℕ)
    → Holds h held c l e
    → Holds (free_config (record h { configs = h.configs + 1 })) held c l e
unfolding free_config
freed h held c l e v = record {
  live = v.live;
  fresh = v.fresh;
  fault = v.fault;
  configs_held = omega (arith, v.configs_held);
  task_lists_held = v.task_lists_held;
  error_lists_held = v.error_lists_held;
}

one_less :
    (h : Heap) (held : ℕ → Bool) (c l e : ℕ)
    → Holds h held (suc c) l e
    → Holds (free_config h) held c l e
unfolding free_config
one_less h held c l e v = record {
  live = v.live;
  fresh = v.fresh;
  fault = v.fault;
  configs_held = omega (arith, v.configs_held);
  task_lists_held = v.task_lists_held;
  error_lists_held = v.error_lists_held;
}

-- A configuration and a task list more.
more :
    (h : Heap) (held : ℕ → Bool) (c l e : ℕ)
    → Holds h held c l e
    → Holds
        (record h { configs = h.configs + 1; task_lists = h.task_lists + 1 })
        held
        (c + 1)
        (l + 1)
        e
more h held c l e v = record {
  live = v.live;
  fresh = v.fresh;
  fault = v.fault;
  configs_held = omega (arith, v.configs_held);
  task_lists_held = omega (arith, v.task_lists_held);
  error_lists_held = v.error_lists_held;
}

plan-Stage :
    (a : Answers) (s : Reload) (o : Option Config)
    → At s awaiting_survivors none none none (some s.tasks) none
    → Settled s
    → parse_config_file a ≡ o
    → Stage (plan_parsed a o s.tasks s)
unfolding plan_parsed plan_survivors reload_ctx_reset_cycle_state report_error
plan-Stage a s none p h e = plan_failed (ground arith) (Settled-same s _ h refl refl)
plan-Stage a s (some c) p h e =
    if_both Stage (validate_fingerprints c.tasks)
      (λ _. elim (Option-cases (collect_surviving_tasks a c s.tasks)) [
        | inl q ↦ rw q (
            plan_failed (ground arith)
              (record { distinct = h.distinct; holds = freed s.heap _ 1 1 1 h.holds }))
        | inr (v, q) ↦ rw q (
            planned c v (ground arith) (collect_surviving_tasks-Subset a c s.tasks v q)
              (parse_config_file-Unique a c e) h.distinct (more s.heap _ 1 1 1 h.holds))
      ])
      (λ _.
        plan_failed (ground arith)
          (record { distinct = h.distinct; holds = freed s.heap _ 1 1 1 h.holds }))

build-Stage :
    (a : Answers) (s : Reload) (c : Config) (old : List Task)
    → At s awaiting_new_tasks none none (some c) (some old) (some old)
    → Subset s.tasks old
    → Unique c.tasks
    → Distinct old
    → Holds s.heap (owns old) 2 2 1
    → Stage (build_with a (some c) (some old) old s)
unfolding build_with reload_ctx_reset_cycle_state report_error
build-Stage a s c old p sub u d h =
    if_both Stage (build_full_task_set a c old s.heap).good
      (λ g.
        built c old (build_full_task_set a c old s.heap).tasks
          (build_full_task_set a c old s.heap).errors (ground arith) sub d
          (built-Distinct a c old s.heap 2 2 1 d u h) (built-Kept a c old s.heap 2 2 1 d u h)
          (built-Holds a c old s.heap 2 2 1 d u h g))
      (λ g.
        build_failed old (ground arith) sub d
          (one_less _ _ 1 2 1 (unbuilt-Holds a c old s.heap 2 2 1 d u h g)))

pub reload_turn-Stage : (a : Answers) (s : Reload) → Stage s → Stage (reload_turn a s)
unfolding reload_turn reload_receive reload_dispatch reload_do_plan reload_do_build
    reload_do_reclaim reload_ctx_reset_cycle_state
reload_turn-Stage a s (at_rest p h) =
    rw p.reload_has (at_rest (ground arith) (Settled-same s _ h refl refl))
reload_turn-Stage a s (planning p h) =
    rw p.reload_has
      (plan-Stage a _ (parse_config_file a) (ground arith) (Settled-same s _ h refl refl) refl)
reload_turn-Stage a s (plan_failed p h) =
    rw p.reload_has (plan_failed (ground arith) (Settled-same s _ h refl refl))
reload_turn-Stage a s (planned c v p sub u d h) =
    rw p.reload_has (planned c v (ground arith) sub u d h)
reload_turn-Stage a s (building c old p sub u d h) =
    rw (p.reload_has, p.config_is, p.current_is) (build-Stage a _ c old (ground arith) sub u d h)
reload_turn-Stage a s (build_failed old p sub d h) =
    rw p.reload_has (build_failed old (ground arith) sub d h)
reload_turn-Stage a s (built c old new es p sub d e k h) =
    rw p.reload_has (built c old new es (ground arith) sub d e k h)
reload_turn-Stage a s (reclaiming old oc oe p d e k h) =
    rw (p.reload_has, p.old_is)
      (reclaimed (ground arith)
        (record { distinct = e; holds = reclaim-Holds old s.tasks s.heap 1 1 1 d k h }))
reload_turn-Stage a s (reclaimed p h) =
    rw p.reload_has (reclaimed (ground arith) (Settled-same s _ h refl refl))
