-- ===== src/Reload/Main.antt =====
-- The turns of the main thread, from stage to stage (cpworker/src/task.c).
use cloud_probe.Prelude.{◌≡◌, none, refl, arith, if_both}
use cloud_probe.Reload.{
  Phase, idle, awaiting_survivors, awaiting_new_tasks, awaiting_reclaim, Reload,
  task_manager_reload_signal, task_manager_reload_cycle, main_receive, main_dispatch,
  try_start_reload, start_if_idle, main_handle_survivors, main_handle_new_tasks,
  main_handle_reclaimed, request_build, request_reclaim, commit_new_tasks,
  restore_full_list_on_build_failure, free_task_list_wrappers,
}
use cloud_probe.Reload.Stages.{
  Settled-same, Stage, at_rest, planning, plan_failed, planned, building, build_failed, built,
  reclaiming, reclaimed,
}

-- A signal changes no stage.
pub signal-Stage : (s : Reload) → Stage s → Stage (task_manager_reload_signal s)
unfolding task_manager_reload_signal
signal-Stage s (at_rest p h) = at_rest (ground arith) (Settled-same s _ h refl refl)
signal-Stage s (planning p h) = planning (ground arith) (Settled-same s _ h refl refl)
signal-Stage s (plan_failed p h) = plan_failed (ground arith) (Settled-same s _ h refl refl)
signal-Stage s (planned c v p sub u d h) = planned c v (ground arith) sub u d h
signal-Stage s (building c old p sub u d h) = building c old (ground arith) sub u d h
signal-Stage s (build_failed old p sub d h) = build_failed old (ground arith) sub d h
signal-Stage s (built c old new es p sub d e k h) = built c old new es (ground arith) sub d e k h
signal-Stage s (reclaiming old oc oe p d e k h) = reclaiming old oc oe (ground arith) d e k h
signal-Stage s (reclaimed p h) = reclaimed (ground arith) (Settled-same s _ h refl refl)

pub main_receive-Stage :
    (s : Reload) → Stage s → Stage (main_receive s.main_mbox (record s { main_mbox = none }))
unfolding main_receive main_dispatch main_handle_survivors main_handle_new_tasks
    main_handle_reclaimed request_build request_reclaim commit_new_tasks
    restore_full_list_on_build_failure free_task_list_wrappers
main_receive-Stage s (at_rest p h) =
    rw p.main_has (at_rest (ground arith) (Settled-same s _ h refl refl))
main_receive-Stage s (planning p h) =
    rw p.main_has (planning (ground arith) (Settled-same s _ h refl refl))
main_receive-Stage s (plan_failed p h) =
    rw (p.main_has, p.in_phase) (at_rest (ground arith) (Settled-same s _ h refl refl))
main_receive-Stage s (planned c v p sub u d h) =
    rw (p.main_has, p.in_phase) (building c s.tasks (ground arith) sub u d h)
main_receive-Stage s (building c old p sub u d h) =
    rw p.main_has (building c old (ground arith) sub u d h)
main_receive-Stage s (build_failed old p sub d h) =
    rw (p.main_has, p.in_phase)
      (at_rest (ground arith) (record {
        distinct = d;
        holds = record {
          live = h.live;
          fresh = h.fresh;
          fault = h.fault;
          configs_held = h.configs_held;
          task_lists_held = omega (arith, h.task_lists_held);
          error_lists_held = h.error_lists_held;
        };
      }))
main_receive-Stage s (built c old new es p sub d e k h) =
    rw (p.main_has, p.in_phase)
      (reclaiming old s.config s.errors (ground arith) d e k (record {
        live = h.live;
        fresh = h.fresh;
        fault = h.fault;
        configs_held = h.configs_held;
        task_lists_held = omega (arith, h.task_lists_held);
        error_lists_held = h.error_lists_held;
      }))
main_receive-Stage s (reclaiming old oc oe p d e k h) =
    rw p.main_has (reclaiming old oc oe (ground arith) d e k h)
main_receive-Stage s (reclaimed p h) =
    rw (p.main_has, p.in_phase) (at_rest (ground arith) (Settled-same s _ h refl refl))

start_if_idle-Stage : (p : Phase) (s : Reload) → s.phase ≡ p → Stage s → Stage (start_if_idle p s)
unfolding start_if_idle
start_if_idle-Stage idle s e (at_rest p h) =
    if_both Stage s.signal (λ _. planning (ground arith) (Settled-same s _ h refl refl))
      (λ _. at_rest p h)
start_if_idle-Stage idle s e (planning p h) = absurd (ground (arith, p.in_phase))
start_if_idle-Stage idle s e (plan_failed p h) = absurd (ground (arith, p.in_phase))
start_if_idle-Stage idle s e (planned c v p sub u d h) = absurd (ground (arith, p.in_phase))
start_if_idle-Stage idle s e (building c old p sub u d h) = absurd (ground (arith, p.in_phase))
start_if_idle-Stage idle s e (build_failed old p sub d h) = absurd (ground (arith, p.in_phase))
start_if_idle-Stage idle s e (built c old new es p sub d f k h) =
    absurd (ground (arith, p.in_phase))
start_if_idle-Stage idle s e (reclaiming old oc oe p d f k h) = absurd (ground (arith, p.in_phase))
start_if_idle-Stage idle s e (reclaimed p h) = absurd (ground (arith, p.in_phase))
start_if_idle-Stage awaiting_survivors s e g = g
start_if_idle-Stage awaiting_new_tasks s e g = g
start_if_idle-Stage awaiting_reclaim s e g = g

pub main-Stage : (s : Reload) → Stage s → Stage (task_manager_reload_cycle s)
unfolding task_manager_reload_cycle try_start_reload
main-Stage s g = start_if_idle-Stage _ _ refl (main_receive-Stage s g)
