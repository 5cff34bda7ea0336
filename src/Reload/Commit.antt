-- ===== src/Reload/Commit.antt =====
-- The configuration, the tasks and the errors that count at any time of a reload
-- (cpworker/src/task.c).
use cloud_probe.Prelude.{
  ◌≡◌, ◌∙◌, List, [], Option, none, some, refl, if_both, Option-cases, inl, inr, true,
}
use cloud_probe.Allocator.{SimpleAllocator}
use cloud_probe.Tasks.{
  Task, TaskError, Config, Answers, parse_config_file, collect_surviving_tasks, check_fingerprints,
  validate_fingerprints, build_full_task_set,
}
use cloud_probe.Reload.{
  Phase, idle, awaiting_survivors, awaiting_new_tasks, awaiting_reclaim, Msg, rpt_error,
  rpt_new_tasks, Reload, task_manager_new, task_manager_reload_signal, task_manager_reload_cycle,
  reload_turn, main_receive, main_dispatch, try_start_reload, start_if_idle, main_handle_survivors,
  main_handle_new_tasks, main_handle_reclaimed, request_build, request_reclaim, commit_new_tasks,
  restore_full_list_on_build_failure, reload_receive, reload_dispatch, reload_do_plan,
  reload_do_build, reload_do_reclaim, plan_parsed, plan_survivors, build_with,
  reload_ctx_reset_cycle_state, report_error,
}
use cloud_probe.Reload.Stages.{
  Stage, at_rest, planning, plan_failed, planned, building, build_failed, built, reclaiming,
  reclaimed,
}
use cloud_probe.Reload.Reach.{
  Event, signalled, main_runs, reload_runs, step, Reach, Reach-Stage, new-Stage,
}

abbrev pub View : Type 0
View = Config × List Task × List TaskError

-- The list that a failure of the build gives back.
unfoldable pub restored : Option Msg → List Task → List Task
restored (some (rpt_error (some old))) ts = old
restored m ts = ts

-- While only the survivors are polled, the list from before the reload counts.
unfoldable pub in_force : Phase → Option Msg → Option (List Task) → List Task → List Task
in_force awaiting_new_tasks m (some old) ts = old
in_force awaiting_new_tasks m none ts = restored m ts
in_force idle m c ts = ts
in_force awaiting_survivors m c ts = ts
in_force awaiting_reclaim m c ts = ts

unfoldable pub view : Reload → View
view s = (s.config, in_force s.phase s.main_mbox s.current_tasks s.tasks, s.errors)

unfoldable pub replaced : Phase → Option Msg → View → View
replaced awaiting_new_tasks (some (rpt_new_tasks config new_tasks errors)) v =
    (config, new_tasks, errors)
replaced p m v = v

-- The turn of the main thread that gets the new tasks puts them in force, and no other does.
unfoldable pub committed : Event → Reload → View → View
committed main_runs s v = replaced s.phase s.main_mbox v
committed signalled s v = v
committed (reload_runs a) s v = v

start_if_idle-view : (p : Phase) (s : Reload) → s.phase ≡ p → view (start_if_idle p s) ≡ view s
unfolding start_if_idle view in_force
start_if_idle-view idle s e =
    if_both (λ (t : Reload). view t ≡ view s) s.signal (λ _. rw e refl) (λ _. refl)
start_if_idle-view awaiting_survivors s e = refl
start_if_idle-view awaiting_new_tasks s e = refl
start_if_idle-view awaiting_reclaim s e = refl

main_receive-view :
    (s : Reload)
    → Stage s
    → view (main_receive s.main_mbox (record s { main_mbox = none }))
      ≡ committed main_runs s (view s)
unfolding view in_force restored committed replaced main_receive main_dispatch main_handle_survivors
    main_handle_new_tasks main_handle_reclaimed request_build request_reclaim commit_new_tasks
    restore_full_list_on_build_failure
main_receive-view s (at_rest p h) = rw (p.main_has, p.in_phase) refl
main_receive-view s (planning p h) = rw (p.main_has, p.in_phase) refl
main_receive-view s (plan_failed p h) = rw (p.main_has, p.in_phase) refl
main_receive-view s (planned c v p sub u d h) = rw (p.main_has, p.in_phase, p.current_is) refl
main_receive-view s (building c old p sub u d h) = rw (p.main_has, p.in_phase, p.current_is) refl
main_receive-view s (build_failed old p sub d h) = rw (p.main_has, p.in_phase, p.current_is) refl
main_receive-view s (built c old new es p sub d e k h) = rw (p.main_has, p.in_phase) refl
main_receive-view s (reclaiming old oc oe p d e k h) = rw (p.main_has, p.in_phase) refl
main_receive-view s (reclaimed p h) = rw (p.main_has, p.in_phase) refl

plan_parsed-view :
    (a : Answers) (o : Option Config) (current : List Task) (s : Reload)
    → s.phase ≡ awaiting_survivors
    → view (plan_parsed a o current s) ≡ (s.config, s.tasks, s.errors)
unfolding view in_force plan_parsed plan_survivors reload_ctx_reset_cycle_state report_error
plan_parsed-view a none current s e = rw e refl
plan_parsed-view a (some c) current s e =
    if_both (λ (t : Reload). view t ≡ (s.config, s.tasks, s.errors)) (validate_fingerprints c.tasks)
      (λ _. elim (Option-cases (collect_surviving_tasks a c current)) [
        | inl q ↦ rw (q, e) refl
        | inr (v, q) ↦ rw (q, e) refl
      ])
      (λ _. rw e refl)

build_with-view :
    (a : Answers) (c : Config) (old : List Task) (s : Reload)
    → s.phase ≡ awaiting_new_tasks
    → s.current_tasks ≡ some old
    → view (build_with a (some c) (some old) old s) ≡ (s.config, old, s.errors)
unfolding view in_force restored build_with reload_ctx_reset_cycle_state report_error
build_with-view a c old s e f =
    if_both (λ (t : Reload). view t ≡ (s.config, old, s.errors))
      (build_full_task_set a c old s.heap).good (λ _. rw (e, f) refl) (λ _. rw e refl)

reload_turn-view : (a : Answers) (s : Reload) → Stage s → view (reload_turn a s) ≡ view s
unfolding view in_force restored reload_turn reload_receive reload_dispatch reload_do_plan
    reload_do_build reload_do_reclaim reload_ctx_reset_cycle_state
reload_turn-view a s (at_rest p h) = rw p.reload_has refl
reload_turn-view a s (planning p h) =
    let got = record s {
      reload_mbox = none;
      phase = awaiting_survivors;
      current_tasks = some s.tasks;
    } in
    rw (p.reload_has, p.in_phase) (plan_parsed-view a (parse_config_file a) s.tasks got refl)
reload_turn-view a s (plan_failed p h) = rw p.reload_has refl
reload_turn-view a s (planned c v p sub u d h) = rw p.reload_has refl
reload_turn-view a s (building c old p sub u d h) =
    rw (p.reload_has, p.config_is, p.current_is, p.in_phase) (build_with-view a c old _ refl refl)
reload_turn-view a s (build_failed old p sub d h) = rw p.reload_has refl
reload_turn-view a s (built c old new es p sub d e k h) = rw p.reload_has refl
reload_turn-view a s (reclaiming old oc oe p d e k h) = rw (p.reload_has, p.old_is, p.in_phase) refl
reload_turn-view a s (reclaimed p h) = rw p.reload_has refl

step-view : (e : Event) (s : Reload) → Stage s → view (step e s) ≡ committed e s (view s)
unfolding step committed view task_manager_reload_signal task_manager_reload_cycle try_start_reload
step-view signalled s g = refl
step-view main_runs s g =
    start_if_idle-view _ (main_receive s.main_mbox (record s { main_mbox = none })) refl
    ∙ main_receive-view s g
step-view (reload_runs a) s g = reload_turn-view a s g

-- A reload is all or nothing: from any start and after any turns and signals, a step leaves the
-- configuration, the tasks and the errors that are in force as they are, unless it is the turn in which
-- the main thread gets the new tasks, which puts in force the three that the message carries. While only
-- the survivors are polled, the list from before the reload is in force.
pub Reach-view :
    (a : Answers) (config : Config) (alloc : SimpleAllocator) (s t : Reload) (e : Event)
    → check_fingerprints [] config.tasks ≡ true
    → task_manager_new a config alloc ≡ some s
    → Reach s t
    → view (step e t) ≡ committed e t (view t)
Reach-view a config alloc s t e u n r =
    step-view e t (Reach-Stage s t (new-Stage a config alloc s u n) r)
