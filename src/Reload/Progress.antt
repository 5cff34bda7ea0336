-- ===== src/Reload/Progress.antt =====
-- A reload comes to its end (cpworker/src/task.c).
use cloud_probe.Prelude.{
  ℕ, ◌≡◌, ◌-◌, ◌≤◌, List, [], true, false, Option, none, some, refl, ◌∙◌, arith,
}
use mathlib.Core.Path.{subst}
use cloud_probe.Allocator.{SimpleAllocator}
use cloud_probe.Tasks.{Task, Config, Answers, check_fingerprints}
use cloud_probe.Reload.{
  Phase, idle, awaiting_survivors, awaiting_new_tasks, awaiting_reclaim, Msg, req_plan,
  rpt_survivors, req_build, rpt_new_tasks, req_reclaim, rpt_reclaimed, rpt_error, Reload,
  reload_turn, reload_receive, reload_dispatch, reload_do_plan, reload_do_build, reload_do_reclaim,
  reload_handle_error_from_main, plan_parsed, plan_survivors, build_with,
  reload_ctx_reset_cycle_state, report_error, task_manager_new, task_manager_reload_cycle,
  main_receive, main_dispatch, main_handle_survivors, main_handle_new_tasks, main_handle_reclaimed,
  restore_full_list_on_build_failure, request_build, request_reclaim, commit_new_tasks,
  try_start_reload, start_if_idle,
}
use cloud_probe.Reload.Stages.{
  Stage, at_rest, planning, plan_failed, planned, building, build_failed, built, reclaiming,
  reclaimed,
}
use cloud_probe.Reload.Main.{main-Stage}
use cloud_probe.Reload.Thread.{reload_turn-Stage}
use cloud_probe.Reload.Reach.{Reach, Reach-Stage, new-Stage}

-- What a turn of the reload thread leaves: the phase and the signal; and its mailbox is empty.
record Turned (s t : Reload) : Type 0 where
  same_phase : t.phase ≡ s.phase
  same_signal : t.signal ≡ s.signal
  received : t.reload_mbox ≡ none

turn-plan :
    (a : Answers) (o : Option Config) (ts : List Task) (s t : Reload)
    → Turned t s
    → Turned t (plan_parsed a o ts s)
unfolding plan_parsed plan_survivors reload_ctx_reset_cycle_state report_error
turn-plan a none ts s t h = ground arith
turn-plan a (some c) ts s t h = ground arith

turn-build :
    (a : Answers) (o : Option Config) (p : Option (List Task)) (ts : List Task) (s t : Reload)
    → Turned t s
    → Turned t (build_with a o p ts s)
unfolding build_with reload_ctx_reset_cycle_state report_error
turn-build a none p ts s t h = ground arith
turn-build a (some c) none ts s t h = ground arith
turn-build a (some c) (some p) ts s t h = ground arith

turn-reclaim :
    (o : Option (List Task)) (ts : List Task) (s t : Reload)
    → Turned t s
    → Turned t (reload_do_reclaim o ts s)
unfolding reload_do_reclaim reload_ctx_reset_cycle_state
turn-reclaim none ts s t h = ground arith
turn-reclaim (some o) ts s t h = ground arith

turn-error :
    (o : Option Config) (s t : Reload) → Turned t s → Turned t (reload_handle_error_from_main o s)
unfolding reload_handle_error_from_main reload_ctx_reset_cycle_state
turn-error none s t h = ground arith
turn-error (some c) s t h = ground arith

turn-receive :
    (a : Answers) (m : Option Msg) (s t : Reload) → Turned t s → Turned t (reload_receive a m s)
unfolding reload_receive reload_dispatch reload_do_plan reload_do_build
turn-receive a none s t h = h
turn-receive a (some (req_plan ts)) s t h = turn-plan a _ ts _ t (ground arith)
turn-receive a (some (req_build ts)) s t h = turn-build a _ _ ts _ t (ground arith)
turn-receive a (some (req_reclaim c e ts)) s t h = turn-reclaim _ ts s t h
turn-receive a (some (rpt_error r)) s t h = turn-error _ s t h
turn-receive a (some (rpt_survivors ts)) s t h = h
turn-receive a (some (rpt_new_tasks c ts e)) s t h = h
turn-receive a (some rpt_reclaimed) s t h = h

-- The rounds that the reload still takes at most.
abbrev rounds_left : Phase → ℕ
rounds_left idle = 0
rounds_left awaiting_reclaim = 1
rounds_left awaiting_new_tasks = 2
rounds_left awaiting_survivors = 3

record Advanced (s t : Reload) : Type 0 where
  fewer : rounds_left t.phase ≤ rounds_left s.phase - 1
  unsignalled : t.signal ≡ false

main-Advanced :
    (s : Reload)
    → Stage s
    → s.reload_mbox ≡ none
    → s.signal ≡ false
    → Advanced s (task_manager_reload_cycle s)
unfolding task_manager_reload_cycle main_receive main_dispatch main_handle_survivors
    main_handle_new_tasks main_handle_reclaimed restore_full_list_on_build_failure request_build
    request_reclaim commit_new_tasks try_start_reload start_if_idle
main-Advanced s (at_rest p h) q n = ground (arith, p.main_has, p.in_phase)
main-Advanced s (planning p h) q n = absurd (ground (arith, p.reload_has))
main-Advanced s (plan_failed p h) q n = ground (arith, p.main_has, p.in_phase)
main-Advanced s (planned c v p sub u d h) q n = ground (arith, p.main_has, p.in_phase)
main-Advanced s (building c old p sub u d h) q n = absurd (ground (arith, p.reload_has))
main-Advanced s (build_failed old p sub d h) q n = ground (arith, p.main_has, p.in_phase)
main-Advanced s (built c old new es p sub d e k h) q n = ground (arith, p.main_has, p.in_phase)
main-Advanced s (reclaiming old oc oe p d e k h) q n = absurd (ground (arith, p.reload_has))
main-Advanced s (reclaimed p h) q n = ground (arith, p.main_has, p.in_phase)

-- A turn of the reload thread and then one of the main thread.
unfoldable pub round : Answers → Reload → Reload
round a s = task_manager_reload_cycle (reload_turn a s)

round-Stage : (a : Answers) (s : Reload) → Stage s → Stage (round a s)
unfolding round
round-Stage a s g = main-Stage _ (reload_turn-Stage a s g)

round-Advanced : (a : Answers) (s : Reload) → Stage s → s.signal ≡ false → Advanced s (round a s)
unfolding round reload_turn
round-Advanced a s g n =
    let t = turn-receive a s.reload_mbox (record s { reload_mbox = none }) s (ground arith) in
    let m = main-Advanced _ (reload_turn-Stage a s g) t.received (t.same_signal ∙ n) in
    record {
      fewer = subst (λ p. rounds_left (round a s).phase ≤ rounds_left p - 1) t.same_phase m.fewer;
      unsignalled = m.unsignalled;
    }

no_rounds : (p : Phase) → rounds_left p ≤ 0 → p ≡ idle
no_rounds idle h = refl
no_rounds awaiting_reclaim h = absurd (omega arith)
no_rounds awaiting_new_tasks h = absurd (omega arith)
no_rounds awaiting_survivors h = absurd (omega arith)

few_rounds : (p : Phase) → rounds_left p ≤ 3
few_rounds p = ground arith

-- From any start and after any turns and signals: once the signal is clear, three rounds of the two
-- threads end the reload that is in progress, whatever the parser, `malloc` and the captures answer.
pub rounds-idle :
    (a : Answers) (config : Config) (alloc : SimpleAllocator) (s t : Reload) (b c d : Answers)
    → check_fingerprints [] config.tasks ≡ true
    → task_manager_new a config alloc ≡ some s
    → Reach s t
    → t.signal ≡ false
    → (round d (round c (round b t))).phase ≡ idle
rounds-idle a config alloc s t b c d u e r n =
    let g = Reach-Stage s t (new-Stage a config alloc s u e) r in
    let m = round-Advanced b t g n in
    let g' = round-Stage b t g in
    let m' = round-Advanced c _ g' m.unsignalled in
    let m'' = round-Advanced d _ (round-Stage c _ g') m'.unsignalled in
    no_rounds _ (omega (arith, few_rounds t.phase, m.fewer, m'.fewer, m''.fewer))
