-- ===== src/Reload/Reach.antt =====
-- What holds of the task manager and its reload thread at any time after the start, whatever the
-- threads do in whatever order (cpworker/src/task.c).
use cloud_probe.Prelude.{
  ℕ, ◌≡◌, ◌⊎◌, [], Bool, true, false, ◌||◌, Option, none, some, refl, arith, if_both,
}
use mathlib.Core.Path.{subst}
use mathlib.Core.Option.{some-injective}
use cloud_probe.Allocator.{SimpleAllocator}
use cloud_probe.Tasks.{Config, Answers, build_full_task_set, check_fingerprints}
use cloud_probe.Tasks.Owners.{owns}
use cloud_probe.Tasks.Build.{no_task-Kept}
use cloud_probe.Tasks.Unique.{check_fingerprints-Unique}
use cloud_probe.Tasks.Holds.{Holds}
use cloud_probe.Tasks.Sets.{built-Holds, built-Distinct, reclaim-Holds}
use cloud_probe.Reload.{
  Phase, idle, awaiting_survivors, awaiting_new_tasks, awaiting_reclaim, Msg, rpt_survivors,
  rpt_new_tasks, rpt_reclaimed, rpt_error, Reload, reload_turn, one_config, task_manager_new,
  task_manager_reload_cycle, task_manager_reload_signal, task_manager_destroy,
}
use cloud_probe.Reload.Stages.{
  Settled, Stage, at_rest, planning, plan_failed, planned, building, build_failed, built,
  reclaiming, reclaimed,
}
use cloud_probe.Reload.Main.{signal-Stage, main-Stage}
use cloud_probe.Reload.Thread.{reload_turn-Stage}

-- What may happen next: the signal is set, or one of the threads takes a turn.
pub data Event : Type 0 where
  signalled main_runs : Event
  reload_runs : Answers → Event

unfoldable pub step : Event → Reload → Reload
step signalled s = task_manager_reload_signal s
step main_runs s = task_manager_reload_cycle s
step (reload_runs a) s = reload_turn a s

pub data Reach (s : Reload) : Reload → Type 0 where
  start : Reach s s
  later : {t : Reload} (e : Event) → Reach s t → Reach s (step e t)

-- The messages that the phases of the protocol wait for.
unfoldable pub awaits : Phase → Msg → Bool
awaits awaiting_survivors (rpt_survivors ts) = true
awaits awaiting_survivors (rpt_error r) = true
awaits awaiting_new_tasks (rpt_new_tasks c ts es) = true
awaits awaiting_new_tasks (rpt_error r) = true
awaits awaiting_reclaim rpt_reclaimed = true
awaits p m = false

abbrev pub Awaited : Phase → Option Msg → Type 0
Awaited p none = Unit
Awaited p (some m) = awaits p m ≡ true

pub record Safe (s : Reload) : Type 0 where
  pub no_fault : s.heap.fault ≡ false
  pub polled_live : (n : ℕ) → owns s.tasks n ≡ true → s.heap.live n ≡ true
  pub one_message : (s.main_mbox ≡ none) ⊎ (s.reload_mbox ≡ none)
  pub awaited : Awaited s.phase s.main_mbox

none_held : Holds one_config (owns []) 1 0 0
unfolding owns
none_held = record {
  live = λ n. refl;
  fresh = λ n l. cc;
  fault = refl;
  configs_held = refl;
  task_lists_held = refl;
  error_lists_held = refl;
}

pub new-Stage :
    (a : Answers) (config : Config) (alloc : SimpleAllocator) (s : Reload)
    → check_fingerprints [] config.tasks ≡ true
    → task_manager_new a config alloc ≡ some s
    → Stage s
unfolding task_manager_new owns
new-Stage a config alloc s u =
    if_both (λ (o : Option Reload). o ≡ some s → Stage s)
      (build_full_task_set a config [] one_config).good
      (λ g q. subst Stage (some-injective _ s q) (
        at_rest (ground arith) (record {
          distinct =
              built-Distinct a config [] one_config 1 0 0 tt
                (check_fingerprints-Unique [] config.tasks u) none_held;
          holds =
              built-Holds a config [] one_config 1 0 0 tt
                (check_fingerprints-Unique [] config.tasks u) none_held g;
        })))
      (λ _ q. cc)

pub Reach-Stage : (s t : Reload) → Stage s → Reach s t → Stage t
unfolding step
Reach-Stage s t g start = g
Reach-Stage s t g (later {t = u} signalled r) = signal-Stage u (Reach-Stage s u g r)
Reach-Stage s t g (later {t = u} main_runs r) = main-Stage u (Reach-Stage s u g r)
Reach-Stage s t g (later {t = u} (reload_runs a) r) = reload_turn-Stage a u (Reach-Stage s u g r)

idle-Settled : (s : Reload) → Stage s → s.phase ≡ idle → Settled s
idle-Settled s (at_rest p h) e = h
idle-Settled s (planning p h) e = absurd (ground (arith, p.in_phase))
idle-Settled s (plan_failed p h) e = absurd (ground (arith, p.in_phase))
idle-Settled s (planned c v p sub u d h) e = absurd (ground (arith, p.in_phase))
idle-Settled s (building c old p sub u d h) e = absurd (ground (arith, p.in_phase))
idle-Settled s (build_failed old p sub d h) e = absurd (ground (arith, p.in_phase))
idle-Settled s (built c old new es p sub d f k h) e = absurd (ground (arith, p.in_phase))
idle-Settled s (reclaiming old oc oe p d f k h) e = absurd (ground (arith, p.in_phase))
idle-Settled s (reclaimed p h) e = absurd (ground (arith, p.in_phase))

-- From any start and after any turns and signals, whenever no reload is in progress: the live captures
-- are exactly those of the tasks that are polled, one configuration, one task list and one error list
-- are allocated, and `task_manager_destroy` would give all of it back, without a fault.
pub Reach-destroy :
    (a : Answers) (config : Config) (alloc : SimpleAllocator) (s t : Reload)
    → check_fingerprints [] config.tasks ≡ true
    → task_manager_new a config alloc ≡ some s
    → Reach s t
    → t.phase ≡ idle
    → Holds t.heap (owns t.tasks) 1 1 1 × Holds (task_manager_destroy t) (λ n. false) 0 0 0
unfolding task_manager_destroy owns
Reach-destroy a config alloc s t u e r i =
    let settled = idle-Settled t (Reach-Stage s t (new-Stage a config alloc s u e) r) i in
    let h = settled.holds in
    let all : Holds t.heap (λ n. owns t.tasks n || owns [] n) 1 1 1 = record {
      live = λ n. ground (arith, h.live n);
      fresh = h.fresh;
      fault = h.fault;
      configs_held = h.configs_held;
      task_lists_held = h.task_lists_held;
      error_lists_held = h.error_lists_held;
    } in
    (h, reclaim-Holds t.tasks [] t.heap 0 0 0 settled.distinct (no_task-Kept t.tasks) all)
