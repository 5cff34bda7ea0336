-- ===== src/Reload/Stages.antt =====
-- The stages of a reload (cpworker/src/task.c): the phase of the main thread, the message that is on
-- its way, what the reload thread remembers, and what is allocated.
use cloud_probe.Prelude.{◌≡◌, List, ◌||◌, Option, none, some}
use mathlib.Core.Path.{subst, sym}
use cloud_probe.Tasks.{Task, TaskError, Config}
use cloud_probe.Tasks.Owners.{owns, Distinct}
use cloud_probe.Tasks.Reclaim.{Kept}
use cloud_probe.Tasks.Unique.{Unique}
use cloud_probe.Tasks.Holds.{Holds, Subset}
use cloud_probe.Reload.{
  Phase, idle, awaiting_survivors, awaiting_new_tasks, awaiting_reclaim, Msg, req_plan,
  rpt_survivors, req_build, rpt_new_tasks, req_reclaim, rpt_reclaimed, rpt_error, Reload,
}

-- The phase, both mailboxes, and the configuration and the two lists of the reload thread.
pub record At (s : Reload) (phase : Phase) (main reload : Option Msg) (new_config : Option Config)
    (current old : Option (List Task)) : Type 0 where
  pub in_phase : s.phase ≡ phase
  pub main_has : s.main_mbox ≡ main
  pub reload_has : s.reload_mbox ≡ reload
  pub config_is : s.new_config ≡ new_config
  pub current_is : s.current_tasks ≡ current
  pub old_is : s.old_tasks ≡ old

-- Only what the main thread has is allocated.
pub record Settled (s : Reload) : Type 0 where
  pub distinct : Distinct s.tasks
  pub holds : Holds s.heap (owns s.tasks) 1 1 1

pub Settled-same : (s t : Reload) → Settled s → t.tasks ≡ s.tasks → t.heap ≡ s.heap → Settled t
Settled-same s t h e f = record {
  distinct = subst Distinct (sym e) h.distinct;
  holds = rw (e, f) h.holds;
}

pub data Stage (s : Reload) : Type 0 where
  at_rest : At s idle none none none none none → Settled s → Stage s
  planning :
      At s awaiting_survivors none (some (req_plan s.tasks)) none none none → Settled s → Stage s
  plan_failed :
      At s awaiting_survivors (some (rpt_error none)) none none none none → Settled s → Stage s
  planned :
      (c : Config) (survivors : List Task)
      → At s awaiting_survivors (some (rpt_survivors survivors)) none (some c) (some s.tasks) none
      → Subset survivors s.tasks
      → Unique c.tasks
      → Distinct s.tasks
      → Holds s.heap (owns s.tasks) 2 2 1
      → Stage s
  building :
      (c : Config) (old : List Task)
      → At s awaiting_new_tasks none (some (req_build old)) (some c) (some old) none
      → Subset s.tasks old
      → Unique c.tasks
      → Distinct old
      → Holds s.heap (owns old) 2 2 1
      → Stage s
  build_failed :
      (old : List Task)
      → At s awaiting_new_tasks (some (rpt_error (some old))) none none none none
      → Subset s.tasks old
      → Distinct old
      → Holds s.heap (owns old) 1 2 1
      → Stage s
  built :
      (c : Config) (old new : List Task) (errors : List TaskError)
      → At s awaiting_new_tasks (some (rpt_new_tasks c new errors)) none none (some old) (some old)
      → Subset s.tasks old
      → Distinct old
      → Distinct new
      → Kept new old
      → Holds s.heap (λ n. owns old n || owns new n) 2 3 2
      → Stage s
  reclaiming :
      (old : List Task) (old_config : Config) (old_errors : List TaskError)
      → At s awaiting_reclaim none
          (some (req_reclaim old_config old_errors s.tasks))
          none
          (some old)
          (some old)
      → Distinct old
      → Distinct s.tasks
      → Kept s.tasks old
      → Holds s.heap (λ n. owns old n || owns s.tasks n) 2 2 2
      → Stage s
  reclaimed : At s awaiting_reclaim (some rpt_reclaimed) none none none none → Settled s → Stage s
