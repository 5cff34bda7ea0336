-- ===== src/Tasks/Sets.antt =====
-- The three helpers of a reload, each from a heap that holds the captures of the tasks that run
-- (cpworker/src/task.c).
use cloud_probe.Prelude.{
  ℕ, suc, ◌+◌, ◌≡◌, ◌∙◌, sym, List, true, false, not, ◌&&◌, ◌||◌, arith, if_both,
}
use mathlib.Core.Bool.{true≢false}
use cloud_probe.Tasks.{
  Task, Heap, Config, Answers, destroy_unlisted, Built, build_from, build_full_task_set,
  reclaim_old_resources,
}
use cloud_probe.Tasks.Owners.{owns, Distinct, All-map, owns-All}
use cloud_probe.Tasks.Reclaim.{
  Kept, SameCounts, destroy_unlisted-live, destroy_unlisted-fault, destroy_unlisted-SameCounts,
}
use cloud_probe.Tasks.Build.{Ready, Builds, no_task-Kept, build_from-Builds}
use cloud_probe.Tasks.Unique.{Unique, build_from-Distinct}
use cloud_probe.Tasks.Places.{Places}
use cloud_probe.Tasks.Holds.{Holds}

module _ (a : Answers) (c : Config) (current : List Task) (h : Heap) (configs lists errors : ℕ)
    (distinct : Distinct current) (unique : Unique c.tasks)
    (holds : Holds h (owns current) configs lists errors) where
  abbrev after : Built
  after = build_full_task_set a c current h

  ready : Ready current h
  ready = record { owned = λ n o. holds.live n ∙ o; fresh = holds.fresh }

  builds : Builds current h (build_from a current 0 c.tasks h)
  builds = build_from-Builds a current 0 c.tasks h distinct ready

  pub built-Holds :
      after.good ≡ true
      → Holds after.heap
          (λ n. owns current n || owns after.tasks n)
          configs
          (lists + 1)
          (errors + 1)
  unfolding build_full_task_set
  built-Holds =
      if_both P (a.tasks_ok && a.errors_ok)
        (λ _.
          if_both P (build_from a current 0 c.tasks h).good
            (λ _ _. record {
              live = λ n. ground (arith, builds.live n, holds.live n);
              fresh = builds.fresh;
              fault = builds.fault ∙ holds.fault;
              configs_held = builds.configs ∙ holds.configs_held;
              task_lists_held = omega (arith, builds.task_lists, holds.task_lists_held);
              error_lists_held = omega (arith, builds.error_lists, holds.error_lists_held);
            })
            (λ e g. absurd (true≢false (sym g ∙ e))))
        (λ _ g. cc)
    where
      P : Built → Type 0
      P v =
          v.good ≡ true
          → Holds v.heap (λ n. owns current n || owns v.tasks n) configs (lists + 1) (errors + 1)

  pub built-Distinct : Distinct after.tasks
  unfolding build_full_task_set
  built-Distinct =
      if_both P (a.tasks_ok && a.errors_ok)
        (λ _. if_both P (build_from a current 0 c.tasks h).good (λ _. those) (λ _. those)) (λ _. tt)
    where
      P : Built → Type 0
      P v = Distinct v.tasks

      those : Distinct (build_from a current 0 c.tasks h).tasks
      those = build_from-Distinct a current 0 c.tasks h distinct ready unique

  pub built-Kept : Kept after.tasks current
  unfolding build_full_task_set
  built-Kept =
      if_both P (a.tasks_ok && a.errors_ok)
        (λ _.
          if_both P (build_from a current 0 c.tasks h).good (λ _. builds.kept) (λ _. builds.kept))
        (λ _. no_task-Kept current)
    where
      P : Built → Type 0
      P v = Kept v.tasks current

  -- The loop under `error:` gives back what the first loop took.
  undone-Holds :
      Holds
        (destroy_unlisted current
          (build_from a current 0 c.tasks h).tasks
          (build_from a current 0 c.tasks h).heap)
        (owns current)
        configs
        lists
        errors
  undone-Holds = record {
    live = λ n. ground (arith, cleared n, builds.live n, holds.live n);
    fresh = λ n l. ground (arith, cleared n, builds.fresh n, same.next);
    fault =
        destroy_unlisted-fault current r.tasks r.heap
          (build_from-Distinct a current 0 c.tasks h distinct ready unique)
          (owns-All (λ n. r.heap.live n ≡ true) r.tasks (λ n o. ground (arith, builds.live n)))
        ∙ builds.fault
        ∙ holds.fault;
    configs_held = same.configs ∙ builds.configs ∙ holds.configs_held;
    task_lists_held = same.task_lists ∙ builds.task_lists ∙ holds.task_lists_held;
    error_lists_held = same.error_lists ∙ builds.error_lists ∙ holds.error_lists_held;
  }
    where
      r : Built
      r = build_from a current 0 c.tasks h

      same : SameCounts r.heap (destroy_unlisted current r.tasks r.heap)
      same = destroy_unlisted-SameCounts current r.tasks r.heap

      cleared :
          (n : ℕ)
          → (destroy_unlisted current r.tasks r.heap).live n
            ≡ (r.heap.live n && (owns current n || not (owns r.tasks n)))
      cleared =
          destroy_unlisted-live current r.tasks r.heap
            (All-map (λ t o. o.reused) r.tasks builds.origin)

  pub unbuilt-Holds : after.good ≡ false → Holds after.heap (owns current) configs lists errors
  unfolding build_full_task_set
  unbuilt-Holds =
      if_both P (a.tasks_ok && a.errors_ok)
        (λ _.
          if_both P (build_from a current 0 c.tasks h).good (λ e g. absurd (true≢false (sym e ∙ g)))
            (λ _ _. undone-Holds))
        (λ _ _. holds)
    where
      P : Built → Type 0
      P v = v.good ≡ false → Holds v.heap (owns current) configs lists errors

-- With the old tasks and the new ones that keep theirs, the new ones alone are left.
pub reclaim-Holds :
    (old new : List Task) (h : Heap) (configs lists errors : ℕ)
    → Distinct old
    → Kept new old
    → Holds h (λ n. owns old n || owns new n) (suc configs) (suc lists) (suc errors)
    → Holds (reclaim_old_resources old new h) (owns new) configs lists errors
unfolding reclaim_old_resources
reclaim-Holds old new h configs lists errors d k v =
    let same = destroy_unlisted-SameCounts new old h in
    let cleared = destroy_unlisted-live new old h k in
    record {
      live = λ n. ground (arith, cleared n, v.live n);
      fresh = λ n l. ground (arith, cleared n, v.fresh n, same.next);
      fault =
          destroy_unlisted-fault new old h d
            (owns-All (λ n. h.live n ≡ true) old (λ n o. ground (arith, v.live n)))
          ∙ v.fault;
      configs_held = omega (arith, same.configs, v.configs_held);
      task_lists_held = omega (arith, same.task_lists, v.task_lists_held);
      error_lists_held = omega (arith, same.error_lists, v.error_lists_held);
    }
