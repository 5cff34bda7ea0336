-- ===== src/Tasks/Holds.antt =====
-- What is allocated while tasks run, and the survivors among them (cpworker/src/task.c).
use cloud_probe.Prelude.{
  ℕ, ◌+◌, ◌<◌, ◌≡◌, refl, sym, List, [], ◌∷◌, Bool, true, false, ◌||◌, ◌==◌, Option, none, some,
  arith, inl, inr, Option-cases, or_true,
}
use mathlib.Core.Path.{subst}
use mathlib.Core.Option.{some-injective}
use cloud_probe.Tasks.{
  Task, TaskConfig, Heap, Config, Answers, find_task_by_fingerprint, check_fingerprints,
  survivors_from, keep_survivor, collect_surviving_tasks, parse_config_file,
}
use cloud_probe.Tasks.Owners.{owns, find-has}
use cloud_probe.Tasks.Unique.{Unique, check_fingerprints-Unique}

-- Exactly these captures are live, so many configurations, task lists and error lists are allocated,
-- and there was no fault.
pub record Holds (h : Heap) (held : ℕ → Bool) (configs task_lists error_lists : ℕ) : Type 0 where
  pub live : (n : ℕ) → h.live n ≡ held n
  pub fresh : (n : ℕ) → h.live n ≡ true → n < h.next
  pub fault : h.fault ≡ false
  pub configs_held : h.configs ≡ configs
  pub task_lists_held : h.task_lists ≡ task_lists
  pub error_lists_held : h.error_lists ≡ error_lists

abbrev pub Subset : List Task → List Task → Type 0
Subset ts us = (n : ℕ) → owns ts n ≡ true → owns us n ≡ true

keep_survivor-owns :
    (current : List Task) (n : ℕ) (found_task : Option Task) (good : Bool)
    (rest : Option (List Task))
    → ((e : Task) → found_task ≡ some e → owns current e.task ≡ true)
    → ((us : List Task) → rest ≡ some us → owns us n ≡ true → owns current n ≡ true)
    → (ts : List Task) → keep_survivor found_task good rest ≡ some ts
    → owns ts n ≡ true
    → owns current n ≡ true
unfolding keep_survivor owns
keep_survivor-owns current n none good rest p q ts h o = q ts h o
keep_survivor-owns current n (some e) false rest p q ts h o = cc
keep_survivor-owns current n (some e) true none p q ts h o = cc
keep_survivor-owns current n (some e) true (some us) p q ts h o =
    let mine : owns current e.task ≡ true = p e refl in
    let split : (e.task == n || owns us n) ≡ true =
      subst (λ (v : List Task). owns v n ≡ true) (sym (some-injective _ ts h)) o in
    elim (or_true (e.task == n) (owns us n) split) [
      | inl same ↦ ground (arith, mine)
      | inr other ↦ q us refl other
    ]

pub survivors_from-Subset :
    (a : Answers) (current : List Task) (i : ℕ) (cs : List TaskConfig) (ts : List Task)
    → survivors_from a current i cs ≡ some ts
    → Subset ts current
unfolding survivors_from owns
survivors_from-Subset a current i [] ts h n o = ground arith
survivors_from-Subset a current i (c ∷ cs) ts h n o =
    keep_survivor-owns current n (find_task_by_fingerprint c.fingerprint current) (a.wrapper_ok i)
      (survivors_from a current (i + 1) cs) (λ e p. (find-has c.fingerprint current e p).1)
      (λ us q. survivors_from-Subset a current (i + 1) cs us q n) ts h o

pub collect_surviving_tasks-Subset :
    (a : Answers) (c : Config) (current ts : List Task)
    → collect_surviving_tasks a c current ≡ some ts
    → Subset ts current
unfolding collect_surviving_tasks
collect_surviving_tasks-Subset a c current ts h =
    survivors_from-Subset a current 0 c.tasks ts (ground arith)

pub parse_config_file-Unique :
    (a : Answers) (c : Config) → parse_config_file a ≡ some c → Unique c.tasks
unfolding parse_config_file
parse_config_file-Unique a c h = elim (Option-cases (a.parsed)) [
  | inl e ↦ absurd (ground arith)
  | inr (d, e) ↦
      let fine : check_fingerprints [] c.tasks ≡ true = ground arith in
      check_fingerprints-Unique [] c.tasks fine
]
