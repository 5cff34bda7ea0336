-- ===== src/Tasks/Places.antt =====
-- Where `build_full_task_set` of cpworker/src/task.c puts each task of the configuration.
use cloud_probe.Prelude.{
  ℕ, ◌+◌, ◌≤◌, ◌≡◌, ◌∙◌, refl, sym, List, [], ◌∷◌, true, false, ◌&&◌, Option, none, some, arith,
  inl, inr, ◌⊎◌, Bool-cases, if_both,
}
use mathlib.Core.Bool.{true≢false}
use mathlib.Core.Path.{subst}
use mathlib.Core.List.{Memᴰ}
use cloud_probe.Tasks.{
  Text, Task, TaskError, TaskConfig, Heap, Config, Answers, find_task_by_fingerprint,
  capture_task_new, same_fingerprint, Built, build_from, add_placed, build_full_task_set,
}
use cloud_probe.Tasks.Owners.{find-has, same_fingerprint-eq, same_text_self}
use cloud_probe.Tasks.Build.{place_task-cases}

-- The running task `e` has the fingerprint of the configured one.
pub record Same (c : TaskConfig) (e : Task) : Type 0 where
  pub text : Text
  pub running : e.fingerprint ≡ some text
  pub configured : c.fingerprint ≡ some text

abbrev pub Runs : TaskConfig → List Task → Type 0
Runs c current = (e : Task) × Memᴰ e current × Same c e

-- The tasks of a configuration, from the index on, one by one in order: one that runs keeps its
-- capture; of the others one whose capture starts has a capture from the address `start` on, and one
-- whose capture does not start is an error. Both lists have the index and the fingerprint.
pub data Places (a : Answers) (current : List Task) (start : ℕ)
    : ℕ → List TaskConfig → List Task → List TaskError → Type 0 where
  all_placed : {i : ℕ} → Places a current start i [] [] []
  kept :
      {i : ℕ} {c : TaskConfig} {cs : List TaskConfig} {ts : List Task} {es : List TaskError}
      (e : Task)
      → Memᴰ e current
      → Same c e
      → Places a current start (i + 1) cs ts es
      → Places a current start i
          (c ∷ cs)
          (record { index = i; fingerprint = c.fingerprint; task = e.task } ∷ ts)
          es
  started :
      {i : ℕ} {c : TaskConfig} {cs : List TaskConfig} {ts : List Task} {es : List TaskError} (n : ℕ)
      → ¬ (Runs c current)
      → a.capture_ok i ≡ true
      → start ≤ n
      → Places a current start (i + 1) cs ts es
      → Places a current start i
          (c ∷ cs)
          (record { index = i; fingerprint = c.fingerprint; task = n } ∷ ts)
          es
  failed :
      {i : ℕ} {c : TaskConfig} {cs : List TaskConfig} {ts : List Task} {es : List TaskError}
      → ¬ (Runs c current)
      → a.capture_ok i ≡ false
      → Places a current start (i + 1) cs ts es
      → Places a current start i
          (c ∷ cs)
          ts
          (record { index = i; fingerprint = c.fingerprint } ∷ es)

find-Mem :
    (f : Option Text) (ts : List Task) (e : Task)
    → find_task_by_fingerprint f ts ≡ some e
    → Memᴰ e ts
unfolding find_task_by_fingerprint
find-Mem f [] e h = cc
find-Mem f (t ∷ ts) e h = elim (Bool-cases (same_fingerprint t.fingerprint f)) [
  | inl q ↦ let same : t ≡ e = ground arith in Memᴰ.head (sym same)
  | inr q ↦ Memᴰ.tail (find-Mem f ts e (ground arith))
]

find-none :
    (f : Option Text) (ts : List Task) (e : Task)
    → find_task_by_fingerprint f ts ≡ none
    → Memᴰ e ts
    → same_fingerprint e.fingerprint f ≡ false
unfolding find_task_by_fingerprint
find-none f [] e h m = elim m [ ]
find-none f (t ∷ ts) e h (Memᴰ.head p) =
    let other : same_fingerprint t.fingerprint f ≡ false = ground arith in
    subst (λ (x : Task). same_fingerprint x.fingerprint f ≡ false) (sym p) other
find-none f (t ∷ ts) e h (Memᴰ.tail m) = find-none f ts e (ground arith) m

same_fingerprint-some :
    (f g : Option Text)
    → same_fingerprint f g ≡ true
    → (text : Text) × (f ≡ some text) × (g ≡ some text)
unfolding same_fingerprint
same_fingerprint-some (some x) g h = (x, refl, sym (same_fingerprint-eq (some x) g h))
same_fingerprint-some none g h = cc

same_fingerprint-text : (text : Text) → same_fingerprint (some text) (some text) ≡ true
unfolding same_fingerprint
same_fingerprint-text text = same_text_self text

find-Same :
    (c : TaskConfig) (ts : List Task) (e : Task)
    → find_task_by_fingerprint c.fingerprint ts ≡ some e
    → Same c e
find-Same c ts e h =
    let (text, running, configured) =
      same_fingerprint-some e.fingerprint c.fingerprint (find-has c.fingerprint ts e h).0 in
    record { text = text; running = running; configured = configured }

find-not-Runs :
    (c : TaskConfig) (ts : List Task)
    → find_task_by_fingerprint c.fingerprint ts ≡ none
    → ¬ (Runs c ts)
find-not-Runs c ts h (e, m, s) =
    let other = find-none c.fingerprint ts e h m in
    let same : same_fingerprint e.fingerprint c.fingerprint ≡ true =
      rw (s.running, s.configured) (same_fingerprint-text s.text) in
    true≢false (sym same ∙ other)

build_from-Places :
    (a : Answers) (current : List Task) (start i : ℕ) (cs : List TaskConfig) (h : Heap)
    → start ≤ h.next
    → (build_from a current i cs h).good ≡ true
    → Places a current start i cs
        (build_from a current i cs h).tasks
        (build_from a current i cs h).errors
unfolding build_from add_placed capture_task_new
build_from-Places a current start i [] h = λ l g. all_placed
build_from-Places a current start i (c ∷ cs) h = λ l.
    place_task-cases
      (λ v.
        let r = add_placed v.0 v.1 (build_from a current (i + 1) cs v.1) in
        r.good ≡ true → Places a current start i (c ∷ cs) r.tasks r.errors)
      a i c h (find_task_by_fingerprint c.fingerprint current)
      (λ e p g.
        kept e (find-Mem c.fingerprint current e p) (find-Same c current e p)
          (build_from-Places a current start (i + 1) cs h l g))
      (λ p k g.
        started h.next (find-not-Runs c current p) k l
          (build_from-Places a current start (i + 1) cs (capture_task_new h) (omega (arith, l)) g))
      (λ p k g.
        failed (find-not-Runs c current p) k (build_from-Places a current start (i + 1) cs h l g))
      (λ _ g. cc) (λ _ g. cc)

-- An allocation that failed: of a list, of a wrapper or of an error.
abbrev pub Lacks : Answers → Type 0
Lacks a =
    ((a.tasks_ok && a.errors_ok) ≡ false)
    ⊎ ((i : ℕ) × ((a.wrapper_ok i ≡ false) ⊎ (a.error_ok i ≡ false)))

build_from-Lacks :
    (a : Answers) (current : List Task) (i : ℕ) (cs : List TaskConfig) (h : Heap)
    → (build_from a current i cs h).good ≡ false
    → Lacks a
unfolding build_from add_placed
build_from-Lacks a current i [] h = λ g. cc
build_from-Lacks a current i (c ∷ cs) h =
    place_task-cases
      (λ v. (add_placed v.0 v.1 (build_from a current (i + 1) cs v.1)).good ≡ false → Lacks a) a i c
      h (find_task_by_fingerprint c.fingerprint current)
      (λ e p g. build_from-Lacks a current (i + 1) cs h g)
      (λ p k g. build_from-Lacks a current (i + 1) cs (capture_task_new h) g)
      (λ p k g. build_from-Lacks a current (i + 1) cs h g) (λ k g. inr (i, k))
      (λ k g. inr (i, inl k))

pub build-Lacks :
    (a : Answers) (c : Config) (current : List Task) (h : Heap)
    → (build_full_task_set a c current h).good ≡ false
    → Lacks a
unfolding build_full_task_set
build-Lacks a c current h =
    if_both P (a.tasks_ok && a.errors_ok)
      (λ _.
        if_both P (build_from a current 0 c.tasks h).good (λ e g. absurd (true≢false (sym e ∙ g)))
          (λ e _. build_from-Lacks a current 0 c.tasks h e))
      (λ k _. inl k)
  where
    P : Built → Type 0
    P v = v.good ≡ false → Lacks a

-- Where a task set is built, both of its lists are as the configuration and the answers say.
pub build-Places :
    (a : Answers) (c : Config) (current : List Task) (h : Heap)
    → (build_full_task_set a c current h).good ≡ true
    → Places a current h.next 0 c.tasks
        (build_full_task_set a c current h).tasks
        (build_full_task_set a c current h).errors
unfolding build_full_task_set
build-Places a c current h =
    if_both P (a.tasks_ok && a.errors_ok)
      (λ _.
        if_both P (build_from a current 0 c.tasks h).good
          (λ e _. build_from-Places a current h.next 0 c.tasks h (omega arith) e)
          (λ e g. absurd (true≢false (sym g ∙ e))))
      (λ _ g. cc)
  where
    P : Built → Type 0
    P v = v.good ≡ true → Places a current h.next 0 c.tasks v.tasks v.errors
