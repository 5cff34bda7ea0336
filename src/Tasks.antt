-- ===== src/Tasks.antt =====
-- The task lists of cpworker/src/task.c: the wrappers `task_t`, the search by fingerprint, and the
-- helpers by which a reload builds the new list and gives back the old one; with the check of the
-- fingerprints in cpworker/src/config.c. A task list is a value, since no list is changed in place but
-- where it is freed; what is allocated is counted in `Heap`. A `capture_task_t` is a number, its
-- address. `malloc`, the rest of the parser and the start of a capture answer through `Answers`.
pub mod Owners
pub mod Reclaim
pub mod Build
pub mod Unique
pub mod Holds
pub mod Places
pub mod Sets
use cloud_probe.Prelude.{
  ℕ, suc, ◌+◌, ◌-◌, ◌*◌, List, [], ◌∷◌, Bool, true, false, not, ◌&&◌, ◌||◌, ◌==◌, if◌then◌else◌,
  Option, none, some,
}

abbrev pub Text : Type 0
Text = List ℕ

-- `strcmp(a, b) == 0`
unfoldable pub same_text : Text → Text → Bool
same_text [] [] = true
same_text [] (y ∷ ys) = false
same_text (x ∷ xs) [] = false
same_text (x ∷ xs) (y ∷ ys) = x == y && same_text xs ys

-- Two fingerprints that are there, and equal.
unfoldable pub same_fingerprint : Option Text → Option Text → Bool
same_fingerprint (some x) (some y) = same_text x y
same_fingerprint (some x) none = false
same_fingerprint none f = false

-- `task_t`
pub record Task : Type 0 where
  pub index : ℕ
  pub fingerprint : Option Text
  pub task : ℕ

-- `task_error_t`, less its text.
pub record TaskError : Type 0 where
  pub index : ℕ
  pub fingerprint : Option Text

-- `TaskConfig`, of which these functions read one field.
pub record TaskConfig : Type 0 where
  pub fingerprint : Option Text

pub record Config : Type 0 where
  pub tasks : List TaskConfig
  pub pipeline : Bool
  pub buffer_size_mb : ℕ

-- What is allocated: the captures by address, and how many configurations, task lists and error lists.
-- `fault` is set by a second `capture_task_destroy` of a capture and by a read through NULL.
pub record Heap : Type 0 where
  pub live : ℕ → Bool
  pub next : ℕ
  pub configs : ℕ
  pub task_lists : ℕ
  pub error_lists : ℕ
  pub fault : Bool

-- The answers of one turn: the parser's, whether a list could be allocated, and for each task whether
-- its capture starts and its wrapper and error record could be allocated.
pub record Answers : Type 0 where
  pub parsed : Option Config
  pub tasks_ok : Bool
  pub errors_ok : Bool
  pub capture_ok : ℕ → Bool
  pub wrapper_ok : ℕ → Bool
  pub error_ok : ℕ → Bool

unfoldable pub find_task_by_fingerprint : Option Text → List Task → Option Task
find_task_by_fingerprint f [] = none
find_task_by_fingerprint f (t ∷ ts) =
    if same_fingerprint t.fingerprint f then some t else find_task_by_fingerprint f ts

abbrev pub is_some {ℓ} : {A : Type ℓ} → Option A → Bool
is_some none = false
is_some (some a) = true

-- The loop of `parse_tasks_config` that refuses a fingerprint seen before.
unfoldable pub has_fingerprint : Option Text → List TaskConfig → Bool
has_fingerprint f [] = false
has_fingerprint f (c ∷ cs) = same_fingerprint c.fingerprint f || has_fingerprint f cs

-- `seen` in any order.
unfoldable pub check_fingerprints : List TaskConfig → List TaskConfig → Bool
check_fingerprints seen [] = true
check_fingerprints seen (c ∷ cs) =
    not (has_fingerprint c.fingerprint seen) && check_fingerprints (c ∷ seen) cs

unfoldable pub parse_config_file : Answers → Option Config
parse_config_file a = elim (a.parsed) [
  | none ↦ none
  | some c ↦ if check_fingerprints [] c.tasks then some c else none
]

unfoldable pub validate_fingerprints : List TaskConfig → Bool
validate_fingerprints [] = true
validate_fingerprints (c ∷ cs) = is_some c.fingerprint && validate_fingerprints cs

pub capture_task_destroy : ℕ → Heap → Heap
capture_task_destroy n h = record h {
  live = λ m. h.live m && not (m == n);
  fault = h.fault || not (h.live n);
}

-- A new capture, at an address that was never used.
pub capture_task_new : Heap → Heap
capture_task_new h = record h { live = λ m. h.live m || m == h.next; next = suc h.next }

-- `task_wrapper_new` of a survivor, if it is one.
unfoldable pub keep_survivor : Option Task → Bool → Option (List Task) → Option (List Task)
keep_survivor none good rest = rest
keep_survivor (some e) false rest = none
keep_survivor (some e) true none = none
keep_survivor (some e) true (some ts) =
    some (record { index = e.index; fingerprint = e.fingerprint; task = e.task } ∷ ts)

unfoldable pub survivors_from : Answers → List Task → ℕ → List TaskConfig → Option (List Task)
survivors_from a current i [] = some []
survivors_from a current i (c ∷ cs) =
    keep_survivor (find_task_by_fingerprint c.fingerprint current) (a.wrapper_ok i)
      (survivors_from a current (i + 1) cs)

unfoldable pub collect_surviving_tasks : Answers → Config → List Task → Option (List Task)
collect_surviving_tasks a config current =
    if a.tasks_ok then survivors_from a current 0 config.tasks else none

-- What one turn of the loop of `build_full_task_set` adds.
pub data Placed : Type 0 where
  one_task : Task → Placed
  one_error : TaskError → Placed
  broken : Placed

unfoldable pub place_task : Option Task → Answers → ℕ → TaskConfig → Heap → Placed × Heap
place_task (some e) a i c h =
    if a.wrapper_ok i
    then (one_task (record { index = i; fingerprint = c.fingerprint; task = e.task }), h)
    else (broken, h)
place_task none a i c h =
    if a.capture_ok i
    then if a.wrapper_ok i
      then (
        one_task (record { index = i; fingerprint = c.fingerprint; task = h.next }),
        capture_task_new h,
      )
      else (broken, capture_task_destroy h.next (capture_task_new h))
    else if a.error_ok i
    then (one_error (record { index = i; fingerprint = c.fingerprint }), h)
    else (broken, h)

-- `good` is false after `goto error`.
pub record Built : Type 0 where
  pub tasks : List Task
  pub errors : List TaskError
  pub heap : Heap
  pub good : Bool

unfoldable pub add_placed : Placed → Heap → Built → Built
add_placed (one_task t) h rest = record rest { tasks = t ∷ rest.tasks }
add_placed (one_error e) h rest = record rest { errors = e ∷ rest.errors }
add_placed broken h rest = record { tasks = []; errors = []; heap = h; good = false }

unfoldable pub build_from : Answers → List Task → ℕ → List TaskConfig → Heap → Built
build_from a current i [] h = record { tasks = []; errors = []; heap = h; good = true }
build_from a current i (c ∷ cs) h =
    let (p, h') = place_task (find_task_by_fingerprint c.fingerprint current) a i c h in
    add_placed p h' (build_from a current (i + 1) cs h')

-- The loop under `error:`, and that of `reclaim_old_resources`: the captures of `ts` whose fingerprint
-- `others` has not are destroyed.
pub destroy_unlisted : List Task → List Task → Heap → Heap
destroy_unlisted others [] h = h
destroy_unlisted others (t ∷ ts) h = destroy_unlisted others ts (
    if is_some (find_task_by_fingerprint t.fingerprint others)
    then h
    else capture_task_destroy t.task h)

-- The flag is `return 0`; with it both lists are new.
unfoldable pub build_full_task_set : Answers → Config → List Task → Heap → Built
build_full_task_set a config current h =
    let r = build_from a current 0 config.tasks h in
    if a.tasks_ok && a.errors_ok
    then if r.good
      then record r {
        heap = record r.heap {
          task_lists = r.heap.task_lists + 1;
          error_lists = r.heap.error_lists + 1;
        };
      }
      else record r { heap = destroy_unlisted current r.tasks r.heap }
    else record { tasks = []; errors = []; heap = h; good = false }

-- The old list, its errors and the old configuration are freed too.
pub reclaim_old_resources : List Task → List Task → Heap → Heap
reclaim_old_resources old_tasks new_tasks h =
    let h' = destroy_unlisted new_tasks old_tasks h in
    record h' {
      configs = h'.configs - 1;
      task_lists = h'.task_lists - 1;
      error_lists = h'.error_lists - 1;
    }
