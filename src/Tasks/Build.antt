-- ===== src/Tasks/Build.antt =====
-- The task set that `build_full_task_set` makes of a configuration and the tasks that run
-- (cpworker/src/task.c).
use cloud_probe.Prelude.{
  ℕ, ◌+◌, ◌<◌, ◌≤◌, ◌≡◌, refl, List, [], ◌∷◌, Bool, true, false, ◌||◌, Option, none, some, arith,
  if_both, ◌⊎◌, inl, inr,
}
use cloud_probe.Tasks.{
  Text, Task, TaskError, TaskConfig, Heap, Answers, find_task_by_fingerprint, capture_task_destroy,
  capture_task_new, same_fingerprint, Built, build_from, place_task, add_placed, one_task,
  one_error, broken, Placed,
}
use cloud_probe.Tasks.Owners.{
  owns, found, Distinct, All, All-map, All-both, find-agrees, find-has, find-none-owns, owns-All,
  found-cons, same_fingerprint_comm,
}
use cloud_probe.Tasks.Reclaim.{Kept}

-- All captures of the list lie below an address.
abbrev pub AllBelow : ℕ → List Task → Type 0
AllBelow n ts = All (λ t. t.task < n) ts

-- The heap has the running tasks' captures, and gives out new addresses.
pub record Ready (current : List Task) (h : Heap) : Type 0 where
  pub owned : (n : ℕ) → owns current n ≡ true → h.live n ≡ true
  pub fresh : (n : ℕ) → h.live n ≡ true → n < h.next

-- A task of the new list runs already, exactly if its fingerprint does, or its capture is new.
pub record Origin (current : List Task) (next : ℕ) (t : Task) : Type 0 where
  pub reused : owns current t.task ≡ found t.fingerprint current
  pub new : owns current t.task ≡ false → next ≤ t.task

-- What the loop makes from the heap `h`.
pub record Builds (current : List Task) (h : Heap) (r : Built) : Type 0 where
  pub live : (n : ℕ) → r.heap.live n ≡ (h.live n || owns r.tasks n)
  pub fresh : (n : ℕ) → r.heap.live n ≡ true → n < r.heap.next
  pub next : h.next ≤ r.heap.next
  pub fault : r.heap.fault ≡ h.fault
  pub configs : r.heap.configs ≡ h.configs
  pub task_lists : r.heap.task_lists ≡ h.task_lists
  pub error_lists : r.heap.error_lists ≡ h.error_lists
  pub kept : Kept r.tasks current
  pub origin : All (Origin current h.next) r.tasks

pub no_task-Kept : (current : List Task) → Kept [] current
unfolding owns find_task_by_fingerprint
no_task-Kept [] = tt
no_task-Kept (t ∷ ts) = (refl, no_task-Kept ts)

module _ (current : List Task) (h : Heap) (ready : Ready current h) where
  built-nothing :
      (good : Bool) → Builds current h (record { tasks = []; errors = []; heap = h; good = good })
  unfolding owns
  built-nothing good = record {
    live = λ n. ground arith;
    fresh = ready.fresh;
    next = omega arith;
    fault = refl;
    configs = refl;
    task_lists = refl;
    error_lists = refl;
    kept = no_task-Kept current;
    origin = tt;
  }

  -- The capture that could not be wrapped.
  built-undone : Builds current h (record {
    tasks = [];
    errors = [];
    heap = capture_task_destroy h.next (capture_task_new h);
    good = false;
  })
  unfolding capture_task_destroy capture_task_new owns
  built-undone = record {
    live = λ n. ground (arith, ready.fresh n);
    fresh = λ n l. ground (arith, ready.fresh n);
    next = omega arith;
    fault = ground arith;
    configs = refl;
    task_lists = refl;
    error_lists = refl;
    kept = no_task-Kept current;
    origin = tt;
  }

  built-reused :
      (distinct : Distinct current) (f : Option Text) (i : ℕ) (e : Task) (rest : Built)
      → find_task_by_fingerprint f current ≡ some e
      → Builds current h rest
      → Builds current h (record rest {
        tasks = record { index = i; fingerprint = f; task = e.task } ∷ rest.tasks;
      })
  unfolding owns
  built-reused distinct f i e rest p b = record {
    live = λ n. ground (arith, b.live n, find-has f current e p, ready.owned n);
    fresh = b.fresh;
    next = b.next;
    fault = b.fault;
    configs = b.configs;
    task_lists = b.task_lists;
    error_lists = b.error_lists;
    kept =
        All-both
          (λ u q k.
            ground
              (arith, found-cons u.fingerprint t rest.tasks, same_fingerprint_comm u.fingerprint f))
          current (find-agrees f current e distinct p) b.kept;
    origin = (ground (arith, find-has f current e p), b.origin);
  }
    where
      t : Task
      t = record { index = i; fingerprint = f; task = e.task }

  built-new :
      (f : Option Text) (i : ℕ) (rest : Built)
      → find_task_by_fingerprint f current ≡ none
      → Builds current (capture_task_new h) rest
      → Builds current h (record rest {
        tasks = record { index = i; fingerprint = f; task = h.next } ∷ rest.tasks;
      })
  unfolding owns capture_task_new
  built-new f i rest p b = record {
    live = λ n. ground (arith, b.live n);
    fresh = b.fresh;
    next = omega (arith, b.next);
    fault = b.fault;
    configs = b.configs;
    task_lists = b.task_lists;
    error_lists = b.error_lists;
    kept =
        All-both
          (λ u (q : (same_fingerprint u.fingerprint f ≡ false) × (u.task < h.next)) k.
            ground
              (arith, found-cons u.fingerprint t rest.tasks, same_fingerprint_comm u.fingerprint f))
          current (All-both (λ u q k. (q, k)) current (find-none-owns f current p) below) b.kept;
    origin = (
      ground (arith, ready.owned h.next, ready.fresh h.next),
      All-map (λ u o. record { reused = o.reused; new = λ e. omega (arith, o.new e) }) rest.tasks
          b.origin,
    );
  }
    where
      t : Task
      t = record { index = i; fingerprint = f; task = h.next }

      below : All (λ u. u.task < h.next) current
      below = owns-All (λ n. n < h.next) current (λ n o. ready.fresh n (ready.owned n o))

  built-error :
      (e : TaskError) (rest : Built)
      → Builds current h rest
      → Builds current h (record rest { errors = e ∷ rest.errors })
  built-error e rest b = record {
    live = b.live;
    fresh = b.fresh;
    next = b.next;
    fault = b.fault;
    configs = b.configs;
    task_lists = b.task_lists;
    error_lists = b.error_lists;
    kept = b.kept;
    origin = b.origin;
  }

pub Ready-new :
    (current : List Task) (h : Heap) → Ready current h → Ready current (capture_task_new h)
unfolding capture_task_new
Ready-new current h r = record {
  owned = λ n o. ground (arith, r.owned n o);
  fresh = λ n l. ground (arith, r.fresh n);
}

-- The ways in which a turn of the loop ends.
pub place_task-cases :
    (P : Placed × Heap → Type 0) (a : Answers) (i : ℕ) (c : TaskConfig) (h : Heap) (o : Option Task)
    → ((e : Task)
        → o ≡ some e
        → P (one_task (record { index = i; fingerprint = c.fingerprint; task = e.task }), h))
    → (o ≡ none
        → a.capture_ok i ≡ true
        → P (
          one_task (record { index = i; fingerprint = c.fingerprint; task = h.next }),
          capture_task_new h,
        ))
    → (o ≡ none
        → a.capture_ok i ≡ false
        → P (one_error (record { index = i; fingerprint = c.fingerprint }), h))
    → ((a.wrapper_ok i ≡ false) ⊎ (a.error_ok i ≡ false) → P (broken, h))
    → (a.wrapper_ok i ≡ false → P (broken, capture_task_destroy h.next (capture_task_new h)))
    → P (place_task o a i c h)
unfolding place_task
place_task-cases P a i c h (some e) reused new error stopped undone =
    if_both P (a.wrapper_ok i) (λ _. reused e refl) (λ k. stopped (inl k))
place_task-cases P a i c h none reused new error stopped undone =
    if_both P (a.capture_ok i) (λ k. if_both P (a.wrapper_ok i) (λ _. new refl k) undone)
      (λ k. if_both P (a.error_ok i) (λ _. error refl k) (λ n. stopped (inr n)))

-- Of the tasks that run and a heap that has them.
pub build_from-Builds :
    (a : Answers) (current : List Task) (i : ℕ) (cs : List TaskConfig) (h : Heap)
    → Distinct current
    → Ready current h
    → Builds current h (build_from a current i cs h)
unfolding build_from add_placed
build_from-Builds a current i [] h d r = built-nothing current h r true
build_from-Builds a current i (c ∷ cs) h d r =
    place_task-cases
      (λ v. Builds current h (add_placed v.0 v.1 (build_from a current (i + 1) cs v.1))) a i c h
      (find_task_by_fingerprint c.fingerprint current)
      (λ e p.
        built-reused current h r d c.fingerprint i e _ p
          (build_from-Builds a current (i + 1) cs h d r))
      (λ p _.
        built-new current h r c.fingerprint i _ p
          (build_from-Builds a current (i + 1) cs (capture_task_new h) d (Ready-new current h r)))
      (λ _ _. built-error current h r _ _ (build_from-Builds a current (i + 1) cs h d r))
      (λ _. built-nothing current h r false) (λ _. built-undone current h r)
