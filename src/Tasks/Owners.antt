-- ===== src/Tasks/Owners.antt =====
-- Which captures and which fingerprints a task list has (cpworker/src/task.c).
use cloud_probe.Prelude.{
  ℕ, ◌≡◌, refl, ap, List, [], ◌∷◌, Bool, true, false, ◌||◌, ◌==◌, Option, none, some, arith, inl,
  inr, Bool-cases, and_true,
}
use mathlib.Core.Path.{subst}
use cloud_probe.Tasks.{Text, same_text, same_fingerprint, Task, find_task_by_fingerprint, is_some}

-- Whether the capture stands in a wrapper of the list.
unfoldable pub owns : List Task → ℕ → Bool
owns [] n = false
owns (t ∷ ts) n = t.task == n || owns ts n

abbrev pub found : Option Text → List Task → Bool
found f ts = is_some (find_task_by_fingerprint f ts)

-- No capture and no fingerprint stands twice.
abbrev pub Distinct : List Task → Type 0
Distinct [] = Unit
Distinct (t ∷ ts) = (owns ts t.task ≡ false) × (found t.fingerprint ts ≡ false) × Distinct ts

abbrev pub All : (Task → Type 0) → List Task → Type 0
All P [] = Unit
All P (t ∷ ts) = P t × All P ts

pub same_text-eq : (x y : Text) → same_text x y ≡ true → x ≡ y
unfolding same_text
same_text-eq [] [] h = refl
same_text-eq [] (y ∷ ys) h = cc
same_text-eq (x ∷ xs) [] h = cc
same_text-eq (x ∷ xs) (y ∷ ys) h =
    let (p, q) = and_true (x == y) (same_text xs ys) h in ground (arith, same_text-eq xs ys q, p)

pub same_text_self : (x : Text) → same_text x x ≡ true
unfolding same_text
same_text_self [] = refl
same_text_self (x ∷ xs) = ground (arith, same_text_self xs)

pub same_fingerprint-eq : (f g : Option Text) → same_fingerprint f g ≡ true → f ≡ g
unfolding same_fingerprint
same_fingerprint-eq (some x) (some y) h = ap some (same_text-eq x y h)
same_fingerprint-eq (some x) none h = cc
same_fingerprint-eq none g h = cc

pub same_fingerprint_self :
    (f g : Option Text) → same_fingerprint f g ≡ true → same_fingerprint g g ≡ true
unfolding same_fingerprint
same_fingerprint_self (some x) (some y) h = same_text_self y
same_fingerprint_self (some x) none h = cc
same_fingerprint_self none g h = cc

-- What is found has the fingerprint, and its capture is one of the list's.
pub find-has :
    (f : Option Text) (ts : List Task) (e : Task)
    → find_task_by_fingerprint f ts ≡ some e
    → (same_fingerprint e.fingerprint f ≡ true) × (owns ts e.task ≡ true)
unfolding find_task_by_fingerprint owns
find-has f [] e h = cc
find-has f (t ∷ ts) e h = ground (arith, find-has f ts e)

pub find-none-owns :
    (f : Option Text) (ts : List Task)
    → find_task_by_fingerprint f ts ≡ none
    → All (λ t. same_fingerprint t.fingerprint f ≡ false) ts
unfolding find_task_by_fingerprint
find-none-owns f [] h = tt
find-none-owns f (t ∷ ts) h = (ground arith, find-none-owns f ts (ground arith))

pub found-none :
    (f : Option Text) (ts : List Task)
    → found f ts ≡ false
    → All (λ t. same_fingerprint t.fingerprint f ≡ false) ts
unfolding find_task_by_fingerprint
found-none f [] h = tt
found-none f (t ∷ ts) h = (ground arith, found-none f ts (ground arith))

pub owns-none : (n : ℕ) (ts : List Task) → owns ts n ≡ false → All (λ t. (t.task == n) ≡ false) ts
unfolding owns
owns-none n [] h = tt
owns-none n (t ∷ ts) h = (ground arith, owns-none n ts (ground arith))

pub All-map :
    {P Q : Task → Type 0} → ((t : Task) → P t → Q t) → (ts : List Task) → All P ts → All Q ts
All-map f [] h = tt
All-map f (t ∷ ts) (p, h) = (f t p, All-map f ts h)

pub All-both :
    {P Q R : Task → Type 0}
    → ((t : Task) → P t → Q t → R t)
    → (ts : List Task) → All P ts
    → All Q ts
    → All R ts
All-both f [] h k = tt
All-both f (t ∷ ts) (p, h) (q, k) = (f t p q, All-both f ts h k)

-- In a list of distinct tasks, to have the capture of the task found by a fingerprint is to have the
-- fingerprint.
pub find-agrees :
    (f : Option Text) (ts : List Task) (e : Task)
    → Distinct ts
    → find_task_by_fingerprint f ts ≡ some e
    → All (λ t. (e.task == t.task) ≡ same_fingerprint t.fingerprint f) ts
unfolding find_task_by_fingerprint
find-agrees f [] e d h = tt
find-agrees f (t ∷ ts) e (o, m, d) h = elim (Bool-cases (same_fingerprint t.fingerprint f)) [
  | inl p ↦
      let same : t ≡ e = ground arith in
      let absent : found f ts ≡ false =
        subst (λ g. found g ts ≡ false) (same_fingerprint-eq t.fingerprint f p) m in
      (
        ground arith,
        All-both (λ u p q. ground arith) ts (owns-none t.task ts o) (found-none f ts absent),
      )
  | inr p ↦
      let rest : find_task_by_fingerprint f ts ≡ some e = ground arith in
      (ground (arith, find-has f ts e rest), find-agrees f ts e d rest)
]

pub find-All :
    (P : Task → Type 0) (f : Option Text) (ts : List Task) (e : Task)
    → find_task_by_fingerprint f ts ≡ some e
    → All P ts
    → P e
unfolding find_task_by_fingerprint
find-All P f [] e h a = cc
find-All P f (t ∷ ts) e h (p, a) = elim (Bool-cases (same_fingerprint t.fingerprint f)) [
  | inl q ↦ let same : t ≡ e = ground arith in subst P same p
  | inr q ↦ find-All P f ts e (ground arith) a
]

pub owns-All :
    (P : ℕ → Type 0) (ts : List Task) → ((n : ℕ) → owns ts n ≡ true → P n) → All (λ t. P t.task) ts
unfolding owns
owns-All P [] h = tt
owns-All P (t ∷ ts) h = (h t.task (ground arith), owns-All P ts (λ n q. h n (ground arith)))

pub found-cons :
    (f : Option Text) (t : Task) (ts : List Task)
    → found f (t ∷ ts) ≡ (same_fingerprint t.fingerprint f || found f ts)
unfolding find_task_by_fingerprint
found-cons f t ts = ground arith

pub same_text_comm : (x y : Text) → same_text x y ≡ same_text y x
unfolding same_text
same_text_comm [] [] = refl
same_text_comm [] (y ∷ ys) = refl
same_text_comm (x ∷ xs) [] = refl
same_text_comm (x ∷ xs) (y ∷ ys) = ground (arith, same_text_comm xs ys)

pub same_fingerprint_comm : (f g : Option Text) → same_fingerprint f g ≡ same_fingerprint g f
unfolding same_fingerprint
same_fingerprint_comm (some x) (some y) = same_text_comm x y
same_fingerprint_comm (some x) none = refl
same_fingerprint_comm none (some y) = refl
same_fingerprint_comm none none = refl
