-- ===== src/Tasks/Unique.antt =====
-- The fingerprints that the parser has checked, in the task list that is built of them
-- (cpworker/src/task.c, cpworker/src/config.c).
use cloud_probe.Prelude.{
  ℕ, suc, ◌+◌, ◌≡◌, ◌∙◌, refl, sym, List, [], ◌∷◌, Bool, true, false, ◌==◌, Option, arith, inl, inr,
  Bool-cases,
}
use mathlib.Core.Path.{subst}
use mathlib.Core.Bool.{true≢false}
use cloud_probe.Tasks.{
  Text, Task, TaskConfig, Heap, Answers, find_task_by_fingerprint, capture_task_new,
  same_fingerprint, has_fingerprint, check_fingerprints, build_from, add_placed,
}
use cloud_probe.Tasks.Owners.{
  owns, found, Distinct, All, find-has, find-All, same_fingerprint-eq, same_fingerprint_self,
}
use cloud_probe.Tasks.Build.{Ready, Ready-new, Origin, build_from-Builds, place_task-cases}

abbrev pub Unique : List TaskConfig → Type 0
Unique [] = Unit
Unique (c ∷ cs) = (has_fingerprint c.fingerprint cs ≡ false) × Unique cs

-- A fingerprint that was seen is refused later.
check-seen :
    (f : Option Text) (seen cs : List TaskConfig)
    → check_fingerprints seen cs ≡ true
    → has_fingerprint f seen ≡ true
    → has_fingerprint f cs ≡ false
unfolding has_fingerprint check_fingerprints
check-seen f seen [] h k = refl
check-seen f seen (c ∷ cs) h k = elim (Bool-cases (same_fingerprint c.fingerprint f)) [
  | inl p ↦ let same = same_fingerprint-eq c.fingerprint f p in ground arith
  | inr p ↦ ground (arith, check-seen f (c ∷ seen) cs)
]

-- Where `c` has a fingerprint, it is equal to itself; where it has none, nothing is found.
has-none :
    (f : Option Text) (cs : List TaskConfig)
    → same_fingerprint f f ≡ false
    → has_fingerprint f cs ≡ false
unfolding has_fingerprint
has-none f [] h = refl
has-none f (c ∷ cs) h = ground (arith, has-none f cs h, same_fingerprint_self c.fingerprint f)

pub check_fingerprints-Unique :
    (seen cs : List TaskConfig) → check_fingerprints seen cs ≡ true → Unique cs
unfolding check_fingerprints has_fingerprint
check_fingerprints-Unique seen [] h = tt
check_fingerprints-Unique seen (c ∷ cs) h =
    let rest : check_fingerprints (c ∷ seen) cs ≡ true = ground arith in
    (
      ground (arith, check-seen c.fingerprint (c ∷ seen) cs, has-none c.fingerprint cs),
      check_fingerprints-Unique (c ∷ seen) cs rest,
    )

fresh-unowned :
    (current : List Task) (n : ℕ) (ts : List Task)
    → owns current n ≡ false
    → All (Origin current (suc n)) ts
    → owns ts n ≡ false
unfolding owns
fresh-unowned current n [] o a = refl
fresh-unowned current n (t ∷ ts) o (p, a) = elim (Bool-cases (t.task == n)) [
  | inl q ↦
      let new : owns current t.task ≡ false = ground arith in absurd (ground (arith, p.new new))
  | inr q ↦ ground (arith, fresh-unowned current n ts o a)
]

-- Every fingerprint of the list stands in the configuration.
within :
    (a : Answers) (current : List Task) (i : ℕ) (cs : List TaskConfig) (h : Heap) (f : Option Text)
    → found f (build_from a current i cs h).tasks ≡ true
    → has_fingerprint f cs ≡ true
unfolding build_from add_placed has_fingerprint find_task_by_fingerprint
within a current i [] h f = λ p. cc
within a current i (c ∷ cs) h f =
    place_task-cases
      (λ v.
        found f (add_placed v.0 v.1 (build_from a current (i + 1) cs v.1)).tasks ≡ true
        → has_fingerprint f (c ∷ cs) ≡ true)
      a i c h (find_task_by_fingerprint c.fingerprint current)
      (λ e p q. ground (arith, within a current (i + 1) cs h f))
      (λ p _ q. ground (arith, within a current (i + 1) cs (capture_task_new h) f))
      (λ _ _ q. ground (arith, within a current (i + 1) cs h f)) (λ _ q. cc) (λ _ q. cc)

not-true : (b : Bool) → (b ≡ true → ⊥) → b ≡ false
not-true true h = absurd (h refl)
not-true false h = refl

pub build_from-Distinct :
    (a : Answers) (current : List Task) (i : ℕ) (cs : List TaskConfig) (h : Heap)
    → Distinct current
    → Ready current h
    → Unique cs
    → Distinct (build_from a current i cs h).tasks
unfolding build_from add_placed capture_task_new
build_from-Distinct a current i [] h d r u = tt
build_from-Distinct a current i (c ∷ cs) h d r (u, us) =
    place_task-cases
      (λ v. Distinct (add_placed v.0 v.1 (build_from a current (i + 1) cs v.1)).tasks) a i c h
      (find_task_by_fingerprint c.fingerprint current)
      (λ e p.
        let rest = build_from a current (i + 1) cs h in
        let kept =
          find-All _ c.fingerprint current e p
            (build_from-Builds a current (i + 1) cs h d r).kept in
        (
          not-true (owns rest.tasks e.task) (λ q. true≢false (
              sym (
                subst (λ g. found g rest.tasks ≡ true)
                  (same_fingerprint-eq e.fingerprint c.fingerprint
                    (find-has c.fingerprint current e p).0)
                  (sym kept ∙ q))
              ∙ absent h)),
          absent h,
          build_from-Distinct a current (i + 1) cs h d r us,
        ))
      (λ p _.
        let r' = Ready-new current h r in
        let b = build_from-Builds a current (i + 1) cs (capture_task_new h) d r' in
        (
          fresh-unowned current h.next _
              (not-true _ (λ o. absurd (omega (arith, r.fresh h.next (r.owned h.next o)))))
              b.origin,
          absent (capture_task_new h),
          build_from-Distinct a current (i + 1) cs (capture_task_new h) d r' us,
        ))
      (λ _ _. build_from-Distinct a current (i + 1) cs h d r us) (λ _. tt) (λ _. tt)
  where
    absent : (g : Heap) → found c.fingerprint (build_from a current (i + 1) cs g).tasks ≡ false
    absent g =
        not-true _ (λ q. true≢false (sym (within a current (i + 1) cs g c.fingerprint q) ∙ u))
