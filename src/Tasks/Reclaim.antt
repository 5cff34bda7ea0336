-- ===== src/Tasks/Reclaim.antt =====
-- What `destroy_unlisted` of a task list leaves allocated (cpworker/src/task.c).
use cloud_probe.Prelude.{
  ℕ, ◌≡◌, ◌∙◌, refl, List, [], ◌∷◌, true, false, not, ◌&&◌, ◌||◌, ◌==◌, arith, inl, inr, Bool-cases,
  if_both,
}
use cloud_probe.Tasks.{Task, Heap, capture_task_destroy, destroy_unlisted}
use cloud_probe.Tasks.Owners.{owns, found, Distinct, All, All-both, owns-none}

-- `others` keeps exactly the captures of `ts` whose fingerprints it has.
abbrev pub Kept : List Task → List Task → Type 0
Kept others ts = All (λ t. owns others t.task ≡ found t.fingerprint others) ts

abbrev pub AllLive : Heap → List Task → Type 0
AllLive h ts = All (λ t. h.live t.task ≡ true) ts

-- The counts are left, and no address is given out.
pub record SameCounts (h h' : Heap) : Type 0 where
  pub next : h'.next ≡ h.next
  pub configs : h'.configs ≡ h.configs
  pub task_lists : h'.task_lists ≡ h.task_lists
  pub error_lists : h'.error_lists ≡ h.error_lists

pub destroy_unlisted-SameCounts :
    (others ts : List Task) (h : Heap) → SameCounts h (destroy_unlisted others ts h)
unfolding destroy_unlisted capture_task_destroy
destroy_unlisted-SameCounts others [] h = ground arith
destroy_unlisted-SameCounts others (t ∷ ts) h = elim (Bool-cases (found t.fingerprint others)) [
  | inl e ↦ rw e (destroy_unlisted-SameCounts others ts h)
  | inr e ↦
      rw e (ground (arith, destroy_unlisted-SameCounts others ts (capture_task_destroy t.task h)))
]

pub destroy_unlisted-live :
    (others ts : List Task) (h : Heap)
    → Kept others ts
    → (n : ℕ)
    → (destroy_unlisted others ts h).live n ≡ (h.live n && (owns others n || not (owns ts n)))
unfolding destroy_unlisted owns capture_task_destroy
destroy_unlisted-live others [] h k n = ground arith
destroy_unlisted-live others (t ∷ ts) h (p, k) n =
    if_both
      (λ (g : Heap).
        (destroy_unlisted others ts g).live n
        ≡ (h.live n && (owns others n || not (t.task == n || owns ts n))))
      (found t.fingerprint others) (λ e. ground (arith, destroy_unlisted-live others ts h k n))
      (λ e. ground (arith, destroy_unlisted-live others ts (capture_task_destroy t.task h) k n))

still_live :
    (h : Heap) (n m : ℕ)
    → (m == n) ≡ false
    → h.live m ≡ true
    → (capture_task_destroy n h).live m ≡ true
unfolding capture_task_destroy
still_live h n m e l = ground arith

destroy-fault : (h : Heap) (n : ℕ) → h.live n ≡ true → (capture_task_destroy n h).fault ≡ h.fault
unfolding capture_task_destroy
destroy-fault h n l = ground arith

pub destroy_unlisted-fault :
    (others ts : List Task) (h : Heap)
    → Distinct ts
    → AllLive h ts
    → (destroy_unlisted others ts h).fault ≡ h.fault
unfolding destroy_unlisted
destroy_unlisted-fault others [] h d l = refl
destroy_unlisted-fault others (t ∷ ts) h (o, m, d) (p, l) =
    if_both (λ (g : Heap). (destroy_unlisted others ts g).fault ≡ h.fault)
      (found t.fingerprint others) (λ _. destroy_unlisted-fault others ts h d l)
      (λ _.
        let still =
          All-both (λ u (q : (u.task == t.task) ≡ false) r. still_live h t.task u.task q r) ts
            (owns-none t.task ts o) l in
        destroy_unlisted-fault others ts (capture_task_destroy t.task h) d still
        ∙ destroy-fault h t.task p)
