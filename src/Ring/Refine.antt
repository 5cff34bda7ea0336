-- ===== src/Ring/Refine.antt =====
-- The ring of cpworker/src/ring_buffer.c beside an abstract bounded queue.
use cloud_probe.Prelude.{
  ℕ, ◌+◌, ◌<◌, ◌≡◌, refl, sym, ap, ◌∙◌, arith, List, [], ◌∷◌, ◌++◌, Bool, true, false, Option, none,
  some, ◌==◌, ==_iff, ne→==, Bool-cases, inl, inr, ◌≢◌, set, if◌then◌else◌, length, length-set,
  length-replicate, get_elem?-eq-get_or,
}
use cloud_probe.Ring.{SpscRing, spsc_ring_create, spsc_ring_used, spsc_ring_push, spsc_ring_pop}
use cloud_probe.Ring.Window.{
  after, mod-after, dist, dist-after_head, dist-after_head_full, dist-after_tail, dist-eq-zero_iff,
  after-lt, window, window-set_end, length-window,
}

pub record IsValid {ℓ} {A : Type ℓ} (r : SpscRing A) : Type 0 where
  pub room : r.size ≡ length r.buf
  pub head_in : r.head < r.size
  pub tail_in : r.tail < r.size

module _ {ℓ} {A : Type ℓ} where
  -- The abstract queue: a push is refused when one slot would be left.
  unfoldable pub queue_push : ℕ → List A → A → List A × Bool
  queue_push size q x = if length q + 1 == size then (q, false) else (q ++ (x ∷ []), true)

  unfoldable pub queue_pop : List A → List A × Option A
  queue_pop [] = ([], none)
  queue_pop (x ∷ q) = (q, some x)

module _ {A : Type 0} where
  queue_push_full :
      (size : ℕ) (q : List A) (x : A) → length q + 1 ≡ size → queue_push size q x ≡ (q, false)
  unfolding queue_push
  queue_push_full size q x h = rw ((==_iff (length q + 1) size).1 h)

  queue_push_room :
      (size : ℕ) (q : List A) (x : A)
      → length q + 1 ≢ size
      → queue_push size q x ≡ (q ++ (x ∷ []), true)
  unfolding queue_push
  queue_push_room size q x h = rw (ne→== (length q + 1) size h)

-- A call on the ring, and what the caller sees of it.
pub data Op {ℓ} (A : Type ℓ) : Type ℓ where
  push : A → Op A
  pop : Op A

pub data Reply {ℓ} (A : Type ℓ) : Type ℓ where
  pushed : Bool → Reply A
  popped : Option A → Reply A

module _ {ℓ} {A : Type ℓ} where
  unfoldable pub run : SpscRing A → List (Op A) → List (Reply A)
  run r [] = []
  run r (push x ∷ ops) = let (r', ok) = spsc_ring_push r x in pushed ok ∷ run r' ops
  run r (pop ∷ ops) = let (r', out) = spsc_ring_pop r in popped out ∷ run r' ops

  unfoldable pub queue_run : ℕ → List A → List (Op A) → List (Reply A)
  queue_run size q [] = []
  queue_run size q (push x ∷ ops) =
      let (q', ok) = queue_push size q x in pushed ok ∷ queue_run size q' ops
  queue_run size q (pop ∷ ops) = let (q', out) = queue_pop q in popped out ∷ queue_run size q' ops

-- The tactics split on numbers under goals of `Type 0` only.
module _ {A : Type 0} (null : A) where
  -- The entries from the tail up to the head.
  abbrev pub contents : SpscRing A → List A
  contents r = window null r.size r.buf r.tail (dist r.size r.tail r.head)

  pub create-IsValid :
      (size : ℕ)
      → 0 < size
      → IsValid (spsc_ring_create null size) × (contents (spsc_ring_create null size) ≡ [])
  unfolding spsc_ring_create dist
  create-IsValid size h = (ground (arith, length-replicate size null), refl)

  pub used-contents : (r : SpscRing A) → spsc_ring_used r ≡ length (contents r)
  unfolding spsc_ring_used dist
  used-contents r =
      ground (arith, length-window null r.size r.buf r.tail (dist r.size r.tail r.head))

  -- A push that finds room.
  push_room :
      (r : SpscRing A) (x : A)
      → IsValid r
      → after r.size r.head ≢ r.tail
      → contents (record r { buf = set r.buf r.head x; head = after r.size r.head })
        ≡ contents r ++ (x ∷ [])
  push_room r x v ne =
      rw (dist-after_head r.size r.tail r.head v.tail_in v.head_in ne)
        (window-set_end null r.size r.buf x r.head r.tail _ (omega arith) v.head_in v.tail_in refl)

  -- A push on a valid ring gives a valid ring of the same size, and does to the contents, and
  -- answers, what a push on the bounded queue does.
  pub push_refines :
      (r : SpscRing A) (x : A)
      → IsValid r
      → let (r', ok) = spsc_ring_push r x in
        IsValid r' × (r'.size ≡ r.size) × ((contents r', ok) ≡ queue_push r.size (contents r) x)
  unfolding spsc_ring_push queue_push
  push_refines r x v =
      let held = length-window null r.size r.buf r.tail (dist r.size r.tail r.head) in
      let filled = dist-after_head_full r.size r.tail r.head v.tail_in v.head_in in
      elim (Bool-cases (after r.size r.head == r.tail)) [
        | inl full ↦
            rw (mod-after r.size r.head v.head_in, full)
              (
                v,
                refl,
                sym (
                    queue_push_full r.size (contents r) x
                      (omega (arith, held, filled.0 ((==_iff _ r.tail).0 full)))),
              )
        | inr room ↦
            rw (mod-after r.size r.head v.head_in, room)
              (
                ground (
                  arith,
                  length-set r.buf r.head x,
                  after-lt r.size r.head r.head v.head_in v.head_in,
                ),
                refl,
                rw (push_room r x v (ground arith))
                    (sym (queue_push_room r.size (contents r) x (ground (arith, held, filled.1)))),
              )
      ]

  -- A pop on a valid ring gives a valid ring of the same size, and does to the contents, and gives
  -- out, what a pop of the queue does.
  pub pop_refines :
      (r : SpscRing A)
      → IsValid r
      → let (r', out) = spsc_ring_pop r in
        IsValid r' × (r'.size ≡ r.size) × ((contents r', out) ≡ queue_pop (contents r))
  unfolding spsc_ring_pop queue_pop
  pop_refines r v = elim (Bool-cases (r.tail == r.head)) [
    | inl done ↦
        rw done (
          v,
          refl,
          rw ((dist-eq-zero_iff r.size r.tail r.head v.tail_in v.head_in).1 (ground arith)),
        )
    | inr more ↦
        rw (mod-after r.size r.tail v.tail_in, more)
          (
            ground (arith, after-lt r.size r.tail r.head v.tail_in v.head_in),
            refl,
            rw (
              dist-after_tail r.size r.tail r.head v.tail_in v.head_in (ground arith),
              get_elem?-eq-get_or r.buf r.tail null (ground arith),
            ),
          )
  ]

  -- No sequence of calls tells a valid ring from the bounded queue of its contents: every push and
  -- pop returns what the queue returns.
  pub run_refines :
      (ops : List (Op A)) (r : SpscRing A)
      → IsValid r
      → run r ops ≡ queue_run r.size (contents r) ops
  unfolding run queue_run
  run_refines [] r v = refl
  run_refines (push x ∷ ops) r v =
      let (v', e, q) = push_refines r x v in
      let r' = (spsc_ring_push r x).0 in
      let rest = run_refines ops r' v' ∙ ap (λ s. queue_run s (contents r') ops) e in
      ap (λ l. pushed (spsc_ring_push r x).1 ∷ l) rest
      ∙ ap (λ (p : List A × Bool). pushed p.1 ∷ queue_run r.size p.0 ops) q
  run_refines (pop ∷ ops) r v =
      let (v', e, q) = pop_refines r v in
      let r' = (spsc_ring_pop r).0 in
      let rest = run_refines ops r' v' ∙ ap (λ s. queue_run s (contents r') ops) e in
      ap (λ l. popped (spsc_ring_pop r).1 ∷ l) rest
      ∙ ap (λ (p : List A × Option A). popped p.1 ∷ queue_run r.size p.0 ops) q
