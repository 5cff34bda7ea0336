-- ===== src/Checksum/Sum.antt =====
-- `cksum_accumulate` (cpworker/src/packet_split.c), loop by loop, beside the plain sum of the words.
use cloud_probe.Prelude.{
  ℕ, zero, suc, ◌+◌, ◌-◌, ◌^◌, ◌≤◌, ◌<◌, ◌≡◌, ◌∙◌, refl, arith, List, leb, inl, inr, Bool-cases,
  if◌then◌else◌, ltb, drop, byte_at, u32,
}
use native.Mathlib.Nat.{mod-add-mod, add_assoc}
use mathlib.Core.Bool.{false}
use cloud_probe.Checksum.{
  u16_at, Lanes, vector_step, Walk, vector_loop, reduce, add_four, add_eight, unrolled_loop,
  half_step, word_loop, cksum_accumulate,
}
use cloud_probe.Checksum.WordSum.{
  word_sum, word_sum_two, word_sum_four, word_sum_eight, word_sum_sixteen,
}

-- What a walk has added and what it has yet to add, as a 32-bit sum.
abbrev whole : Walk ℕ → ℕ
whole w = u32 (w.sum + word_sum w.len w.at)

add_four-eq :
    (p : List ℕ) (s : ℕ)
    → add_four p s ≡ u32 (s + u16_at p 0 + u16_at p 1 + u16_at p 2 + u16_at p 3)
unfolding add_four
add_four-eq p s = simp mod-add-mod

pub add_eight-eq :
    (p : List ℕ) (s : ℕ)
    → add_eight p s
      ≡ u32 (
          s
          + u16_at p 0
          + u16_at p 1
          + u16_at p 2
          + u16_at p 3
          + u16_at p 4
          + u16_at p 5
          + u16_at p 6
          + u16_at p 7)
unfolding add_eight
add_eight-eq p s = simp mod-add-mod

whole-unrolled_loop :
    (f : ℕ) (p : List ℕ) (len sum : ℕ)
    → whole (unrolled_loop f p len sum) ≡ u32 (sum + word_sum len p)
unfolding unrolled_loop
whole-unrolled_loop zero p len sum = refl
whole-unrolled_loop (suc f) p len sum = elim (Bool-cases (leb 16 len)) [
  | inl more ↦ rw more (
      whole-unrolled_loop f (drop 16 p) (len - 16) (add_eight p sum)
      ∙ simp (add_eight-eq, mod-add-mod) (omega (arith, word_sum_eight len p (ground arith))))
  | inr done ↦ rw done
]

whole-half_step :
    (p : List ℕ) (len sum : ℕ) → whole (half_step p len sum) ≡ u32 (sum + word_sum len p)
unfolding half_step
whole-half_step p len sum = elim (Bool-cases (leb 8 len)) [
  | inl more ↦
      rw more (simp (add_four-eq, mod-add-mod) (omega (arith, word_sum_four len p (ground arith))))
  | inr done ↦ rw done
]

whole-word_loop :
    (f : ℕ) (p : List ℕ) (len sum : ℕ) → whole (word_loop f p len sum) ≡ u32 (sum + word_sum len p)
unfolding word_loop
whole-word_loop zero p len sum = refl
whole-word_loop (suc f) p len sum = elim (Bool-cases (leb 2 len)) [
  | inl more ↦ rw more (
      whole-word_loop f (drop 2 p) (len - 2) (u32 (sum + u16_at p 0))
      ∙ simp mod-add-mod (omega (arith, word_sum_two len p (ground arith))))
  | inr done ↦ rw done
]

abbrev lane_total : Lanes → ℕ
lane_total v = v.l0 + v.l1 + v.l2 + v.l3

reduce-eq : (v : Lanes) → reduce v ≡ u32 (lane_total v)
unfolding reduce
reduce-eq v = omega arith

-- What round `i` adds to a lane.
abbrev lane_words : List ℕ → ℕ → ℕ
lane_words p i = u16_at p i + u16_at p (i + 4) + u16_at p (i + 8) + u16_at p (i + 12)

vector_step_lanes :
    (p : List ℕ) (v : Lanes)
    → ((vector_step p v).l0 ≡ u32 (v.l0 + lane_words p 0))
      × ((vector_step p v).l1 ≡ u32 (v.l1 + lane_words p 1))
      × ((vector_step p v).l2 ≡ u32 (v.l2 + lane_words p 2))
      × ((vector_step p v).l3 ≡ u32 (v.l3 + lane_words p 3))
unfolding vector_step
vector_step_lanes p v = (
  simp (mod-add-mod, add_assoc),
  simp (mod-add-mod, add_assoc),
  simp (mod-add-mod, add_assoc),
  simp (mod-add-mod, add_assoc),
)

abbrev whole_lanes : Walk Lanes → ℕ
whole_lanes w = u32 (lane_total w.sum + word_sum w.len w.at)

vector_step-whole :
    (p : List ℕ) (len : ℕ) (v : Lanes)
    → 32 ≤ len
    → u32 (lane_total (vector_step p v) + word_sum (len - 32) (drop 32 p))
      ≡ u32 (lane_total v + word_sum len p)
vector_step-whole p len v h = omega (arith, vector_step_lanes p v, word_sum_sixteen len p h)

whole-vector_loop :
    (f : ℕ) (p : List ℕ) (len : ℕ) (v : Lanes)
    → whole_lanes (vector_loop f p len v) ≡ u32 (lane_total v + word_sum len p)
unfolding vector_loop
whole-vector_loop zero p len v = refl
whole-vector_loop (suc f) p len v = elim (Bool-cases (leb 32 len)) [
  | inl more ↦ rw more (
      whole-vector_loop f (drop 32 p) (len - 32) (vector_step p v)
      ∙ vector_step-whole p len v (ground arith))
  | inr done ↦ rw done
]

-- Fuel of the length runs the last loop to its end.
len-word_loop : (f : ℕ) (p : List ℕ) (len sum : ℕ) → len ≤ f → (word_loop f p len sum).len < 2
unfolding word_loop
len-word_loop zero p len sum h = omega arith
len-word_loop (suc f) p len sum h = elim (Bool-cases (leb 2 len)) [
  | inl more ↦
      rw more (len-word_loop f (drop 2 p) (len - 2) (u32 (sum + u16_at p 0)) (ground arith))
  | inr done ↦ rw done (ground arith)
]

-- The last byte, when one is left.
odd_byte :
    (n : ℕ) (p : List ℕ) (s : ℕ)
    → n < 2
    → s < 2 ^ 32
    → (if ltb 0 n then u32 (s + byte_at p 0) else s) ≡ u32 (s + word_sum n p)
unfolding word_sum
odd_byte zero p s h small = omega arith
odd_byte (suc zero) p s h small = refl
odd_byte (suc (suc n)) p s h small = absurd (omega arith)

unrolled_loop-lt :
    (f : ℕ) (p : List ℕ) (len s : ℕ) → s < 2 ^ 32 → (unrolled_loop f p len s).sum < 2 ^ 32
unfolding unrolled_loop
unrolled_loop-lt zero p len s h = h
unrolled_loop-lt (suc f) p len s h =
    let next : add_eight p s < 2 ^ 32 = omega (arith, add_eight-eq p s) in
    ground (arith, unrolled_loop-lt f (drop 16 p) (len - 16) (add_eight p s) next)

half_step-lt : (p : List ℕ) (len s : ℕ) → s < 2 ^ 32 → (half_step p len s).sum < 2 ^ 32
unfolding half_step
half_step-lt p len s h = ground (arith, add_four-eq p s)

word_loop-lt : (f : ℕ) (p : List ℕ) (len s : ℕ) → s < 2 ^ 32 → (word_loop f p len s).sum < 2 ^ 32
unfolding word_loop
word_loop-lt zero p len s h = h
word_loop-lt (suc f) p len s h =
    ground (arith, word_loop-lt f (drop 2 p) (len - 2) (u32 (s + u16_at p 0)) (omega arith))

abbrev zero_lanes : Lanes
zero_lanes = record { l0 = 0; l1 = 0; l2 = 0; l3 = 0 }

vector_loop_few :
    (f : ℕ) (p : List ℕ) (len : ℕ) (v : Lanes)
    → leb 32 len ≡ false
    → vector_loop f p len v ≡ record { at = p; len = len; sum = v }
unfolding vector_loop
vector_loop_few zero p len v h = refl
vector_loop_few (suc f) p len v h = rw h

-- The vector part with its reduction, added to the initial sum only when it ran.
vector_part :
    (buf : List ℕ) (len s : ℕ)
    → s < 2 ^ 32
    → let v = vector_loop len buf len zero_lanes in
      let sum = if leb 32 len then u32 (s + reduce v.sum) else s in
      (sum < 2 ^ 32) × (u32 (sum + word_sum v.len v.at) ≡ u32 (s + word_sum len buf))
vector_part buf len s h = elim (Bool-cases (leb 32 len)) [
  | inl more ↦ rw more (
    omega arith,
    omega (
      arith,
      reduce-eq (vector_loop len buf len zero_lanes).sum,
      whole-vector_loop len buf len zero_lanes,
    ),
  )
  | inr few ↦ rw few (h, rw (vector_loop_few len buf len zero_lanes few))
]

-- For every buffer, length and initial sum below 2 ^ 32, the optimised routine returns the initial
-- sum plus the plain sum of the 16-bit words of the first `len` bytes, modulo 2 ^ 32.
pub cksum_accumulate-eq-word_sum :
    (buf : List ℕ) (len initial_sum : ℕ)
    → initial_sum < 2 ^ 32
    → cksum_accumulate buf len initial_sum ≡ u32 (initial_sum + word_sum len buf)
unfolding cksum_accumulate
cksum_accumulate-eq-word_sum buf len initial_sum h =
    odd_byte y.len y.at y.sum (len-word_loop x.len x.at x.len x.sum (omega arith)) (
      word_loop-lt x.len x.at x.len x.sum (
        half_step-lt w.at w.len w.sum
          (unrolled_loop-lt v.len v.at v.len sum (vector_part buf len initial_sum h).0)))
    ∙ whole-word_loop x.len x.at x.len x.sum
    ∙ whole-half_step w.at w.len w.sum
    ∙ whole-unrolled_loop v.len v.at v.len sum
    ∙ (vector_part buf len initial_sum h).1
  where
    v : Walk Lanes
    v = vector_loop len buf len zero_lanes

    sum : ℕ
    sum = if leb 32 len then u32 (initial_sum + reduce v.sum) else initial_sum

    w : Walk ℕ
    w = unrolled_loop v.len v.at v.len sum

    x : Walk ℕ
    x = half_step w.at w.len w.sum

    y : Walk ℕ
    y = word_loop x.len x.at x.len x.sum
