-- ===== src/Checksum/WordSum.antt =====
-- The plain sum of the 16-bit words of a buffer, which the loops of cpworker/src/packet_split.c compute.
use cloud_probe.Prelude.{
  ℕ, zero, suc, ◌+◌, ◌-◌, ◌*◌, ◌≤◌, ◌≡◌, refl, ap, arith, List, [], ◌∷◌, drop, drop-drop, byte_at,
}
use cloud_probe.Checksum.{u16_at}

-- The sum of the 16-bit words of the first `n` bytes, an odd last byte counting as it stands.
unfoldable pub word_sum : ℕ → List ℕ → ℕ
word_sum zero p = 0
word_sum (suc zero) p = byte_at p 0
word_sum (suc (suc n)) p = u16_at p 0 + word_sum n (drop 2 p)

pub byte_at-drop : (k i j : ℕ) (p : List ℕ) → k + i ≡ j → byte_at (drop k p) i ≡ byte_at p j
byte_at-drop zero i j p h = ap (byte_at p) (omega arith)
byte_at-drop (suc k) i j [] h = refl
byte_at-drop (suc k) i zero (x ∷ p) h = absurd (omega arith)
byte_at-drop (suc k) i (suc j) (x ∷ p) h = byte_at-drop k i j p (omega arith)

pub word_sum_two :
    (n : ℕ) (p : List ℕ) → 2 ≤ n → word_sum n p ≡ u16_at p 0 + word_sum (n - 2) (drop 2 p)
unfolding word_sum
word_sum_two zero p h = absurd (omega arith)
word_sum_two (suc zero) p h = absurd (omega arith)
word_sum_two (suc (suc n)) p h = ap (λ k. u16_at p 0 + word_sum k (drop 2 p)) (omega arith)

-- The word at index `k` split off what follows the words before it.
pub word_sum_next :
    (n k : ℕ) (p : List ℕ)
    → 2 * k + 2 ≤ n
    → word_sum (n - 2 * k) (drop (2 * k) p)
      ≡ u16_at p k + word_sum (n - (2 * k + 2)) (drop (2 * k + 2) p)
word_sum_next n k p h = omega (
  arith,
  word_sum_two (n - 2 * k) (drop (2 * k) p) (omega arith),
  byte_at-drop (2 * k) 0 (2 * k) p (omega arith),
  byte_at-drop (2 * k) 1 (2 * k + 1) p refl,
  ap (word_sum (n - 2 * k - 2)) (drop-drop 2 (2 * k) (2 * k + 2) p (omega arith)),
  ap (λ j. word_sum j (drop (2 * k + 2) p)) {x = n - 2 * k - 2} {y = n - (2 * k + 2)} (omega arith),
)

pub word_sum_four :
    (n : ℕ) (p : List ℕ)
    → 8 ≤ n
    → word_sum n p ≡ u16_at p 0 + u16_at p 1 + u16_at p 2 + u16_at p 3 + word_sum (n - 8) (drop 8 p)
word_sum_four n p h = omega (
  arith,
  word_sum_two n p (omega arith),
  word_sum_next n 1 p (omega arith),
  word_sum_next n 2 p (omega arith),
  word_sum_next n 3 p (omega arith),
)

pub word_sum_eight :
    (n : ℕ) (p : List ℕ)
    → 16 ≤ n
    → word_sum n p
      ≡ u16_at p 0
        + u16_at p 1
        + u16_at p 2
        + u16_at p 3
        + u16_at p 4
        + u16_at p 5
        + u16_at p 6
        + u16_at p 7
        + word_sum (n - 16) (drop 16 p)
word_sum_eight n p h = omega (
  arith,
  word_sum_four n p (omega arith),
  word_sum_next n 4 p (omega arith),
  word_sum_next n 5 p (omega arith),
  word_sum_next n 6 p (omega arith),
  word_sum_next n 7 p (omega arith),
)

pub word_sum_sixteen :
    (n : ℕ) (p : List ℕ)
    → 32 ≤ n
    → word_sum n p
      ≡ u16_at p 0
        + u16_at p 1
        + u16_at p 2
        + u16_at p 3
        + u16_at p 4
        + u16_at p 5
        + u16_at p 6
        + u16_at p 7
        + (u16_at p 8
            + u16_at p 9
            + u16_at p 10
            + u16_at p 11
            + u16_at p 12
            + u16_at p 13
            + u16_at p 14
            + u16_at p 15)
        + word_sum (n - 32) (drop 32 p)
word_sum_sixteen n p h = omega (
  arith,
  word_sum_eight n p (omega arith),
  word_sum_next n 8 p (omega arith),
  word_sum_next n 9 p (omega arith),
  word_sum_next n 10 p (omega arith),
  word_sum_next n 11 p (omega arith),
  word_sum_next n 12 p (omega arith),
  word_sum_next n 13 p (omega arith),
  word_sum_next n 14 p (omega arith),
  word_sum_next n 15 p (omega arith),
)

pub word_sum_ten :
    (p : List ℕ)
    → word_sum 20 p
      ≡ u16_at p 0
        + u16_at p 1
        + u16_at p 2
        + u16_at p 3
        + u16_at p 4
        + u16_at p 5
        + u16_at p 6
        + u16_at p 7
        + u16_at p 8
        + u16_at p 9
unfolding word_sum
word_sum_ten p = omega (
  arith,
  word_sum_eight 20 p (omega arith),
  word_sum_next 20 8 p (omega arith),
  word_sum_next 20 9 p (omega arith),
)
