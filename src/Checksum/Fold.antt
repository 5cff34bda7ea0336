-- ===== src/Checksum/Fold.antt =====
-- The fold to 16 bits, as one's complement arithmetic.
use cloud_probe.Prelude.{ℕ, ◌+◌, ◌%◌, ◌^◌, ◌<◌, ◌≡◌, ◌↔◌, arith}
use cloud_probe.Checksum.{cksum_fold, cksum_finish}

-- Two passes are enough: for every 32-bit sum the result fits 16 bits, is congruent to the sum
-- modulo 2 ^ 16 - 1, and is zero only for the sum zero.
pub cksum_fold_lem :
    (sum : ℕ)
    → sum < 2 ^ 32
    → (cksum_fold sum < 2 ^ 16)
      × (cksum_fold sum % 65535 ≡ sum % 65535)
      × ((cksum_fold sum ≡ 0) ↔ (sum ≡ 0))
unfolding cksum_fold
cksum_fold_lem sum h = (omega arith, omega arith, ((λ e. omega arith), (λ e. omega arith)))

-- A sum to which its own complement has been added folds to all ones, which is how a receiver
-- checks it.
pub fold_finish : (sum : ℕ) → sum + 65535 < 2 ^ 32 → cksum_fold (sum + cksum_finish sum) ≡ 65535
unfolding cksum_finish cksum_fold
fold_finish sum h = omega arith

-- All ones add nothing to a sum that is not zero.
pub fold_all_ones :
    (sum : ℕ) → sum + 65535 < 2 ^ 32 → cksum_finish sum ≡ 0 → cksum_fold (sum + 65535) ≡ 65535
unfolding cksum_finish cksum_fold
fold_all_ones sum h e = omega arith

pub cksum_finish-lt : (sum : ℕ) → cksum_finish sum < 2 ^ 16
unfolding cksum_finish
cksum_finish-lt sum = omega arith
