-- ===== src/Checksum/Verify.antt =====
-- The checksums of cpworker/src/packet_split.c, once computed and stored, as a receiver sums them.
use cloud_probe.Prelude.{
  ℕ, zero, suc, ◌+◌, ◌*◌, ◌/◌, ◌%◌, ◌^◌, ◌≤◌, ◌<◌, ◌≡◌, ◌∙◌, refl, ap, arith, List, [], ◌∷◌, ◌≢◌,
  inl, inr, Bool-cases, ◌==◌, ==_iff, length, set, byte_at, put_le16, u32,
}
use cloud_probe.Checksum.{
  u16_at, ihl, cksum_fold, cksum_accumulate, cksum_finish, add_eight, calculate_ip_checksum,
  udp_checksum_for_wire,
}
use cloud_probe.Checksum.WordSum.{word_sum, word_sum_ten}
use cloud_probe.Checksum.Sum.{add_eight-eq, cksum_accumulate-eq-word_sum}
use cloud_probe.Checksum.Fold.{fold_finish, fold_all_ones, cksum_finish-lt}

abbrev pub AreBytes : List ℕ → Type 0
AreBytes [] = Unit {0}
AreBytes (x ∷ p) = (x < 256) × AreBytes p

-- A store to the word `k` of a sum replaces what it held.
word_sum-set :
    (n k i : ℕ) (p : List ℕ) (c : ℕ)
    → c < 2 ^ 16
    → i ≡ 2 * k
    → i + 2 ≤ n
    → i + 1 < length p
    → word_sum n (set (set p i (c % 256)) (suc i) (c / 256 % 256))
        + (byte_at p i + 256 * byte_at p (suc i))
      ≡ word_sum n p + c
unfolding word_sum
word_sum-set (suc (suc n)) zero zero (x ∷ y ∷ p) c hc e le lt = omega arith
word_sum-set (suc (suc n)) (suc k) (suc (suc i)) (x ∷ y ∷ p) c hc e le lt =
    omega (arith, word_sum-set n k i p c hc (omega arith) (omega arith) (omega arith))
word_sum-set n k (suc zero) p c hc e le lt = absurd (omega arith)
word_sum-set n zero (suc (suc i)) p c hc e le lt = absurd (omega arith)
word_sum-set n (suc k) zero p c hc e le lt = absurd (omega arith)
word_sum-set zero k i p c hc e le lt = absurd (omega arith)
word_sum-set (suc zero) k i p c hc e le lt = absurd (omega arith)
word_sum-set (suc (suc n)) k i [] c hc e le lt = absurd (omega arith)
word_sum-set (suc (suc n)) k i (x ∷ []) c hc e le lt = absurd (omega arith)

word_sum-le : (n : ℕ) (p : List ℕ) → AreBytes p → 2 * word_sum n p ≤ 65535 * (n + 1)
unfolding word_sum
word_sum-le zero p h = omega arith
word_sum-le (suc zero) [] h = omega arith
word_sum-le (suc zero) (x ∷ p) h = omega arith
word_sum-le (suc (suc n)) [] h = omega (arith, word_sum-le n [] tt)
word_sum-le (suc (suc n)) (x ∷ []) h = omega (arith, word_sum-le n [] tt)
word_sum-le (suc (suc n)) (x ∷ y ∷ p) h = omega (arith, word_sum-le n p h.1.1)

module _ (p : List ℕ) (n k init : ℕ) where
  -- The field at the word `k` was cleared and the data are bytes; no sum overflows 32 bits.
  pub record IsCleared : Type 0 where
    pub are_bytes : AreBytes p
    pub short : n < 2 ^ 16
    pub start : init < 2 ^ 24
    pub inside : 2 * k + 2 ≤ n
    pub complete : n ≤ length p
    pub clear : (byte_at p (2 * k) ≡ 0) × (byte_at p (suc (2 * k)) ≡ 0)

  stored_sum :
      (c : ℕ)
      → IsCleared
      → c < 2 ^ 16
      → cksum_accumulate (put_le16 p (2 * k) c) n init ≡ cksum_accumulate p n init + c
  stored_sum c h small = omega (
    arith,
    cksum_accumulate-eq-word_sum (put_le16 p (2 * k) c) n init (omega arith),
    cksum_accumulate-eq-word_sum p n init (omega arith),
    ap (λ j. word_sum n (set (set p (2 * k) (c % 256)) j (c / 256 % 256))) {x = 2 * k + 1}
        {y = suc (2 * k)} (omega arith),
    word_sum-set n k (2 * k) p c small refl (omega arith) (omega arith),
    word_sum-le n p h.are_bytes,
  )

  accumulate_small : IsCleared → cksum_accumulate p n init + 65535 < 2 ^ 32
  accumulate_small h =
      omega
        (arith, cksum_accumulate-eq-word_sum p n init (omega arith), word_sum-le n p h.are_bytes)

  -- A cleared 16-bit field that is set to the finished checksum of `n` bytes and an initial sum makes
  -- the sum over the same bytes fold to all ones, for `n` below 2 ^ 16 and an initial sum below 2 ^ 24.
  pub finish-verifies :
      IsCleared
      → let check = cksum_finish (cksum_accumulate p n init) in
        cksum_fold (cksum_accumulate (put_le16 p (2 * k) check) n init) ≡ 0xffff
  finish-verifies h =
      ap cksum_fold (stored_sum _ h (cksum_finish-lt _)) ∙ fold_finish _ (accumulate_small h)

  -- The same for UDP, where a zero is stored as all ones.
  for_wire-verifies :
      IsCleared
      → let check = udp_checksum_for_wire (cksum_finish (cksum_accumulate p n init)) in
        (cksum_fold (cksum_accumulate (put_le16 p (2 * k) check) n init) ≡ 0xffff) × (check ≢ 0)
  unfolding udp_checksum_for_wire
  for_wire-verifies h = elim (Bool-cases (cksum_finish (cksum_accumulate p n init) == 0)) [
    | inl zeroed ↦ rw zeroed (
      ap cksum_fold (stored_sum 0xffff h (omega arith))
          ∙ fold_all_ones _ (accumulate_small h) ((==_iff _ 0).0 zeroed),
      λ e. omega arith,
    )
    | inr other ↦ rw other (finish-verifies h, ground arith)
  ]

-- The fast path for a header of 20 bytes computes what the general path does.
pub ip_checksum-eq-accumulate :
    (ip_hdr : List ℕ)
    → calculate_ip_checksum ip_hdr ≡ cksum_finish (cksum_accumulate ip_hdr (ihl ip_hdr * 4) 0)
unfolding calculate_ip_checksum
ip_checksum-eq-accumulate ip_hdr = elim (Bool-cases (ihl ip_hdr == 5)) [
  | inl five ↦ rw five (ap cksum_finish (ten_words ((==_iff (ihl ip_hdr) 5).0 five)))
  | inr more ↦ rw more
]
  where
    ten_words :
        ihl ip_hdr ≡ 5
        → u32 (u32 (add_eight ip_hdr 0 + u16_at ip_hdr 8) + u16_at ip_hdr 9)
          ≡ cksum_accumulate ip_hdr (ihl ip_hdr * 4) 0
    ten_words five = omega (
      arith,
      ap (λ j. cksum_accumulate ip_hdr j 0) {x = ihl ip_hdr * 4} {y = 20} (omega arith),
      cksum_accumulate-eq-word_sum ip_hdr 20 0 (omega arith),
      add_eight-eq ip_hdr 0,
      word_sum_ten ip_hdr,
    )
