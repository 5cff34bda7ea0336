-- ===== src/Prelude/Stores.antt =====
-- Stores of words in a buffer: what they change and what they leave.
use Prim.Native.Nat.{ℕ, ◌+◌, ◌<◌, ◌≤◌, ◌/◌, ◌%◌, ◌^◌}
use mathlib.Core.Path.{◌≡◌, ◌∙◌}
use mathlib.Core.Logic.{◌⊎◌, inl}
use mathlib.Core.List.{List, ◌++◌}
use native.Mathlib.Omega.{arith}
use cloud_probe.Prelude.Lists.{
  length, set, drop, length-set, drop-set, get_or-set_self, get_or-set_ne, length-take, length-drop,
  get_or-append_right,
}
use cloud_probe.Prelude.Words.{byte_at, be16_at, be32_at, put_be16, put_be32, put_le16, slice}

pub length-put_be16 : (bs : List ℕ) (i v : ℕ) → length (put_be16 bs i v) ≡ length bs
length-put_be16 bs i v = length-set (set bs i _) (i + 1) _ ∙ length-set bs i _

pub length-put_le16 : (bs : List ℕ) (i v : ℕ) → length (put_le16 bs i v) ≡ length bs
length-put_le16 bs i v = length-set (set bs i _) (i + 1) _ ∙ length-set bs i _

pub drop-put_be16 : (bs : List ℕ) (n i v : ℕ) → i + 1 < n → drop n (put_be16 bs i v) ≡ drop n bs
drop-put_be16 bs n i v h = drop-set (set bs i _) n (i + 1) _ h ∙ drop-set bs n i _ (omega arith)

pub drop-put_le16 : (bs : List ℕ) (n i v : ℕ) → i + 1 < n → drop n (put_le16 bs i v) ≡ drop n bs
drop-put_le16 bs n i v h = drop-set (set bs i _) n (i + 1) _ h ∙ drop-set bs n i _ (omega arith)

pub length-put_be32 : (bs : List ℕ) (i v : ℕ) → length (put_be32 bs i v) ≡ length bs
length-put_be32 bs i v = length-put_be16 (put_be16 bs i _) (i + 2) _ ∙ length-put_be16 bs i _

pub drop-put_be32 : (bs : List ℕ) (n i v : ℕ) → i + 3 < n → drop n (put_be32 bs i v) ≡ drop n bs
drop-put_be32 bs n i v h =
    drop-put_be16 (put_be16 bs i _) n (i + 2) _ (omega arith) ∙ drop-put_be16 bs n i _ (omega arith)

-- A byte outside the word is left.
pub byte_at-put_be16 :
    (bs : List ℕ) (i v j : ℕ) → (j < i) ⊎ (i + 1 < j) → byte_at (put_be16 bs i v) j ≡ byte_at bs j
byte_at-put_be16 bs i v j h =
    get_or-set_ne (set bs i _) (i + 1) j _ 0 (ground arith)
    ∙ get_or-set_ne bs i j _ 0 (ground arith)

pub byte_at-put_le16 :
    (bs : List ℕ) (i v j : ℕ) → (j < i) ⊎ (i + 1 < j) → byte_at (put_le16 bs i v) j ≡ byte_at bs j
byte_at-put_le16 bs i v j h =
    get_or-set_ne (set bs i _) (i + 1) j _ 0 (ground arith)
    ∙ get_or-set_ne bs i j _ 0 (ground arith)

-- The word reads back.
pub be16_at-put_be16 :
    (bs : List ℕ) (i v : ℕ) → i + 1 < length bs → v < 2 ^ 16 → be16_at (put_be16 bs i v) i ≡ v
be16_at-put_be16 bs i v h small = omega (
  arith,
  get_or-set_ne (set bs i (v / 256 % 256)) (i + 1) i (v % 256) 0 (omega arith),
  get_or-set_self bs i (v / 256 % 256) 0 (omega arith),
  get_or-set_self (set bs i (v / 256 % 256)) (i + 1) (v % 256) 0
      (omega (arith, length-set bs i (v / 256 % 256))),
)

pub be32_at-put_be32 :
    (bs : List ℕ) (i v : ℕ) → i + 3 < length bs → v < 2 ^ 32 → be32_at (put_be32 bs i v) i ≡ v
be32_at-put_be32 bs i v h small = omega (
  arith,
  byte_at-put_be16 (put_be16 bs i (v / 65536)) (i + 2) (v % 65536) i (inl (omega arith)),
  byte_at-put_be16 (put_be16 bs i (v / 65536)) (i + 2) (v % 65536) (i + 1) (inl (omega arith)),
  be16_at-put_be16 bs i (v / 65536) (omega arith) (omega arith),
  be16_at-put_be16 (put_be16 bs i (v / 65536)) (i + 2) (v % 65536)
      (omega (arith, length-put_be16 bs i (v / 65536))) (omega arith),
)

pub length-slice : (bs : List ℕ) (off n : ℕ) → off + n ≤ length bs → length (slice bs off n) ≡ n
length-slice bs off n h = omega (arith, length-take n (drop off bs), length-drop off bs)

pub byte_at-append_right :
    (xs ys : List ℕ) (k i : ℕ) → k ≡ length xs + i → byte_at (xs ++ ys) k ≡ byte_at ys i
byte_at-append_right xs ys k i h = get_or-append_right xs ys k i 0 h
