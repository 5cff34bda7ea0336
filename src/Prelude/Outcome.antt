-- ===== src/Prelude/Outcome.antt =====
-- The outcome of code that reads a buffer: a value, an early `return false`, a read past the end of
-- the buffer, or a loop that has used up its fuel. Neither of the last two stands in the source.
use Prim.Native.Nat.{ℕ, ◌+◌, ◌*◌, ◌<◌, ◌≤◌}
use mathlib.Core.Path.{◌≡◌, refl, subst}
use mathlib.Core.Logic.{◌≢◌}
use mathlib.Core.Bool.{Bool, true, false}
use mathlib.Core.Option.{none, some}
use mathlib.Core.List.{List}
use native.Mathlib.Omega.{arith}
use cloud_probe.Prelude.Tests.{if◌then◌else◌, leb, le→leb}
use cloud_probe.Prelude.Lists.{length, get_elem?, get_elem?-eq-get_or}
use cloud_probe.Prelude.Words.{byte_at, be16_at, slice}

pub data Outcome {ℓ} (A : Type ℓ) : Type ℓ where
  ok : A → Outcome A
  rejected fault out_of_fuel : Outcome A

infixl 5 ◌>>=◌ ◌>>◌
abbrev pub ◌>>=◌ {ℓ κ} : {A : Type ℓ} {B : Type κ} → Outcome A → (A → Outcome B) → Outcome B
ok a >>= f = f a
rejected >>= f = rejected
fault >>= f = fault
out_of_fuel >>= f = out_of_fuel

abbrev pub ◌>>◌ {ℓ} : {B : Type ℓ} → Outcome (Unit {0}) → Outcome B → Outcome B
m >> k = m >>= λ _. k

-- `if (b) return false;`
abbrev pub reject_if : Bool → Outcome (Unit {0})
reject_if true = rejected
reject_if false = ok tt

unfoldable pub read : List ℕ → ℕ → Outcome ℕ
read bs i = elim (get_elem? bs i) [ none ↦ fault | some b ↦ ok b ]

-- `ntohs` of a field.
unfoldable pub read16 : List ℕ → ℕ → Outcome ℕ
unfolding read
read16 bs i = do hi ← read bs i; lo ← read bs (i + 1); ok (hi * 256 + lo)

-- `n` bytes of a buffer, read as one field.
unfoldable pub read_bytes : List ℕ → ℕ → ℕ → Outcome (List ℕ)
read_bytes bs i n = if leb (i + n) (length bs) then ok (slice bs i n) else fault

-- What a step of an early `return 0` leaves.
abbrev pub or_keep {ℓ} : {A : Type ℓ} → A → Outcome A → Outcome A
or_keep a (ok b) = ok b
or_keep a rejected = ok a
or_keep a fault = fault
or_keep a out_of_fuel = out_of_fuel

-- The code ran to an end within the buffer, and `P` holds of its value if it has one.
pub data Ensures {ℓ κ} {A : Type ℓ} (P : A → Type κ) : Outcome A → Type (ℓ ⊔ κ) where
  holds : {a : A} → P a → Ensures P (ok a)
  turned_down : Ensures P rejected

module _ {ℓ κ} {A : Type ℓ} {P : A → Type κ} where
  pub Ensures-ok : {o : Outcome A} {a : A} → Ensures P o → o ≡ ok a → P a
  Ensures-ok (holds h) e = subst P (cc) h
  Ensures-ok turned_down e = cc

  pub Ensures-ne-fault : {o : Outcome A} → Ensures P o → o ≢ fault
  Ensures-ne-fault (holds h) = cc
  Ensures-ne-fault turned_down = cc

  pub Ensures-ne-out_of_fuel : {o : Outcome A} → Ensures P o → o ≢ out_of_fuel
  Ensures-ne-out_of_fuel (holds h) = cc
  Ensures-ne-out_of_fuel turned_down = cc

  pub guarded :
      (b : Bool) {k : Outcome A} → (b ≡ false → Ensures P k) → Ensures P (reject_if b >> k)
  guarded true h = turned_down
  guarded false h = h refl

  pub branches :
      (b : Bool) {x y : Outcome A}
      → (b ≡ true → Ensures P x)
      → (b ≡ false → Ensures P y)
      → Ensures P (if b then x else y)
  branches true h k = h refl
  branches false h k = k refl

  pub binds {ℓ' κ'} :
      {B : Type ℓ'} {Q : B → Type κ'} {m : Outcome B} {f : B → Outcome A}
      → Ensures Q m
      → ((b : B) → Q b → Ensures P (f b))
      → Ensures P (m >>= f)
  binds (holds {a} h) k = k a h
  binds turned_down k = turned_down

pub Ensures-weaken {ℓ κ κ'} :
    {A : Type ℓ} {P : A → Type κ} {Q : A → Type κ'} {o : Outcome A}
    → ((a : A) → P a → Q a)
    → Ensures P o
    → Ensures Q o
Ensures-weaken h (holds {a} p) = holds (h a p)
Ensures-weaken h turned_down = turned_down

pub or_keep-Ensures {ℓ κ} :
    {A : Type ℓ} {P : A → Type κ} {o : Outcome A} (a : A)
    → P a
    → Ensures P o
    → Ensures P (or_keep a o)
or_keep-Ensures a p (holds h) = holds h
or_keep-Ensures a p turned_down = holds p

pub read_bytes_ok :
    (bs : List ℕ) (i n : ℕ) → i + n ≤ length bs → read_bytes bs i n ≡ ok (slice bs i n)
unfolding read_bytes
read_bytes_ok bs i n h = rw (le→leb (i + n) (length bs) h) refl

pub read_bytes-Ensures :
    (bs : List ℕ) (i n : ℕ)
    → i + n ≤ length bs
    → Ensures (λ v. v ≡ slice bs i n) (read_bytes bs i n)
read_bytes-Ensures bs i n h = rw (read_bytes_ok bs i n h) (holds refl)

-- A read inside the buffer gives the byte.
pub read-Ensures :
    (bs : List ℕ) (i : ℕ) → i < length bs → Ensures (λ b. b ≡ byte_at bs i) (read bs i)
unfolding read
read-Ensures bs i h =
    let e : read bs i ≡ ok (byte_at bs i) = ground (arith, get_elem?-eq-get_or bs i 0) in
    rw e (holds refl)

pub read16-Ensures :
    (bs : List ℕ) (i : ℕ) → i + 1 < length bs → Ensures (λ w. w ≡ be16_at bs i) (read16 bs i)
unfolding read16
read16-Ensures bs i h =
    binds (read-Ensures bs i (omega arith))
      λ hi e. binds (read-Ensures bs (i + 1) h) λ lo e'. holds (omega arith)
