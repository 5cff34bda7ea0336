-- ===== src/Config/Sure.antt =====
-- What holds of a value of the configuration that is accepted: numbers, and a rule for each step of
-- the parsers of cpworker/src/config.c.
use Prim.Native.String.{String}
use cloud_probe.Prelude.{
  ℕ, ◌≤◌, ◌≡◌, refl, Bool, true, false, leb, ◌==◌, ◌&&◌, Option, none, some, arith, if_both,
}
use mathlib.Core.Path.{subst}
use mathlib.Core.Option.{some-injective}
use cloud_probe.Prelude.Int.{pos, negsuc}
use cloud_probe.Config.{
  if_there, ◌>>=◌, ◌>>◌, require, Double, integer, fractional, infinite, Json, Memory, int_max,
  max_snaplen, get_integer, get_int64_range, clamp_int, snaplen_of, optional_int, optional_range,
  parse_snaplen,
}

-- An error, or a value of which `P` holds.
pub data Sure {ℓ} {A : Type 0} (P : A → Type ℓ) : Option A → Type ℓ where
  accepted : {a : A} → P a → Sure P (some a)
  refused : Sure P none

pub Sure-some {ℓ} :
    {A : Type 0} {P : A → Type ℓ} {o : Option A} {a : A} → Sure P o → o ≡ some a → P a
Sure-some {P = P} (accepted h) e = subst P (some-injective _ _ e) h
Sure-some refused e = cc

module _ {ℓ} {A : Type 0} {P : A → Type ℓ} where
  pub binds {κ} :
      {B : Type 0} {Q : B → Type κ} {m : Option B} {f : B → Option A}
      → Sure Q m
      → ((b : B) → Q b → Sure P (f b))
      → Sure P (m >>= f)
  binds (accepted {a} h) k = k a h
  binds refused k = refused

  -- A step of which the value does not matter.
  pub after_any :
      {B : Type 0} (m : Option B) {f : B → Option A} → ((b : B) → Sure P (f b)) → Sure P (m >>= f)
  after_any none k = refused
  after_any (some b) k = k b

  pub there :
      {J : Type 0} (o : Option J) {m : Option A} {f : J → Option A}
      → Sure P m
      → ((item : J) → Sure P (f item))
      → Sure P (if_there o m f)
  there none h k = h
  there (some item) h k = k item

  pub required : (b : Bool) {k : Option A} → (b ≡ true → Sure P k) → Sure P (require b >> k)
  required true h = h refl
  required false h = refused

pub get_int64_range-Sure :
    (o : Option Double) (lo hi : ℕ) → Sure (λ n. (lo ≤ n) × (n ≤ hi)) (get_int64_range o lo hi)
unfolding get_int64_range
get_int64_range-Sure (some (integer (pos n))) lo hi =
    if_both (Sure (λ n. (lo ≤ n) × (n ≤ hi))) (leb lo n && leb n hi)
      (λ e. accepted (ground (arith, e))) (λ _. refused)
get_int64_range-Sure (some (integer (negsuc n))) lo hi = refused
get_int64_range-Sure (some fractional) lo hi = refused
get_int64_range-Sure (some (infinite b)) lo hi = refused
get_int64_range-Sure none lo hi = refused

clamp_int-Sure : (d : Double) → Sure (λ n. n ≤ int_max) (clamp_int d)
unfolding clamp_int
clamp_int-Sure (integer (pos n)) = accepted (ground arith)
clamp_int-Sure (integer (negsuc n)) = refused
clamp_int-Sure (infinite true) = accepted (omega arith)
clamp_int-Sure (infinite false) = refused
clamp_int-Sure fractional = refused

abbrev pub IsSnaplen : ℕ → Type 0
IsSnaplen n = (1 ≤ n) × (n ≤ max_snaplen)

snaplen_of-Sure : (b : Bool) (d : Double) → Sure IsSnaplen (snaplen_of b d)
unfolding snaplen_of
snaplen_of-Sure b (integer (pos n)) =
    if_both (Sure IsSnaplen) (n == 0)
      (λ _. if_both (Sure IsSnaplen) b (λ _. accepted (omega arith)) (λ _. refused))
      (λ e. accepted (ground (arith, e)))
snaplen_of-Sure b (integer (negsuc n)) =
    if_both (Sure IsSnaplen) b (λ _. accepted (omega arith)) (λ _. refused)
snaplen_of-Sure b (infinite true) = accepted (omega arith)
snaplen_of-Sure b (infinite false) =
    if_both (Sure IsSnaplen) b (λ _. accepted (omega arith)) (λ _. refused)
snaplen_of-Sure b fractional = refused

module _ {J : Type 0} (js : Json J) (mem : Memory) where
  pub optional_int-Sure :
      (obj : J) (name : String) (missing : ℕ)
      → missing ≤ int_max
      → Sure (λ n. n ≤ int_max) (optional_int js mem obj name missing)
  unfolding optional_int
  optional_int-Sure obj name missing h =
      there (js.get_object_item obj name) (accepted h)
        λ item. after_any (get_integer (js.number_of item)) clamp_int-Sure

  pub optional_range-Sure :
      (obj : J) (name : String) (missing lo hi : ℕ)
      → lo ≤ missing
      → missing ≤ hi
      → Sure (λ n. (lo ≤ n) × (n ≤ hi)) (optional_range js mem obj name missing lo hi)
  unfolding optional_range
  optional_range-Sure obj name missing lo hi h k =
      there (js.get_object_item obj name) (accepted (h, k))
        λ item. get_int64_range-Sure (js.number_of item) lo hi

  pub parse_snaplen-Sure : (obj : J) (b : Bool) → Sure IsSnaplen (parse_snaplen js mem obj b)
  unfolding parse_snaplen
  parse_snaplen-Sure obj b =
      there (js.get_object_item obj "snaplen") (accepted (omega arith))
        λ item. after_any (get_integer (js.number_of item)) (snaplen_of-Sure b)

pub Sure-weaken {ℓ κ} :
    {A : Type 0} {P : A → Type ℓ} {Q : A → Type κ} {o : Option A}
    → ((a : A) → P a → Q a)
    → Sure P o
    → Sure Q o
Sure-weaken h (accepted {a} p) = accepted (h a p)
Sure-weaken h refused = refused
