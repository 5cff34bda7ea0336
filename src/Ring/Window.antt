-- ===== src/Ring/Window.antt =====
-- The entries of a ring from an index on, going round at its size.
use cloud_probe.Prelude.{
  ℕ, zero, suc, ◌+◌, ◌-◌, ◌%◌, ◌≤◌, ◌<◌, ◌≡◌, ◌≢◌, ◌↔◌, refl, ap, ap₂, ◌∙◌, arith, List, [], ◌∷◌,
  ◌++◌, leb, ◌==◌, if◌then◌else◌, length, get_or, set, get_or-set_self, get_or-set_ne,
}
use native.Mathlib.Nat.{mod-eq_of_lt, mod_self}
use native.Mathlib.Decide.{dec_lt}

-- The index after `i`.
abbrev pub after : ℕ → ℕ → ℕ
after size i = if i + 1 == size then 0 else i + 1

mod_full : (n size : ℕ) → n ≡ size → n % size ≡ 0
mod_full n size e = rw e (mod_self size)

pub mod-after : (size i : ℕ) → i < size → (i + 1) % size ≡ after size i
mod-after size i h = elim (dec_lt (i + 1) size) [
  | yes p ↦ ground (arith, mod-eq_of_lt p)
  | no p ↦ ground (arith, mod_full (i + 1) size)
]

-- The number of steps from the index `t` to the index `h`.
unfoldable pub dist : ℕ → ℕ → ℕ → ℕ
dist size t h = if leb t h then h - t else size - t + h

module _ (size t h : ℕ) (ht : t < size) (hh : h < size) where
  pub dist-lt : dist size t h < size
  unfolding dist
  dist-lt = ground arith

  pub dist-eq-zero_iff : (dist size t h ≡ 0) ↔ (t ≡ h)
  unfolding dist
  dist-eq-zero_iff = ground arith

  -- The head moves on unless it would meet the tail.
  pub dist-after_head : after size h ≢ t → dist size t (after size h) ≡ suc (dist size t h)
  unfolding dist
  dist-after_head ne = ground arith

  pub dist-after_head_full : (after size h ≡ t) ↔ (dist size t h + 1 ≡ size)
  unfolding dist
  dist-after_head_full = ground arith

  -- The tail moves on unless it has met the head.
  pub dist-after_tail : t ≢ h → dist size t h ≡ suc (dist size (after size t) h)
  unfolding dist
  dist-after_tail ne = ground arith

  pub after-lt : after size t < size
  after-lt = ground arith

module _ {ℓ} {A : Type ℓ} (null : A) where
  abbrev pub window : ℕ → List A → ℕ → ℕ → List A
  window size buf t zero = []
  window size buf t (suc n) = get_or buf t null ∷ window size buf (after size t) n

  -- A write past the window leaves it alone.
  pub window-set_past :
      (size : ℕ) (buf : List A) (x : A) (i t n : ℕ)
      → i < size
      → t < size
      → n ≤ dist size t i
      → window size (set buf i x) t n ≡ window size buf t n
  unfolding dist
  window-set_past size buf x i t zero hi ht le = refl
  window-set_past size buf x i t (suc n) hi ht le =
      ap₂ ◌∷◌ (get_or-set_ne buf i t x null (ground arith))
        (window-set_past size buf x i (after size t) n hi (ground arith) (ground arith))

  -- A window that ends before the index `i` grows by the entry at `i`.
  pub window_end :
      (size : ℕ) (buf : List A) (i t n : ℕ)
      → i < size
      → t < size
      → dist size t i ≡ n
      → window size buf t (suc n) ≡ window size buf t n ++ (get_or buf i null ∷ [])
  unfolding dist
  window_end size buf i t zero hi ht e = ap (λ k. get_or buf k null ∷ []) (ground arith)
  window_end size buf i t (suc n) hi ht e =
      ap (λ l. get_or buf t null ∷ l)
        (window_end size buf i (after size t) n hi (ground arith) (ground arith))

  -- A write just past the window extends it.
  pub window-set_end :
      (size : ℕ) (buf : List A) (x : A) (i t n : ℕ)
      → i < length buf
      → i < size
      → t < size
      → dist size t i ≡ n
      → window size (set buf i x) t (suc n) ≡ window size buf t n ++ (x ∷ [])
  window-set_end size buf x i t n hb hi ht e =
      window_end size (set buf i x) i t n hi ht e
      ∙ ap₂ (λ l y. l ++ (y ∷ [])) (window-set_past size buf x i t n hi ht (omega arith))
          (get_or-set_self buf i x null hb)

  pub length-window : (size : ℕ) (buf : List A) (t n : ℕ) → length (window size buf t n) ≡ n
  length-window size buf t zero = refl
  length-window size buf t (suc n) = ap suc (length-window size buf (after size t) n)
