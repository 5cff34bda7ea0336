-- ===== src/Mempool/Layout.antt =====
-- The live blocks of a pool of cpworker/src/ring_buffer.c, oldest first, and where they lie.
use cloud_probe.Prelude.{
  ℕ, ◌+◌, ◌≤◌, ◌<◌, ◌≡◌, ◌≢◌, ◌⊎◌, inl, inr, refl, sym, append-nil, append_assoc, arith, List, [],
  ◌∷◌, ◌++◌, some,
}
use cloud_probe.Mempool.{Mempool, mempool_create, mempool_alloc, mempool_free}

pub record Block : Type 0 where
  pub offset : ℕ
  pub size : ℕ

-- The blocks fill the memory from `a` to `b`.
abbrev pub Chain : ℕ → ℕ → List Block → Type 0
Chain a b [] = a ≡ b
Chain a b (x ∷ xs) = (x.offset ≡ a) × (0 < x.size) × Chain (a + x.size) b xs

-- The blocks lie between the tail and the head; or they run from the tail to the limit, and on from
-- the start of the memory to the head.
pub data Layout (p : Mempool) (live : List Block) : Type 0 where
  flat :
      p.limit ≡ p.capacity
      → p.tail ≤ p.head
      → p.head < p.capacity
      → Chain p.tail p.head live
      → Layout p live
  wrapped :
      (old new : List Block)
      → live ≡ old ++ new
      → p.limit ≤ p.capacity
      → p.head < p.tail
      → p.tail < p.limit
      → Chain p.tail p.limit old
      → Chain 0 p.head new
      → Layout p live

abbrev pub Apart : Block → Block → Type 0
Apart x y = (x.offset + x.size ≤ y.offset) ⊎ (y.offset + y.size ≤ x.offset)

abbrev pub AllApart : Block → List Block → Type 0
AllApart x [] = Unit {0}
AllApart x (y ∷ ys) = Apart x y × AllApart x ys

-- A block is inside the memory and touches none of the others.
pub record IsFresh (p : Mempool) (live : List Block) (x : Block) : Type 0 where
  pub inside : x.offset + x.size ≤ p.capacity
  pub apart : AllApart x live

Chain-le : (a b : ℕ) (xs : List Block) → Chain a b xs → a ≤ b
Chain-le a b [] c = omega arith
Chain-le a b (x ∷ xs) (e, pos, c) = omega (arith, Chain-le (a + x.size) b xs c)

Chain-append :
    (a b : ℕ) (xs : List Block) (x : Block)
    → Chain a b xs
    → x.offset ≡ b
    → 0 < x.size
    → Chain a (b + x.size) (xs ++ (x ∷ []))
Chain-append a b [] x c e pos = ground arith
Chain-append a b (y ∷ ys) x (e', pos', c) e pos =
    (e', pos', Chain-append (a + y.size) b ys x c e pos)

-- A block that ends before a chain starts, or starts after it ends, is apart from its blocks.
apart_before :
    (a b : ℕ) (xs : List Block) (x : Block) → Chain a b xs → x.offset + x.size ≤ a → AllApart x xs
apart_before a b [] x c h = tt
apart_before a b (y ∷ ys) x (e, pos, c) h =
    (inl (omega arith), apart_before (a + y.size) b ys x c (omega arith))

apart_behind : (a b : ℕ) (xs : List Block) (x : Block) → Chain a b xs → b ≤ x.offset → AllApart x xs
apart_behind a b [] x c h = tt
apart_behind a b (y ∷ ys) x (e, pos, c) h =
    (inr (omega (arith, Chain-le (a + y.size) b ys c)), apart_behind (a + y.size) b ys x c h)

AllApart-append :
    (x : Block) (xs ys : List Block) → AllApart x xs → AllApart x ys → AllApart x (xs ++ ys)
AllApart-append x [] ys h k = k
AllApart-append x (y ∷ xs) ys (h, hs) k = (h, AllApart-append x xs ys hs k)

-- The two requests that `mempool_alloc` should refuse and grants (see Mempool/Flaws).
pub record IsSound (p : Mempool) (size : ℕ) : Type 0 where
  pub pos : 0 < size
  pub leaves_gap : p.tail ≡ 0 → p.head + size ≢ p.capacity
  pub not_empty : p.head ≡ p.tail → p.head + size ≤ p.capacity

-- A new pool of a positive capacity lays out no block.
pub create-Layout : (capacity : ℕ) → 0 < capacity → Layout (mempool_create capacity) []
unfolding mempool_create
create-Layout capacity h = flat refl (omega arith) h refl

-- What a granted request did, with the free memory in two parts or in one.
alloc_flat :
    (p : Mempool) (size : ℕ) {p' : Mempool} {offset : ℕ}
    → p.tail ≤ p.head
    → p.head < p.capacity
    → mempool_alloc p size ≡ (p', some offset)
    → ((offset ≡ p.head) × (p.head + size < p.capacity) × (p' ≡ record p { head = p.head + size }))
      ⊎ ((offset ≡ p.head) × (p.head + size ≡ p.capacity) × (p' ≡ record p { head = 0 }))
      ⊎ ((offset ≡ 0)
          × (p.capacity < p.head + size)
          × (size < p.tail)
          × (p' ≡ record p { limit = p.head; head = size }))
unfolding mempool_alloc
alloc_flat p size le lt e = ground arith

alloc_wrapped :
    (p : Mempool) (size : ℕ) {p' : Mempool} {offset : ℕ}
    → p.head < p.tail
    → mempool_alloc p size ≡ (p', some offset)
    → (offset ≡ p.head) × (p.head + size < p.tail) × (p' ≡ record p { head = p.head + size })
unfolding mempool_alloc
alloc_wrapped p size lt e = ground arith

-- From a layout, a request that is sound and granted gives a block inside the memory that touches
-- none of the live blocks, and the pool then lays out the live blocks and the new one.
pub alloc-Layout :
    (p : Mempool) (live : List Block) (x : Block) {p' : Mempool}
    → Layout p live
    → IsSound p x.size
    → mempool_alloc p x.size ≡ (p', some x.offset)
    → IsFresh p live x × Layout p' (live ++ (x ∷ []))
alloc-Layout p live x (flat lim le lt c) s e = elim (alloc_flat p x.size le lt e) [
  | inl (at, fits, pe) ↦ (
    record { inside = omega arith; apart = apart_behind p.tail p.head live x c (omega arith) },
    rw pe (flat lim (omega arith) fits (Chain-append p.tail p.head live x c at s.pos)),
  )
  | inr (inl (at, full, pe)) ↦ (
    record { inside = omega arith; apart = apart_behind p.tail p.head live x c (omega arith) },
    rw pe (
        wrapped (live ++ (x ∷ [])) [] (sym (append-nil _)) (omega arith)
          (ground (arith, s.leaves_gap)) (omega arith)
          (rw (lim, ← full) (Chain-append p.tail p.head live x c at s.pos)) refl),
  )
  | inr (inr (at, over, small, pe)) ↦ (
    record { inside = omega arith; apart = apart_before p.tail p.head live x c (omega arith) },
    rw pe (
        wrapped live (x ∷ []) refl (omega arith) small (ground (arith, s.not_empty)) c
          (at, s.pos, omega arith)),
  )
]
alloc-Layout p live x (wrapped old new split lim lt in_old c d) s e =
    let (at, fits, pe) = alloc_wrapped p x.size lt e in
    (
      record {
        inside = omega arith;
        apart = rw split (
            AllApart-append x old new (apart_before p.tail p.limit old x c (omega arith))
              (apart_behind 0 p.head new x d (omega arith)));
      },
      rw pe (
          wrapped old (new ++ (x ∷ [])) (rw split (append_assoc old new (x ∷ []))) lim fits in_old c
            (Chain-append 0 p.head new x d at s.pos)),
    )

-- From a layout, freeing the oldest block passes the assertions, and the pool then lays out the
-- others.
pub free-Layout :
    (p : Mempool) (x : Block) (live : List Block)
    → Layout p (x ∷ live)
    → (p' : Mempool) × (mempool_free p x.size ≡ some p') × Layout p' live
unfolding mempool_free
free-Layout p x live (flat lim le lt (at, pos, c)) =
    let below = Chain-le (p.tail + x.size) p.head live c in
    (record p { tail = p.tail + x.size }, ground arith, flat lim below lt c)
free-Layout p x live (wrapped [] new split lim lt in_old c d) = absurd (omega arith)
free-Layout p x live (wrapped (y ∷ []) new split lim lt in_old (at, pos, c) d) =
    let same : x ≡ y = cc in
    let rest : live ≡ new = cc in
    (
      record p { tail = 0; limit = p.capacity },
      rw same (ground arith),
      rw rest (flat refl (omega arith) (omega arith) d),
    )
free-Layout p x live (wrapped (y ∷ z ∷ old) new split lim lt in_old (at, pos, c) d) =
    let same : x ≡ y = cc in
    let rest : live ≡ z ∷ (old ++ new) = cc in
    let below = Chain-le (p.tail + y.size + z.size) p.limit old c.2 in
    (
      record p { tail = p.tail + y.size },
      rw same (ground (arith, below, c.1)),
      rw rest (wrapped (z ∷ old) new refl lim (omega arith) (omega (arith, below, c.1)) c d),
    )
