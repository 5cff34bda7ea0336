-- ===== src/Mempool/Examples.antt =====
-- A pool of ten bytes.
use cloud_probe.Prelude.{◌≡◌, refl, [], ◌∷◌, none, some, arith}
use cloud_probe.Mempool.{Mempool, mempool_create, mempool_alloc, mempool_free}
use cloud_probe.Mempool.Layout.{
  Block, Layout, flat, IsFresh, IsSound, create-Layout, alloc-Layout, free-Layout,
}
use cloud_probe.Mempool.Flaws.{alloc_fills_pool, alloc_wraps_empty}

abbrev one_held : Mempool
one_held = record { capacity = 10; head = 7; tail = 4; limit = 10 }

abbrev held : Block
held = record { offset = 4; size = 3 }

abbrev asked : Block
asked = record { offset = 7; size = 2 }

abbrev two_held : Mempool
two_held = record { capacity = 10; head = 9; tail = 4; limit = 10 }

one_held-Layout : Layout one_held (held ∷ [])
one_held-Layout = flat refl (omega arith) (omega arith) (refl, omega arith, refl)

asked-IsSound : IsSound one_held 2
asked-IsSound = record {
  pos = omega arith;
  leaves_gap = λ e. absurd (omega arith);
  not_empty = λ e. absurd (omega arith);
}

grants : mempool_alloc one_held 2 ≡ (two_held, some 7)
unfolding mempool_alloc
grants = ground arith

create-Layout_example : Layout (mempool_create 10) []
create-Layout_example = create-Layout 10 (omega arith)

alloc-Layout_example : IsFresh one_held (held ∷ []) asked × Layout two_held (held ∷ asked ∷ [])
alloc-Layout_example = alloc-Layout one_held (held ∷ []) asked one_held-Layout asked-IsSound grants

free-Layout_example : (p' : Mempool) × (mempool_free one_held 3 ≡ some p') × Layout p' []
free-Layout_example = free-Layout one_held held [] one_held-Layout

abbrev at_start : Mempool
at_start = record { capacity = 10; head = 7; tail = 0; limit = 10 }

alloc_fills_pool_example :
    (p' : Mempool) × (mempool_alloc at_start 3 ≡ (p', some 7))
    × (p'.head ≡ p'.tail)
    × ((mempool_alloc p' 4).1 ≡ some 0)
alloc_fills_pool_example =
    alloc_fills_pool at_start 3 4 refl (omega arith) (omega arith) (omega arith)

abbrev empty_at_seven : Mempool
empty_at_seven = record { capacity = 10; head = 7; tail = 7; limit = 10 }

alloc_wraps_empty_example :
    (p' : Mempool) × (mempool_alloc empty_at_seven 5 ≡ (p', some 0)) × (mempool_free p' 5 ≡ none)
alloc_wraps_empty_example =
    alloc_wraps_empty empty_at_seven 5 refl (omega arith) (omega arith) (omega arith)
