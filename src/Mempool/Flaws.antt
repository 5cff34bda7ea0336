-- ===== src/Mempool/Flaws.antt =====
-- Two kinds of request to `mempool_alloc` (cpworker/src/ring_buffer.c), one at a full pool, one at an
-- empty pool.
use cloud_probe.Prelude.{ℕ, ◌+◌, ◌≤◌, ◌<◌, ◌≡◌, arith, none, some}
use cloud_probe.Mempool.{Mempool, mempool_alloc, mempool_free}

-- The comment in the source: "We reserve 1 byte so that head == tail means empty." With the tail at
-- the start, a request for exactly the bytes from the head to the end is granted, and leaves the
-- head equal to the tail; the next request that fits the memory is given the first bytes of the
-- pool, which are still in use.
pub alloc_fills_pool :
    (p : Mempool) (size next : ℕ)
    → p.tail ≡ 0
    → 0 < size
    → p.head + size ≡ p.capacity
    → next ≤ p.capacity
    → (p' : Mempool) × (mempool_alloc p size ≡ (p', some p.head))
      × (p'.head ≡ p'.tail)
      × ((mempool_alloc p' next).1 ≡ some 0)
unfolding mempool_alloc
alloc_fills_pool p size next e pos fit small =
    (record p { head = 0 }, ground arith, ground arith, ground arith)

-- In an empty pool a request that does not fit behind the head but fits before it is granted at the
-- start of the pool, with the limit put where the tail already is. Freeing that block then fails
-- the assertion of `mempool_free`.
pub alloc_wraps_empty :
    (p : Mempool) (size : ℕ)
    → p.head ≡ p.tail
    → p.head < p.capacity
    → p.capacity < p.head + size
    → size < p.tail
    → (p' : Mempool) × (mempool_alloc p size ≡ (p', some 0)) × (mempool_free p' size ≡ none)
unfolding mempool_alloc mempool_free
alloc_wraps_empty p size empty lt over small =
    (record p { limit = p.head; head = size }, ground arith, ground arith)
