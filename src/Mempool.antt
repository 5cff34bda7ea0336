-- ===== src/Mempool.antt =====
-- cpworker/src/ring_buffer.c, `struct Mempool`: the circular memory pool. A pointer into the pool is
-- its offset from `mem`. No other file of cpworker calls it.
pub mod Layout
pub mod Flaws
mod Examples
use cloud_probe.Prelude.{
  ℕ, ◌+◌, ◌-◌, Bool, true, false, Option, none, some, leb, ltb, ◌==◌, not, if◌then◌else◌,
}

pub record Mempool : Type 0 where
  pub capacity : ℕ
  pub head : ℕ
  pub tail : ℕ
  pub limit : ℕ

pub mempool_create : ℕ → Mempool
mempool_create capacity = record { capacity = capacity; head = 0; tail = 0; limit = capacity }

-- `assert(size > 0)` is a condition on the caller.
pub mempool_alloc : Mempool → ℕ → Mempool × Option ℕ
mempool_alloc mp size =
    let cap = mp.capacity in
    let new_head = if mp.head + size == cap then 0 else mp.head + size in
    if leb mp.tail mp.head
    then if leb size (cap - mp.head)
      then (record mp { head = new_head }, some mp.head)
      else if leb mp.tail size
      then (mp, none)
      else (record mp { limit = mp.head; head = size }, some 0)
    else if ltb (mp.tail - mp.head - 1) size
    then (mp, none)
    else (record mp { head = mp.head + size }, some mp.head)

-- `none` is a failed assertion.
pub mempool_free : Mempool → ℕ → Option Mempool
mempool_free mp size =
    let cap = mp.capacity in
    let new_tail = mp.tail + size in
    if not (mp.limit == cap)
    then if leb mp.limit new_tail
      then if new_tail == mp.limit then some (record mp { tail = 0; limit = cap }) else none
      else some (record mp { tail = new_tail })
    else if leb cap new_tail
    then if new_tail == cap then some (record mp { tail = 0 }) else none
    else some (record mp { tail = new_tail })
