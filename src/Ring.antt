-- ===== src/Ring.antt =====
-- cpworker/src/ring_buffer.c, `struct SpscRing`: the ring between the capture thread and the output
-- thread. The entries are of any type; `null` is what calloc leaves in a fresh slot.
pub mod Window
pub mod Refine
pub mod Threads
mod Examples
use cloud_probe.Prelude.{
  ℕ, ◌+◌, ◌-◌, ◌%◌, List, Bool, true, false, Option, none, leb, ◌==◌, if◌then◌else◌, get_elem?, set,
  replicate,
}

pub record SpscRing {ℓ} (A : Type ℓ) : Type ℓ where
  pub buf : List A
  pub size : ℕ
  pub head : ℕ
  pub tail : ℕ

module _ {ℓ} {A : Type ℓ} where
  pub spsc_ring_create : A → ℕ → SpscRing A
  spsc_ring_create null size = record { buf = replicate size null; size = size; head = 0; tail = 0 }

  pub spsc_ring_size : SpscRing A → ℕ
  spsc_ring_size r = r.size

  pub spsc_ring_used : SpscRing A → ℕ
  spsc_ring_used r = if leb r.tail r.head then r.head - r.tail else r.size - r.tail + r.head

  pub spsc_ring_push : SpscRing A → A → SpscRing A × Bool
  spsc_ring_push r msg =
      let next = (r.head + 1) % r.size in
      if next == r.tail
      then (r, false)
      else (record r { buf = set r.buf r.head msg; head = next }, true)

  -- The option is what goes through `out`; it is `none` too for a read past the buffer.
  pub spsc_ring_pop : SpscRing A → SpscRing A × Option A
  spsc_ring_pop r =
      if r.tail == r.head
      then (r, none)
      else (record r { tail = (r.tail + 1) % r.size }, get_elem? r.buf r.tail)
