-- ===== src/Allocator.antt =====
-- cpworker/src/ring_buffer.c, `struct SimpleAllocator`: the byte budget of the messages in the ring.
-- Each call is one atomic step here, which the compare-and-swap loop and the atomic subtraction make
-- of it; `malloc_ok` says whether malloc finds memory.
pub mod Accounts
mod Examples
use cloud_probe.Prelude.{
  ℕ, ◌+◌, ◌-◌, ◌^◌, List, Bool, true, false, Option, none, some, ltb, if◌then◌else◌, u64, take,
}
use cloud_probe.Packet.{PktDir, PktHdr, RingMsg, packet, heartbeat}

pub record SimpleAllocator : Type 0 where
  pub capacity : ℕ
  pub used : ℕ

-- `sizeof(ring_msg_t)` on a 64-bit Linux host.
abbrev pub msg_size : ℕ
msg_size = 48

pub simple_allocator_create : ℕ → SimpleAllocator
simple_allocator_create capacity = record { capacity = capacity; used = 0 }

module _ {U : Type 0} where
  unfoldable pub simple_alloc_packet :
      SimpleAllocator → PktHdr → List ℕ → Bool → SimpleAllocator × Option (RingMsg U)
  simple_alloc_packet alloc header pkt_data malloc_ok =
      let total = u64 (msg_size + header.caplen) in
      let reserved = u64 (alloc.used + total) in
      if ltb alloc.capacity reserved
      then (alloc, none)
      else if malloc_ok
      then (
        record alloc { used = reserved },
        some (packet none PktDir.noncheck header (take header.caplen pkt_data)),
      )
      else (record alloc { used = u64 (reserved + 2 ^ 64 - total) }, none)

  unfoldable pub simple_alloc_heartbeat :
      SimpleAllocator → ℕ → Bool → SimpleAllocator × Option (RingMsg U)
  simple_alloc_heartbeat alloc ts malloc_ok =
      let reserved = u64 (alloc.used + msg_size) in
      if ltb alloc.capacity reserved
      then (alloc, none)
      else if malloc_ok
      then (record alloc { used = reserved }, some (heartbeat none ts))
      else (record alloc { used = u64 (reserved + 2 ^ 64 - msg_size) }, none)

  -- The length that a message was counted with.
  unfoldable pub msg_len : RingMsg U → ℕ
  msg_len (packet user direction hdr bytes) = u64 (msg_size + hdr.caplen)
  msg_len (heartbeat user ts) = msg_size

  pub simple_msg_free : SimpleAllocator → RingMsg U → SimpleAllocator
  unfolding msg_len
  simple_msg_free alloc msg =
      let len = if ltb alloc.used (msg_len msg) then alloc.used else msg_len msg in
      record alloc { used = alloc.used - len }

pub simple_allocator_capacity : SimpleAllocator → ℕ
simple_allocator_capacity alloc = alloc.capacity

pub simple_allocator_used : SimpleAllocator → ℕ
simple_allocator_used alloc = alloc.used

pub simple_allocator_resize : SimpleAllocator → ℕ → SimpleAllocator
simple_allocator_resize alloc new_capacity = record alloc { capacity = new_capacity }
