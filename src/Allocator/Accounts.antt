-- ===== src/Allocator/Accounts.antt =====
-- The budget of cpworker/src/ring_buffer.c beside the messages that are live.
use cloud_probe.Prelude.{
  ◌⊎◌, inl, ℕ, ◌+◌, ◌^◌, ◌≤◌, ◌<◌, ◌≡◌, arith, List, [], ◌∷◌, ◌++◌, Bool, true, false, Option, none,
  some, take,
}
use cloud_probe.Packet.{PktDir, PktHdr, RingMsg, packet, heartbeat}
use cloud_probe.Allocator.{
  SimpleAllocator, simple_alloc_packet, simple_alloc_heartbeat, msg_len, simple_msg_free,
  simple_allocator_resize,
}

-- A call on the allocator; the output thread frees the oldest message.
pub data Call : Type 0 where
  alloc_packet : PktHdr → List ℕ → Bool → Call
  alloc_heartbeat : ℕ → Bool → Call
  free_oldest : Call
  resize : ℕ → Call

-- The lengths and the sizes that the calls name are far below the word.
abbrev pub IsSmall : Call → Type 0
IsSmall (alloc_packet header pkt_data malloc_ok) = header.caplen < 2 ^ 32
IsSmall (alloc_heartbeat ts malloc_ok) = Unit {0}
IsSmall free_oldest = Unit {0}
IsSmall (resize n) = n < 2 ^ 62

module _ {U : Type 0} where
  unfoldable pub total : List (RingMsg U) → ℕ
  total [] = 0
  total (m ∷ ms) = msg_len m + total ms

  total-append :
      (ms : List (RingMsg U)) (m : RingMsg U) → total (ms ++ (m ∷ [])) ≡ total ms + msg_len m
  unfolding total
  total-append [] m = omega arith
  total-append (n ∷ ms) m = omega (arith, total-append ms m)

  unfoldable pub keep : List (RingMsg U) → Option (RingMsg U) → List (RingMsg U)
  keep ms none = ms
  keep ms (some m) = ms ++ (m ∷ [])

  -- The live messages are in a list, oldest first; only a live message is freed.
  unfoldable pub step :
      SimpleAllocator → List (RingMsg U) → Call → SimpleAllocator × List (RingMsg U)
  unfolding keep
  step a ms (alloc_packet header pkt_data malloc_ok) =
      let (a', out) = simple_alloc_packet a header pkt_data malloc_ok in (a', keep ms out)
  step a ms (alloc_heartbeat ts malloc_ok) =
      let (a', out) = simple_alloc_heartbeat a ts malloc_ok in (a', keep ms out)
  step a [] free_oldest = (a, [])
  step a (m ∷ ms) free_oldest = (simple_msg_free a m, ms)
  step a ms (resize n) = (simple_allocator_resize a n, ms)

  pub record Accounts (a : SimpleAllocator) (ms : List (RingMsg U)) : Type 0 where
    pub counted : a.used ≡ total ms
    pub small : a.used < 2 ^ 62
    pub bounded : a.capacity < 2 ^ 62

  -- From a capacity and a use below 2 ^ 62, every call with a captured length below 2 ^ 32 or a new
  -- capacity below 2 ^ 62 keeps the account: `used` stays the sum of the lengths of the live messages, so that
  -- the clamp in `simple_msg_free` never acts. What an allocation adds fits the capacity of the time;
  -- a resize may leave the live messages above the new capacity.
  pub step-Accounts :
      (a : SimpleAllocator) (ms : List (RingMsg U)) (c : Call)
      → IsSmall c
      → Accounts a ms
      → let (a', ms') = step a ms c in
        Accounts a' ms' × ((a'.used ≤ a.used) ⊎ (a'.used ≤ a.capacity))
  unfolding step simple_alloc_packet simple_alloc_heartbeat simple_msg_free simple_allocator_resize
      total
  step-Accounts a ms (alloc_packet header pkt_data true) small v =
      ground
        (arith, total-append ms (packet none PktDir.noncheck header (take header.caplen pkt_data)))
  step-Accounts a ms (alloc_packet header pkt_data false) small v = ground arith
  step-Accounts a ms (alloc_heartbeat ts true) small v =
      ground (arith, total-append ms (heartbeat none ts))
  step-Accounts a ms (alloc_heartbeat ts false) small v = ground arith
  step-Accounts a [] free_oldest small v = (v, inl (omega arith))
  step-Accounts a (m ∷ ms) free_oldest small v = ground arith
  step-Accounts a ms (resize n) small v = ground arith
