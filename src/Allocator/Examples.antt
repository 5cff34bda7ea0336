-- ===== src/Allocator/Examples.antt =====
-- The accounts at a concrete call.
use cloud_probe.Prelude.{ℕ, ◌≤◌, ◌⊎◌, List, [], ◌∷◌, true, none, arith}
use cloud_probe.Packet.{PktHdr, RingMsg, heartbeat}
use cloud_probe.Allocator.{SimpleAllocator, msg_len}
use cloud_probe.Allocator.Accounts.{alloc_packet, total, step, Accounts, step-Accounts}

abbrev small_header : PktHdr
small_header = record { ts = record { tv_sec = 1; tv_usec = 0 }; caplen = 2; len = 60 }

abbrev one_heartbeat : List (RingMsg ℕ)
one_heartbeat = heartbeat none 7 ∷ []

abbrev used_48 : SimpleAllocator
used_48 = record { capacity = 100; used = 48 }

used_48-Accounts : Accounts used_48 one_heartbeat
unfolding total msg_len
used_48-Accounts = record { counted = omega arith; small = omega arith; bounded = omega arith }

step-Accounts_example :
    let (a', ms') = step used_48 one_heartbeat (alloc_packet small_header (1 ∷ 2 ∷ []) true) in
    Accounts a' ms' × ((a'.used ≤ 48) ⊎ (a'.used ≤ 100))
step-Accounts_example =
    step-Accounts used_48 one_heartbeat (alloc_packet small_header (1 ∷ 2 ∷ []) true) (omega arith)
      used_48-Accounts
