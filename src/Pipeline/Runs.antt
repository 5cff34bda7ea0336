-- ===== src/Pipeline/Runs.antt =====
-- Runs of the two threads beside the run-to-completion callbacks, and what an allocation, a push and a
-- pop give (cpworker/src/task.c).
use cloud_probe.Prelude.{
  ℕ, ◌≡◌, refl, ap, arith, ◌⊎◌, List, [], ◌∷◌, ◌++◌, Bool, true, false, if◌then◌else◌, if_both,
  Option, none, some, take, ltb, inl, inr, ◌+◌, u64,
}
use cloud_probe.Packet.{PktDir, PktHdr, RingMsg, packet, heartbeat}
use cloud_probe.Ring.Refine.{queue_push, queue_pop}
use cloud_probe.Allocator.{SimpleAllocator, simple_alloc_packet, simple_alloc_heartbeat, msg_size}
use cloud_probe.Pipeline.{
  CaptureTask, Arrival, packet_cb, heartbeat_cb, Capture, waiting, allocating, pushing, Pipe, Turn,
  arrives, alloc_turn, push_turn, output_turn, rtc, output_send_pkt_msg, step,
}

module _ {W : Type 0} where
  -- The messages delivered one after the other.
  unfoldable pub deliver_all : List (RingMsg (CaptureTask W)) → W → W
  deliver_all [] w = w
  deliver_all (m ∷ ms) w = deliver_all ms (output_send_pkt_msg m w)

  pub deliver_all-append :
      (ms ns : List (RingMsg (CaptureTask W))) (w : W)
      → deliver_all (ms ++ ns) w ≡ deliver_all ns (deliver_all ms w)
  unfolding deliver_all
  deliver_all-append [] ns w = refl
  deliver_all-append (m ∷ ms) ns w = deliver_all-append ms ns (output_send_pkt_msg m w)

  -- What the capture thread has in hand, delivered.
  unfoldable pub in_hand : Capture W → W → W
  in_hand waiting w = w
  in_hand (allocating a) w = rtc a w
  in_hand (pushing m) w = output_send_pkt_msg m w

  -- The bytes of a packet are those that were captured.
  abbrev pub IsWhole : Arrival W → Type 0
  IsWhole (packet_cb task header pkt_data direct) = take header.caplen pkt_data ≡ pkt_data
  IsWhole (heartbeat_cb task now) = Unit {0}

  abbrev pub AllWhole : List (Turn W) → Type 0
  AllWhole [] = Unit {0}
  AllWhole (arrives a ∷ ts) = IsWhole a × AllWhole ts
  AllWhole (alloc_turn m ∷ ts) = AllWhole ts
  AllWhole (push_turn ∷ ts) = AllWhole ts
  AllWhole (output_turn ∷ ts) = AllWhole ts

  -- The capture thread waits for memory only with a packet that is not too short.
  abbrev pub IsReady : Arrival W → Type 0
  IsReady (packet_cb task header pkt_data direct) =
      (take header.caplen pkt_data ≡ pkt_data) × (ltb header.caplen 14 ≡ false)
  IsReady (heartbeat_cb task now) = Unit {0}

  abbrev pub HoldsReady : Capture W → Type 0
  HoldsReady waiting = Unit {0}
  HoldsReady (allocating a) = IsReady a
  HoldsReady (pushing m) = Unit {0}

  -- The callbacks that are called while the capture thread is between two of them, run to completion.
  unfoldable pub rtc_step : Turn W → Capture W → W → W
  rtc_step (arrives a) waiting r = rtc a r
  rtc_step (arrives a) (allocating b) r = r
  rtc_step (arrives a) (pushing m) r = r
  rtc_step (alloc_turn malloc_ok) c r = r
  rtc_step push_turn c r = r
  rtc_step output_turn c r = r

  unfoldable pub run : List (Turn W) → Pipe W → Pipe W
  run [] p = p
  run (t ∷ ts) p = run ts (step t p)

  unfoldable pub rtc_run : List (Turn W) → Pipe W → W → W
  rtc_run [] p r = r
  rtc_run (t ∷ ts) p r = rtc_run ts (step t p) (rtc_step t p.capture r)

  pub alloc_packet-out :
      (alloc : SimpleAllocator) (header : PktHdr) (pkt_data : List ℕ) (malloc_ok : Bool)
      → ((simple_alloc_packet {U = CaptureTask W} alloc header pkt_data malloc_ok).1 ≡ none)
        ⊎ ((simple_alloc_packet {U = CaptureTask W} alloc header pkt_data malloc_ok).1
            ≡ some (packet none PktDir.noncheck header (take header.caplen pkt_data)))
  unfolding simple_alloc_packet
  alloc_packet-out alloc header pkt_data malloc_ok =
      if_both P (ltb alloc.capacity (u64 (alloc.used + u64 (msg_size + header.caplen))))
        (λ _. inl refl) (λ _. if_both P malloc_ok (λ _. inr refl) (λ _. inl refl))
    where
      P : SimpleAllocator × Option (RingMsg (CaptureTask W)) → Type 0
      P v =
          (v.1 ≡ none)
          ⊎ (v.1 ≡ some (packet none PktDir.noncheck header (take header.caplen pkt_data)))

  pub alloc_heartbeat-out :
      (alloc : SimpleAllocator) (ts : ℕ) (malloc_ok : Bool)
      → ((simple_alloc_heartbeat {U = CaptureTask W} alloc ts malloc_ok).1 ≡ none)
        ⊎ ((simple_alloc_heartbeat {U = CaptureTask W} alloc ts malloc_ok).1
            ≡ some (heartbeat none ts))
  unfolding simple_alloc_heartbeat
  alloc_heartbeat-out alloc ts malloc_ok =
      if_both P (ltb alloc.capacity (u64 (alloc.used + msg_size))) (λ _. inl refl)
        (λ _. if_both P malloc_ok (λ _. inr refl) (λ _. inl refl))
    where
      P : SimpleAllocator × Option (RingMsg (CaptureTask W)) → Type 0
      P v = (v.1 ≡ none) ⊎ (v.1 ≡ some (heartbeat none ts))

  -- What a push and a pop do to the contents.
  pub pushed-contents :
      (c l : List (RingMsg (CaptureTask W))) (m : RingMsg (CaptureTask W)) (good : Bool) (size : ℕ)
      → (c, good) ≡ queue_push size l m
      → if good then c ≡ l ++ m ∷ [] else c ≡ l
  unfolding queue_push
  pushed-contents c l m true size q = ground arith
  pushed-contents c l m false size q = ground arith

  pub popped-none : (c l : List (RingMsg (CaptureTask W))) → (c, none) ≡ queue_pop l → c ≡ l
  unfolding queue_pop
  popped-none c [] q =
      ap (λ (v : List (RingMsg (CaptureTask W)) × Option (RingMsg (CaptureTask W))). v.0) q
  popped-none c (x ∷ l) q = ground arith

  pub popped-some :
      (c l : List (RingMsg (CaptureTask W))) (m : RingMsg (CaptureTask W))
      → (c, some m) ≡ queue_pop l
      → l ≡ m ∷ c
  unfolding queue_pop
  popped-some c [] m q = ground arith
  popped-some c (x ∷ l) m q = ground arith
