-- ===== src/Pipeline/Delivery.antt =====
-- What the output thread has delivered and what is on its way, beside the run-to-completion callbacks
-- (cpworker/src/task.c).
use cloud_probe.Prelude.{
  ℕ, ◌≡◌, refl, sym, ap, ◌∙◌, ◌⊎◌, List, [], ◌∷◌, Bool, true, false, if◌then◌else◌, if_both, Option,
  none, some, take, ltb, inl, inr,
}
use mathlib.Core.Path.{subst}
use mathlib.Core.Option.{some-injective}
use cloud_probe.Packet.{PktDir, PktHdr, RingMsg, packet, heartbeat}
use cloud_probe.Ring.{SpscRing, spsc_ring_push, spsc_ring_pop}
use cloud_probe.Ring.Refine.{IsValid, contents, queue_push, queue_pop, push_refines, pop_refines}
use cloud_probe.Allocator.{SimpleAllocator}
use cloud_probe.Pipeline.{
  CaptureTask, Arrival, packet_cb, heartbeat_cb, Capture, waiting, allocating, pushing, Pipe, Turn,
  arrives, alloc_turn, push_turn, output_turn, rtc, rtc_capture_task_packet_cb,
  rtc_capture_task_heartbeat_cb, output_send_pkt_msg, start_callback, address, allocated, try_alloc,
  try_push, output_popped, output_loop_turn, call_back, step,
}
use cloud_probe.Pipeline.Runs.{
  deliver_all, deliver_all-append, in_hand, IsWhole, AllWhole, IsReady, HoldsReady, rtc_step, run,
  rtc_run, alloc_packet-out, alloc_heartbeat-out, pushed-contents, popped-none, popped-some,
}

module _ {W : Type 0} (null : RingMsg (CaptureTask W)) where
  -- What the outputs become when all is delivered that is on its way.
  pub owed : Pipe W → W
  owed p = in_hand p.capture (deliver_all (contents null p.ring) p.world)

  record Follows (p : Pipe W) (r : W) : Type 0 where
    valid : IsValid p.ring
    ready : HoldsReady p.capture
    same : owed p ≡ r

  -- A packet too short for an Ethernet header is dropped by both.
  start_callback-rtc : (a : Arrival W) (w : W) → in_hand (start_callback a) w ≡ rtc a w
  unfolding in_hand start_callback rtc rtc_capture_task_packet_cb
  start_callback-rtc (packet_cb task header pkt_data direct) w =
      if_both (λ (c : Capture W). in_hand c w ≡ rtc (packet_cb task header pkt_data direct) w)
        (ltb header.caplen 14) (λ e. rw e refl) (λ e. refl)
  start_callback-rtc (heartbeat_cb task now) w = refl

  start_callback-Ready : (a : Arrival W) → IsWhole a → HoldsReady (start_callback a)
  unfolding start_callback
  start_callback-Ready (packet_cb task header pkt_data direct) h =
      if_both HoldsReady (ltb header.caplen 14) (λ _. tt) (λ e. (h, e))
  start_callback-Ready (heartbeat_cb task now) h = tt

  call_back-Follows :
      (a : Arrival W) (p : Pipe W) (c : Capture W)
      → p.capture ≡ c
      → IsWhole a
      → Follows p (owed p)
      → Follows (call_back a c p) (rtc_step (arrives a) c (owed p))
  unfolding call_back rtc_step owed in_hand
  call_back-Follows a p waiting e h f = record {
    valid = f.valid;
    ready = start_callback-Ready a h;
    same =
        let d = deliver_all (contents null p.ring) p.world in
        start_callback-rtc a d ∙ ap (rtc a) (sym (ap (λ (c : Capture W). in_hand c d) e));
  }
  call_back-Follows a p (allocating b) e h f = f
  call_back-Follows a p (pushing m) e h f = f

  -- A message in hand, delivered, is its callback run to completion.
  sent_packet :
      (task : CaptureTask W) (header : PktHdr) (pkt_data : List ℕ) (direct : PktDir) (w : W)
      → IsReady (packet_cb task header pkt_data direct)
      → output_send_pkt_msg
          (address task direct (packet none PktDir.noncheck header (take header.caplen pkt_data)))
          w
        ≡ rtc (packet_cb task header pkt_data direct) w
  unfolding output_send_pkt_msg address rtc rtc_capture_task_packet_cb
  sent_packet task header pkt_data direct w (whole, long) = rw (long, whole) refl

  allocated_packet-Follows :
      (task : CaptureTask W) (header : PktHdr) (pkt_data : List ℕ) (direct : PktDir)
      (v : SimpleAllocator × Option (RingMsg (CaptureTask W))) (p : Pipe W)
      → p.capture ≡ allocating (packet_cb task header pkt_data direct)
      → Follows p (owed p)
      → (v.1 ≡ none)
        ⊎ (v.1 ≡ some (packet none PktDir.noncheck header (take header.caplen pkt_data)))
      → Follows (allocated (packet_cb task header pkt_data direct) v p) (owed p)
  unfolding allocated owed in_hand
  allocated_packet-Follows task header pkt_data direct (alloc, none) p e f o = record {
    valid = f.valid;
    ready = f.ready;
    same = refl;
  }
  allocated_packet-Follows task header pkt_data direct (alloc, some m) p e f (inl o) = cc
  allocated_packet-Follows task header pkt_data direct (alloc, some m) p e f (inr o) =
      let d = deliver_all (contents null p.ring) p.world in
      let ready : IsReady (packet_cb task header pkt_data direct) = subst HoldsReady e f.ready in
      record {
        valid = f.valid;
        ready = tt;
        same =
            ap (λ n. output_send_pkt_msg (address task direct n) d) (some-injective _ _ o)
            ∙ sent_packet task header pkt_data direct d ready
            ∙ sym (ap (λ (c : Capture W). in_hand c d) e);
      }

  allocated_heartbeat-Follows :
      (task : CaptureTask W) (now : ℕ) (v : SimpleAllocator × Option (RingMsg (CaptureTask W)))
      (p : Pipe W)
      → p.capture ≡ allocating (heartbeat_cb task now)
      → Follows p (owed p)
      → (v.1 ≡ none) ⊎ (v.1 ≡ some (heartbeat none now))
      → Follows (allocated (heartbeat_cb task now) v p) (owed p)
  unfolding allocated owed in_hand output_send_pkt_msg address rtc rtc_capture_task_heartbeat_cb
  allocated_heartbeat-Follows task now (alloc, none) p e f o = record {
    valid = f.valid;
    ready = f.ready;
    same = refl;
  }
  allocated_heartbeat-Follows task now (alloc, some m) p e f (inl o) = cc
  allocated_heartbeat-Follows task now (alloc, some m) p e f (inr o) =
      let d = deliver_all (contents null p.ring) p.world in
      record {
        valid = f.valid;
        ready = tt;
        same =
            ap (λ n. output_send_pkt_msg (address task PktDir.noncheck n) d) (some-injective _ _ o)
            ∙ sym (ap (λ (c : Capture W). in_hand c d) e);
      }

  try_alloc-Follows :
      (ok : Bool) (p : Pipe W) (c : Capture W)
      → p.capture ≡ c
      → Follows p (owed p)
      → Follows (try_alloc ok c p) (owed p)
  unfolding try_alloc
  try_alloc-Follows ok p waiting e f = f
  try_alloc-Follows ok p (pushing m) e f = f
  try_alloc-Follows ok p (allocating (packet_cb task header pkt_data direct)) e f =
      allocated_packet-Follows task header pkt_data direct _ p e f
        (alloc_packet-out p.alloc header pkt_data ok)
  try_alloc-Follows ok p (allocating (heartbeat_cb task now)) e f =
      allocated_heartbeat-Follows task now _ p e f (alloc_heartbeat-out p.alloc now ok)

  -- A push that is refused leaves the message in hand.
  pushed-Follows :
      (p : Pipe W) (m : RingMsg (CaptureTask W)) (v : SpscRing (RingMsg (CaptureTask W)) × Bool)
      → p.capture ≡ pushing m
      → IsValid v.0
      → (contents null v.0, v.1) ≡ queue_push p.ring.size (contents null p.ring) m
      → Follows (record p { ring = v.0; capture = if v.1 then waiting else pushing m }) (owed p)
  unfolding owed in_hand deliver_all
  pushed-Follows p m (ring, true) e v q =
      let old = contents null p.ring in
      let c = pushed-contents (contents null ring) old m true p.ring.size q in
      record {
        valid = v;
        ready = tt;
        same =
            ap (λ ms. deliver_all ms p.world) c
            ∙ deliver_all-append old (m ∷ []) p.world
            ∙ sym (ap (λ (c : Capture W). in_hand c (deliver_all old p.world)) e);
      }
  pushed-Follows p m (ring, false) e v q =
      let old = contents null p.ring in
      let c = pushed-contents (contents null ring) old m false p.ring.size q in
      record {
        valid = v;
        ready = tt;
        same =
            ap (λ ms. in_hand (pushing m) (deliver_all ms p.world)) c
            ∙ sym (ap (λ (c : Capture W). in_hand c (deliver_all old p.world)) e);
      }

  popped-Follows :
      (p : Pipe W) (v : SpscRing (RingMsg (CaptureTask W)) × Option (RingMsg (CaptureTask W)))
      → HoldsReady p.capture
      → IsValid v.0
      → (contents null v.0, v.1) ≡ queue_pop (contents null p.ring)
      → Follows (output_popped v.1 (record p { ring = v.0 })) (owed p)
  unfolding owed output_popped deliver_all
  popped-Follows p (ring, none) h v q = record {
    valid = v;
    ready = h;
    same = ap (λ ms. in_hand p.capture (deliver_all ms p.world)) (popped-none _ _ q);
  }
  popped-Follows p (ring, some m) h v q = record {
    valid = v;
    ready = h;
    same = sym (ap (λ ms. in_hand p.capture (deliver_all ms p.world)) (popped-some _ _ m q));
  }

  try_push-Follows :
      (p : Pipe W) (c : Capture W)
      → p.capture ≡ c
      → Follows p (owed p)
      → Follows (try_push c p) (owed p)
  unfolding try_push owed in_hand
  try_push-Follows p waiting e f = f
  try_push-Follows p (allocating a) e f = f
  try_push-Follows p (pushing m) e f =
      let (v, s, q) = push_refines null p.ring m f.valid in
      pushed-Follows p m (spsc_ring_push p.ring m) e v q

  output_loop_turn-Follows :
      (p : Pipe W) → Follows p (owed p) → Follows (output_loop_turn p) (owed p)
  unfolding output_loop_turn owed
  output_loop_turn-Follows p f =
      let (v, s, q) = pop_refines null p.ring f.valid in
      popped-Follows p (spsc_ring_pop p.ring) f.ready v q

  step-Follows :
      (t : Turn W) (p : Pipe W)
      → AllWhole (t ∷ [])
      → Follows p (owed p)
      → Follows (step t p) (rtc_step t p.capture (owed p))
  unfolding step rtc_step
  step-Follows (arrives a) p w f = call_back-Follows a p p.capture refl w.0 f
  step-Follows (alloc_turn malloc_ok) p w f = try_alloc-Follows malloc_ok p p.capture refl f
  step-Follows push_turn p w f = try_push-Follows p p.capture refl f
  step-Follows output_turn p w f = output_loop_turn-Follows p f

  AllWhole-head :
      (t : Turn W) (ts : List (Turn W)) → AllWhole (t ∷ ts) → AllWhole (t ∷ []) × AllWhole ts
  AllWhole-head (arrives a) ts (w, ws) = ((w, tt), ws)
  AllWhole-head (alloc_turn malloc_ok) ts w = (tt, w)
  AllWhole-head push_turn ts w = (tt, w)
  AllWhole-head output_turn ts w = (tt, w)

  -- In any order of the turns of the two threads, with any answers of malloc and any budget: what the
  -- outputs become once all that waits in the ring and in the capture thread is delivered is what the
  -- run-to-completion callbacks make of the same arrivals in the same order. The ring is valid and the
  -- capture thread between two callbacks at the start, and each packet has its captured bytes.
  pub run-rtc_run :
      (ts : List (Turn W)) (p : Pipe W)
      → IsValid p.ring
      → HoldsReady p.capture
      → AllWhole ts
      → owed (run ts p) ≡ rtc_run ts p (owed p)
  unfolding run rtc_run
  run-rtc_run [] p v h w = refl
  run-rtc_run (t ∷ ts) p v h w =
      let (one, rest) = AllWhole-head t ts w in
      let f = step-Follows t p one (record { valid = v; ready = h; same = refl }) in
      run-rtc_run ts (step t p) f.valid f.ready rest ∙ ap (λ r. rtc_run ts (step t p) r) f.same
