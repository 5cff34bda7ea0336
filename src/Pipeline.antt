-- ===== src/Pipeline.antt =====
-- How a captured packet comes to the outputs in cpworker/src/task.c: at once, in the run-to-completion
-- model, or through the ring to the output thread, in the pipeline model. What the outputs change is
-- of type `W`. Each turn of one of the two threads is one step: the capture thread's wait for memory
-- and for room in the ring is a turn that is taken again.
pub mod Runs
pub mod Delivery
mod Examples
use cloud_probe.Prelude.{ℕ, List, [], ◌∷◌, Bool, ltb, if◌then◌else◌, Option, none, some}
use cloud_probe.Packet.{PktDir, PktHdr, RingMsg, packet, heartbeat}
use cloud_probe.Ring.{SpscRing, spsc_ring_push, spsc_ring_pop}
use cloud_probe.Allocator.{
  SimpleAllocator, simple_alloc_packet, simple_alloc_heartbeat, simple_msg_free,
}

-- `output_base_t`
pub record OutputBase (W : Type 0) : Type 0 where
  pub send_packet : W → PktHdr → List ℕ → PktDir → W
  pub heartbeat_fn : Option (W → ℕ → W)

-- `capture_task_t`, less its capturer.
pub record CaptureTask (W : Type 0) : Type 0 where
  pub outputs : List (OutputBase W)

-- A call of one of the two callbacks, with what `time` gives for a heartbeat.
pub data Arrival (W : Type 0) : Type 0 where
  packet_cb : CaptureTask W → PktHdr → List ℕ → PktDir → Arrival W
  heartbeat_cb : CaptureTask W → ℕ → Arrival W

-- The capture thread: between two callbacks, or in the loop for memory, or in that for the ring.
pub data Capture (W : Type 0) : Type 0 where
  waiting : Capture W
  allocating : Arrival W → Capture W
  pushing : RingMsg (CaptureTask W) → Capture W

pub record Pipe (W : Type 0) : Type 0 where
  pub capture : Capture W
  pub ring : SpscRing (RingMsg (CaptureTask W))
  pub alloc : SimpleAllocator
  pub world : W

-- One turn: a callback is called, an allocation or a push is tried, or the output thread looks into
-- the ring. The flag is malloc's.
pub data Turn (W : Type 0) : Type 0 where
  arrives : Arrival W → Turn W
  alloc_turn : Bool → Turn W
  push_turn output_turn : Turn W

module _ {W : Type 0} where
  pub output_heartbeat : Option (W → ℕ → W) → W → ℕ → W
  output_heartbeat none w now = w
  output_heartbeat (some f) w now = f w now

  pub send_to_all : List (OutputBase W) → W → PktHdr → List ℕ → PktDir → W
  send_to_all [] w header pkt_data direct = w
  send_to_all (o ∷ os) w header pkt_data direct =
      send_to_all os (o.send_packet w header pkt_data direct) header pkt_data direct

  pub heartbeat_all : List (OutputBase W) → W → ℕ → W
  heartbeat_all [] w now = w
  heartbeat_all (o ∷ os) w now = heartbeat_all os (output_heartbeat o.heartbeat_fn w now) now

  -- The callbacks of the run-to-completion model.
  pub rtc_capture_task_packet_cb : CaptureTask W → W → PktHdr → List ℕ → PktDir → W
  rtc_capture_task_packet_cb task w header pkt_data direct =
      if ltb header.caplen 14 then w else send_to_all task.outputs w header pkt_data direct

  pub rtc_capture_task_heartbeat_cb : CaptureTask W → W → ℕ → W
  rtc_capture_task_heartbeat_cb task w now = heartbeat_all task.outputs w now

  unfoldable pub rtc : Arrival W → W → W
  unfolding rtc_capture_task_packet_cb rtc_capture_task_heartbeat_cb
  rtc (packet_cb task header pkt_data direct) w =
      rtc_capture_task_packet_cb task w header pkt_data direct
  rtc (heartbeat_cb task now) w = rtc_capture_task_heartbeat_cb task w now

  -- `output_send_pkt_msg` with the task that the message names.
  pub output_send_pkt_msg : RingMsg (CaptureTask W) → W → W
  output_send_pkt_msg (packet (some task) direct header pkt_data) w =
      send_to_all task.outputs w header pkt_data direct
  output_send_pkt_msg (packet none direct header pkt_data) w = w
  output_send_pkt_msg (heartbeat (some task) ts) w = heartbeat_all task.outputs w ts
  output_send_pkt_msg (heartbeat none ts) w = w

  -- The start of `pipeline_capture_task_packet_cb` and of `pipeline_capture_task_heartbeat_cb`.
  pub start_callback : Arrival W → Capture W
  start_callback (packet_cb task header pkt_data direct) =
      if ltb header.caplen 14 then waiting else allocating (packet_cb task header pkt_data direct)
  start_callback (heartbeat_cb task now) = allocating (heartbeat_cb task now)

  -- The fields that the callbacks set in a new message.
  pub address : CaptureTask W → PktDir → RingMsg (CaptureTask W) → RingMsg (CaptureTask W)
  address task direct (packet user d header pkt_data) = packet (some task) direct header pkt_data
  address task direct (heartbeat user ts) = heartbeat (some task) ts

  pub allocated : Arrival W → SimpleAllocator × Option (RingMsg (CaptureTask W)) → Pipe W → Pipe W
  allocated (packet_cb task header pkt_data direct) (alloc, some m) p = record p {
    alloc = alloc;
    capture = pushing (address task direct m);
  }
  allocated (heartbeat_cb task now) (alloc, some m) p = record p {
    alloc = alloc;
    capture = pushing (address task PktDir.noncheck m);
  }
  allocated a (alloc, none) p = record p { alloc = alloc }

  pub try_alloc : Bool → Capture W → Pipe W → Pipe W
  try_alloc malloc_ok (allocating (packet_cb task header pkt_data direct)) p =
      allocated (packet_cb task header pkt_data direct)
        (simple_alloc_packet p.alloc header pkt_data malloc_ok) p
  try_alloc malloc_ok (allocating (heartbeat_cb task now)) p =
      allocated (heartbeat_cb task now) (simple_alloc_heartbeat p.alloc now malloc_ok) p
  try_alloc malloc_ok waiting p = p
  try_alloc malloc_ok (pushing m) p = p

  pub try_push : Capture W → Pipe W → Pipe W
  try_push (pushing m) p =
      let (ring, good) = spsc_ring_push p.ring m in
      record p { ring = ring; capture = if good then waiting else pushing m }
  try_push waiting p = p
  try_push (allocating a) p = p

  -- A turn of `task_manager_output_loop`, and of the loop that drains the ring.
  pub output_popped : Option (RingMsg (CaptureTask W)) → Pipe W → Pipe W
  output_popped none p = p
  output_popped (some m) p = record p {
    world = output_send_pkt_msg m p.world;
    alloc = simple_msg_free p.alloc m;
  }

  pub output_loop_turn : Pipe W → Pipe W
  output_loop_turn p =
      let (ring, out) = spsc_ring_pop p.ring in output_popped out (record p { ring = ring })

  -- A callback is called only between two others.
  pub call_back : Arrival W → Capture W → Pipe W → Pipe W
  call_back a waiting p = record p { capture = start_callback a }
  call_back a (allocating b) p = p
  call_back a (pushing m) p = p

  pub step : Turn W → Pipe W → Pipe W
  step (arrives a) p = call_back a p.capture p
  step (alloc_turn malloc_ok) p = try_alloc malloc_ok p.capture p
  step push_turn p = try_push p.capture p
  step output_turn p = output_loop_turn p
