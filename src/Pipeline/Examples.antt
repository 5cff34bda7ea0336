-- ===== src/Pipeline/Examples.antt =====
-- Three packets through a small ring (cpworker/src/task.c).
use cloud_probe.Prelude.{ℕ, ◌≡◌, refl, List, [], ◌∷◌, true, none, some, arith}
use cloud_probe.Packet.{incoming, PktHdr, heartbeat}
use cloud_probe.Ring.{spsc_ring_create}
use cloud_probe.Ring.Refine.{create-IsValid}
use cloud_probe.Pipeline.{
  OutputBase, CaptureTask, packet_cb, heartbeat_cb, waiting, Pipe, Turn, arrives, alloc_turn,
  push_turn, output_turn,
}
use cloud_probe.Pipeline.Runs.{run, rtc_run}
use cloud_probe.Pipeline.Delivery.{owed, run-rtc_run}

-- An output that keeps the first byte and the direction's packet length.
abbrev keep_bytes : OutputBase (List (List ℕ))
keep_bytes = record {
  send_packet = λ w header pkt_data direct. pkt_data ∷ w;
  heartbeat_fn = some (λ w now. (now ∷ []) ∷ w);
}

abbrev task : CaptureTask (List (List ℕ))
task = record { outputs = keep_bytes ∷ [] }

abbrev header : PktHdr
header = record { ts = record { tv_sec = 5; tv_usec = 0 }; caplen = 14; len = 60 }

abbrev frame : ℕ → List ℕ
frame b = b ∷ 1 ∷ 2 ∷ 3 ∷ 4 ∷ 5 ∷ 6 ∷ 7 ∷ 8 ∷ 9 ∷ 10 ∷ 11 ∷ 12 ∷ 13 ∷ []

abbrev fresh_pipe : Pipe (List (List ℕ))
fresh_pipe = record {
  capture = waiting;
  ring = spsc_ring_create (heartbeat none 0) 2;
  alloc = record { capacity = 100; used = 0 };
  world = [];
}

-- The ring is full once and the budget once.
abbrev turns : List (Turn (List (List ℕ)))
turns =
    arrives (packet_cb task header (frame 1) incoming)
    ∷ alloc_turn true
    ∷ push_turn
    ∷ arrives (heartbeat_cb task 9)
    ∷ alloc_turn true
    ∷ push_turn
    ∷ output_turn
    ∷ alloc_turn true
    ∷ push_turn
    ∷ push_turn
    ∷ arrives (packet_cb task header (frame 2) incoming)
    ∷ output_turn
    ∷ []

run-rtc_run_example :
    owed (heartbeat none 0) (run turns fresh_pipe)
    ≡ rtc_run turns fresh_pipe (owed (heartbeat none 0) fresh_pipe)
run-rtc_run_example =
    run-rtc_run (heartbeat none 0) turns fresh_pipe
      (create-IsValid (heartbeat none 0) 2 (omega arith)).0 tt (refl, (tt, (refl, tt)))
