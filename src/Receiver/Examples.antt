-- ===== src/Receiver/Examples.antt =====
-- A message of cptools/recvzmq/main.c with a capture length that it does not hold.
use cloud_probe.Prelude.{ℕ, ◌≡◌, refl, List, [], ◌∷◌, ◌++◌, replicate, true, arith}
use cloud_probe.Prelude.Outcome.{fault}
use cloud_probe.Packet.{PktHdr}
use cloud_probe.Receiver.{handle_zmq_msg}
use cloud_probe.Receiver.Reading.{Frame, encode, handle_zmq_msg-overread}

-- Two bytes, said to be a hundred.
abbrev boastful : Frame
boastful = record {
  header = record { ts = record { tv_sec = 1; tv_usec = 2 }; caplen = 100; len = 100 };
  bytes = 7 ∷ 8 ∷ [];
}

-- One packet.
abbrev one_packet : List ℕ
one_packet = 0 ∷ 2 ∷ 0 ∷ 1 ∷ replicate 20 0

abbrev count_packets : ℕ → PktHdr → List ℕ → ℕ
count_packets n header bytes = n

handle_zmq_msg-overread_example :
    handle_zmq_msg count_packets true (one_packet ++ (encode boastful ++ [])) 0 ≡ (0, fault)
handle_zmq_msg-overread_example =
    handle_zmq_msg-overread count_packets one_packet [] boastful 0 refl (omega arith)
      (record {
        short = omega arith;
        sec = omega arith;
        usec = omega arith;
        cap = omega arith;
        wire = omega arith;
      })
      (omega arith) (omega arith)
