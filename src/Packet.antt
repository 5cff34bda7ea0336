-- ===== src/Packet.antt =====
-- What every part of cpworker passes along: cpworker/src/pkt_dir.h, the libpcap packet header, and
-- the message of the ring in cpworker/src/ring_buffer.h.
use cloud_probe.Prelude.{ℕ, List, Option}
use cloud_probe.RateLimit.{Timeval}

-- The values of PKT_DIR_*: -1, 0, 1 and 2.
pub data PktDir : Type 0 where
  unknown noncheck incoming outgoing : PktDir

-- `struct pcap_pkthdr`
pub record PktHdr : Type 0 where
  pub ts : Timeval
  pub caplen : ℕ
  pub len : ℕ

-- `ring_msg_t`; the pointer `user` to the capture task is of type `U`.
pub data RingMsg (U : Type 0) : Type 0 where
  packet : Option U → PktDir → PktHdr → List ℕ → RingMsg U
  heartbeat : Option U → ℕ → RingMsg U
