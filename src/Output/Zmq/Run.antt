-- ===== src/Output/Zmq/Run.antt =====
-- Runs of the ZeroMQ output (cpworker/src/output_zmq.c) with its receiver (cptools/recvzmq/main.c).
use cloud_probe.Prelude.{ℕ, ◌≤◌, List, [], ◌∷◌, ◌++◌, length, Bool, if◌then◌else◌, ◌&&◌, ltb}
use cloud_probe.RateLimit.{Timeval}
use cloud_probe.Packet.{PktDir, PktHdr}
use cloud_probe.Output.{output_frame_len}
use cloud_probe.Output.Zmq.{
  ZmqOutput, max_frame_len, l2_header_len, zmq_frame_len, zmq_flush_if_stale, zmq_send_packet,
  zmq_heartbeat, coarse_due, heartbeat_due,
}
use cloud_probe.Receiver.Reading.{Frame}
use cloud_probe.Output.Zmq.Feed.{sent_frame, sent_heartbeat}
use cloud_probe.Output.Zmq.Stream.{keep_in_order, Feeds}

-- A call of the output: a packet, or the time for a heartbeat with what `gettimeofday` gives.
pub data Call : Type 0 where
  send : PktHdr → List ℕ → PktDir → Call
  beat : ℕ → Timeval → Call

-- The captured bytes of each packet are there.
abbrev pub AllCaptured : List Call → Type 0
AllCaptured [] = Unit
AllCaptured (send header p d ∷ cs) = (header.caplen ≤ length p) × AllCaptured cs
AllCaptured (beat now tv ∷ cs) = AllCaptured cs

-- The output, the messages of the socket, and the frames that were taken.
pub record Run : Type 0 where
  pub output : ZmqOutput
  pub messages : List (List ℕ)
  pub taken : List Frame

-- Whether a heartbeat goes out, after a stale batch.
pub beats : ZmqOutput → List (List ℕ) → ℕ → Timeval → Bool
beats o w now tv =
    let o' = (zmq_flush_if_stale keep_in_order o w now).0 in
    ltb 0 o'.heartbeat_ms && (coarse_due o' now && heartbeat_due o' tv)

-- The frame that a packet goes out in.
pub frame_of : ZmqOutput → PktHdr → List ℕ → PktDir → Frame
frame_of o header p d =
    let l2 = l2_header_len p (output_frame_len header.caplen 0 max_frame_len) in
    sent_frame o.service_tag header p l2 (zmq_frame_len header.caplen o.slice l2) d

-- A packet that is taken, with the return value 0, is a frame more, and so is a heartbeat.
pub call : (ℕ → ℕ → ℕ) → Call → Run → Run
call part (send header p d) s =
    let (o, w, good) = zmq_send_packet keep_in_order part s.output s.messages header p d in
    record {
      output = o;
      messages = w;
      taken = if good then s.taken ++ frame_of s.output header p d ∷ [] else s.taken;
    }
call part (beat now tv) s =
    let (o, w) = zmq_heartbeat keep_in_order s.output s.messages now tv in
    record {
      output = o;
      messages = w;
      taken =
          if beats s.output s.messages now tv then s.taken ++ sent_heartbeat tv ∷ [] else s.taken;
    }

unfoldable pub run : (ℕ → ℕ → ℕ) → List Call → Run → Run
run part [] s = s
run part (c ∷ cs) s = run part cs (call part c s)

module _ {W : Type 0} (pcap_dump : W → PktHdr → List ℕ → W) (v : W) (tag : ℕ) where
  abbrev FeedsOf : ZmqOutput × List (List ℕ) → List Frame → Type 0
  FeedsOf r fs = Feeds pcap_dump v tag r.0 r.1 fs
