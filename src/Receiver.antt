-- ===== src/Receiver.antt =====
-- cptools/recvzmq/main.c, the receiver of the ZeroMQ messages: a message is taken apart, and its packets
-- are written to a capture file. `pcap_dump` of libpcap is a parameter, on a state `W` of what is
-- outside. Texts of errors are left out, and so is the printed line with the UUID, whose text is
-- `bytes_to_uuid`. A read outside of the message is `fault`.
pub mod Reading
mod Examples
use cloud_probe.Prelude.{
  ℕ, zero, suc, ◌+◌, ◌-◌, ◌*◌, ◌/◌, ◌%◌, ◌^◌, List, [], ◌∷◌, ◌++◌, slice, drop, length, Bool, ltb,
  if◌then◌else◌, Option, none, some, u64,
}
use cloud_probe.Prelude.Outcome.{
  Outcome, ok, rejected, fault, out_of_fuel, ◌>>=◌, ◌>>◌, reject_if, read16, read_bytes,
}
use cloud_probe.Packet.{PktHdr}

-- "0123456789abcdef"[n]
unfoldable pub hex_char : ℕ → ℕ
hex_char n = if ltb n 10 then b'0' + n else b'a' + (n - 10)

-- The loop that fills `hex_chars`.
unfoldable pub hex_chars : List ℕ → List ℕ
hex_chars [] = []
hex_chars (b ∷ bs) = hex_char (b / 16) ∷ hex_char (b % 16) ∷ hex_chars bs

unfoldable pub bytes_to_uuid : List ℕ → List ℕ
bytes_to_uuid uuid_bytes =
    let hex = hex_chars uuid_bytes in
    slice hex 0 8
    ++ (b'-'
        ∷ (slice hex 8 4
            ++ (b'-' ∷ (slice hex 12 4 ++ (b'-' ∷ (slice hex 16 4 ++ (b'-' ∷ slice hex 20 12)))))))

-- `ntohl` of a field.
unfoldable pub read32 : List ℕ → ℕ → Outcome ℕ
read32 bs i = do hi ← read16 bs i; lo ← read16 bs (i + 2); ok (hi * 65536 + lo)

-- What the loop reads of a packet: its header, and where its bytes are.
pub record PktAt : Type 0 where
  pub header : PktHdr
  pub data_at : ℕ
  pub data_len : ℕ

-- `msg_size - msg_offset` of type size_t.
pub remain_size : List ℕ → ℕ → ℕ
remain_size msg msg_offset = u64 (length msg + 2 ^ 64 - msg_offset)

pub read_pkt : List ℕ → ℕ → Outcome PktAt
read_pkt msg msg_offset = do
  reject_if (ltb (remain_size msg msg_offset) 18)
  pkt_data_len ← read16 msg msg_offset
  reject_if (ltb (remain_size msg (msg_offset + 18)) pkt_data_len)
  tv_sec ← read32 msg (msg_offset + 2)
  tv_usec ← read32 msg (msg_offset + 6)
  caplen ← read32 msg (msg_offset + 10)
  len ← read32 msg (msg_offset + 14)
  ok record {
    header = record {
      ts = record { tv_sec = tv_sec; tv_usec = tv_usec };
      caplen = caplen;
      len = len;
    };
    data_at = msg_offset + 18;
    data_len = pkt_data_len;
  }

module _ {W : Type 0} where
  -- What is outside, and whether the code goes on.
  abbrev pub after_ok :
      W × Outcome (Unit {0}) → (W → W × Outcome (Unit {0})) → W × Outcome (Unit {0})
  after_ok (w, ok u) f = f w
  after_ok (w, rejected) f = (w, rejected)
  after_ok (w, fault) f = (w, fault)
  after_ok (w, out_of_fuel) f = (w, out_of_fuel)

  -- What is read is handed on, or the loop ends with `return -1`.
  abbrev pub with_pkt :
      Outcome PktAt → W → (PktAt → W × Outcome (Unit {0})) → W × Outcome (Unit {0})
  with_pkt (ok p) w f = f p
  with_pkt rejected w f = (w, rejected)
  with_pkt fault w f = (w, fault)
  with_pkt out_of_fuel w f = (w, out_of_fuel)

  module _ (pcap_dump : W → PktHdr → List ℕ → W) where
    -- `pcap_dump` reads `caplen` bytes.
    pub dump_read : W → PktHdr → Outcome (List ℕ) → W × Outcome (Unit {0})
    dump_read w header (ok bytes) = (pcap_dump w header bytes, ok tt)
    dump_read w header rejected = (w, rejected)
    dump_read w header fault = (w, fault)
    dump_read w header out_of_fuel = (w, out_of_fuel)

    -- `file_write_packet` with the pointer `msg_data + offset`.
    pub write_packet : W → PktHdr → List ℕ → ℕ → W × Outcome (Unit {0})
    write_packet w header msg offset = dump_read w header (read_bytes msg offset header.caplen)

    -- Where there is no output the packets are only counted.
    pub send_if : Bool → W → PktAt → List ℕ → W × Outcome (Unit {0})
    send_if output w p msg = if output then write_packet w p.header msg p.data_at else (w, ok tt)

    pub pkt_loop : ℕ → Bool → List ℕ → ℕ → W → W × Outcome (Unit {0})
    pkt_loop zero output msg msg_offset w = (w, ok tt)
    pkt_loop (suc k) output msg msg_offset w =
        with_pkt (read_pkt msg msg_offset) w
          λ p. after_ok (send_if output w p msg) (pkt_loop k output msg (p.data_at + p.data_len))

    abbrev pub start_loop : Outcome ℕ → Bool → List ℕ → W → W × Outcome (Unit {0})
    start_loop (ok pkts_num) output msg w = pkt_loop pkts_num output msg 24 w
    start_loop rejected output msg w = (w, rejected)
    start_loop fault output msg w = (w, fault)
    start_loop out_of_fuel output msg w = (w, out_of_fuel)

    pub handle_zmq_msg : Bool → List ℕ → W → W × Outcome (Unit {0})
    handle_zmq_msg output msg w =
        if ltb (length msg) 24 then (w, rejected) else start_loop (read16 msg 2) output msg w

    -- The loop of `main` over the messages that arrive: it ends at the first error.
    unfoldable pub receive : Bool → List (List ℕ) → W → W × Outcome (Unit {0})
    receive output [] w = (w, ok tt)
    receive output (msg ∷ msgs) w = after_ok (handle_zmq_msg output msg w) (receive output msgs)
