-- ===== src/ReqPattern/Judge.antt =====
-- `evaluate` and `req_pattern_judge_pkt_direction` of cpworker/src/req_pattern.c, and `ip_addr_equal` of
-- cpworker/src/ip.c.
pub mod Matches
use cloud_probe.Prelude.{
  ℕ, ◌+◌, List, [], ◌∷◌, Bool, true, false, ◌&&◌, ◌||◌, ltb, ◌==◌, if◌then◌else◌, slice,
}
use cloud_probe.Prelude.Outcome.{Outcome, ok, rejected, fault, out_of_fuel, ◌>>=◌, read_bytes}
use cloud_probe.Packet.{PktDir, unknown, noncheck, incoming, outgoing}
use cloud_probe.ReqPattern.Parser.{
  IpAddr, ipv4, ipv6, Node, host_condition, port_condition, operator, op_and, op_or,
}
use cloud_probe.ReqPattern.Layers.{Extracted, extract_ether}

-- `memcmp(a, b, n) == 0` of two fields of one length.
abbrev pub same_bytes : List ℕ → List ℕ → Bool
same_bytes [] [] = true
same_bytes (x ∷ a) (y ∷ b) = x == y && same_bytes a b
same_bytes a b = false

unfoldable pub ip_addr_equal : IpAddr → IpAddr → Bool
ip_addr_equal (ipv4 a) (ipv4 b) = same_bytes a b
ip_addr_equal (ipv6 a) (ipv6 b) = same_bytes a b
ip_addr_equal a b = false

unfoldable pub evaluate : Node → IpAddr → ℕ → Bool
evaluate (host_condition addr) ip port = ip_addr_equal addr ip
evaluate (port_condition p) ip port = p == port
evaluate (operator op_and l r) ip port = evaluate l ip port && evaluate r ip port
evaluate (operator op_or l r) ip port = evaluate l ip port || evaluate r ip port

-- `req_pattern_t`
pub data ReqPattern : Type 0 where
  none : ReqPattern
  auto : List ℕ → ReqPattern
  custom : Node → ReqPattern

-- By the source first, then by the destination.
pub judge_ends : Node → Extracted → PktDir
judge_ends node e =
    if evaluate node e.sip e.sport
    then outgoing
    else if evaluate node e.dip e.dport
    then incoming
    else unknown

-- The addresses are not set before the flag says so; these stand for what the stack holds.
abbrev pub nothing_yet : Extracted
nothing_yet = record {
  has_ip = false;
  has_port = false;
  sip = ipv4 [];
  sport = 0;
  dip = ipv4 [];
  dport = 0;
}

-- `flags & IPPORT_FLAGS_IP` after the extraction.
pub judge_layers : Node → Outcome Extracted → Outcome PktDir
judge_layers node (ok e) = ok (if e.has_ip then judge_ends node e else unknown)
judge_layers node rejected = ok unknown
judge_layers node fault = fault
judge_layers node out_of_fuel = out_of_fuel

pub judge_pkt_direction : ReqPattern → ℕ → List ℕ → Outcome PktDir
judge_pkt_direction none caplen pkt_data = ok noncheck
judge_pkt_direction (auto mac_addr) caplen pkt_data =
    let compared = do
      shost ← read_bytes pkt_data 6 6
      ok (if same_bytes shost mac_addr then outgoing else incoming)
    in if ltb caplen 14 then ok unknown else compared
judge_pkt_direction (custom node) caplen pkt_data =
    judge_layers node (extract_ether (caplen + 5) pkt_data caplen 0 nothing_yet)
