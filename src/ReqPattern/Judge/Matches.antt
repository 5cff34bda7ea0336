-- ===== src/ReqPattern/Judge/Matches.antt =====
-- What a pattern means, and the directions that follow from it.
use mathlib.Core.Path.{subst}
use mathlib.Core.Bool.{true≢false}
use cloud_probe.Prelude.{
  sym, and_true, or_true, slice, ℕ, ◌+◌, ◌≤◌, ◌≡◌, refl, ap, ap₂, ◌↔◌, inl, inr, List, [], ◌∷◌,
  true, false, ◌&&◌, ltb, ltb_false→le, ◌==◌, ==_iff, if◌then◌else◌, length, Bool-cases, arith, ◌∙◌,
}
use cloud_probe.Prelude.Outcome.{
  Outcome, ok, rejected, fault, out_of_fuel, read_bytes_ok, Ensures, Ensures-ne-fault,
  Ensures-ne-out_of_fuel,
}
use cloud_probe.Packet.{PktDir, unknown, noncheck, incoming, outgoing}
use cloud_probe.ReqPattern.Parser.{
  IpAddr, ipv4, ipv6, Node, host_condition, port_condition, operator, op_and, op_or,
}
use cloud_probe.ReqPattern.Layers.{Extracted}
use cloud_probe.ReqPattern.Layers.Safe.{HasIp, extract_ether-Ensures}
use cloud_probe.ReqPattern.Judge.{
  same_bytes, ip_addr_equal, evaluate, ReqPattern, none, auto, custom, judge_ends, judge_layers,
  nothing_yet, judge_pkt_direction,
}

-- The meaning of a pattern at an address and a port.
pub data Matches : Node → IpAddr → ℕ → Type 0 where
  is_host : {ip : IpAddr} {port : ℕ} → Matches (host_condition ip) ip port
  is_port : {ip : IpAddr} {port : ℕ} → Matches (port_condition port) ip port
  both :
      {l r : Node} {ip : IpAddr} {port : ℕ}
      → Matches l ip port
      → Matches r ip port
      → Matches (operator op_and l r) ip port
  this :
      {l r : Node} {ip : IpAddr} {port : ℕ}
      → Matches l ip port
      → Matches (operator op_or l r) ip port
  that :
      {l r : Node} {ip : IpAddr} {port : ℕ}
      → Matches r ip port
      → Matches (operator op_or l r) ip port

same_bytes_eq : (a b : List ℕ) → same_bytes a b ≡ true → a ≡ b
same_bytes_eq [] [] h = refl
same_bytes_eq [] (y ∷ b) h = cc
same_bytes_eq (x ∷ a) [] h = cc
same_bytes_eq (x ∷ a) (y ∷ b) h =
    let (e, es) = and_true (x == y) (same_bytes a b) h in
    ap₂ (λ (z : ℕ) zs. z ∷ zs) ((==_iff x y).0 e) (same_bytes_eq a b es)

same_bytes_refl : (a : List ℕ) → same_bytes a a ≡ true
same_bytes_refl [] = refl
same_bytes_refl (x ∷ a) = rw ((==_iff x x).1 refl) (same_bytes_refl a)

ip_addr_equal_eq : (a b : IpAddr) → ip_addr_equal a b ≡ true → a ≡ b
unfolding ip_addr_equal
ip_addr_equal_eq (ipv4 a) (ipv4 b) h = ap ipv4 (same_bytes_eq a b h)
ip_addr_equal_eq (ipv6 a) (ipv6 b) h = ap ipv6 (same_bytes_eq a b h)
ip_addr_equal_eq (ipv4 a) (ipv6 b) h = cc
ip_addr_equal_eq (ipv6 a) (ipv4 b) h = cc

ip_addr_equal_refl : (a : IpAddr) → ip_addr_equal a a ≡ true
unfolding ip_addr_equal
ip_addr_equal_refl (ipv4 a) = same_bytes_refl a
ip_addr_equal_refl (ipv6 a) = same_bytes_refl a

Matches-evaluate :
    {n : Node} {ip : IpAddr} {port : ℕ} → Matches n ip port → evaluate n ip port ≡ true
unfolding evaluate
Matches-evaluate (is_host {ip}) = ip_addr_equal_refl ip
Matches-evaluate (is_port {port = port}) = (==_iff port port).1 refl
Matches-evaluate (both h k) = rw (Matches-evaluate h) (Matches-evaluate k)
Matches-evaluate (this h) = rw (Matches-evaluate h) refl
Matches-evaluate (that {l} {ip = ip} {port = port} h) = elim (Bool-cases (evaluate l ip port)) [
  | inl e ↦ rw e refl
  | inr e ↦ rw e (Matches-evaluate h)
]

evaluate-Matches :
    (n : Node) (ip : IpAddr) (port : ℕ) → evaluate n ip port ≡ true → Matches n ip port
unfolding evaluate
evaluate-Matches (host_condition a) ip port h =
    subst (λ x. Matches (host_condition a) x port) (ip_addr_equal_eq a ip h) is_host
evaluate-Matches (port_condition p) ip port h =
    subst (λ x. Matches (port_condition p) ip x) ((==_iff p port).0 h) is_port
evaluate-Matches (operator op_and l r) ip port h =
    let (e, es) = and_true (evaluate l ip port) (evaluate r ip port) h in
    both (evaluate-Matches l ip port e) (evaluate-Matches r ip port es)
evaluate-Matches (operator op_or l r) ip port h =
    elim (or_true (evaluate l ip port) (evaluate r ip port) h) [
      | inl e ↦ this (evaluate-Matches l ip port e)
      | inr e ↦ that (evaluate-Matches r ip port e)
    ]

-- At every address and port, `evaluate` is true exactly if the pattern matches by its meaning.
pub evaluate_iff :
    (n : Node) (ip : IpAddr) (port : ℕ) → (evaluate n ip port ≡ true) ↔ Matches n ip port
evaluate_iff n ip port = (evaluate-Matches n ip port, Matches-evaluate)

-- The packet with its two ends exchanged.
abbrev pub reversed : Extracted → Extracted
reversed e = record e { sip = e.dip; sport = e.dport; dip = e.sip; dport = e.sport }

abbrev pub opposite : PktDir → PktDir
opposite incoming = outgoing
opposite outgoing = incoming
opposite unknown = unknown
opposite noncheck = noncheck

-- Unless both ends of a packet match a pattern, the packet with its ends exchanged is judged to have
-- the opposite direction.
judge_ends-reversed :
    (node : Node) (e : Extracted)
    → (evaluate node e.sip e.sport && evaluate node e.dip e.dport) ≡ false
    → judge_ends node (reversed e) ≡ opposite (judge_ends node e)
unfolding judge_ends
judge_ends-reversed node e h = elim (Bool-cases (evaluate node e.sip e.sport)) [
  | inl a ↦ elim (Bool-cases (evaluate node e.dip e.dport)) [
    | inl b ↦ absurd (true≢false (ap₂ (◌&&◌) (sym a) (sym b) ∙ h))
    | inr b ↦ simp (a, b)
  ]
  | inr a ↦ elim (Bool-cases (evaluate node e.dip e.dport)) [
    | inl b ↦ simp (a, b)
    | inr b ↦ simp (a, b)
  ]
]

judge_layers_total :
    (node : Node) (o : Outcome Extracted)
    → Ensures HasIp o
    → (d : PktDir) × (judge_layers node o ≡ ok d)
unfolding judge_layers
judge_layers_total node (ok e) h = (_, refl)
judge_layers_total node rejected h = (unknown, refl)
judge_layers_total node fault h = absurd (Ensures-ne-fault h refl)
judge_layers_total node out_of_fuel h = absurd (Ensures-ne-out_of_fuel h refl)

-- Every pattern judges a direction for every packet of which the captured bytes are there: no read is
-- outside them, and the nesting of VXLAN and VLAN headers comes to an end.
pub judge_pkt_direction-Ensures :
    (pattern : ReqPattern) (caplen : ℕ) (pkt_data : List ℕ)
    → caplen ≤ length pkt_data
    → (d : PktDir) × (judge_pkt_direction pattern caplen pkt_data ≡ ok d)
unfolding judge_pkt_direction
judge_pkt_direction-Ensures none caplen pkt_data inside = (noncheck, refl)
judge_pkt_direction-Ensures (auto mac) caplen pkt_data inside = elim (Bool-cases (ltb caplen 14)) [
  | inl short ↦ (unknown, rw short refl)
  | inr long ↦
      let long' = ltb_false→le caplen 14 long in
      (
        if same_bytes (slice pkt_data 6 6) mac then outgoing else incoming,
        rw long (rw (read_bytes_ok pkt_data 6 6 (omega arith)) refl),
      )
]
judge_pkt_direction-Ensures (custom node) caplen pkt_data inside = judge_layers_total node _ (
    extract_ether-Ensures pkt_data caplen inside (caplen + 5) 0 nothing_yet (omega arith)
      (omega arith))
