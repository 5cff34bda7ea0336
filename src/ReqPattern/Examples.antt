-- ===== src/ReqPattern/Examples.antt =====
-- A pattern of two conditions, and packets that it judges.
use cloud_probe.Prelude.{ℕ, ◌≡◌, ◌↔◌, List, [], ◌∷◌, true, Option, arith}
use cloud_probe.Prelude.Outcome.{ok, Ensures}
use cloud_probe.Packet.{PktDir}
use cloud_probe.ReqPattern.Parser.{
  IpAddr, ipv4, Node, host_condition, port_condition, operator, op_and, custom_matcher_init,
}
use cloud_probe.ReqPattern.Parser.Total.{custom_matcher_init-Ensures}
use cloud_probe.ReqPattern.Judge.{evaluate, custom, judge_pkt_direction}
use cloud_probe.ReqPattern.Judge.Matches.{Matches, evaluate_iff, judge_pkt_direction-Ensures}

-- An `inet_pton` that knows one address.
abbrev one_address : List ℕ → Option (List ℕ)
one_address v = Option.some (10 ∷ 0 ∷ 0 ∷ 1 ∷ [])

abbrev no_interface : List ℕ → Option IpAddr
no_interface v = Option.none

-- "host a and port 80"
abbrev pattern : List ℕ
pattern =
    104 ∷ 111 ∷ 115 ∷ 116 ∷ 32 ∷ 97 ∷ 32 ∷ 97 ∷ 110 ∷ 100 ∷ 32 ∷ 112 ∷ 111 ∷ 114 ∷ 116 ∷ 32 ∷ 56
    ∷ 48 ∷ []

abbrev node : Node
node = operator op_and (host_condition (ipv4 (10 ∷ 0 ∷ 0 ∷ 1 ∷ []))) (port_condition 80)

custom_matcher_init-Ensures_example :
    Ensures (λ n. Unit {0}) (custom_matcher_init no_interface one_address one_address pattern)
custom_matcher_init-Ensures_example =
    custom_matcher_init-Ensures no_interface one_address one_address pattern

evaluate_iff_example :
    (evaluate node (ipv4 (10 ∷ 0 ∷ 0 ∷ 1 ∷ [])) 80 ≡ true)
    ↔ Matches node (ipv4 (10 ∷ 0 ∷ 0 ∷ 1 ∷ [])) 80
evaluate_iff_example = evaluate_iff node (ipv4 (10 ∷ 0 ∷ 0 ∷ 1 ∷ [])) 80

abbrev frame : List ℕ
frame =
    1 ∷ 1 ∷ 1 ∷ 1 ∷ 1 ∷ 1 ∷ 2 ∷ 2 ∷ 2 ∷ 2 ∷ 2 ∷ 2 ∷ 8 ∷ 0 ∷ 0x45 ∷ 0 ∷ 0 ∷ 28 ∷ 0 ∷ 1 ∷ 0 ∷ 0 ∷ 64
    ∷ 17 ∷ 0 ∷ 0 ∷ 10 ∷ 0 ∷ 0 ∷ 1 ∷ 10 ∷ 0 ∷ 0 ∷ 2 ∷ 0 ∷ 80 ∷ 0 ∷ 99 ∷ 0 ∷ 8 ∷ 0 ∷ 0 ∷ []

judge_pkt_direction-Ensures_example :
    (d : PktDir) × (judge_pkt_direction (custom node) 42 frame ≡ ok d)
judge_pkt_direction-Ensures_example =
    judge_pkt_direction-Ensures (custom node) 42 frame (omega arith)
