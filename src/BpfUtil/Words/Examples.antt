-- ===== src/BpfUtil/Words/Examples.antt =====
-- A filter text with an interface (cpworker/src/bpf_util.c).
use cloud_probe.Prelude.{
  ℕ, ◌+◌, ◌/◌, ◌%◌, ◌≡◌, ◌≤◌, refl, List, [], ◌∷◌, length, Bool, true, Option, some, byte_at, arith,
}
use cloud_probe.ReqPattern.Parser.{IpAddr, ipv4, ipv6}
use cloud_probe.Config.{codes}
use cloud_probe.BpfUtil.{format_ip_addr, bpf_filter_replace_nic, is_token_delim}
use cloud_probe.BpfUtil.Words.{pieces, push, outcome, before, joined, formatted, replaced, expand}
use cloud_probe.BpfUtil.Words.Replaces.{bpf_filter_replace_nic_lem}

-- The first four bytes, each with three digits.
abbrev dotted : List ℕ → List ℕ
dotted a =
    (b'0' + byte_at a 0 / 100)
    ∷ (b'0' + byte_at a 0 / 10 % 10)
    ∷ (b'0' + byte_at a 0 % 10)
    ∷ b'.'
    ∷ (b'0' + byte_at a 1 / 100)
    ∷ (b'0' + byte_at a 1 / 10 % 10)
    ∷ (b'0' + byte_at a 1 % 10)
    ∷ b'.'
    ∷ (b'0' + byte_at a 2 / 100)
    ∷ (b'0' + byte_at a 2 / 10 % 10)
    ∷ (b'0' + byte_at a 2 % 10)
    ∷ b'.'
    ∷ (b'0' + byte_at a 3 / 100)
    ∷ (b'0' + byte_at a 3 / 10 % 10)
    ∷ (b'0' + byte_at a 3 % 10)
    ∷ []

length-format_ip_addr : (a : IpAddr) → length (format_ip_addr dotted dotted a) ≤ 45
unfolding format_ip_addr
length-format_ip_addr (ipv4 a) = omega arith
length-format_ip_addr (ipv6 a) = omega arith

-- Every interface has the address 10.0.0.1.
abbrev one_address : List ℕ → Option IpAddr
one_address name = some (ipv4 (10 ∷ 0 ∷ 0 ∷ 1 ∷ []))

abbrev all_memory : ℕ → Bool
all_memory n = true

bpf_filter_replace_nic_lem_example :
    bpf_filter_replace_nic all_memory one_address dotted dotted
      (codes "tcp and (not host nic.eth0)")
    ≡ outcome (
        expand one_address
          (format_ip_addr dotted dotted)
          (pieces (codes "tcp and (not host nic.eth0)")))
bpf_filter_replace_nic_lem_example =
    bpf_filter_replace_nic_lem all_memory one_address dotted dotted (λ n. refl)
      length-format_ip_addr (codes "tcp and (not host nic.eth0)") (omega arith)

-- A test.
expand-codes :
    expand one_address (format_ip_addr dotted dotted) (pieces (codes "tcp and (not host nic.eth0)"))
    ≡ some (codes "tcp and (not host 010.000.000.001)")
unfolding expand format_ip_addr pieces push before joined formatted replaced is_token_delim
expand-codes = refl
