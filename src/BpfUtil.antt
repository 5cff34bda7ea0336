-- ===== src/BpfUtil.antt =====
-- cpworker/src/bpf_util.c: in a filter text each word `nic.<interface>` becomes the address of the
-- interface. Texts are without their final NUL. `get_ip` is the caller's, as in the source, and
-- `inet_ntop` and whether malloc and realloc give so many bytes are parameters. An error is `rejected`,
-- its text is left out.
pub mod Words
use cloud_probe.Prelude.{
  ℕ, zero, suc, ◌≡◌, ◌+◌, ◌*◌, List, [], ◌∷◌, ◌++◌, drop, length, Bool, true, false, not, ltb, leb,
  ◌==◌, ◌||◌, ◌&&◌, if◌then◌else◌, Option, none, some, u64,
}
use cloud_probe.Prelude.Outcome.{Outcome, ok, rejected, out_of_fuel, ◌>>=◌, ◌>>◌, reject_if}
use cloud_probe.ReqPattern.Lexer.{isspace, is_prefix}
use cloud_probe.ReqPattern.Parser.{IpAddr, ipv4, ipv6}

-- `text` is `data`, the `len` bytes before its NUL.
pub record BpfBuf : Type 0 where
  pub text : List ℕ
  pub cap : ℕ

-- The loop that doubles the capacity. A unit of fuel for each byte that is needed is enough.
pub grow : ℕ → ℕ → ℕ → Outcome ℕ
grow zero cap need = if ltb cap need then out_of_fuel else ok cap
grow (suc k) cap need =
    let rest = grow k (u64 (cap * 2)) need in if ltb cap need then rest else ok cap

pub is_token_delim : ℕ → Bool
is_token_delim c = c == 0 || (isspace c || (c == b'(' || c == b')'))

abbrev pub nic_token_prefix : List ℕ
nic_token_prefix = b'n' ∷ b'i' ∷ b'c' ∷ b'.' ∷ []

-- The flag is `p == bpf || is_token_delim(p[-1])`.
pub is_nic_token_start : Bool → List ℕ → Bool
is_nic_token_start at_start p = is_prefix nic_token_prefix p && at_start

-- The loop over the plain text: what it passes, and what it ends at.
pub scan_plain : Bool → List ℕ → List ℕ × List ℕ
scan_plain at_start [] = ([], [])
scan_plain at_start (c ∷ p) =
    let (plain, rest) = scan_plain (is_token_delim c) p in
    if is_nic_token_start at_start (c ∷ p) then ([], c ∷ p) else (c ∷ plain, rest)

-- The loop over the name of the interface.
pub scan_name : List ℕ → List ℕ × List ℕ
scan_name [] = ([], [])
scan_name (c ∷ p) =
    let (name, end) = scan_name p in if is_token_delim c then ([], c ∷ p) else (c ∷ name, end)

-- The byte before `end`.
pub last_of : ℕ → List ℕ → ℕ
last_of c [] = c
last_of c (d ∷ ds) = last_of d ds

abbrev pub if_name_size : ℕ
if_name_size = 16

abbrev pub bad_name : List ℕ → Bool
bad_name name = length name == 0 || leb if_name_size (length name)

-- A loop or a function that ends where the text does.
abbrev pub at_end : List ℕ → List ℕ → Outcome (List ℕ) → Outcome (List ℕ)
at_end [] text m = ok text
at_end (c ∷ p) text m = m

abbrev pub found : Option IpAddr → Outcome IpAddr
found none = rejected
found (some addr) = ok addr

-- The buffer for the text has room for either form.
pub format_ip_addr : (inet_ntop4 inet_ntop6 : List ℕ → List ℕ) → IpAddr → List ℕ
format_ip_addr inet_ntop4 inet_ntop6 (ipv4 a) = inet_ntop4 a
format_ip_addr inet_ntop4 inet_ntop6 (ipv6 a) = inet_ntop6 a

module _ (memory : ℕ → Bool) where
  pub enlarge : BpfBuf → List ℕ → ℕ → Outcome BpfBuf
  enlarge buf s cap = do reject_if (not (memory cap)); ok record { text = buf.text ++ s; cap = cap }

  pub bpf_buf_append : BpfBuf → List ℕ → Outcome BpfBuf
  bpf_buf_append buf s =
      let need = length buf.text + length s + 1 in
      if ltb buf.cap need
      then grow need buf.cap need >>= enlarge buf s
      else ok record { text = buf.text ++ s; cap = buf.cap }

  module _ (get_ip : List ℕ → Option IpAddr) (inet_ntop4 inet_ntop6 : List ℕ → List ℕ) where
    pub replace_name : List ℕ → BpfBuf → Outcome BpfBuf
    replace_name name out = do
      reject_if (bad_name name)
      addr ← found (get_ip name)
      bpf_buf_append out (format_ip_addr inet_ntop4 inet_ntop6 addr)

    pub replace_loop : ℕ → Bool → List ℕ → BpfBuf → Outcome (List ℕ)
    replace_loop zero at_start in_ptr out = out_of_fuel
    replace_loop (suc k) at_start in_ptr out =
        let (plain, token) = scan_plain at_start in_ptr in
        let (name, end) = scan_name (drop 4 token) in
        at_end in_ptr out.text (do
          out ← bpf_buf_append out plain
          at_end token out.text (do
            out ← replace_name name out
            replace_loop k (is_token_delim (last_of b'.' name)) end out))

    pub bpf_filter_replace_nic : List ℕ → Outcome (List ℕ)
    bpf_filter_replace_nic bpf = do
      reject_if (not (memory (u64 (length bpf + 1))))
      replace_loop (length bpf + 1) true bpf record { text = []; cap = u64 (length bpf + 1) }
