-- ===== src/BpfUtil/Words.antt =====
-- The words of a filter text, and what each is replaced by: the meaning of cpworker/src/bpf_util.c.
pub mod Scan
pub mod Replaces
mod Examples
use cloud_probe.Prelude.{
  ℕ, ◌≡◌, refl, ap, List, [], ◌∷◌, ◌++◌, drop, length, Bool, true, false, ◌==◌, ◌&&◌, if◌then◌else◌,
  Option, none, some, arith,
}
use cloud_probe.Prelude.Outcome.{Outcome, ok, rejected}
use cloud_probe.ReqPattern.Lexer.{is_prefix}
use cloud_probe.BpfUtil.{is_token_delim, nic_token_prefix, bad_name, format_ip_addr}
use cloud_probe.ReqPattern.Parser.{IpAddr}

-- A delimiter, or all that stands between two of them.
pub data Piece : Type 0 where
  delim : ℕ → Piece
  word : List ℕ → Piece

pub push : ℕ → List Piece → List Piece
push c [] = word (c ∷ []) ∷ []
push c (delim d ∷ ps) = word (c ∷ []) ∷ delim d ∷ ps
push c (word w ∷ ps) = word (c ∷ w) ∷ ps

pub pieces : List ℕ → List Piece
pieces [] = []
pieces (c ∷ p) = if is_token_delim c then delim c ∷ pieces p else push c (pieces p)

pub before : List ℕ → Option (List ℕ) → Option (List ℕ)
before plain none = none
before plain (some t) = some (plain ++ t)

pub joined : Option (List ℕ) → Option (List ℕ) → Option (List ℕ)
joined none o = none
joined (some t) o = before t o

-- No text is an error.
pub outcome : Option (List ℕ) → Outcome (List ℕ)
outcome none = rejected
outcome (some t) = ok t

module _ (get_ip : List ℕ → Option IpAddr) (format : IpAddr → List ℕ) where
  pub formatted : Option IpAddr → Option (List ℕ)
  formatted none = none
  formatted (some addr) = some (format addr)

  pub replaced : List ℕ → Option (List ℕ)
  replaced w =
      if is_prefix nic_token_prefix w
      then if bad_name (drop 4 w) then none else formatted (get_ip (drop 4 w))
      else some w

  -- The text in which each word is replaced, unless one of them cannot be.
  pub expand : List Piece → Option (List ℕ)
  expand [] = some []
  expand (delim c ∷ ps) = before (c ∷ []) (expand ps)
  expand (word w ∷ ps) = joined (replaced w) (expand ps)

  -- The same from within a word, which stays.
  pub after_word : List Piece → Option (List ℕ)
  after_word [] = some []
  after_word (delim c ∷ ps) = expand (delim c ∷ ps)
  after_word (word w ∷ ps) = before w (expand ps)

  pub expand_from : Bool → List ℕ → Option (List ℕ)
  expand_from true p = expand (pieces p)
  expand_from false p = after_word (pieces p)
