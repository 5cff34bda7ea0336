-- ===== src/ReqPattern/Lexer.antt =====
-- `get_next_token` of cpworker/src/req_pattern.c, on the bytes of the pattern up to its terminating 0.
pub mod Progress
use cloud_probe.Prelude.{
  ℕ, suc, ◌≤◌, ◌<◌, ◌≡◌, refl, List, [], ◌∷◌, Bool, true, false, ◌&&◌, ◌||◌, not, leb, ◌==◌,
  if◌then◌else◌, drop, length, length-drop, arith, byte_at, if_both, ltb,
}

-- `TokenType`; TOKEN_ERROR is never made.
pub data Token : Type 0 where
  host port and or lparen rparen eof : Token
  value : List ℕ → Token

-- `**input` and `*current_token`.
pub record Cursor : Type 0 where
  pub input : List ℕ
  pub token : Token

abbrev pub isspace : ℕ → Bool
isspace c = c == 32 || (leb 9 c && leb c 13)

abbrev pub isdigit : ℕ → Bool
isdigit c = leb 48 c && leb c 57

-- In the C locale.
abbrev pub isalnum : ℕ → Bool
isalnum c = isdigit c || (leb 65 c && leb c 90) || (leb 97 c && leb c 122)

abbrev pub is_prefix : List ℕ → List ℕ → Bool
is_prefix [] s = true
is_prefix (c ∷ word) [] = false
is_prefix (c ∷ word) (d ∷ s) = c == d && is_prefix word s

-- `strncmp(*input, word, n) == 0 && !isalnum((*input)[n])`
unfoldable pub at_word : List ℕ → List ℕ → Bool
at_word word s = is_prefix word s && not (isalnum (byte_at s (length word)))

abbrev pub host_word : List ℕ
host_word = 104 ∷ 111 ∷ 115 ∷ 116 ∷ []

abbrev pub port_word : List ℕ
port_word = 112 ∷ 111 ∷ 114 ∷ 116 ∷ []

abbrev pub and_word : List ℕ
and_word = 97 ∷ 110 ∷ 100 ∷ []

abbrev pub or_word : List ℕ
or_word = 111 ∷ 114 ∷ []

pub skip_spaces : List ℕ → List ℕ
skip_spaces [] = []
skip_spaces (c ∷ s) = if isspace c then skip_spaces s else c ∷ s

-- The bytes of a value, and what follows them.
pub record Scanned : Type 0 where
  pub bytes : List ℕ
  pub rest : List ℕ

abbrev pub ends_value : List ℕ → Bool
ends_value [] = true
ends_value (c ∷ s) =
    isspace c || c == 40 || c == 41 || at_word and_word (c ∷ s) || at_word or_word (c ∷ s)

pub scan_value : List ℕ → Scanned
scan_value [] = record { bytes = []; rest = [] }
scan_value (c ∷ s) =
    let more = scan_value s in
    if ends_value (c ∷ s)
    then record { bytes = []; rest = c ∷ s }
    else record { bytes = c ∷ more.bytes; rest = more.rest }

-- The token at the first byte that is no space.
pub token_at : List ℕ → Cursor
token_at [] = record { input = []; token = eof }
token_at (c ∷ s) =
    let scanned = scan_value (c ∷ s) in
    if at_word host_word (c ∷ s)
    then record { input = drop 4 (c ∷ s); token = host }
    else if at_word port_word (c ∷ s)
    then record { input = drop 4 (c ∷ s); token = port }
    else if at_word and_word (c ∷ s)
    then record { input = drop 3 (c ∷ s); token = and }
    else if at_word or_word (c ∷ s)
    then record { input = drop 2 (c ∷ s); token = or }
    else if c == 40
    then record { input = s; token = lparen }
    else if c == 41
    then record { input = s; token = rparen }
    else record { input = scanned.rest; token = value scanned.bytes }

pub get_next_token : List ℕ → Cursor
get_next_token input = token_at (skip_spaces input)

abbrev pub next_token : Cursor → Cursor
next_token s = get_next_token s.input
