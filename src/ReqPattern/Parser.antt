-- ===== src/ReqPattern/Parser.antt =====
-- The parser of cpworker/src/req_pattern.c, by recursive descent. NULL is `rejected`; after it the
-- code reads the cursor only to free the token. `get_ip` and `inet_pton` are parameters.
pub mod Total
use cloud_probe.Prelude.{
  ℕ, zero, suc, ◌+◌, ◌-◌, ◌*◌, List, [], ◌∷◌, drop, length, Bool, true, false, ◌&&◌, ◌||◌, not, leb,
  ltb, ◌==◌, if◌then◌else◌, Option, none, some, byte_at,
}
use cloud_probe.Prelude.Outcome.{Outcome, ok, rejected, out_of_fuel, ◌>>=◌, ◌>>◌, reject_if}
use cloud_probe.ReqPattern.Lexer.{
  Token, host, port, and, or, lparen, rparen, eof, value, Cursor, isdigit, is_prefix,
  get_next_token, next_token,
}

-- `ip_addr_t`: the address in network byte order.
pub data IpAddr : Type 0 where
  ipv4 ipv6 : List ℕ → IpAddr

pub data OperatorType : Type 0 where
  op_and op_or : OperatorType

-- `struct Node`, with a constructor for each of COND_HOST and COND_PORT.
pub data Node : Type 0 where
  host_condition : IpAddr → Node
  port_condition : ℕ → Node
  operator : OperatorType → Node → Node → Node

abbrev pub is_and : Token → Bool
is_and and = true
is_and t = false

abbrev pub is_or : Token → Bool
is_or or = true
is_or t = false

abbrev pub is_lparen : Token → Bool
is_lparen lparen = true
is_lparen t = false

abbrev pub is_rparen : Token → Bool
is_rparen rparen = true
is_rparen t = false

abbrev pub is_eof : Token → Bool
is_eof eof = true
is_eof t = false

abbrev pub nic_prefix : List ℕ
nic_prefix = 110 ∷ 105 ∷ 99 ∷ 46 ∷ []

-- `strtol` of digits, none at any other byte.
abbrev pub decimal : ℕ → List ℕ → Option ℕ
decimal n [] = some n
decimal n (c ∷ s) = if isdigit c then decimal (n * 10 + (c - 48)) s else none

-- A node and where the parser stands behind it.
pub record Parsed : Type 0 where
  pub node : Node
  pub cursor : Cursor

module _ (get_ip : List ℕ → Option IpAddr) (inet_pton4 inet_pton6 : List ℕ → Option (List ℕ)) where
  pub create_host_node : List ℕ → Outcome Node
  create_host_node v =
      let parsed : Outcome Node = elim (inet_pton4 v) [
        | some a ↦ ok (host_condition (ipv4 a))
        | none ↦ elim (inet_pton6 v) [ some a ↦ ok (host_condition (ipv6 a)) | none ↦ rejected ]
      ] in
      let nic : Outcome Node = elim (get_ip (drop 4 v)) [
        | some a ↦ ok (host_condition a)
        | none ↦ rejected
      ] in
      if is_prefix nic_prefix v then nic else parsed

  -- Plain decimal only, without a leading zero, up to 65535.
  pub create_port_node : List ℕ → Outcome Node
  create_port_node v =
      if isdigit (byte_at v 0) && not (byte_at v 0 == 48 && ltb 1 (length v))
      then elim (decimal 0 v) [
        | some n ↦ if leb n 65535 then ok (port_condition n) else rejected
        | none ↦ rejected
      ]
      else rejected

  -- The value behind `host` or `port`.
  pub parse_operand : (List ℕ → Outcome Node) → Cursor → Outcome Parsed
  parse_operand create s = elim s.token [
    | value v ↦ create v >>= λ node. ok (record { node = node; cursor = next_token s })
    | _ ↦ rejected
  ]

  pub parse_condition : Cursor → Outcome Parsed
  parse_condition s = elim s.token [
    | host ↦ parse_operand create_host_node (next_token s)
    | port ↦ parse_operand create_port_node (next_token s)
    | _ ↦ rejected
  ]

  mutual
    pub parse_expression : ℕ → Cursor → Outcome Parsed
    parse_expression zero s = out_of_fuel
    parse_expression (suc f) s = do left ← parse_term f s; or_loop f left.node left.cursor

    pub or_loop : ℕ → Node → Cursor → Outcome Parsed
    or_loop zero left s = out_of_fuel
    or_loop (suc f) left s =
        let next = do
          right ← parse_term f (next_token s)
          or_loop f (operator op_or left right.node) right.cursor
        in if is_or s.token then next else ok (record { node = left; cursor = s })

    pub parse_term : ℕ → Cursor → Outcome Parsed
    parse_term zero s = out_of_fuel
    parse_term (suc f) s = do left ← parse_factor f s; and_loop f left.node left.cursor

    pub and_loop : ℕ → Node → Cursor → Outcome Parsed
    and_loop zero left s = out_of_fuel
    and_loop (suc f) left s =
        let next = do
          right ← parse_factor f (next_token s)
          and_loop f (operator op_and left right.node) right.cursor
        in if is_and s.token then next else ok (record { node = left; cursor = s })

    pub parse_factor : ℕ → Cursor → Outcome Parsed
    parse_factor zero s = out_of_fuel
    parse_factor (suc f) s =
        let inner = do
          expr ← parse_expression f (next_token s)
          reject_if (not (is_rparen expr.cursor.token))
          ok (record { node = expr.node; cursor = next_token expr.cursor })
        in if is_lparen s.token then inner else parse_condition s

  -- Fuel for every byte of the pattern.
  pub custom_matcher_init : List ℕ → Outcome Node
  custom_matcher_init pattern = do
    ast ← parse_expression (4 * length pattern + 7) (get_next_token pattern)
    reject_if (not (is_eof ast.cursor.token))
    ok (ast.node)
