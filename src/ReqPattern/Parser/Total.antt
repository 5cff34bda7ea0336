-- ===== src/ReqPattern/Parser/Total.antt =====
-- The fuel of the parser of cpworker/src/req_pattern.c.
use cloud_probe.Prelude.{
  Option-cases, inl, inr, drop, ◌&&◌, leb, ltb, ◌==◌, byte_at, ℕ, zero, suc, ◌+◌, ◌*◌, ◌≤◌, ◌<◌,
  ◌≡◌, List, true, false, not, length, arith, Option,
}
use cloud_probe.Prelude.Outcome.{
  Outcome, Ensures, Ensures-weaken, holds, turned_down, guarded, branches, binds,
}
use cloud_probe.ReqPattern.Lexer.{
  Token, Cursor, is_prefix, isdigit, host, port, and, or, lparen, rparen, eof, value,
  get_next_token, next_token,
}
use cloud_probe.ReqPattern.Lexer.Progress.{left, get_next_token-left}
use cloud_probe.ReqPattern.Parser.{
  nic_prefix, decimal, IpAddr, Node, op_and, op_or, operator, is_and, is_or, is_lparen, is_rparen,
  is_eof, create_host_node, create_port_node, parse_operand, parse_condition, parse_expression,
  or_loop, parse_term, and_loop, parse_factor, custom_matcher_init,
}

-- The next token is taken off what is left, unless this one is the last.
taken : (s : Cursor) → is_eof s.token ≡ false → left (next_token s) < left s
unfolding left
taken s h = ground (arith, get_next_token-left s.input)

or-taken : (s : Cursor) → is_or s.token ≡ true → left (next_token s) < left s
or-taken s h = taken s (ground arith)

and-taken : (s : Cursor) → is_and s.token ≡ true → left (next_token s) < left s
and-taken s h = taken s (ground arith)

lparen-taken : (s : Cursor) → is_lparen s.token ≡ true → left (next_token s) < left s
lparen-taken s h = taken s (ground arith)

next-le : (s : Cursor) → left (next_token s) ≤ left s
unfolding left
next-le s = ground (arith, get_next_token-left s.input)

module _ (get_ip : List ℕ → Option IpAddr) (inet_pton4 inet_pton6 : List ℕ → Option (List ℕ)) where
  create_host_node-Ensures :
      (v : List ℕ) → Ensures (λ n. Unit {0}) (create_host_node get_ip inet_pton4 inet_pton6 v)
  unfolding create_host_node
  create_host_node-Ensures v =
      branches (is_prefix nic_prefix v)
        (λ _. elim (Option-cases (get_ip (drop 4 v))) [
          | inl e ↦ rw e turned_down
          | inr (a, e) ↦ rw e (holds tt)
        ])
        λ _. elim (Option-cases (inet_pton4 v)) [
          | inl e ↦ rw e (elim (Option-cases (inet_pton6 v)) [
            | inl e ↦ rw e turned_down
            | inr (a, e) ↦ rw e (holds tt)
          ])
          | inr (a, e) ↦ rw e (holds tt)
        ]

  create_port_node-Ensures :
      (v : List ℕ) → Ensures (λ n. Unit {0}) (create_port_node get_ip inet_pton4 inet_pton6 v)
  unfolding create_port_node
  create_port_node-Ensures v =
      branches (isdigit (byte_at v 0) && not (byte_at v 0 == 48 && ltb 1 (length v)))
        (λ _. elim (Option-cases (decimal 0 v)) [
          | inl e ↦ rw e turned_down
          | inr (n, e) ↦ rw e (branches (leb n 65535) (λ _. holds tt) (λ _. turned_down))
        ])
        λ _. turned_down

  parse_operand-Ensures :
      (create : List ℕ → Outcome Node)
      → ((v : List ℕ) → Ensures (λ n. Unit {0}) (create v))
      → (s : Cursor)
      → Ensures (λ p. left p.cursor ≤ left s) (parse_operand get_ip inet_pton4 inet_pton6 create s)
  unfolding parse_operand
  parse_operand-Ensures create h s = go s.input s.token
    where
      go :
          (i : List ℕ) (t : Token)
          → Ensures
              (λ p. left p.cursor ≤ left (record { input = i; token = t }))
              (parse_operand get_ip inet_pton4 inet_pton6 create (record { input = i; token = t }))
      go i (value v) = binds (h v) λ n _. holds (next-le (record { input = i; token = value v }))
      go i host = turned_down
      go i port = turned_down
      go i and = turned_down
      go i or = turned_down
      go i lparen = turned_down
      go i rparen = turned_down
      go i eof = turned_down

  parse_condition-Ensures :
      (s : Cursor)
      → Ensures (λ p. left p.cursor < left s) (parse_condition get_ip inet_pton4 inet_pton6 s)
  unfolding parse_condition left
  parse_condition-Ensures s = go s.input s.token
    where
      go :
          (i : List ℕ) (t : Token)
          → Ensures
              (λ p. left p.cursor < left (record { input = i; token = t }))
              (parse_condition get_ip inet_pton4 inet_pton6 (record { input = i; token = t }))
      go i host =
          Ensures-weaken (λ p h. omega (arith, h, get_next_token-left i))
            (parse_operand-Ensures (create_host_node get_ip inet_pton4 inet_pton6)
              create_host_node-Ensures (get_next_token i))
      go i port =
          Ensures-weaken (λ p h. omega (arith, h, get_next_token-left i))
            (parse_operand-Ensures (create_port_node get_ip inet_pton4 inet_pton6)
              create_port_node-Ensures (get_next_token i))
      go i (value v) = turned_down
      go i and = turned_down
      go i or = turned_down
      go i lparen = turned_down
      go i rparen = turned_down
      go i eof = turned_down

  mutual
    unfolding parse_expression or_loop parse_term and_loop parse_factor

    parse_expression-Ensures :
        (f : ℕ) (s : Cursor)
        → 4 * left s + 3 ≤ f
        → Ensures (λ p. left p.cursor < left s) (parse_expression get_ip inet_pton4 inet_pton6 f s)
    parse_expression-Ensures zero s h = absurd (omega arith)
    parse_expression-Ensures (suc f) s h = binds (parse_term-Ensures f s (omega arith)) λ p less.
        Ensures-weaken (λ q less'. omega arith) (or_loop-Ensures f p.node p.cursor (omega arith))

    or_loop-Ensures :
        (f : ℕ) (n : Node) (s : Cursor)
        → 4 * left s + 3 ≤ f
        → Ensures (λ p. left p.cursor ≤ left s) (or_loop get_ip inet_pton4 inet_pton6 f n s)
    or_loop-Ensures zero n s h = absurd (omega arith)
    or_loop-Ensures (suc f) n s h =
        branches (is_or s.token)
          (λ e. binds (parse_term-Ensures f (next_token s) (omega (arith, or-taken s e))) λ p less.
            Ensures-weaken (λ q less'. omega (arith, or-taken s e))
              (or_loop-Ensures f (operator op_or n p.node) p.cursor (omega (arith, or-taken s e))))
          λ e. holds (omega arith)

    parse_term-Ensures :
        (f : ℕ) (s : Cursor)
        → 4 * left s + 2 ≤ f
        → Ensures (λ p. left p.cursor < left s) (parse_term get_ip inet_pton4 inet_pton6 f s)
    parse_term-Ensures zero s h = absurd (omega arith)
    parse_term-Ensures (suc f) s h = binds (parse_factor-Ensures f s (omega arith)) λ p less.
        Ensures-weaken (λ q less'. omega arith) (and_loop-Ensures f p.node p.cursor (omega arith))

    and_loop-Ensures :
        (f : ℕ) (n : Node) (s : Cursor)
        → 4 * left s + 3 ≤ f
        → Ensures (λ p. left p.cursor ≤ left s) (and_loop get_ip inet_pton4 inet_pton6 f n s)
    and_loop-Ensures zero n s h = absurd (omega arith)
    and_loop-Ensures (suc f) n s h =
        branches (is_and s.token)
          (λ e.
            binds (parse_factor-Ensures f (next_token s) (omega (arith, and-taken s e))) λ p less.
              Ensures-weaken (λ q less'. omega (arith, and-taken s e))
                (and_loop-Ensures f (operator op_and n p.node) p.cursor
                  (omega (arith, and-taken s e))))
          λ e. holds (omega arith)

    parse_factor-Ensures :
        (f : ℕ) (s : Cursor)
        → 4 * left s + 1 ≤ f
        → Ensures (λ p. left p.cursor < left s) (parse_factor get_ip inet_pton4 inet_pton6 f s)
    parse_factor-Ensures zero s h = absurd (omega arith)
    parse_factor-Ensures (suc f) s h =
        branches (is_lparen s.token)
          (λ e.
            binds (parse_expression-Ensures f (next_token s) (omega (arith, lparen-taken s e)))
              λ p less.
                guarded (not (is_rparen p.cursor.token))
                  λ _. holds (omega (arith, lparen-taken s e, next-le p.cursor)))
          λ e. parse_condition-Ensures s

  -- Whatever the lookups of addresses give, a pattern is a tree or is rejected: the fuel, four units
  -- for each byte, is never used up.
  pub custom_matcher_init-Ensures :
      (pattern : List ℕ)
      → Ensures (λ n. Unit {0}) (custom_matcher_init get_ip inet_pton4 inet_pton6 pattern)
  unfolding custom_matcher_init
  custom_matcher_init-Ensures pattern =
      binds
        (parse_expression-Ensures (4 * length pattern + 7) (get_next_token pattern)
          (omega (arith, get_next_token-left pattern)))
        λ ast less. guarded (not (is_eof ast.cursor.token)) λ _. holds tt
