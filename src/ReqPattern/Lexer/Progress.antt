-- ===== src/ReqPattern/Lexer/Progress.antt =====
-- How much of a pattern `get_next_token` (cpworker/src/req_pattern.c) leaves.
use cloud_probe.Prelude.{
  ℕ, suc, ◌+◌, ◌≤◌, ◌≡◌, List, [], ◌∷◌, false, ◌==◌, length, length-drop, arith, if_both,
}
use cloud_probe.ReqPattern.Lexer.{
  eof, Cursor, isspace, at_word, host_word, port_word, and_word, or_word, skip_spaces, scan_value,
  ends_value, Scanned, token_at, get_next_token,
}

-- What is left to read, the token at hand included.
unfoldable pub left : Cursor → ℕ
left s = length s.input + (elim s.token [ eof ↦ 0 | _ ↦ 1 ])

scan_value-length : (s : List ℕ) → length (scan_value s).rest ≤ length s
unfolding scan_value
scan_value-length [] = omega arith
scan_value-length (c ∷ s) =
    if_both (λ (v : Scanned). length v.rest ≤ suc (length s)) (ends_value (c ∷ s))
      (λ _. omega arith) λ _. omega (arith, scan_value-length s)

scan_value_first :
    (c : ℕ) (s : List ℕ) → ends_value (c ∷ s) ≡ false → length (scan_value (c ∷ s)).rest ≤ length s
unfolding scan_value
scan_value_first c s e = rw e (scan_value-length s)

token_at-left : (c : ℕ) (s : List ℕ) → isspace c ≡ false → left (token_at (c ∷ s)) ≤ suc (length s)
unfolding token_at left
token_at-left c s space =
    if_both P (at_word host_word (c ∷ s)) (λ _. omega (arith, length-drop 3 s))
      λ _.
        if_both P (at_word port_word (c ∷ s)) (λ _. omega (arith, length-drop 3 s))
          λ _.
            if_both P (at_word and_word (c ∷ s)) (λ _. omega (arith, length-drop 2 s))
              λ e1.
                if_both P (at_word or_word (c ∷ s)) (λ _. omega (arith, length-drop 1 s))
                  λ e2.
                    if_both P (c == 40) (λ _. omega arith)
                      λ e3.
                        if_both P (c == 41) (λ _. omega arith)
                          λ e4.
                            let inside : ends_value (c ∷ s) ≡ false =
                              simp (space, e1, e2, e3, e4) in
                            omega (arith, scan_value_first c s inside)
  where
    P : Cursor → Type 0
    P v = left v ≤ suc (length s)

pub get_next_token-left : (s : List ℕ) → left (get_next_token s) ≤ length s
unfolding get_next_token skip_spaces token_at left
get_next_token-left [] = omega arith
get_next_token-left (c ∷ s) =
    if_both (λ (v : List ℕ). left (token_at v) ≤ suc (length s)) (isspace c)
      (λ _. omega (arith, get_next_token-left s)) λ e. token_at-left c s e
