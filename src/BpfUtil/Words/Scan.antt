-- ===== src/BpfUtil/Words/Scan.antt =====
-- The two loops of cpworker/src/bpf_util.c that scan the text, and its words.
use cloud_probe.Prelude.{
  ℕ, ◌+◌, ◌≡◌, ◌∙◌, sym, refl, ap, ap₂, List, [], ◌∷◌, ◌++◌, drop, length, Bool, true, false, ◌==◌,
  if◌then◌else◌, Option, none, some, ◌⊎◌, inl, inr, arith, if_both, Bool-cases, and_true,
}
use mathlib.Core.Path.{subst}
use cloud_probe.ReqPattern.Lexer.{is_prefix}
use cloud_probe.BpfUtil.{
  is_token_delim, nic_token_prefix, is_nic_token_start, scan_plain, scan_name, bad_name,
}
use cloud_probe.ReqPattern.Parser.{IpAddr}
use cloud_probe.BpfUtil.Words.{
  Piece, delim, word, push, pieces, before, joined, formatted, replaced, expand, after_word,
  expand_from,
}

before-cons :
    (c : ℕ) (w : List ℕ) (o : Option (List ℕ)) → before (c ∷ []) (before w o) ≡ before (c ∷ w) o
unfolding before
before-cons c w none = refl
before-cons c w (some t) = refl

pub before_none : (o : Option (List ℕ)) → before [] o ≡ o
unfolding before
before_none none = refl
before_none (some t) = refl

-- The word that a text starts with.
pub first_word : List Piece → List ℕ
first_word [] = []
first_word (delim c ∷ ps) = []
first_word (word w ∷ ps) = w

first_word-push : (c : ℕ) (ps : List Piece) → first_word (push c ps) ≡ (c ∷ first_word ps)
unfolding first_word push
first_word-push c [] = refl
first_word-push c (delim d ∷ ps) = refl
first_word-push c (word w ∷ ps) = refl

first_word-is_prefix :
    (pre p : List ℕ) → is_prefix pre (first_word (pieces p)) ≡ true → is_prefix pre p ≡ true
unfolding pieces first_word
first_word-is_prefix [] p = λ _. refl
first_word-is_prefix (d ∷ pre) [] = λ h. cc
first_word-is_prefix (d ∷ pre) (c ∷ p) =
    if_both
      (λ (ps : List Piece).
        is_prefix (d ∷ pre) (first_word ps) ≡ true → is_prefix (d ∷ pre) (c ∷ p) ≡ true)
      (is_token_delim c) (λ _ h. cc)
      (λ _ h.
        let h' : is_prefix (d ∷ pre) (c ∷ first_word (pieces p)) ≡ true =
          subst (λ w. is_prefix (d ∷ pre) w ≡ true) (first_word-push c (pieces p)) h in
        let (same, more) = and_true (d == c) (is_prefix pre (first_word (pieces p))) h' in
        rw (same, first_word-is_prefix pre p more) refl)

module _ (get_ip : List ℕ → Option IpAddr) (format : IpAddr → List ℕ) where
  after_word-push :
      (c : ℕ) (ps : List Piece)
      → after_word get_ip format (push c ps) ≡ before (c ∷ []) (after_word get_ip format ps)
  unfolding after_word push expand before
  after_word-push c [] = refl
  after_word-push c (delim d ∷ ps) = refl
  after_word-push c (word w ∷ ps) = sym (before-cons c w (expand get_ip format ps))

  -- A word that is none of an interface stays.
  expand-plain :
      (ps : List Piece)
      → is_prefix nic_token_prefix (first_word ps) ≡ false
      → expand get_ip format ps ≡ after_word get_ip format ps
  unfolding expand after_word first_word replaced joined
  expand-plain [] h = refl
  expand-plain (delim c ∷ ps) h = refl
  expand-plain (word w ∷ ps) h = rw h refl

  first_word-not_nic :
      (p : List ℕ)
      → is_prefix nic_token_prefix p ≡ false
      → is_prefix nic_token_prefix (first_word (pieces p)) ≡ false
  first_word-not_nic p h = elim (Bool-cases (is_prefix nic_token_prefix (first_word (pieces p)))) [
    | inl e ↦ let e' = first_word-is_prefix nic_token_prefix p e in cc
    | inr e ↦ e
  ]

  -- A byte at which no token starts stands for itself.
  expand_from-step :
      (b : Bool) (c : ℕ) (p : List ℕ)
      → is_nic_token_start b (c ∷ p) ≡ false
      → expand_from get_ip format b (c ∷ p)
        ≡ before (c ∷ []) (expand_from get_ip format (is_token_delim c) p)
  unfolding expand_from is_nic_token_start pieces expand after_word
  expand_from-step true c p h =
      let other : is_prefix nic_token_prefix (c ∷ p) ≡ false = ground (arith, h) in
      elim (Bool-cases (is_token_delim c)) [
        | inl e ↦ rw e refl
        | inr e ↦
            let same : first_word (pieces (c ∷ p)) ≡ first_word (push c (pieces p)) = rw e refl in
            rw e (
              expand-plain (push c (pieces p)) (rw (sym same) (first_word-not_nic (c ∷ p) other))
              ∙ after_word-push c (pieces p))
      ]
  expand_from-step false c p h = elim (Bool-cases (is_token_delim c)) [
    | inl e ↦ rw e refl
    | inr e ↦ rw e (after_word-push c (pieces p))
  ]

  -- What the scan of the plain text leaves is empty or a token, and the text before it stays.
  pub record Scanned (b : Bool) (p : List ℕ) (plain token : List ℕ) : Type 0 where
    pub at_token : (token ≡ []) ⊎ (is_prefix nic_token_prefix token ≡ true)
    pub same : expand_from get_ip format b p ≡ before plain (expand_from get_ip format true token)
    pub size : length plain + length token ≡ length p

  pub scan_plain-Scanned :
      (b : Bool) (p : List ℕ) → Scanned b p (scan_plain b p).0 (scan_plain b p).1
  unfolding scan_plain is_nic_token_start before expand_from after_word expand pieces
  scan_plain-Scanned true [] = record {
    at_token = inl refl;
    same = sym (before_none (expand_from get_ip format true []));
    size = refl;
  }
  scan_plain-Scanned false [] = record { at_token = inl refl; same = refl; size = refl }
  scan_plain-Scanned b (c ∷ p) =
      let rest = scan_plain-Scanned (is_token_delim c) p in
      let (plain, token) = scan_plain (is_token_delim c) p in
      if_both (λ (r : List ℕ × List ℕ). Scanned b (c ∷ p) r.0 r.1) (is_nic_token_start b (c ∷ p))
        (λ e.
          let (nic, start) = and_true (is_prefix nic_token_prefix (c ∷ p)) b e in
          record {
            at_token = inr nic;
            same =
                ap (λ x. expand_from get_ip format x (c ∷ p)) start
                ∙ sym (before_none (expand_from get_ip format true (c ∷ p)));
            size = omega arith;
          })
        (λ e. record {
          at_token = rest.at_token;
          same =
              expand_from-step b c p e
              ∙ ap (before (c ∷ [])) rest.same
              ∙ before-cons c plain (expand_from get_ip format true token);
          size = omega (arith, rest.size);
        })

-- The bytes up to the next delimiter are one word.
pub add_word : List ℕ → List Piece → List Piece
add_word [] ps = ps
add_word (c ∷ w) ps = word (c ∷ w) ∷ ps

-- No word comes first.
pub no_word : List Piece → Bool
no_word [] = true
no_word (delim c ∷ ps) = true
no_word (word w ∷ ps) = false

push-add_word :
    (c : ℕ) (w : List ℕ) (ps : List Piece)
    → no_word ps ≡ true
    → push c (add_word w ps) ≡ (word (c ∷ w) ∷ ps)
unfolding push add_word no_word
push-add_word c [] [] h = refl
push-add_word c [] (delim d ∷ ps) h = refl
push-add_word c [] (word w ∷ ps) h = cc
push-add_word c (d ∷ w) ps h = refl

-- A name, and where it ends.
pub record Named (p name end : List ℕ) : Type 0 where
  pub same : pieces p ≡ add_word name (pieces end)
  pub stops : no_word (pieces end) ≡ true
  pub size : length name + length end ≡ length p

pub scan_name-Named : (p : List ℕ) → Named p (scan_name p).0 (scan_name p).1
unfolding scan_name pieces add_word no_word
scan_name-Named [] = record { same = refl; stops = refl; size = refl }
scan_name-Named (c ∷ p) =
    let rest = scan_name-Named p in
    let (name, end) = scan_name p in
    if_both (λ (r : List ℕ × List ℕ). Named (c ∷ p) r.0 r.1) (is_token_delim c)
      (λ e. record { same = refl; stops = rw e refl; size = omega arith })
      (λ e. record {
        same = rw e (ap (push c) rest.same ∙ push-add_word c name (pieces end) rest.stops);
        stops = rest.stops;
        size = omega (arith, rest.size);
      })

is_prefix-eq : (pre s : List ℕ) → is_prefix pre s ≡ true → s ≡ (pre ++ drop (length pre) s)
is_prefix-eq [] s h = refl
is_prefix-eq (d ∷ pre) [] h = cc
is_prefix-eq (d ∷ pre) (c ∷ s) h =
    let (same, more) = and_true (d == c) (is_prefix pre s) h in
    let eq : d ≡ c = ground (arith, same) in ap₂ (λ x xs. x ∷ xs) (sym eq) (is_prefix-eq pre s more)

pieces-nic :
    (p : List ℕ)
    → pieces (nic_token_prefix ++ p)
      ≡ (word (nic_token_prefix ++ (scan_name p).0) ∷ pieces (scan_name p).1)
unfolding pieces is_token_delim push
pieces-nic p =
    let (name, end) = scan_name p in
    let n = scan_name-Named p in rw (n.same, push-add_word b'.' name (pieces end) n.stops) refl

module _ (get_ip : List ℕ → Option IpAddr) (format : IpAddr → List ℕ) where
  no_word-same :
      (ps : List Piece) → no_word ps ≡ true → after_word get_ip format ps ≡ expand get_ip format ps
  unfolding no_word after_word expand
  no_word-same [] h = refl
  no_word-same (delim c ∷ ps) h = refl
  no_word-same (word w ∷ ps) h = cc

  -- Where no word comes first it does not matter what stands before.
  pub expand_from_stops :
      (b : Bool) (p : List ℕ)
      → no_word (pieces p) ≡ true
      → expand_from get_ip format b p ≡ expand get_ip format (pieces p)
  unfolding expand_from
  expand_from_stops true p h = refl
  expand_from_stops false p h = no_word-same (pieces p) h

  -- A token and what comes behind its name.
  pub expand_from-token :
      (token : List ℕ)
      → is_prefix nic_token_prefix token ≡ true
      → let (name, end) = scan_name (drop 4 token) in
        expand_from get_ip format true token
        ≡ joined
            (if bad_name name then none else formatted get_ip format (get_ip name))
            (expand get_ip format (pieces end))
  unfolding expand_from expand replaced
  expand_from-token token h =
      let p = drop 4 token in
      ap (λ t. expand get_ip format (pieces t)) (is_prefix-eq nic_token_prefix token h)
      ∙ ap (expand get_ip format) (pieces-nic p)
