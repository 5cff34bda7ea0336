-- ===== src/BpfUtil/Words/Replaces.antt =====
-- `bpf_filter_replace_nic` of cpworker/src/bpf_util.c and the words of the text.
use cloud_probe.Prelude.{
  ℕ, zero, suc, ◌+◌, ◌*◌, ◌^◌, ◌<◌, ◌≤◌, ◌≡◌, ◌∙◌, sym, refl, ap, List, [], ◌∷◌, ◌++◌, append_assoc,
  drop, length, length-append, length-drop, Bool, true, false, ltb, Option, none, some, ◌⊎◌, inl,
  inr, arith, Bool-cases, Option-cases, u64, append-nil,
}
use cloud_probe.Prelude.Outcome.{Outcome, ok, ◌>>=◌}
use cloud_probe.ReqPattern.Lexer.{is_prefix}
use cloud_probe.ReqPattern.Parser.{IpAddr}
use cloud_probe.BpfUtil.{
  BpfBuf, grow, nic_token_prefix, is_token_delim, scan_plain, scan_name, last_of, bad_name,
  format_ip_addr, bpf_buf_append, enlarge, at_end, replace_name, replace_loop,
  bpf_filter_replace_nic,
}
use cloud_probe.BpfUtil.Words.{
  pieces, before, joined, outcome, formatted, expand, after_word, expand_from,
}
use cloud_probe.BpfUtil.Words.Scan.{
  before_none, scan_plain-Scanned, scan_name-Named, expand_from_stops, expand_from-token,
}

-- The new capacity is enough and fits a size_t.
grow_lem :
    (k cap need : ℕ)
    → 1 ≤ cap
    → cap < 2 ^ 64
    → need ≤ 2 ^ 63
    → need ≤ cap + k
    → (cap' : ℕ) × (grow k cap need ≡ ok cap') × (need ≤ cap') × (cap' < 2 ^ 64)
unfolding grow
grow_lem zero cap need p s n h = (cap, ground arith, omega arith, s)
grow_lem (suc k) cap need p s n h = elim (Bool-cases (ltb cap need)) [
  | inl e ↦
      let more : cap < need = ground (arith, e) in
      let (cap', same, enough, fits) =
        grow_lem k (u64 (cap * 2)) need (omega (arith, more)) (omega arith) n
          (omega (arith, more)) in
      (cap', rw e same, enough, fits)
  | inr e ↦ (cap, rw e refl, ground (arith, e), s)
]

-- The text and its NUL lie in the buffer.
pub record IsBuf (buf : BpfBuf) : Type 0 where
  pub room : length buf.text + 1 ≤ buf.cap
  pub word : buf.cap < 2 ^ 64

abbrev pub Plenty : (ℕ → Bool) → Type 0
Plenty memory = (n : ℕ) → memory n ≡ true

record Appended (buf : BpfBuf) (s : List ℕ) (o : Outcome BpfBuf) : Type 0 where
  to : BpfBuf
  made : o ≡ ok to
  text : to.text ≡ (buf.text ++ s)
  valid : IsBuf to

module _ (memory : ℕ → Bool) (plenty : Plenty memory) where
  bpf_buf_append-Appended :
      (buf : BpfBuf) (s : List ℕ)
      → IsBuf buf
      → length buf.text + length s + 1 ≤ 2 ^ 63
      → Appended buf s (bpf_buf_append memory buf s)
  unfolding bpf_buf_append enlarge
  bpf_buf_append-Appended buf s v h =
      let need = length buf.text + length s + 1 in
      elim (Bool-cases (ltb buf.cap need)) [
        | inl e ↦
            let (cap, same, enough, fits) =
              grow_lem need buf.cap need (omega (arith, v.room)) v.word h (omega arith) in
            record {
              to = record { text = buf.text ++ s; cap = cap };
              made = rw (e, same, plenty cap) refl;
              text = refl;
              valid = record {
                room = omega (arith, length-append buf.text s, enough);
                word = fits;
              };
            }
        | inr e ↦ record {
          to = record { text = buf.text ++ s; cap = buf.cap };
          made = rw e refl;
          text = refl;
          valid = record { room = ground (arith, length-append buf.text s, e); word = v.word };
        }
      ]

before-append : (x f : List ℕ) (o : Option (List ℕ)) → before (x ++ f) o ≡ before x (before f o)
unfolding before
before-append x f none = refl
before-append x f (some t) = ap some (append_assoc x f t)

module _ (memory : ℕ → Bool) (get_ip : List ℕ → Option IpAddr) (ntop4 ntop6 : List ℕ → List ℕ)
    (plenty : Plenty memory)
    (short : (a : IpAddr) → length (format_ip_addr ntop4 ntop6 a) ≤ 45) where
  -- The loop with this fuel gives the rest of the text with its words replaced.
  abbrev Means : ℕ → Type 0
  Means k =
      (b : Bool) (p : List ℕ) (out : BpfBuf)
      → length p < k
      → IsBuf out
      → length out.text + 46 * length p + 1 ≤ 2 ^ 63
      → replace_loop memory get_ip ntop4 ntop6 k b p out
        ≡ outcome (before out.text (expand_from get_ip (format_ip_addr ntop4 ntop6) b p))

  token_lem :
      (k : ℕ) (token : List ℕ) (out : BpfBuf)
      → Means k
      → (token ≡ []) ⊎ (is_prefix nic_token_prefix token ≡ true)
      → length token < suc k
      → IsBuf out
      → length out.text + 46 * length token + 1 ≤ 2 ^ 63
      → let (name, end) = scan_name (drop 4 token) in
        at_end token out.text (
          replace_name memory get_ip ntop4 ntop6 name out
          >>= replace_loop memory get_ip ntop4 ntop6 k (is_token_delim (last_of b'.' name)) end)
        ≡ outcome (before out.text (expand_from get_ip (format_ip_addr ntop4 ntop6) true token))
  unfolding replace_name outcome before expand_from expand pieces joined formatted
  token_lem k [] out ih t l v h = ap ok (sym (append-nil out.text))
  token_lem k (c ∷ t) out ih (inl e) l v h = cc
  token_lem k (c ∷ t) out ih (inr e) l v h =
      let (name, end) = scan_name (drop 4 (c ∷ t)) in
      let format = format_ip_addr ntop4 ntop6 in
      let n = scan_name-Named (drop 4 (c ∷ t)) in
      let dropped = length-drop 4 (c ∷ t) in
      elim (Bool-cases (bad_name name)) [
        | inl bad ↦ rw (expand_from-token get_ip format (c ∷ t) e, bad) refl
        | inr good ↦ elim (Option-cases (get_ip name)) [
          | inl f ↦ rw (expand_from-token get_ip format (c ∷ t) e, good, f) refl
          | inr (addr, f) ↦
              let fits = short addr in
              let a =
                bpf_buf_append-Appended memory plenty out (format addr) v
                  (omega (arith, fits, h)) in
              let longer : length a.to.text ≡ length out.text + length (format addr) =
                ap length a.text ∙ length-append out.text (format addr) in
              rw (expand_from-token get_ip format (c ∷ t) e, good, f, a.made)
                (ih (is_token_delim (last_of b'.' name)) end a.to
                    (omega (arith, n.size, dropped, l)) a.valid
                    (omega (arith, n.size, dropped, longer, fits, h))
                  ∙ ap (λ x. outcome (before a.to.text x))
                      (expand_from_stops get_ip format (is_token_delim (last_of b'.' name)) end
                        n.stops)
                  ∙ ap (λ x. outcome (before x (expand get_ip format (pieces end)))) a.text
                  ∙ ap outcome
                      (before-append out.text (format addr) (expand get_ip format (pieces end))))
        ]
      ]

  loop_lem : (k : ℕ) → Means k
  unfolding replace_loop outcome before expand_from after_word expand pieces
  loop_lem zero b p out l v h = absurd (omega (arith, l))
  loop_lem (suc k) true [] out l v h = ap ok (sym (append-nil out.text))
  loop_lem (suc k) false [] out l v h = ap ok (sym (append-nil out.text))
  loop_lem (suc k) b (c ∷ p) out l v h =
      let format = format_ip_addr ntop4 ntop6 in
      let (plain, token) = scan_plain b (c ∷ p) in
      let s = scan_plain-Scanned get_ip format b (c ∷ p) in
      let a = bpf_buf_append-Appended memory plenty out plain v (omega (arith, s.size, h)) in
      let longer : length a.to.text ≡ length out.text + length plain =
        ap length a.text ∙ length-append out.text plain in
      rw a.made (
        token_lem k token a.to (loop_lem k) s.at_token (omega (arith, s.size, l)) a.valid
          (omega (arith, s.size, longer, h))
        ∙ ap (λ x. outcome (before x (expand_from get_ip format true token))) a.text
        ∙ ap outcome (before-append out.text plain (expand_from get_ip format true token))
        ∙ ap (λ x. outcome (before out.text x)) (sym s.same))

  -- Where memory is never used up, an address has 45 characters at most and the text is shorter than
  -- 2 ^ 56: the filter text comes out with each word between delimiters that begins with nic. replaced
  -- by the address of its interface, all else as it was, and is refused where the name of an interface
  -- is empty or has 16 characters or more, or it has no address.
  pub bpf_filter_replace_nic_lem :
      (bpf : List ℕ)
      → length bpf < 2 ^ 56
      → bpf_filter_replace_nic memory get_ip ntop4 ntop6 bpf
        ≡ outcome (expand get_ip (format_ip_addr ntop4 ntop6) (pieces bpf))
  unfolding bpf_filter_replace_nic expand_from
  bpf_filter_replace_nic_lem bpf l =
      let whole = expand get_ip (format_ip_addr ntop4 ntop6) (pieces bpf) in
      rw (plenty (u64 (length bpf + 1))) (
        loop_lem (length bpf + 1) true bpf (record { text = []; cap = u64 (length bpf + 1) })
          (omega arith) (record { room = omega arith; word = omega arith }) (omega arith)
        ∙ ap outcome (before_none whole))
