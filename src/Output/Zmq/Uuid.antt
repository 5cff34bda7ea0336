-- ===== src/Output/Zmq/Uuid.antt =====
-- The UUID of the batch header (cpworker/src/output_zmq.c), and its text in cptools/recvzmq/main.c.
-- `strtoul` with base 16 is a parameter: it gives the value and how many characters it has read.
use cloud_probe.Prelude.{
  ℕ, zero, suc, ◌+◌, ◌*◌, ◌/◌, ◌%◌, ◌<◌, ◌≤◌, ◌≡◌, ◌∙◌, sym, ap, refl, List, [], ◌∷◌, ◌++◌, take,
  drop, slice, length, true, false, ltb, leb, ◌==◌, not, ◌||◌, if◌then◌else◌, Option, none, some,
  u8, arith, append-nil, length-slice, take-append, take-append-take-drop, drop-drop,
}
use cloud_probe.Receiver.{hex_char, hex_chars, bytes_to_uuid}

pub cons_some : ℕ → Option (List ℕ) → Option (List ℕ)
cons_some x none = none
cons_some x (some xs) = some (x ∷ xs)

-- The loop that fills `clean`, of which `clean_index` characters are there.
pub clean_loop : List ℕ → ℕ → Option (List ℕ)
clean_loop [] clean_index = some []
clean_loop (c ∷ p) clean_index =
    let rest = clean_loop p (if c == b'-' then clean_index else clean_index + 1) in
    if c == b'-' then rest else if leb 32 clean_index then none else cons_some c rest

module _ (strtoul : List ℕ → ℕ × ℕ) where
  -- The loop over the pairs of characters.
  pub byte_loop : List ℕ → Option (List ℕ)
  byte_loop [] = some []
  byte_loop (a ∷ []) = none
  byte_loop (a ∷ b ∷ clean) =
      let (val, end) = strtoul (a ∷ b ∷ []) in
      if not (end == 2) || ltb 0xFF val then none else cons_some (u8 val) (byte_loop clean)

  pub bytes_of_clean : Option (List ℕ) → Option (List ℕ)
  bytes_of_clean none = none
  bytes_of_clean (some clean) = if length clean == 32 then byte_loop clean else none

  -- `none` is `return false`.
  pub uuid_to_bytes : List ℕ → Option (List ℕ)
  uuid_to_bytes uuid = bytes_of_clean (clean_loop uuid 0)

-- `strtoul` reads two hexadecimal digits of lower case as their number.
unfoldable pub ReadsHex : (List ℕ → ℕ × ℕ) → Type 0
ReadsHex strtoul =
    (x y : ℕ) → x < 16 → y < 16 → strtoul (hex_char x ∷ hex_char y ∷ []) ≡ (x * 16 + y, 2)

abbrev pub AllBytes : List ℕ → Type 0
AllBytes [] = Unit
AllBytes (b ∷ bs) = (b < 256) × AllBytes bs

abbrev NoDash : List ℕ → Type 0
NoDash [] = Unit
NoDash (c ∷ cs) = ((c == b'-') ≡ false) × NoDash cs

hex_char-ne-dash : (n : ℕ) → (hex_char n == b'-') ≡ false
unfolding hex_char
hex_char-ne-dash n = ground arith

hex_chars-NoDash : (bs : List ℕ) → NoDash (hex_chars bs)
unfolding hex_chars
hex_chars-NoDash [] = tt
hex_chars-NoDash (b ∷ bs) =
    (hex_char-ne-dash (b / 16), (hex_char-ne-dash (b % 16), hex_chars-NoDash bs))

take-NoDash : (n : ℕ) (cs : List ℕ) → NoDash cs → NoDash (take n cs)
take-NoDash zero cs h = tt
take-NoDash (suc n) [] h = tt
take-NoDash (suc n) (c ∷ cs) (p, h) = (p, take-NoDash n cs h)

drop-NoDash : (n : ℕ) (cs : List ℕ) → NoDash cs → NoDash (drop n cs)
drop-NoDash zero cs h = h
drop-NoDash (suc n) [] h = tt
drop-NoDash (suc n) (c ∷ cs) (p, h) = drop-NoDash n cs h

abbrev put_before : List ℕ → Option (List ℕ) → Option (List ℕ)
put_before cs none = none
put_before cs (some ds) = some (cs ++ ds)

put_before-cons :
    (c : ℕ) (cs : List ℕ) (o : Option (List ℕ))
    → cons_some c (put_before cs o) ≡ put_before (c ∷ cs) o
unfolding cons_some
put_before-cons c cs none = refl
put_before-cons c cs (some ds) = refl

put_before-nil : (o : Option (List ℕ)) → o ≡ put_before [] o
put_before-nil none = refl
put_before-nil (some ds) = refl

-- Characters without a hyphen are kept, as long as there is room.
clean_loop-append :
    (cs p : List ℕ) (n m : ℕ)
    → NoDash cs
    → n + length cs ≡ m
    → m ≤ 32
    → clean_loop (cs ++ p) n ≡ put_before cs (clean_loop p m)
unfolding clean_loop
clean_loop-append [] p n m h e k =
    ap (clean_loop p) {x = n} {y = m} (omega arith) ∙ put_before-nil (clean_loop p m)
clean_loop-append (c ∷ cs) p n m (e, h) q k =
    let room : leb 32 n ≡ false = ground arith in
    rw (e, room)
      (ap (cons_some c) (clean_loop-append cs p (n + 1) m h (omega arith) k)
        ∙ put_before-cons c cs (clean_loop p m))

-- A group of characters and its hyphen.
clean_loop-group :
    (cs p : List ℕ) (n m : ℕ)
    → NoDash cs
    → n + length cs ≡ m
    → m ≤ 32
    → clean_loop (cs ++ (b'-' ∷ p)) n ≡ put_before cs (clean_loop p m)
unfolding clean_loop
clean_loop-group cs p n m h e k = clean_loop-append cs (b'-' ∷ p) n m h e k

clean_loop-last : (cs : List ℕ) (n : ℕ) → NoDash cs → n + length cs ≡ 32 → clean_loop cs n ≡ some cs
unfolding clean_loop
clean_loop-last cs n h e =
    ap (λ v. clean_loop v n) (sym (append-nil cs))
    ∙ clean_loop-append cs [] n 32 h e (omega arith)
    ∙ ap some (append-nil cs)

length-hex_chars : (bs : List ℕ) → length (hex_chars bs) ≡ 2 * length bs
unfolding hex_chars
length-hex_chars [] = refl
length-hex_chars (b ∷ bs) = omega (arith, length-hex_chars bs)

slice_join :
    (cs : List ℕ) (i n m j k : ℕ)
    → n + i ≡ j
    → n + m ≡ k
    → slice cs i n ++ slice cs j m ≡ slice cs i k
slice_join cs i n m j k e f =
    ap (λ v. slice cs i n ++ take m v) (sym (drop-drop n i j cs e))
    ∙ take-append-take-drop n m k (drop i cs) f

-- The text of 32 digits without its hyphens.
clean_loop-uuid :
    (bs : List ℕ) → length bs ≡ 16 → clean_loop (bytes_to_uuid bs) 0 ≡ some (hex_chars bs)
unfolding bytes_to_uuid
clean_loop-uuid bs l =
    let h = hex_chars bs in
    let plain = hex_chars-NoDash bs in
    let long : length h ≡ 32 = omega (arith, length-hex_chars bs) in
    let part = λ (i n : ℕ). take-NoDash n (drop i h) (drop-NoDash i h plain) in
    let size = λ (i n : ℕ) (k : i + n ≤ length h). length-slice h i n k in
    rw
      (
        clean_loop-group (slice h 0 8) _ 0 8 (part 0 8) (omega (arith, size 0 8 (omega arith)))
            (omega arith),
        clean_loop-group (slice h 8 4) _ 8 12 (part 8 4) (omega (arith, size 8 4 (omega arith)))
            (omega arith),
        clean_loop-group (slice h 12 4) _ 12 16 (part 12 4) (omega (arith, size 12 4 (omega arith)))
            (omega arith),
        clean_loop-group (slice h 16 4) _ 16 20 (part 16 4) (omega (arith, size 16 4 (omega arith)))
            (omega arith),
        clean_loop-last (slice h 20 12) 20 (part 20 12) (omega (arith, size 20 12 (omega arith))),
      )
      (ap some (
        ap (λ v. slice h 0 8 ++ (slice h 8 4 ++ (slice h 12 4 ++ v)))
          (slice_join h 16 4 12 20 16 refl refl)
        ∙ ap (λ v. slice h 0 8 ++ (slice h 8 4 ++ v)) (slice_join h 12 4 16 16 20 refl refl)
        ∙ ap (λ v. slice h 0 8 ++ v) (slice_join h 8 4 20 12 24 refl refl)
        ∙ slice_join h 0 8 24 8 32 refl refl
        ∙ ap (take 32) (sym (append-nil h))
        ∙ take-append h [] 32 (sym long)))

byte_loop-hex_chars :
    (strtoul : List ℕ → ℕ × ℕ) (bs : List ℕ)
    → ReadsHex strtoul
    → AllBytes bs
    → byte_loop strtoul (hex_chars bs) ≡ some bs
unfolding byte_loop hex_chars ReadsHex cons_some
byte_loop-hex_chars strtoul [] r a = refl
byte_loop-hex_chars strtoul (b ∷ bs) r (h, a) =
    let got = r (b / 16) (b % 16) (omega arith) (omega arith) in
    let value : b / 16 * 16 + b % 16 ≡ b = omega arith in
    let fits : ltb 0xFF b ≡ false = ground arith in
    rw (got, value, fits)
      (ap (cons_some (u8 b)) (byte_loop-hex_chars strtoul bs r a)
        ∙ ap (λ v. some (v ∷ bs)) {x = u8 b} {y = b} (omega arith))

-- The text that the receiver gives to the bytes of a UUID is read back by the sender as these bytes,
-- where `strtoul` reads two hexadecimal digits as their number.
pub uuid_to_bytes-bytes_to_uuid :
    (strtoul : List ℕ → ℕ × ℕ) (bs : List ℕ)
    → ReadsHex strtoul
    → length bs ≡ 16
    → AllBytes bs
    → uuid_to_bytes strtoul (bytes_to_uuid bs) ≡ some bs
unfolding uuid_to_bytes bytes_of_clean
uuid_to_bytes-bytes_to_uuid strtoul bs r l a =
    let long : (length (hex_chars bs) == 32) ≡ true = ground (arith, length-hex_chars bs) in
    rw (clean_loop-uuid bs l) (rw long (byte_loop-hex_chars strtoul bs r a))
