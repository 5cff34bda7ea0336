-- ===== src/Prelude/Words.antt =====
-- Unsigned machine words: arithmetic modulo 2 ^ w, and words in a buffer of bytes.
use Prim.Native.Nat.{ℕ, ◌+◌, ◌*◌, ◌/◌, ◌%◌, ◌^◌}
use mathlib.Core.List.{List}
use cloud_probe.Prelude.Lists.{get_or, set, take, drop}

abbrev pub u8 : ℕ → ℕ
u8 n = n % 2 ^ 8

abbrev pub u16 : ℕ → ℕ
u16 n = n % 2 ^ 16

abbrev pub u32 : ℕ → ℕ
u32 n = n % 2 ^ 32

abbrev pub u64 : ℕ → ℕ
u64 n = n % 2 ^ 64

-- The byte at an index, 0 past the end.
abbrev pub byte_at : List ℕ → ℕ → ℕ
byte_at bs i = get_or bs i 0

-- A field in network byte order, as `ntohs` and `ntohl` read it.
abbrev pub be16_at : List ℕ → ℕ → ℕ
be16_at bs i = byte_at bs i * 256 + byte_at bs (i + 1)

abbrev pub be32_at : List ℕ → ℕ → ℕ
be32_at bs i = be16_at bs i * 65536 + be16_at bs (i + 2)

-- A store of a 16-bit or 32-bit value in network byte order, as through `htons` and `htonl`.
abbrev pub put_be16 : List ℕ → ℕ → ℕ → List ℕ
put_be16 bs i v = set (set bs i (v / 256 % 256)) (i + 1) (v % 256)

abbrev pub put_be32 : List ℕ → ℕ → ℕ → List ℕ
put_be32 bs i v = put_be16 (put_be16 bs i (v / 65536)) (i + 2) (v % 65536)

-- A store of a 16-bit value in the byte order of a little-endian host.
abbrev pub put_le16 : List ℕ → ℕ → ℕ → List ℕ
put_le16 bs i v = set (set bs i (v % 256)) (i + 1) (v / 256 % 256)

-- `n` bytes from an offset.
abbrev pub slice : List ℕ → ℕ → ℕ → List ℕ
slice bs off n = take n (drop off bs)
