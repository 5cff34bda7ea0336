-- ===== src/Checksum/Examples.antt =====
-- The checksums at concrete buffers.
use cloud_probe.Prelude.{ℕ, ◌+◌, ◌*◌, ◌≡◌, refl, List, [], ◌∷◌, put_le16, u32, arith}
use cloud_probe.Checksum.{cksum_fold, cksum_accumulate, cksum_finish}
use cloud_probe.Checksum.WordSum.{word_sum}
use cloud_probe.Checksum.Sum.{cksum_accumulate-eq-word_sum}
use cloud_probe.Checksum.Verify.{IsCleared, finish-verifies}

-- A UDP header of which the checksum, at the word 3, is cleared, and three bytes of data.
abbrev udp_bytes : List ℕ
udp_bytes = 0x12 ∷ 0xb5 ∷ 0 ∷ 53 ∷ 0 ∷ 11 ∷ 0 ∷ 0 ∷ 1 ∷ 2 ∷ 3 ∷ []

udp_bytes-IsCleared : IsCleared udp_bytes 11 3 4096
udp_bytes-IsCleared = record {
  are_bytes = ground arith;
  short = omega arith;
  start = omega arith;
  inside = omega arith;
  complete = omega arith;
  clear = (refl, refl);
}

cksum_accumulate-eq-word_sum_example :
    cksum_accumulate udp_bytes 11 4096 ≡ u32 (4096 + word_sum 11 udp_bytes)
cksum_accumulate-eq-word_sum_example = cksum_accumulate-eq-word_sum udp_bytes 11 4096 (omega arith)

finish-verifies_example :
    let check = cksum_finish (cksum_accumulate udp_bytes 11 4096) in
    cksum_fold (cksum_accumulate (put_le16 udp_bytes (2 * 3) check) 11 4096) ≡ 0xffff
finish-verifies_example = finish-verifies udp_bytes 11 3 4096 udp_bytes-IsCleared
