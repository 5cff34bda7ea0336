-- ===== src/RateLimit/Budget.antt =====
-- What a token bucket grants over a run of packets.
use cloud_probe.Prelude.{ℕ, ◌+◌, ◌*◌, ◌^◌, ◌≤◌, ◌<◌, List, [], ◌∷◌, arith, if◌then◌else◌, length}
use cloud_probe.RateLimit.{Timeval, TokenBucket, token_bucket_consume}
use cloud_probe.RateLimit.Refill.{
  IsWithin, Rounds, micros, token_bucket_refill_share, token_bucket_consume_lem,
  token_bucket_consume-keeps,
}

-- A packet that asks to be sent: its length and its time.
pub record Offer : Type 0 where
  pub bytes : ℕ
  pub ts : Timeval

-- The packets are offered in order; the result is the number of bits granted, and the bucket.
unfoldable pub consume_all : (ℕ → ℕ → ℕ) → TokenBucket → List Offer → ℕ × TokenBucket
consume_all part tb [] = (0, tb)
consume_all part tb (o ∷ os) =
    let (tb', sent) = token_bucket_consume part tb o.bytes o.ts in
    let (granted, last) = consume_all part tb' os in
    ((if sent then o.bytes * 8 else 0) + granted, last)

-- The times do not go back, and no length overflows the product by 8.
abbrev pub InOrder : Timeval → List Offer → Type 0
InOrder t [] = Unit {0}
InOrder t (o ∷ os) = (o.bytes < 2 ^ 61) × (micros t ≤ micros o.ts) × InOrder o.ts os

-- Over any run of packets in order of time, the bits granted are at most the tokens at hand, the
-- rate times the time that passed, and one bit for each packet (the rounding), provided that the
-- bucket is within its capacity, the rate is below 2 ^ 50 and the products round as doubles do.
pub consume_all_budget :
    (part : ℕ → ℕ → ℕ) (r : Rounds part) (tb : TokenBucket) (os : List Offer)
    → IsWithin tb
    → tb.rate_bps < 2 ^ 50
    → InOrder tb.last_ts os
    → let (granted, last) = consume_all part tb os in
      granted * 1_000_000 + micros tb.last_ts * tb.rate_bps
      ≤ tb.tokens * 1_000_000 + micros last.last_ts * tb.rate_bps + length os * 1_000_000
unfolding consume_all
consume_all_budget part r tb [] v small h = omega arith
consume_all_budget part r tb (o ∷ os) v small (fits, later, rest) =
    let (within, covered, taken, clock) = token_bucket_consume_lem part r tb o.ts o.bytes fits v in
    let tb' = (token_bucket_consume part tb o.bytes o.ts).0 in
    ground (
      arith,
      token_bucket_refill_share part r tb o.ts v small later,
      token_bucket_consume-keeps part tb o.bytes o.ts,
      consume_all_budget part r tb' os,
      within,
      covered,
      taken,
    )
