-- ===== src/RateLimit/Refill.antt =====
-- What one call of the token bucket does.
use cloud_probe.Prelude.{
  ℕ, ◌+◌, ◌*◌, ◌^◌, ◌≤◌, ◌<◌, ◌≡◌, ◌↔◌, refl, ap, true, inl, inr, arith, Bool-cases, if◌then◌else◌,
}
use cloud_probe.Prelude.Int.{pos, pos_part, neg_part, sub_ℕ, ltb_ℤ, parts_disjoint, int_laws}
use cloud_probe.RateLimit.{
  Timeval, TokenBucket, timeval_diff, token_bucket_refill, token_bucket_consume,
}

-- The bucket never holds more than one second of its rate, and the rate leaves room for a sum.
pub record IsWithin (tb : TokenBucket) : Type 0 where
  pub full : tb.tokens ≤ tb.capacity
  pub one_second : tb.capacity ≡ tb.rate_bps
  pub room : tb.rate_bps < 2 ^ 63

-- The number of microseconds that a time stands for.
abbrev pub micros : Timeval → ℕ
micros t = t.tv_sec * 1_000_000 + t.tv_usec

-- A rounded product of doubles: less than a second of a rate gives no more than the rate, and no
-- more than one token above the exact share.
pub record Rounds (part : ℕ → ℕ → ℕ) : Type 0 where
  pub below : (us rate : ℕ) → us < 1_000_000 → part us rate ≤ rate
  pub close :
      (us rate : ℕ)
      → us < 1_000_000
      → rate < 2 ^ 50
      → part us rate * 1_000_000 ≤ us * rate + 1_000_000

timeval_diff-micros :
    (a b : Timeval)
    → pos_part (timeval_diff a b) + micros b ≡ neg_part (timeval_diff a b) + micros a
unfolding timeval_diff
timeval_diff-micros a b = elim (Bool-cases (ltb_ℤ (sub_ℕ a.tv_usec b.tv_usec) (pos 0))) [
  | inl back ↦ rw back (omega int_laws)
  | inr on ↦ rw on (omega int_laws)
]

-- For a time that has not gone back the difference is not negative.
timeval_diff_later :
    (a b : Timeval)
    → micros b ≤ micros a
    → (neg_part (timeval_diff a b) ≡ 0) × (pos_part (timeval_diff a b) + micros b ≡ micros a)
timeval_diff_later a b h =
    ground (arith, timeval_diff-micros a b, parts_disjoint (timeval_diff a b))

million-mul-le : (p rate : ℕ) → 1_000_000 ≤ p → 1_000_000 * rate ≤ p * rate
million-mul-le p rate h = grind arith

-- A refill touches neither the rate nor the capacity, and sets the clock.
token_bucket_refill-keeps :
    (part : ℕ → ℕ → ℕ) (tb : TokenBucket) (ts : Timeval)
    → ((token_bucket_refill part tb ts).rate_bps ≡ tb.rate_bps)
      × ((token_bucket_refill part tb ts).capacity ≡ tb.capacity)
      × ((token_bucket_refill part tb ts).last_ts ≡ ts)
unfolding token_bucket_refill
token_bucket_refill-keeps part tb ts = (refl, refl, refl)

pub token_bucket_consume-keeps :
    (part : ℕ → ℕ → ℕ) (tb : TokenBucket) (bytes : ℕ) (ts : Timeval)
    → ((token_bucket_consume part tb bytes ts).0.rate_bps ≡ tb.rate_bps)
      × ((token_bucket_consume part tb bytes ts).0.last_ts ≡ ts)
unfolding token_bucket_consume
token_bucket_consume-keeps part tb bytes ts = ground (arith, token_bucket_refill-keeps part tb ts)

module _ (part : ℕ → ℕ → ℕ) (r : Rounds part) (tb : TokenBucket) (ts : Timeval) where
  -- A refill keeps a bucket within its capacity of one second of its rate, for any rounding that
  -- stays below the rate for less than a second.
  pub token_bucket_refill-IsWithin : IsWithin tb → IsWithin (token_bucket_refill part tb ts)
  unfolding token_bucket_refill
  token_bucket_refill-IsWithin v = ground arith

  -- From a bucket within its capacity, the refill takes no tokens away and never adds more than the
  -- rate.
  pub token_bucket_refill_bounds :
      IsWithin tb
      → (tb.tokens ≤ (token_bucket_refill part tb ts).tokens)
        × ((token_bucket_refill part tb ts).tokens ≤ tb.tokens + tb.rate_bps)
  unfolding token_bucket_refill
  token_bucket_refill_bounds v =
      ground (arith, r.below (pos_part (timeval_diff ts tb.last_ts)) tb.rate_bps)

  -- From a bucket within its capacity at a rate below 2 ^ 50, and for a time that has not gone back,
  -- the refill is at most the share of the rate that the time
  -- earns, and one token.
  pub token_bucket_refill_share :
      IsWithin tb
      → tb.rate_bps < 2 ^ 50
      → micros tb.last_ts ≤ micros ts
      → (token_bucket_refill part tb ts).tokens * 1_000_000 + micros tb.last_ts * tb.rate_bps
        ≤ tb.tokens * 1_000_000 + micros ts * tb.rate_bps + 1_000_000
  unfolding token_bucket_refill
  token_bucket_refill_share v small later =
      let (forward, apart) = timeval_diff_later ts tb.last_ts later in
      let rated = ap (λ (t : ℕ). t * tb.rate_bps) apart in
      let p = pos_part (timeval_diff ts tb.last_ts) in
      ground
        (arith, rated, r.close p tb.rate_bps, r.below p tb.rate_bps, million-mul-le p tb.rate_bps)

  -- With at most 2 ^ 61 bytes asked for, a call succeeds exactly when the refilled bucket covers
  -- the bits of the packet. It then takes just these; otherwise it takes none. Either way the
  -- bucket stays within its capacity and its clock is set to the packet's time.
  pub token_bucket_consume_lem :
      (bytes : ℕ)
      → bytes < 2 ^ 61
      → IsWithin tb
      → let (tb', sent) = token_bucket_consume part tb bytes ts in
        IsWithin tb'
        × ((sent ≡ true) ↔ (bytes * 8 ≤ (token_bucket_refill part tb ts).tokens))
        × (tb'.tokens + (if sent then bytes * 8 else 0) ≡ (token_bucket_refill part tb ts).tokens)
        × (tb'.last_ts ≡ ts)
  unfolding token_bucket_consume
  token_bucket_consume_lem bytes small v =
      ground (arith, token_bucket_refill-IsWithin v, token_bucket_refill-keeps part tb ts)
