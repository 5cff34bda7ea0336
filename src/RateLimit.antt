-- ===== src/RateLimit.antt =====
-- cpworker/src/ratelimit.c and ratelimit.h: the token bucket that limits the rate of an output.
-- A time is the `struct timeval` of a packet, whose two fields are not negative.
pub mod Refill
pub mod Budget
mod Examples
use cloud_probe.Prelude.{
  ℕ, ◌+◌, ◌-◌, ◌*◌, ◌≡◌, Bool, true, false, arith, u64, ltb, leb, if◌then◌else◌,
}
use cloud_probe.Prelude.Int.{ℤ, pos, negsuc, pos_part, sub_ℕ, ◌+ℤ◌, ◌-ℤ◌, scale, ltb_ℤ, leb_ℤ}

pub record Timeval : Type 0 where
  pub tv_sec : ℕ
  pub tv_usec : ℕ

pub record TokenBucket : Type 0 where
  pub rate_bps : ℕ
  pub capacity : ℕ
  pub tokens : ℕ
  pub last_ts : Timeval

-- The difference in microseconds. The source returns it as a double in seconds, which is exact
-- enough to be compared with 0 and with 1 second.
pub timeval_diff : Timeval → Timeval → ℤ
timeval_diff a b =
    let sec = sub_ℕ a.tv_sec b.tv_sec in
    let usec = sub_ℕ a.tv_usec b.tv_usec in
    if ltb_ℤ usec (pos 0)
    then scale (sec -ℤ pos 1) 1_000_000 +ℤ (usec +ℤ pos 1_000_000)
    else scale sec 1_000_000 +ℤ usec

pub token_bucket_init : ℕ → TokenBucket
token_bucket_init rate_bps = record {
  rate_bps = rate_bps;
  capacity = rate_bps;
  tokens = rate_bps;
  last_ts = record { tv_sec = 0; tv_usec = 0 };
}

-- `part us rate` stands for `(uint64_t)(elapsed * tb->rate_bps)` at an elapsed time of `us`
-- microseconds: a product of doubles, rounded to a whole number.
module _ (part : ℕ → ℕ → ℕ) where
  -- The first half of `token_bucket_consume`: what the time since the last call adds.
  pub token_bucket_refill : TokenBucket → Timeval → TokenBucket
  token_bucket_refill tb ts =
      let elapsed = timeval_diff ts tb.last_ts in
      let grown =
        if leb_ℤ (pos 1_000_000) elapsed
        then u64 (tb.tokens + tb.rate_bps)
        else if ltb_ℤ (pos 0) elapsed
        then u64 (tb.tokens + part (pos_part elapsed) tb.rate_bps)
        else tb.tokens in
      let capped = if ltb tb.capacity grown then tb.capacity else grown in
      record tb { tokens = if ltb 0 tb.last_ts.tv_sec then capped else tb.tokens; last_ts = ts }

  pub token_bucket_consume : TokenBucket → ℕ → Timeval → TokenBucket × Bool
  token_bucket_consume tb bytes ts =
      let full = token_bucket_refill tb ts in
      let required = u64 (bytes * 8) in
      if leb required full.tokens
      then (record full { tokens = full.tokens - required }, true)
      else (full, false)
