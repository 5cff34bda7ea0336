-- ===== src/RateLimit/Examples.antt =====
-- The token bucket at concrete times.
use cloud_probe.Prelude.{ℕ, ◌+◌, ◌*◌, ◌/◌, ◌≤◌, List, [], ◌∷◌, arith}
use cloud_probe.RateLimit.{Timeval, TokenBucket}
use cloud_probe.RateLimit.Refill.{IsWithin, Rounds, micros}
use cloud_probe.RateLimit.Budget.{Offer, consume_all, consume_all_budget}

-- The product rounded down.
abbrev floor_part : ℕ → ℕ → ℕ
floor_part us rate = us * rate / 1_000_000

floor_part-Rounds : Rounds floor_part
floor_part-Rounds = record { below = λ us rate h. grind arith; close = λ us rate h k. grind arith }

abbrev half_empty : TokenBucket
half_empty = record {
  rate_bps = 8000;
  capacity = 8000;
  tokens = 4000;
  last_ts = record { tv_sec = 10; tv_usec = 900_000 };
}

abbrev half_a_second_later : Timeval
half_a_second_later = record { tv_sec = 11; tv_usec = 400_000 }

half_empty-IsWithin : IsWithin half_empty
half_empty-IsWithin = record { full = omega arith; one_second = omega arith; room = omega arith }

abbrev two_offers : List Offer
two_offers =
    record { bytes = 900; ts = half_a_second_later }
    ∷ record { bytes = 300; ts = record { tv_sec = 12; tv_usec = 0 } }
    ∷ []

consume_all_budget_example :
    let (granted, last) = consume_all floor_part half_empty two_offers in
    granted * 1_000_000 + micros half_empty.last_ts * 8000
    ≤ 4000 * 1_000_000 + micros last.last_ts * 8000 + 2 * 1_000_000
consume_all_budget_example =
    consume_all_budget floor_part floor_part-Rounds half_empty two_offers half_empty-IsWithin
      (omega arith) (omega arith, omega arith, (omega arith, omega arith, tt))
