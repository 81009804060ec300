-- ===== src/Vendors/Retry.antt =====
-- `AlphaVantageRetryPolicy` of vendors/alpha_vantage.py. Delays count microseconds.
use market_quorum.Prelude.{
  ℕ, ◌-◌, ◌*◌, ◌^◌, ◌≤◌, min, max, ltb, ◌==◌, ◌||◌, Option, none, some, if◌then◌else◌, arith,
}
use market_quorum.Store.Tx.{Result, ok, err, value_error}

pub record AlphaVantageRetryPolicy : Type 0 where
  pub attempts : ℕ
  pub base_seconds : ℕ
  pub max_seconds : ℕ

-- `__post_init__`
unfoldable pub checked_policy : AlphaVantageRetryPolicy → Result AlphaVantageRetryPolicy
checked_policy p =
    if ltb p.attempts 1
    then err (value_error "retry attempts must be positive")
    else if p.base_seconds == 0 || p.max_seconds == 0
    then err (value_error "retry delays must be positive")
    else if ltb p.max_seconds p.base_seconds
    then err (value_error "retry base must not exceed retry maximum")
    else ok p

-- `retry_after or 0`
abbrev pub or_zero : Option ℕ → ℕ
or_zero none = 0
or_zero (some t) = t

-- The delay after the attempt, where that is positive.
unfoldable pub delay : AlphaVantageRetryPolicy → ℕ → Option ℕ → ℕ
delay p attempt retry_after =
    min (max (p.base_seconds * 2 ^ (attempt - 1)) (or_zero retry_after)) p.max_seconds

pub delay-le :
    (p : AlphaVantageRetryPolicy) (attempt : ℕ) (r : Option ℕ) → delay p attempt r ≤ p.max_seconds
unfolding delay
delay-le p attempt r = omega arith
