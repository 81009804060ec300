-- ===== src/Tests/Fetching.antt =====
-- A request that fails once and is then answered.
use market_quorum.Prelude.{
  ℕ, ◌==◌, ◌≡◌, refl, false, true, [], ◌∷◌, none, some, arith, if◌then◌else◌,
}
use market_quorum.Prelude.Text.{codes}
use market_quorum.Prelude.Json.{obj, end, field, str}
use market_quorum.Vendors.Retry.{AlphaVantageRetryPolicy}
use market_quorum.Vendors.Notices.{Reader, rate_limited, classify_alpha_payload}
use market_quorum.Vendors.Quota.{success, transient, minute}
use market_quorum.Vendors.Fetch.{
  Answer, crashed, answers, no_response, response, raises, client_error, Counters, acquired,
  requested, gave_back, slept, stored, fetched, fetch,
}
use market_quorum.Vendors.Fetch.Balanced.{IsFetched, fetch-IsFetched}

abbrev reader : Reader
reader = record { loads = λ body. some (obj end); text = λ v. []; lower = λ s. s }

abbrev policy : AlphaVantageRetryPolicy
policy = record { attempts = 3; base_seconds = 5; max_seconds = 60 }

abbrev counters : Counters
counters = record {
  upstream_requests = 0;
  rate_limits = 0;
  transient_errors = 0;
  authentication_failed = false;
}

abbrev upstream : ℕ → Answer
upstream n = answers (if n == 1 then no_response else response 200 none (codes "{}"))

fetch-IsFetched_example :
    IsFetched policy reader "OVERVIEW" 0 true upstream 3 1 4 counters
      (fetch policy reader "OVERVIEW" 0 true upstream true counters)
fetch-IsFetched_example =
    fetch-IsFetched policy reader "OVERVIEW" 0 true upstream true counters (omega arith)

second_answer : fetch policy reader "OVERVIEW" 0 true upstream true counters ≡ record {
  result = fetched (codes "{}");
  effects =
      acquired 0
      ∷ requested
      ∷ gave_back transient none minute
      ∷ slept 5
      ∷ acquired 0
      ∷ requested
      ∷ gave_back success none minute
      ∷ stored 21600 (codes "{}")
      ∷ [];
  counters = record counters { upstream_requests = 2; transient_errors = 1 };
}
unfolding fetch
second_answer = refl

-- The lease of an attempt whose client raises is not given back.
lease_lost : fetch policy reader "OVERVIEW" 0 true (λ n. crashed) true counters ≡ record {
  result = raises client_error;
  effects = acquired 0 ∷ requested ∷ [];
  counters = record counters { upstream_requests = 1 };
}
unfolding fetch
lease_lost = refl

quota_notice :
    classify_alpha_payload
      (record reader { text = λ v. codes "our standard rate limit is 25 requests per day" })
      (some (obj (field "Information" (str "x") end)))
    ≡ some rate_limited
unfolding classify_alpha_payload
quota_notice = refl
