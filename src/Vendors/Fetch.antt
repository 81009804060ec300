-- ===== src/Vendors/Fetch.antt =====
-- `AlphaVantageBroker._fetch` of vendors/alpha_vantage_broker.py: the attempts at one request.
pub mod Judging
pub mod Balanced
use market_quorum.Prelude.{
  ℕ, zero, suc, ◌+◌, ◌-◌, leb, ◌==◌, Bool, true, false, List, [], ◌∷◌, Option, none, some, String,
  if◌then◌else◌,
}
use market_quorum.Prelude.Text.{Text}
use market_quorum.Vendors.Retry.{AlphaVantageRetryPolicy, delay}
use market_quorum.Vendors.Notices.{
  Reader, Classification, rate_limited, authentication, unavailable, classify_alpha_payload,
  json_payload, is_daily, cache_ttl_seconds,
}
use market_quorum.Vendors.Quota.{
  LeaseOutcome, success, rate_limit, transient, RateScope, minute, daily,
}

-- What the client gives; `no_response` is `httpx.HTTPError`. The header is read as a number.
pub data Response : Type 0 where
  no_response : Response
  response : (status : ℕ) (retry_after : Option ℕ) (body : Text) → Response

-- What an attempt meets: the coordinator is stopping and raises, the client raises what is no
-- `httpx.HTTPError`, or it gives a response.
pub data Answer : Type 0 where
  refused : Answer
  crashed : Answer
  answers : Response → Answer

pub data BrokerError : Type 0 where
  authentication_error rate_limit_error transient_error : BrokerError
  -- what the client or the cache raised, which passes through
  client_error cache_error : BrokerError
  -- the `RuntimeError` behind the loop
  unreachable : BrokerError

-- `authentication_failed` stops the broker.
pub record Counters : Type 0 where
  pub upstream_requests : ℕ
  pub rate_limits : ℕ
  pub transient_errors : ℕ
  pub authentication_failed : Bool

-- What an attempt does outside: it takes a lease, asks, gives the lease back, sleeps, and stores an
-- answer for a time.
pub data Effect : Type 0 where
  acquired : (priority : ℕ) → Effect
  requested : Effect
  gave_back : LeaseOutcome → (retry_after : Option ℕ) → RateScope → Effect
  slept : (seconds : ℕ) → Effect
  stored : (ttl_seconds : ℕ) → Text → Effect

-- How the loop goes on: with a further attempt, or the error where that was the last one.
pub data Next : Type 0 where
  again : (sleeps : Bool) → BrokerError → Next
  fails : BrokerError → Next
  returns : Text → Next

pub record Judged : Type 0 where
  pub counters : Counters
  pub outcome : LeaseOutcome
  pub retry_after : Option ℕ
  pub scope : RateScope
  pub next : Next

-- `_numeric_retry_after`
abbrev pub numeric_retry_after : Option ℕ → Option ℕ
numeric_retry_after none = none
numeric_retry_after (some zero) = none
numeric_retry_after (some (suc t)) = some (suc t)

abbrev pub transient_failure : Counters → Judged
transient_failure c = record {
  counters = record c { transient_errors = c.transient_errors + 1 };
  outcome = transient;
  retry_after = none;
  scope = minute;
  next = again true transient_error;
}

abbrev pub too_many : Option ℕ → RateScope → Next → Counters → Judged
too_many retry_after scope next c = record {
  counters = record c { rate_limits = c.rate_limits + 1 };
  outcome = rate_limit;
  retry_after = retry_after;
  scope = scope;
  next = next;
}

abbrev pub ended_with : LeaseOutcome → Next → Counters → Judged
ended_with outcome next c = record {
  counters = c;
  outcome = outcome;
  retry_after = none;
  scope = minute;
  next = next;
}

abbrev pub judge_classified : Bool → Text → Counters → Option Classification → Judged
judge_classified for_a_day body c none = ended_with success (returns body) c
judge_classified for_a_day body c (some authentication) =
    ended_with success (fails authentication_error) (record c { authentication_failed = true })
judge_classified for_a_day body c (some rate_limited) =
    if for_a_day
    then too_many none daily (fails rate_limit_error) c
    else too_many none minute (again false rate_limit_error) c
judge_classified for_a_day body c (some unavailable) = transient_failure c

unfoldable pub judge : Reader → Counters → Response → Judged
unfolding classify_alpha_payload json_payload is_daily
judge reader c no_response = transient_failure c
judge reader c (response status retry_after body) =
    if status == 429
    then too_many (numeric_retry_after retry_after) minute (again false rate_limit_error) c
    else if leb 500 status
    then transient_failure c
    else if leb 400 status
    then ended_with transient (fails transient_error) c
    else let payload = json_payload reader body in
      judge_classified (is_daily reader payload) body c (classify_alpha_payload reader payload)

pub data FetchResult : Type 0 where
  fetched : Text → FetchResult
  raises : BrokerError → FetchResult

pub record Fetched : Type 0 where
  pub result : FetchResult
  pub effects : List Effect
  pub counters : Counters

-- An effect before what follows.
abbrev pub after : Effect → Fetched → Fetched
after e f = record f { effects = e ∷ f.effects }

abbrev pub asked_once : Counters → Counters
asked_once c = record c { upstream_requests = c.upstream_requests + 1 }

-- `upstream` is what each attempt meets, and `can_store` whether the cache takes an answer.
module _ (policy : AlphaVantageRetryPolicy) (reader : Reader) (name : String) (priority : ℕ)
    (can_store : Bool) (upstream : ℕ → Answer) where
  abbrev pub stop : FetchResult → List Effect → Counters → Fetched
  stop result effects c = record { result = result; effects = effects; counters = c }

  abbrev pub store : Text → Counters → Fetched
  store body c =
      if can_store
      then stop (fetched body) (stored (cache_ttl_seconds name) body ∷ []) c
      else stop (raises cache_error) [] c

  -- `rest` is what the next attempt does.
  abbrev pub go_on : ℕ → Counters → Next → Fetched → Fetched
  go_on attempt c (returns body) rest = store body c
  go_on attempt c (fails e) rest = stop (raises e) [] c
  go_on attempt c (again sleeps e) rest =
      if attempt == policy.attempts
      then stop (raises e) [] c
      else if sleeps
      then after (slept (delay policy attempt none)) rest
      else rest

  abbrev pub attempted : ℕ → Judged → Fetched → Fetched
  attempted attempt j rest = after (acquired priority) (
      after requested
        (after (gave_back j.outcome j.retry_after j.scope) (go_on attempt j.counters j.next rest)))

  -- One pass of the loop. The lease is not given back where the client raises what is not caught.
  abbrev pub try_once : ℕ → Counters → Answer → (Counters → Fetched) → Fetched
  try_once attempt c refused rest = stop (raises transient_error) [] c
  try_once attempt c crashed rest =
      after (acquired priority) (after requested (stop (raises client_error) [] (asked_once c)))
  try_once attempt c (answers r) rest =
      let j = judge reader (asked_once c) r in attempted attempt j (rest j.counters)

  -- The attempts that are left, the number of the next one, and the counters.
  unfoldable pub fetch_from : ℕ → ℕ → Counters → Fetched
  unfolding judge delay cache_ttl_seconds
  fetch_from zero attempt c = stop (raises unreachable) [] c
  fetch_from (suc left) attempt c =
      try_once attempt c (upstream attempt) (λ d. fetch_from left (attempt + 1) d)

  unfoldable pub fetch : Bool → Counters → Fetched
  unfolding fetch_from
  fetch is_started c =
      if is_started then fetch_from policy.attempts 1 c else stop (raises transient_error) [] c
