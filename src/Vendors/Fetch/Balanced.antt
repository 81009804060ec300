-- ===== src/Vendors/Fetch/Balanced.antt =====
-- What the attempts of `_fetch` of vendors/alpha_vantage_broker.py take and give back.
use market_quorum.Prelude.{
  ℕ, zero, suc, ◌+◌, ◌≤◌, ◌<◌, ◌==◌, ◌≡◌, refl, sym, ap, Bool, true, false, Bool-cases, [], ◌∷◌,
  none, some, String, inl, inr, arith, if◌then◌else◌, All, count,
}
use market_quorum.Prelude.Text.{Text}
use market_quorum.Vendors.Retry.{AlphaVantageRetryPolicy, delay, delay-le}
use market_quorum.Vendors.Notices.{Reader, cache_ttl_seconds}
use market_quorum.Vendors.Fetch.Judging.{
  lease_after, keeps_lease, is_request, IsShort, IsPlain, IsKnown, judge-IsJudged,
}
use market_quorum.Vendors.Fetch.{
  Response, Answer, refused, crashed, answers, BrokerError, authentication_error, rate_limit_error,
  transient_error, client_error, cache_error, Counters, slept, stored, Next, again, fails, returns,
  judge, FetchResult, fetched, raises, Fetched, after, stop, asked_once, go_on, try_once,
  fetch_from, fetch,
}

module _ (policy : AlphaVantageRetryPolicy) (reader : Reader) (name : String) (priority : ℕ)
    (can_store : Bool) (upstream : ℕ → Answer) where
  -- The response at an attempt from `first` on, before `end`, was a good one with the body.
  pub record IsAnswered (first end : ℕ) (body : Text) : Type 0 where
    pub attempt : ℕ
    pub from : first ≤ attempt
    pub before : attempt < end
    pub given : Response
    pub came : upstream attempt ≡ answers given
    pub counters : Counters
    pub good : (judge reader counters given).next ≡ returns body

  -- The client raised at an attempt from `first` on, before `end`.
  pub record IsCrashed (first end : ℕ) : Type 0 where
    pub attempt : ℕ
    pub from : first ≤ attempt
    pub before : attempt < end
    pub came : upstream attempt ≡ crashed

  -- The result is the body of a good answer, what the client or the cache raised, or an error of
  -- the broker other than the one behind the loop.
  abbrev pub IsResult : ℕ → ℕ → FetchResult → Type 0
  IsResult first end (fetched body) = IsAnswered first end body
  IsResult first end (raises client_error) = IsCrashed first end
  IsResult first end (raises cache_error) = can_store ≡ false
  IsResult first end (raises e) = IsPlain e

  -- At most `left` requests, at attempts from `first` on and before `end`, beginning with the
  -- counters `c`.
  pub record IsFetched (left first end : ℕ) (c : Counters) (f : Fetched) : Type 0 where
    pub result : IsResult first end f.result
    pub leased : lease_after false f.effects ≡ some (keeps_lease f.result)
    pub bounded : count is_request f.effects ≤ left
    pub counted : f.counters.upstream_requests ≡ c.upstream_requests + count is_request f.effects
    pub short : All (IsShort policy) f.effects

  IsResult-earlier :
      (first end : ℕ) (r : FetchResult) → IsResult (first + 1) end r → IsResult first end r
  IsResult-earlier first end (fetched body) h = record {
    attempt = h.attempt;
    from = omega (arith, h.from);
    before = h.before;
    given = h.given;
    came = h.came;
    counters = h.counters;
    good = h.good;
  }
  IsResult-earlier first end (raises client_error) h = record {
    attempt = h.attempt;
    from = omega (arith, h.from);
    before = h.before;
    came = h.came;
  }
  IsResult-earlier first end (raises cache_error) h = h
  IsResult-earlier first end (raises _) h = h

  -- An attempt that is the last, or is followed by `rest`.
  abbrev IsAnswering : ℕ → ℕ → Next → Type 0
  IsAnswering first end (returns body) = IsAnswered first end body
  IsAnswering first end _ = Unit

  -- A call that ends without an effect, and with no error of the client.
  stop-IsFetched :
      (left first end : ℕ) (c : Counters) (r : FetchResult)
      → IsResult first end r
      → keeps_lease r ≡ false
      → IsFetched left first end c (stop policy reader name priority can_store upstream r [] c)
  stop-IsFetched left first end c r known kept = record {
    result = known;
    leased = ap some (sym kept);
    bounded = omega arith;
    counted = omega arith;
    short = tt;
  }

  plain-IsFetched :
      (left first end : ℕ) (c : Counters) (e : BrokerError)
      → IsPlain e
      → IsFetched left first end c
          (stop policy reader name priority can_store upstream (raises e) [] c)
  plain-IsFetched left first end c authentication_error known =
      stop-IsFetched left first end c (raises authentication_error) tt refl
  plain-IsFetched left first end c rate_limit_error known =
      stop-IsFetched left first end c (raises rate_limit_error) tt refl
  plain-IsFetched left first end c transient_error known =
      stop-IsFetched left first end c (raises transient_error) tt refl
  plain-IsFetched left first end c _ known = absurd known

  store-IsFetched :
      (left first end : ℕ) (c : Counters) (body : Text) (b : Bool)
      → can_store ≡ b
      → IsAnswered first end body
      → IsFetched left first end c (
          if b
          then stop policy reader name priority can_store upstream
              (fetched body)
              (stored (cache_ttl_seconds name) body ∷ [])
              c
          else stop policy reader name priority can_store upstream (raises cache_error) [] c)
  store-IsFetched left first end c body true takes good = record {
    result = good;
    leased = refl;
    bounded = omega arith;
    counted = omega arith;
    short = (tt, tt);
  }
  store-IsFetched left first end c body false full good =
      stop-IsFetched left first end c (raises cache_error) full refl

  resume-IsFetched :
      (left first end : ℕ) (c : Counters) (sleeps : Bool) (rest : Fetched)
      → IsFetched left (first + 1) end c rest
      → IsFetched left first end c
          (if sleeps then after (slept (delay policy first none)) rest else rest)
  resume-IsFetched left first end c true rest h = record {
    result = IsResult-earlier first end rest.result h.result;
    leased = h.leased;
    bounded = omega (arith, h.bounded);
    counted = omega (arith, h.counted);
    short = (delay-le policy first none, h.short);
  }
  resume-IsFetched left first end c false rest h = record {
    result = IsResult-earlier first end rest.result h.result;
    leased = h.leased;
    bounded = h.bounded;
    counted = h.counted;
    short = h.short;
  }

  go_on-IsFetched :
      (left first end : ℕ) (c : Counters) (n : Next) (rest : Fetched)
      → IsKnown reader n
      → IsAnswering first end n
      → first + left ≡ policy.attempts
      → (1 ≤ left → IsFetched left (first + 1) end c rest)
      → IsFetched left first end c
          (go_on policy reader name priority can_store upstream first c n rest)
  go_on-IsFetched left first end c (returns body) rest known good total ih =
      store-IsFetched left first end c body can_store refl good
  go_on-IsFetched left first end c (fails e) rest known good total ih =
      plain-IsFetched left first end c e known
  go_on-IsFetched left first end c (again sleeps e) rest known good total ih =
      elim (Bool-cases (first == policy.attempts)) [
        | inl last ↦ rw last (plain-IsFetched left first end c e known)
        | inr more ↦ rw more (resume-IsFetched left first end c sleeps rest (ih (ground arith)))
      ]

  answering :
      (first end : ℕ) (c : Counters) (given : Response) (n : Next)
      → first < end
      → upstream first ≡ answers given
      → (judge reader c given).next ≡ n
      → IsAnswering first end n
  answering first end c given (returns body) h came e = record {
    attempt = first;
    from = omega arith;
    before = h;
    given = given;
    came = came;
    counters = c;
    good = e;
  }
  answering first end c given (fails _) h came e = tt
  answering first end c given (again _ _) h came e = tt

  try_once-IsFetched :
      (left first end : ℕ) (c : Counters) (a : Answer) (rest : Counters → Fetched)
      → upstream first ≡ a
      → first < end
      → first + left ≡ policy.attempts
      → (1 ≤ left → (d : Counters) → IsFetched left (first + 1) end d (rest d))
      → IsFetched
          (suc left)
          first
          end
          c
          (try_once policy reader name priority can_store upstream first c a rest)
  try_once-IsFetched left first end c refused rest came within total ih =
      plain-IsFetched (suc left) first end c transient_error tt
  try_once-IsFetched left first end c crashed rest came within total ih = record {
    result = record { attempt = first; from = omega arith; before = within; came = came };
    leased = refl;
    bounded = omega arith;
    counted = omega arith;
    short = (tt, (tt, tt));
  }
  try_once-IsFetched left first end c (answers given) rest came within total ih =
      let j = judge reader (asked_once c) given in
      let (requests, known) = judge-IsJudged reader (asked_once c) given in
      let h =
        go_on-IsFetched left first end j.counters j.next (rest j.counters) known
          (answering first end (asked_once c) given j.next within came refl) total
          (λ more. ih more j.counters) in
      record {
        result = h.result;
        leased = h.leased;
        bounded = omega (arith, h.bounded);
        counted = omega (arith, h.counted, requests);
        short = (tt, (tt, (tt, h.short)));
      }

  fetch_from-IsFetched :
      (left first end : ℕ) (c : Counters)
      → 1 ≤ left
      → first + left ≡ policy.attempts + 1
      → first + left ≤ end
      → IsFetched left first end c
          (fetch_from policy reader name priority can_store upstream left first c)
  unfolding fetch_from
  fetch_from-IsFetched zero first end c some_left total within = absurd (omega arith)
  fetch_from-IsFetched (suc left) first end c some_left total within =
      try_once-IsFetched left first end c (upstream first)
        (λ d. fetch_from policy reader name priority can_store upstream left (first + 1) d) refl
        (omega arith) (omega arith)
        (λ more d. fetch_from-IsFetched left (first + 1) end d more (omega arith) (omega arith))

  -- Where the policy allows an attempt, `_fetch` ends in the body of a good answer to one of the
  -- attempts, in what the client raised at one of them, in what the cache raised, or in an error
  -- of the broker other than the one behind its loop, whether the coordinator is stopping or not;
  -- it asks at most as often as the policy allows and counts each request; each request goes out
  -- with a lease, nothing else happens while a lease is held, and a lease is kept at the end
  -- exactly where the call ends in what the client raised; and no sleep is longer than the
  -- policy's maximum.
  pub fetch-IsFetched :
      (is_started : Bool) (c : Counters)
      → 1 ≤ policy.attempts
      → IsFetched policy.attempts 1
          (policy.attempts + 1)
          c
          (fetch policy reader name priority can_store upstream is_started c)
  unfolding fetch
  fetch-IsFetched true c positive =
      fetch_from-IsFetched policy.attempts 1 (policy.attempts + 1) c positive (omega arith)
        (omega arith)
  fetch-IsFetched false c positive =
      plain-IsFetched policy.attempts 1 (policy.attempts + 1) c transient_error tt
