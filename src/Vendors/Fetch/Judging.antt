-- ===== src/Vendors/Fetch/Judging.antt =====
-- What an attempt of `_fetch` of vendors/alpha_vantage_broker.py may do, and how its answer is judged.
use market_quorum.Prelude.{
  ◌≤◌, leb, ◌==◌, ◌≡◌, refl, Bool, true, false, Bool-cases, List, [], ◌∷◌, Option, none, some, inl,
  inr,
}
use market_quorum.Prelude.Text.{Text}
use market_quorum.Vendors.Retry.{AlphaVantageRetryPolicy}
use market_quorum.Vendors.Notices.{
  Reader, Classification, rate_limited, authentication, unavailable,
}
use market_quorum.Vendors.Fetch.{
  Response, no_response, response, judge_classified, BrokerError, authentication_error,
  rate_limit_error, transient_error, client_error, Counters, Effect, acquired, requested, gave_back,
  slept, stored, Next, again, fails, returns, Judged, judge, FetchResult, raises,
}

-- Whether a lease is held after the effects, where every request goes out with a lease and nothing
-- else happens while one is held.
abbrev pub lease_after : Bool → List Effect → Option Bool
lease_after held [] = some held
lease_after false (acquired priority ∷ es) = lease_after true es
lease_after true (requested ∷ es) = lease_after true es
lease_after true (gave_back outcome retry_after scope ∷ es) = lease_after false es
lease_after false (slept seconds ∷ es) = lease_after false es
lease_after false (stored ttl_seconds body ∷ es) = lease_after false es
lease_after _ (_ ∷ es) = none

-- A call keeps its lease exactly where it passes on what the client raised.
abbrev pub keeps_lease : FetchResult → Bool
keeps_lease (raises client_error) = true
keeps_lease _ = false

abbrev pub is_request : Effect → Bool
is_request requested = true
is_request _ = false

-- A sleep is no longer than the policy allows.
abbrev pub IsShort : AlphaVantageRetryPolicy → Effect → Type 0
IsShort policy (slept seconds) = seconds ≤ policy.max_seconds
IsShort policy _ = Unit

-- The errors that the broker raises of itself.
abbrev pub IsPlain : BrokerError → Type 0
IsPlain authentication_error = Unit
IsPlain rate_limit_error = Unit
IsPlain transient_error = Unit
IsPlain _ = ⊥

module _ (reader : Reader) where
  abbrev pub IsKnown : Next → Type 0
  IsKnown (again sleeps e) = IsPlain e
  IsKnown (fails e) = IsPlain e
  IsKnown (returns body) = Unit

  abbrev pub IsJudged : Counters → Judged → Type 0
  IsJudged c j = (j.counters.upstream_requests ≡ c.upstream_requests) × IsKnown j.next

  judge_classified-IsJudged :
      (for_a_day : Bool) (body : Text) (c : Counters) (o : Option Classification)
      → IsJudged c (judge_classified for_a_day body c o)
  judge_classified-IsJudged for_a_day body c none = (refl, tt)
  judge_classified-IsJudged for_a_day body c (some authentication) = (refl, tt)
  judge_classified-IsJudged true body c (some rate_limited) = (refl, tt)
  judge_classified-IsJudged false body c (some rate_limited) = (refl, tt)
  judge_classified-IsJudged for_a_day body c (some unavailable) = (refl, tt)

  pub judge-IsJudged : (c : Counters) (r : Response) → IsJudged c (judge reader c r)
  unfolding judge
  judge-IsJudged c no_response = (refl, tt)
  judge-IsJudged c (response status retry_after body) = elim (Bool-cases (status == 429)) [
    | inl limited ↦ rw limited (refl, tt)
    | inr other ↦ rw other (elim (Bool-cases (leb 500 status)) [
      | inl broken ↦ rw broken (refl, tt)
      | inr up ↦ rw up (elim (Bool-cases (leb 400 status)) [
        | inl faulty ↦ rw faulty (refl, tt)
        | inr taken ↦ rw taken (judge_classified-IsJudged _ body c _)
      ])
    ])
  ]
