-- ===== src/Assessments/Resolve/Steps.antt =====
-- The steps of `_resolve_stocklean_items` of assessments/service.py, one at a time.
use mathlib.Core.Path.{subst}
use market_quorum.Prelude.{
  ℕ, suc, zero, ◌+◌, ◌≡◌, refl, ap, ◌∙◌, Bool, true, false, not, ◌||◌, List, [], ◌∷◌, Option, none,
  some, String, any, arith, Option-cases, inl, inr, if◌then◌else◌, str_eq, str_eq_iff,
}
use market_quorum.Store.{Principal}
use market_quorum.Store.Tx.{Error, Result, ok, err, ok-cancel}
use market_quorum.Assessments.Resolve.{
  AssetType, stock, fund, crypto, same_asset_type, AssessmentItem, SubmitAssessments, CandidateItem,
  ResolvedItem, is_fundamentals, compatible_analysts, ExternalKey, keyed_items, item_with, check,
  required, then_each, then_complete, resolve_all, complete_response, resolve_response,
}

-- The item at a place of the submission.
abbrev pub item_at : ℕ → List AssessmentItem → Option AssessmentItem
item_at i [] = none
item_at zero (x ∷ xs) = some x
item_at (suc i) (x ∷ xs) = item_at i xs

module _ {A : Type 0} where
  pub check-eq-ok :
      (b : Bool) (e : Error) (r : Result A) {a : A} → check b e r ≡ ok a → (b ≡ true) × (r ≡ ok a)
  check-eq-ok true e r h = (refl, h)
  check-eq-ok false e r h = cc

  pub required-eq-ok :
      {B : Type 0} (o : Option B) (e : Error) (f : B → Result A) {a : A}
      → required o e f ≡ ok a
      → (b : B) × (o ≡ some b) × (f b ≡ ok a)
  required-eq-ok none e f h = cc
  required-eq-ok (some b) e f h = (b, refl, h)

  pub check-true : (b : Bool) (e : Error) (r : Result A) → b ≡ true → check b e r ≡ r
  check-true true e r h = refl
  check-true false e r h = cc

  pub required-some :
      {B : Type 0} (o : Option B) (e : Error) (f : B → Result A) {b : B}
      → o ≡ some b
      → required o e f ≡ f b
  required-some none e f h = cc
  required-some (some c) e f h = ap (λ o. required o e f) h

-- No analyst of the fundamentals is left for what is not a stock.
pub compatible-suited :
    (t : AssetType) (analysts : List String)
    → (same_asset_type t stock || not (any is_fundamentals (compatible_analysts analysts t))) ≡ true
unfolding compatible_analysts
compatible-suited stock analysts = refl
compatible-suited fund [] = refl
compatible-suited fund (a ∷ rest) = ground (arith, compatible-suited fund rest)
compatible-suited crypto [] = refl
compatible-suited crypto (a ∷ rest) = ground (arith, compatible-suited crypto rest)

if-some :
    {A : Type 0} (b : Bool) {x y : A} → (if b then some x else none) ≡ some y → (b ≡ true) × (x ≡ y)
if-some true {x} {y} h = (refl, ground arith)
if-some false h = cc

-- A key that is found is the key of an item at some place.
item_with-place :
    (external_key : ExternalKey) (k : String) (start : ℕ) (items : List AssessmentItem)
    (key : String) {item : AssessmentItem}
    → item_with key (keyed_items external_key k start items) ≡ some item
    → (i : ℕ) × (item_at i items ≡ some item) × (external_key k (start + i) item.ticker ≡ key)
item_with-place external_key k start [] key h = cc
item_with-place external_key k start (x ∷ xs) key {item} h =
    elim (Option-cases (item_with key (keyed_items external_key k (suc start) xs))) [
      | inr (found, e) ↦
          let (i, at, same) = item_with-place external_key k (suc start) xs key (e ∙ (rw e at h)) in
          (
            suc i,
            at,
            (let moved : suc start + i ≡ start + suc i = omega arith in
                subst (λ n. external_key k n item.ticker ≡ key) moved same),
          )
      | inl e ↦
          let (hit, same) = if-some (str_eq (external_key k start x.ticker) key) (rw e at h) in
          (
            zero,
            ap some same,
            (let moved : start ≡ start + zero = omega arith in
                subst (λ n. external_key k n item.ticker ≡ key) moved
                  (subst (λ (y : AssessmentItem). external_key k start y.ticker ≡ key) same
                    ((str_eq_iff _ key).0 hit))),
          )
    ]

pub item_with-first :
    (external_key : ExternalKey) (k : String) (items : List AssessmentItem) (key : String)
    {item : AssessmentItem}
    → item_with key (keyed_items external_key k 0 items) ≡ some item
    → (i : ℕ) × (item_at i items ≡ some item) × (external_key k i item.ticker ≡ key)
item_with-first external_key k items key {item} h =
    let (i, at, same) = item_with-place external_key k 0 items key h in
    let moved : 0 + i ≡ i = omega arith in
    (i, at, subst (λ n. external_key k n item.ticker ≡ key) moved same)

pub then_each-eq-ok :
    (first : Result ResolvedItem) (rest : Result (List ResolvedItem)) {rs : List ResolvedItem}
    → then_each first rest ≡ ok rs
    → (r : ResolvedItem) × (more : List ResolvedItem) × (first ≡ ok r)
      × (rest ≡ ok more)
      × ((r ∷ more) ≡ rs)
then_each-eq-ok (err e) rest h = cc
then_each-eq-ok (ok r) (err e) h = cc
then_each-eq-ok (ok r) (ok more) h = (r, more, refl, refl, ok-cancel h)

pub response-eq-ok :
    (principal : Principal) (command : SubmitAssessments) (keyed : List (String × AssessmentItem))
    (answer : Result (List CandidateItem)) {rs : List ResolvedItem}
    → resolve_response principal command keyed answer ≡ ok rs
    → (response : List CandidateItem) × (resolved : List ResolvedItem) × (answer ≡ ok response)
      × (resolve_all principal command.analysts keyed response ≡ ok resolved)
      × (complete_response command.items resolved ≡ ok rs)
response-eq-ok principal command keyed (err e) h = cc
response-eq-ok principal command keyed (ok response) {rs} h =
    at (resolve_all principal command.analysts keyed response) refl h
  where
    at :
        (x : Result (List ResolvedItem))
        → resolve_all principal command.analysts keyed response ≡ x
        → then_complete command.items x ≡ ok rs
        → (answer : List CandidateItem) × (resolved : List ResolvedItem) × (Result.ok response
            ≡ ok answer)
          × (resolve_all principal command.analysts keyed answer ≡ ok resolved)
          × (complete_response command.items resolved ≡ ok rs)
    at (err e) same h = cc
    at (ok resolved) same h = (response, resolved, refl, same, h)
