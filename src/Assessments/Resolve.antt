-- ===== src/Assessments/Resolve.antt =====
-- The resolution of the items of a submission in assessments/service.py, against what the data provider
-- of vendors/stocklean.py admits.
pub mod Steps
pub mod Resolved
use market_quorum.Prelude.{
  ℕ, suc, ◌==◌, Bool, true, false, not, ◌&&◌, ◌||◌, List, [], ◌∷◌, Option, none, some, String,
  str_eq, if◌then◌else◌, keep, any, length, is_empty, map, ◌++◌,
}
use market_quorum.Prelude.Json.{Json, str, arr, Items, nil, cons, Fields, end, field}
use market_quorum.Domain.Runs.{RunStatus, queued, waiting_for_data}
use market_quorum.Store.{Principal}
use market_quorum.Store.Tx.{
  Error, Result, ok, err, runtime_error, permission_error, data_admission_rejected,
  asset_type_conflict, analysts_incompatible,
}
use market_quorum.DataReadiness.Provider.{ManifestReference, ProviderError, Readiness}
use market_quorum.Assessments.{RequirementSpec}
use market_quorum.Assessments.Cancel.{has_scope}

pub data AssetType : Type 0 where
  stock fund crypto : AssetType

abbrev pub same_asset_type : AssetType → AssetType → Bool
same_asset_type stock stock = true
same_asset_type fund fund = true
same_asset_type crypto crypto = true
same_asset_type _ _ = false

pub record AssessmentItem : Type 0 where
  pub ticker : String
  pub asset_type : Option AssetType
  pub analysis_date : ℕ

-- What the resolution reads of a submission.
pub record SubmitAssessments : Type 0 where
  pub items : List AssessmentItem
  pub analysts : List String
  pub idempotency_key : String

pub data Scope : Type 0 where
  production research : Scope

pub record Identity : Type 0 where
  pub is_stock : Bool
  pub exchange : Option String
  pub name : Option String
  pub vendor_symbol : String

-- `StockLeanResearchCandidateItem`
pub record CandidateItem : Type 0 where
  pub external_request_key : String
  pub candidate_request_id : Option ℕ
  pub scope : Scope
  pub identity : Option Identity
  pub readiness : Readiness
  pub required_products : List String
  pub job : Option Json
  pub manifest : Option ManifestReference
  pub error : Option ProviderError

-- `ResolvedAssessmentItem`, with the asset type of its classification.
pub record ResolvedItem : Type 0 where
  pub item : AssessmentItem
  pub asset_type : AssetType
  pub identity : Identity
  pub analysts : List String
  pub data_admission : CandidateItem

abbrev pub is_fundamentals : String → Bool
is_fundamentals = str_eq "fundamentals"

-- `_compatible_analysts`
unfoldable pub compatible_analysts : List String → AssetType → List String
compatible_analysts analysts stock = analysts
compatible_analysts analysts _ = keep (λ a. not (is_fundamentals a)) analysts

-- The products that the analysts read, each once, in the order of the first that reads it.
abbrev pub products_of : String → List String
products_of analyst =
    if str_eq "market" analyst
    then "market" ∷ []
    else (if str_eq "fundamentals" analyst
        then "fundamental" ∷ []
        else (if str_eq "news" analyst
            then "ticker_news" ∷ []
            else (if str_eq "social" analyst then "global_news" ∷ [] else [])))

-- `dict.fromkeys`, given the keys that come before.
abbrev pub add_new : List String → List String → List String
add_new seen [] = []
add_new seen (x ∷ xs) = if any (str_eq x) seen then add_new seen xs else x ∷ add_new (x ∷ seen) xs

abbrev pub all_products : List String → List String
all_products [] = "validation" ∷ "integrity" ∷ []
all_products (a ∷ rest) = products_of a ++ all_products rest

unfoldable pub required_products : List String → List String
required_products analysts = add_new [] (all_products analysts)

-- One element of the request to the provider.
pub record CandidateRequest : Type 0 where
  pub external_request_key : String
  pub symbol : String
  pub analysis_date : ℕ
  pub analysts : List String
  pub required_products : List String

-- The key of an item is a digest of the submission's key, the item's place and its ticker.
abbrev pub ExternalKey : Type 0
ExternalKey = String → ℕ → String → String

abbrev pub keyed_items :
    ExternalKey → String → ℕ → List AssessmentItem → List (String × AssessmentItem)
keyed_items external_key k index [] = []
keyed_items external_key k index (item ∷ items) =
    (external_key k index item.ticker, item) ∷ keyed_items external_key k (suc index) items

abbrev pub candidate_of : List String → String × AssessmentItem → CandidateRequest
candidate_of analysts (key, item) = record {
  external_request_key = key;
  symbol = item.ticker;
  analysis_date = item.analysis_date;
  analysts = analysts;
  required_products = required_products analysts;
}

-- `items_by_key.get`: of equal keys the last one is kept.
abbrev pub item_with : String → List (String × AssessmentItem) → Option AssessmentItem
item_with key [] = none
item_with key ((k, item) ∷ rest) = elim (item_with key rest) [
  | some found ↦ some found
  | none ↦ if str_eq k key then some item else none
]

abbrev pub check : {A : Type 0} → Bool → Error → Result A → Result A
check true e r = r
check false e r = err e

abbrev pub required : {A B : Type 0} → Option A → Error → (A → Result B) → Result B
required none e f = err e
required (some a) e f = f a

abbrev pub is_rejected : Readiness → Bool
is_rejected Readiness.rejected = true
is_rejected _ = false

abbrev pub rejection_code : Option ProviderError → String
rejection_code none = "stocklean_rejected"
rejection_code (some error) = error.code

abbrev pub may_enroll : Principal → Scope → Bool
may_enroll principal production = true
may_enroll principal research = has_scope "research_symbols:enroll" principal

abbrev pub asset_type_of : Identity → AssetType
asset_type_of identity = if identity.is_stock then stock else fund

abbrev pub agrees : Option AssetType → AssetType → Bool
agrees none t = true
agrees (some expected) t = same_asset_type expected t

-- One pass of the loop over the answer.
unfoldable pub resolve_admission :
    Principal → List String → List (String × AssessmentItem) → CandidateItem → Result ResolvedItem
resolve_admission principal analysts keyed admission =
    required (item_with admission.external_request_key keyed)
      (runtime_error "StockLean returned an unknown request key")
      λ item.
        check (not (is_rejected admission.readiness))
          (data_admission_rejected item.ticker (rejection_code admission.error))
          (required admission.identity
            (runtime_error "StockLean admission did not include instrument identity")
            λ identity.
              let asset_type = asset_type_of identity in
              let compatible = compatible_analysts analysts asset_type in
              check (may_enroll principal admission.scope) (permission_error "missing scopes") (
                check (agrees item.asset_type asset_type) (asset_type_conflict item.ticker) (
                  check (not (is_empty compatible)) (analysts_incompatible item.ticker) (
                    ok record {
                      item = item;
                      asset_type = asset_type;
                      identity = identity;
                      analysts = compatible;
                      data_admission = admission;
                    }))))

abbrev pub then_each : Result ResolvedItem → Result (List ResolvedItem) → Result (List ResolvedItem)
then_each (err e) rest = err e
then_each (ok r) (err e) = err e
then_each (ok r) (ok rs) = ok (r ∷ rs)

unfoldable pub resolve_all :
    Principal
    → List String
    → List (String × AssessmentItem)
    → List CandidateItem
    → Result (List ResolvedItem)
resolve_all principal analysts keyed [] = ok []
resolve_all principal analysts keyed (a ∷ more) =
    let rest = resolve_all principal analysts keyed more in
    then_each (resolve_admission principal analysts keyed a) rest

-- The provider's client, which takes the principal's reference and may raise.
abbrev pub ResearchClient : Type 0
ResearchClient = String → List CandidateRequest → Result (List CandidateItem)

abbrev pub complete_response : List AssessmentItem → List ResolvedItem → Result (List ResolvedItem)
complete_response items resolved =
    check (length resolved == length items)
      (runtime_error "StockLean returned an incomplete admission response") (ok resolved)

abbrev pub then_complete :
    List AssessmentItem → Result (List ResolvedItem) → Result (List ResolvedItem)
then_complete items (err e) = err e
then_complete items (ok resolved) = complete_response items resolved

abbrev pub resolve_response :
    Principal
    → SubmitAssessments
    → List (String × AssessmentItem)
    → Result (List CandidateItem)
    → Result (List ResolvedItem)
resolve_response principal command keyed (err e) = err e
resolve_response principal command keyed (ok response) =
    then_complete command.items (resolve_all principal command.analysts keyed response)

-- `_resolve_stocklean_items`; the reference of a principal is a digest.
unfoldable pub resolve_stocklean_items :
    ExternalKey
    → (Principal → String)
    → ResearchClient
    → Principal
    → SubmitAssessments
    → Result (List ResolvedItem)
unfolding resolve_all
resolve_stocklean_items external_key subject_ref client principal command =
    let keyed = keyed_items external_key command.idempotency_key 0 command.items in
    resolve_response principal command keyed
      (client (subject_ref principal) (map (candidate_of command.analysts) keyed))

abbrev pub strings : List String → Items
strings [] = nil
strings (x ∷ xs) = cons (str x) (strings xs)

abbrev pub manifest_config : Option ManifestReference → Fields
manifest_config none = end
manifest_config (some manifest) = field "data_manifest" manifest.dump end

-- `_request_config`
abbrev pub request_config_of : ResolvedItem → Fields
request_config_of resolved =
    field "analysts" (arr (strings resolved.analysts))
      (manifest_config resolved.data_admission.manifest)

abbrev pub is_waiting_admission : Readiness → Bool
is_waiting_admission Readiness.waiting = true
is_waiting_admission _ = false

abbrev pub requirement_spec :
    (ℕ → String) → CandidateItem → Option ℕ → Option Json → Result RequirementSpec
requirement_spec text_of admission (some id) (some job) = ok record {
  provider_request_id = text_of id;
  external_request_key = admission.external_request_key;
  required_products = admission.required_products;
  progress = job;
}
requirement_spec text_of admission _ _ =
    err (runtime_error "waiting StockLean admission is missing progress references")

abbrev pub optional : {A : Type 0} → Result A → Result (Option A)
optional (ok a) = ok (some a)
optional (err e) = err e

-- `_data_requirement`
abbrev pub data_requirement : (ℕ → String) → ResolvedItem → Result (Option RequirementSpec)
data_requirement text_of resolved =
    let admission = resolved.data_admission in
    if is_waiting_admission admission.readiness
    then optional (requirement_spec text_of admission admission.candidate_request_id admission.job)
    else ok none

-- The status in which a run of the item is created.
abbrev pub initial_status : ResolvedItem → RunStatus
initial_status resolved =
    if is_waiting_admission resolved.data_admission.readiness then waiting_for_data else queued
