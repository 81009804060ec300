-- ===== src/Tests/Resolving.antt =====
-- The resolution of a submission of a stock and a fund.
use market_quorum.Prelude.{
  Bool, ◌≡◌, ◌==◌, ◌↔◌, refl, true, false, List, [], ◌∷◌, none, some, String, if◌then◌else◌,
}
use market_quorum.Prelude.Json.{null}
use market_quorum.Store.{Principal}
use market_quorum.Store.Tx.{ok, err, permission_error}
use market_quorum.DataReadiness.Provider.{ManifestReference, Readiness}
use market_quorum.Assessments.Resolve.{
  stock, fund, AssessmentItem, SubmitAssessments, Scope, production, research, Identity,
  CandidateItem, ResolvedItem, compatible_analysts, required_products, ExternalKey,
  resolve_admission, resolve_all, ResearchClient, resolve_stocklean_items,
}
use market_quorum.Assessments.Resolve.Resolved.{IsResolved, resolve_stocklean_items-IsResolved_iff}

abbrev researcher : List String → Principal
researcher scopes = record {
  issuer = "idp";
  subject = "carol";
  actor_type = "user";
  scopes = scopes;
  roles = [];
}

abbrev enroller : Principal
enroller = researcher ("research_symbols:enroll" ∷ [])

abbrev first_item : AssessmentItem
first_item = record { ticker = "AAPL"; asset_type = some stock; analysis_date = 20000 }

abbrev second_item : AssessmentItem
second_item = record { ticker = "SPY"; asset_type = none; analysis_date = 20000 }

abbrev command : SubmitAssessments
command = record {
  items = first_item ∷ second_item ∷ [];
  analysts = "market" ∷ "fundamentals" ∷ [];
  idempotency_key = "submission";
}

abbrev sample_key : ExternalKey
sample_key k index ticker = if index == 0 then "key 0" else "key 1"

abbrev identity_of : Bool → Identity
identity_of is_stock = record {
  is_stock = is_stock;
  exchange = none;
  name = none;
  vendor_symbol = "V";
}

abbrev reference : ManifestReference
reference = record { snapshot_id = "s"; manifest_sha256 = "h"; dump = null }

abbrev admission_of : String → Scope → Bool → CandidateItem
admission_of key scope is_stock = record {
  external_request_key = key;
  candidate_request_id = none;
  scope = scope;
  identity = some (identity_of is_stock);
  readiness = Readiness.ready;
  required_products = "market" ∷ [];
  job = none;
  manifest = some reference;
  error = none;
}

-- The answer names the items in another order.
abbrev sample_client : ResearchClient
sample_client subject candidates =
    ok (admission_of "key 1" research false ∷ admission_of "key 0" production true ∷ [])

abbrev resolved_fund : ResolvedItem
resolved_fund = record {
  item = second_item;
  asset_type = fund;
  identity = identity_of false;
  analysts = "market" ∷ [];
  data_admission = admission_of "key 1" research false;
}

abbrev resolved_stock : ResolvedItem
resolved_stock = record {
  item = first_item;
  asset_type = stock;
  identity = identity_of true;
  analysts = "market" ∷ "fundamentals" ∷ [];
  data_admission = admission_of "key 0" production true;
}

abbrev subject : Principal → String
subject p = "subject"

resolve_stocklean_items-IsResolved_iff_example :
    (resolve_stocklean_items sample_key subject sample_client enroller command
      ≡ ok (resolved_fund ∷ resolved_stock ∷ []))
    ↔ IsResolved sample_key subject sample_client enroller command
        (resolved_fund ∷ resolved_stock ∷ [])
resolve_stocklean_items-IsResolved_iff_example =
    resolve_stocklean_items-IsResolved_iff sample_key enroller command subject sample_client
      (resolved_fund ∷ resolved_stock ∷ [])

resolves_two :
    resolve_stocklean_items sample_key subject sample_client enroller command
    ≡ ok (resolved_fund ∷ resolved_stock ∷ [])
unfolding resolve_stocklean_items resolve_all resolve_admission compatible_analysts
resolves_two = refl

-- A candidate for research needs the scope to enroll it.
refuses_stranger :
    resolve_stocklean_items sample_key subject sample_client (researcher []) command
    ≡ err (permission_error "missing scopes")
unfolding resolve_stocklean_items resolve_all resolve_admission compatible_analysts
refuses_stranger = refl

products_once :
    required_products ("news" ∷ "market" ∷ "news" ∷ [])
    ≡ "ticker_news" ∷ "market" ∷ "validation" ∷ "integrity" ∷ []
unfolding required_products
products_once = refl
