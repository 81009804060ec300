-- ===== src/Scheduler/Metadata.antt =====
-- What platform/src/tradingng_platform/scheduler/repository.py reads from the execution metadata
-- and from a request's data manifest.
use market_quorum.Prelude.{
  ℕ, ◌==◌, leb, Bool, true, false, not, ◌&&◌, ◌||◌, List, [], ◌∷◌, ◌++◌, Option, some, String,
  length, keep, map,
}
use market_quorum.Prelude.Text.{Text, codes, text_eq, strip, split_on}
use market_quorum.Prelude.Json.{Json, Fields, obj, str, get, truthy, fields_of}

pub record ExecutionMetadata : Type 0 where
  pub root_commit : String
  pub tradingagents_commit : String
  pub prompt_schema_version : String
  pub data_vendors : List (String × String)
  pub tool_vendors : List (String × String)
  pub vendor_policies : Fields

abbrev is_vendor : Text → Bool
is_vendor [] = false
is_vendor (c ∷ cs) = not (text_eq (c ∷ cs) (codes "default"))

-- The vendors of one comma-separated chain.
unfoldable pub chain_vendors : String → List Text
unfolding strip split_on text_eq
chain_vendors chain = keep is_vendor (map strip (split_on b',' (codes chain)))

abbrev chains_vendors : List (String × String) → List Text
chains_vendors [] = []
chains_vendors ((_, chain) ∷ rest) = chain_vendors chain ++ chains_vendors rest

-- `_configured_vendors`; the set as a list, in which only membership is tested.
unfoldable pub configured_vendors : ExecutionMetadata → List Text
unfolding chain_vendors
configured_vendors m = chains_vendors m.data_vendors ++ chains_vendors m.tool_vendors

-- `metadata.vendor_policies.get("stocklean", {}).get("manifest_required")`
unfoldable pub manifest_required : ExecutionMetadata → Bool
unfolding get truthy fields_of
manifest_required m =
    truthy (get "manifest_required" (fields_of (get "stocklean" m.vendor_policies)))

abbrev all {ℓ} : {A : Type ℓ} → (A → Bool) → List A → Bool
all p [] = true
all p (x ∷ xs) = p x && all p xs

unfoldable pub is_lower_hex : ℕ → Bool
is_lower_hex c = leb b'0' c && leb c b'9' || leb b'a' c && leb c b'f'

abbrev is_text {ℓ} : {A : Type ℓ} → List A → Bool
is_text [] = false
is_text (x ∷ xs) = true

abbrev is_snapshot_id : Option Json → Bool
is_snapshot_id (some (str s)) = is_text (strip (codes s))
is_snapshot_id _ = false

abbrev is_sha256 : Option Json → Bool
is_sha256 (some (str s)) = length (codes s) == 64 && all is_lower_hex (codes s)
is_sha256 _ = false

abbrev pub is_verified : Option Json → Bool
is_verified (some (obj m)) =
    is_snapshot_id (get "snapshot_id" m) && is_sha256 (get "manifest_sha256" m)
is_verified _ = false

-- `_has_verified_data_manifest`
unfoldable pub has_verified_data_manifest : Fields → Bool
unfolding get strip is_lower_hex
has_verified_data_manifest request_config = is_verified (get "data_manifest" request_config)
