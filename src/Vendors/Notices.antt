-- ===== src/Vendors/Notices.antt =====
-- How vendors/alpha_vantage.py and vendors/alpha_vantage_broker.py read an answer of Alpha Vantage.
use Prim.Native.String.{String}
use market_quorum.Prelude.{
  ℕ, ◌*◌, Bool, false, ◌||◌, List, [], ◌∷◌, ◌++◌, Option, none, some, any, is_empty, if◌then◌else◌,
  String, str_eq,
}
use market_quorum.Prelude.Text.{Text, codes, starts_with, strip_left}
use market_quorum.Prelude.Json.{Json, obj, Fields, end, field, get, truthy}

pub data Classification : Type 0 where
  rate_limited authentication unavailable : Classification

-- What the standard library gives: `json.loads`, `str` of a value and `str.lower`.
pub record Reader : Type 0 where
  pub loads : Text → Option Json
  pub text : Json → Text
  pub lower : Text → Text

abbrev pub contains : Text → Text → Bool
contains needle [] = is_empty needle
contains needle (c ∷ cs) = starts_with needle (c ∷ cs) || contains needle cs

abbrev pub joined : List Text → Text
joined [] = []
joined (s ∷ []) = s
joined (s ∷ t ∷ ts) = s ++ (b' ' ∷ joined (t ∷ ts))

abbrev pub rate_limit_markers : List String
rate_limit_markers =
    "rate limit" ∷ "call frequency" ∷ "requests per minute" ∷ "requests per day"
    ∷ "too many requests" ∷ []

abbrev pub authentication_markers : List String
authentication_markers =
    "invalid api key" ∷ "missing api key" ∷ "api key is invalid" ∷ "apikey is invalid" ∷ []

abbrev pub notice_keys : List String
notice_keys = "Information" ∷ "Note" ∷ "Error Message" ∷ "message" ∷ "error" ∷ []

abbrev pub has_marker : List String → Text → Bool
has_marker markers message = any (λ m. contains (codes m) message) markers

module _ (reader : Reader) where
  abbrev pub with_notice : Option Json → List Text → List Text
  with_notice none notices = notices
  with_notice (some v) notices = if truthy (some v) then reader.text v ∷ notices else notices

  abbrev pub notices_of : List String → Fields → List Text
  notices_of [] payload = []
  notices_of (key ∷ keys) payload = with_notice (get key payload) (notices_of keys payload)

  abbrev pub classify_message : Text → Classification
  classify_message message =
      if has_marker rate_limit_markers message
      then rate_limited
      else if has_marker authentication_markers message
      then authentication
      else unavailable

  abbrev pub classify_notices : List Text → Option Classification
  classify_notices [] = none
  classify_notices (n ∷ ns) = some (classify_message (reader.lower (joined (n ∷ ns))))

  unfoldable pub classify_alpha_payload : Option Json → Option Classification
  unfolding get truthy starts_with
  classify_alpha_payload (some (obj payload)) = classify_notices (notices_of notice_keys payload)
  classify_alpha_payload _ = none

  -- `body.lstrip()` starts with a brace.
  unfoldable pub json_payload : Text → Option Json
  unfolding strip_left starts_with
  json_payload body = if starts_with (b'{' ∷ []) (strip_left body) then reader.loads body else none

  abbrev pub values_of : Fields → List Text
  values_of end = []
  values_of (field k v rest) = reader.text v ∷ values_of rest

  -- The message speaks of a day.
  unfoldable pub is_daily : Option Json → Bool
  unfolding starts_with
  is_daily (some (obj payload)) =
      let message = reader.lower (joined (values_of payload)) in
      contains (codes "per day") message || contains (codes "requests per day") message
  is_daily _ = false

-- `_cache_ttl_seconds`, of the function's name in capitals.
unfoldable pub cache_ttl_seconds : String → ℕ
cache_ttl_seconds name =
    if any (str_eq name) ("OVERVIEW" ∷ "BALANCE_SHEET" ∷ "CASH_FLOW" ∷ "INCOME_STATEMENT" ∷ [])
    then 6 * 60 * 60
    else if str_eq name "NEWS_SENTIMENT"
    then 5 * 60
    else 15 * 60

unfoldable pub priority_for_consumer : String → ℕ
priority_for_consumer consumer =
    if str_eq consumer "research" then 0 else if str_eq consumer "validation" then 20 else 50
