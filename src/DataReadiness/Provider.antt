-- ===== src/DataReadiness/Provider.antt =====
-- vendors/stocklean.py: what the data provider answers.
use market_quorum.Prelude.{ℕ, Bool, Option, String}
use market_quorum.Prelude.Text.{Text}
use market_quorum.Prelude.Json.{Json}

-- What the provider says of a request. A document is given as JSON.
pub record ManifestReference : Type 0 where
  pub snapshot_id : String
  pub manifest_sha256 : String
  pub dump : Json

pub record ProviderError : Type 0 where
  pub code : String
  pub message : Text
  pub retryable : Bool
  pub retry_after : Option ℕ

pub data Readiness : Type 0 where
  waiting rejected ready : Readiness

pub record CandidateStatus : Type 0 where
  pub readiness : Readiness
  pub job : Option Json
  pub error : Option ProviderError
  pub manifest : Option ManifestReference

-- The manifest that the provider delivers, with the digest that is calculated from its content.
pub record Manifest : Type 0 where
  pub snapshot_id : String
  pub manifest_sha256 : String
  pub calculated : Option String

-- A call of the provider's client, which raises an error with a code or returns.
pub data Answer (A : Type 0) : Type 0 where
  raised : String → Answer A
  answered : A → Answer A
