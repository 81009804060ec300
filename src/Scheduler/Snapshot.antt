-- ===== src/Scheduler/Snapshot.antt =====
-- `build_run_snapshot` of platform/src/tradingng_platform/scheduler/repository.py: the immutable
-- record of the configuration with which a run is executed.
use market_quorum.Prelude.{
  ℕ, List, [], ◌∷◌, Option, none, some, String, str_eq, if◌then◌else◌, get_or_else,
}
use market_quorum.Prelude.Json.{Json, num, str, obj, Fields, end, field, get, truthy}
use market_quorum.Scheduler.Policy.{Depth, shallow, medium, deep, depth_rounds, GatewaySnapshot}
use market_quorum.Scheduler.Metadata.{ExecutionMetadata}

-- assessments/contracts.py
pub data MemoryMode : Type 0 where
  independent historical : MemoryMode

abbrev pub memory_text : MemoryMode → String
memory_text independent = "independent"
memory_text historical = "historical"

unfoldable pub parse_memory_mode : String → Option MemoryMode
parse_memory_mode text =
    if str_eq text "independent"
    then some independent
    else (if str_eq text "historical" then some historical else none)

unfoldable pub parse_depth : String → Option Depth
parse_depth text =
    if str_eq text "shallow"
    then some shallow
    else (if str_eq text "medium"
        then some medium
        else (if str_eq text "deep" then some deep else none))

-- `Depth(value)` and `MemoryMode(value)` of a stored value.
abbrev pub parse_json {ℓ} : {A : Type ℓ} → (String → Option A) → Option Json → Option A
parse_json parse (some (str text)) = parse text
parse_json parse _ = none

-- model_routing.py
pub record ModelRoute : Type 0 where
  pub model : String
  pub reasoning_effort : String

pub record ModelRoutingPolicy : Type 0 where
  pub fast : ModelRoute
  pub slow : ModelRoute

abbrev pub default_routing : ModelRoutingPolicy
default_routing = record {
  fast = record { model = "gpt-5.6-terra"; reasoning_effort = "high" };
  slow = record { model = "gpt-5.6-sol"; reasoning_effort = "high" };
}

-- `model_dump(mode="json")`
abbrev dump_route : ModelRoute → Json
dump_route r =
    obj (field "model" (str r.model) (field "reasoning_effort" (str r.reasoning_effort) end))

unfoldable pub dump_routing : ModelRoutingPolicy → Json
dump_routing p = obj (field "fast" (dump_route p.fast) (field "slow" (dump_route p.slow) end))

-- memory/context.py: the parts of a memory snapshot that a run records.
pub record MemorySnapshot : Type 0 where
  pub mode : MemoryMode
  pub entry_count : ℕ
  pub snapshot_sha256 : String
  pub dump : Json

abbrev pub dump_map : List (String × String) → Fields
dump_map [] = end
dump_map ((k, v) ∷ rest) = field k (str v) (dump_map rest)

-- `str(request_config.get("benchmark_ticker") or "SPY")` of a text.
abbrev benchmark_of : Option Json → Json
benchmark_of (some (str t)) = if truthy (some (str t)) then str t else str "SPY"
benchmark_of (some v) = if truthy (some v) then v else str "SPY"
benchmark_of none = str "SPY"

-- `digest` is the SHA-256 of a document's canonical text.
unfoldable pub snapshot_content :
    (Json → String)
    → Fields
    → Depth
    → GatewaySnapshot
    → ExecutionMetadata
    → MemorySnapshot
    → ModelRoutingPolicy
    → Json
unfolding depth_rounds dump_routing truthy get
snapshot_content digest request_config depth gateway metadata memory routing = obj (
    field "request" (obj request_config) (
      field "resolved"
        (obj (
          field "debate_rounds" (num (depth_rounds depth).0) (
            field "risk_rounds" (num (depth_rounds depth).1) (
              field "benchmark_ticker" (benchmark_of (get "benchmark_ticker" request_config))
                end))))
        (field "gateway"
          (obj (
            field "model" (str gateway.model) (
              field "reasoning_effort" (str gateway.reasoning_effort) (
                field "snapshot_id" (str gateway.snapshot_id) (
                  field "routes" (dump_routing routing)
                    (field "routing_snapshot_id" (str (digest (dump_routing routing))) end))))))
          (field "source"
            (obj (
              field "root_commit" (str metadata.root_commit)
                (field "tradingagents_commit" (str metadata.tradingagents_commit) end)))
            (field "prompt_schema_version" (str metadata.prompt_schema_version) (
              field "data_vendors" (obj (dump_map metadata.data_vendors)) (
                field "tool_vendors" (obj (dump_map metadata.tool_vendors)) (
                  field "vendor_policies" (obj metadata.vendor_policies)
                    (field "memory" memory.dump end)))))))))

pub record BuiltRunSnapshot : Type 0 where
  pub content : Json
  pub sha256 : String

-- `none` where the depth is missing or unknown.
unfoldable pub build_run_snapshot :
    (Json → String)
    → Fields
    → GatewaySnapshot
    → ExecutionMetadata
    → MemorySnapshot
    → Option ModelRoutingPolicy
    → Option BuiltRunSnapshot
unfolding parse_depth snapshot_content get
build_run_snapshot digest request_config gateway metadata memory routing =
    elim (parse_json parse_depth (get "depth" request_config)) [
      | none ↦ none
      | some depth ↦
          let content : Json =
            snapshot_content digest request_config depth gateway metadata memory
              (get_or_else routing default_routing) in
          some record { content = content; sha256 = digest content }
    ]
