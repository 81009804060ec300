-- ===== src/Domain/Runs/Values.antt =====
-- The texts of `RunStatus` in domain/runs.py, and the enumeration's constructor `RunStatus(text)`.
use market_quorum.Prelude.{String, str_eq, Option, none, some, List, [], ◌∷◌, if◌then◌else◌}
use market_quorum.Domain.Runs.{
  RunStatus, waiting_for_data, queued, admitted, starting, running_analysts, research_debate,
  trader_plan, risk_debate, portfolio_decision, finalizing, succeeded, failed, cancel_requested,
  cancelling, cancelled, needs_attention,
}

-- `status.value`.
unfoldable pub value : RunStatus → String
value waiting_for_data = "waiting_for_data"
value queued = "queued"
value admitted = "admitted"
value starting = "starting"
value running_analysts = "running_analysts"
value research_debate = "research_debate"
value trader_plan = "trader_plan"
value risk_debate = "risk_debate"
value portfolio_decision = "portfolio_decision"
value finalizing = "finalizing"
value succeeded = "succeeded"
value failed = "failed"
value cancel_requested = "cancel_requested"
value cancelling = "cancelling"
value cancelled = "cancelled"
value needs_attention = "needs_attention"

-- The members of the enumeration, in order.
abbrev pub statuses : List RunStatus
statuses =
    waiting_for_data ∷ queued ∷ admitted ∷ starting ∷ running_analysts ∷ research_debate
    ∷ trader_plan ∷ risk_debate ∷ portfolio_decision ∷ finalizing ∷ succeeded ∷ failed
    ∷ cancel_requested ∷ cancelling ∷ cancelled ∷ needs_attention ∷ []

-- The first member of a list with the text.
unfoldable pub member_with : String → List RunStatus → Option RunStatus
member_with text [] = none
member_with text (s ∷ ss) = if str_eq text (value s) then some s else member_with text ss

-- `RunStatus(text)`, which raises `ValueError` where this is `none`.
unfoldable pub parse_status : String → Option RunStatus
unfolding value member_with
parse_status text = member_with text statuses
