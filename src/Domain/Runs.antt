-- ===== src/Domain/Runs.antt =====
-- platform/src/tradingng_platform/domain/runs.py: the life cycle of an assessment run.
pub mod Values
pub mod Progress
use market_quorum.Prelude.{
  ℕ, Bool, true, false, ◌==◌, List, [], ◌∷◌, any, Option, none, some, if◌then◌else◌,
}

pub data RunStatus : Type 0 where
  waiting_for_data queued admitted starting running_analysts research_debate trader_plan : RunStatus
  risk_debate portfolio_decision finalizing succeeded failed cancel_requested : RunStatus
  cancelling cancelled needs_attention : RunStatus

-- The position of a status in the enumeration.
unfoldable pub index : RunStatus → ℕ
index waiting_for_data = 0
index queued = 1
index admitted = 2
index starting = 3
index running_analysts = 4
index research_debate = 5
index trader_plan = 6
index risk_debate = 7
index portfolio_decision = 8
index finalizing = 9
index succeeded = 10
index failed = 11
index cancel_requested = 12
index cancelling = 13
index cancelled = 14
index needs_attention = 15

-- `a == b` on the enumeration.
unfoldable pub same_status : RunStatus → RunStatus → Bool
unfolding index
same_status a b = index a == index b

unfoldable pub is_terminal : RunStatus → Bool
is_terminal succeeded = true
is_terminal failed = true
is_terminal cancelled = true
is_terminal needs_attention = true
is_terminal _ = false

-- `ALLOWED_TRANSITIONS.get(current, set())`.
unfoldable pub allowed_transitions : RunStatus → List RunStatus
allowed_transitions waiting_for_data = queued ∷ failed ∷ cancelled ∷ needs_attention ∷ []
allowed_transitions queued = admitted ∷ cancelled ∷ []
allowed_transitions admitted = starting ∷ cancel_requested ∷ queued ∷ []
allowed_transitions starting = running_analysts ∷ failed ∷ cancel_requested ∷ []
allowed_transitions running_analysts = research_debate ∷ failed ∷ cancel_requested ∷ []
allowed_transitions research_debate = trader_plan ∷ failed ∷ cancel_requested ∷ []
allowed_transitions trader_plan = risk_debate ∷ failed ∷ cancel_requested ∷ []
allowed_transitions risk_debate = portfolio_decision ∷ failed ∷ cancel_requested ∷ []
allowed_transitions portfolio_decision = finalizing ∷ failed ∷ cancel_requested ∷ []
allowed_transitions finalizing = succeeded ∷ failed ∷ cancel_requested ∷ []
allowed_transitions cancel_requested = cancelling ∷ cancelled ∷ []
allowed_transitions cancelling = cancelled ∷ needs_attention ∷ []
allowed_transitions _ = []

-- The test of `assert_transition`, which raises `ValueError` where it is false.
unfoldable pub is_allowed : RunStatus → RunStatus → Bool
unfolding allowed_transitions same_status
is_allowed current target = any (same_status target) (allowed_transitions current)
