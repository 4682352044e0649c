-- ===== src/Server/Budget.antt =====
-- The budget of thinking tokens.
use native.Mathlib.Nat.{le_trans}
use lazy_vllm.Prelude.{ℕ, ◌≤◌, Bool, ◌≡◌, arith}
use lazy_vllm.Json.{Body}
use lazy_vllm.Server.{
  budget_within, effort_token_budget, extract_effort, extract_max_tokens, compute_thinking_budget,
}

budget_within_bounds :
    (effort : ℕ) (off : Bool) (share : ℕ)
    → let r = budget_within (effort, off) share in (r.1 ≡ off) × (r.0 ≤ effort) × (r.0 ≤ share)
unfolding budget_within
budget_within_bounds effort off share = ground arith

-- If the share of a number of tokens never exceeds it, then the budget is at most what its effort
-- stands for, at most the share of the request's tokens and at most these tokens; and thinking is
-- disabled exactly for the effort that says so.
pub compute_thinking_budget_bounds :
    (cap : ℕ → ℕ) (body : Body)
    → ((n : ℕ) → cap n ≤ n)
    → let r = compute_thinking_budget cap body in
      let effort = effort_token_budget (extract_effort body) in
      (r.1 ≡ effort.1)
      × (r.0 ≤ effort.0)
      × (r.0 ≤ cap (extract_max_tokens body 32000))
      × (r.0 ≤ extract_max_tokens body 32000)
unfolding compute_thinking_budget
compute_thinking_budget_bounds cap body h =
    let effort = effort_token_budget (extract_effort body) in
    let tokens = extract_max_tokens body 32000 in
    let (same, below, within) = budget_within_bounds effort.0 effort.1 (cap tokens) in
    (same, below, within, le_trans within (h tokens))
