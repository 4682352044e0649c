-- ===== src/Agent/Graph/Loop.antt =====
-- agent/internal/agent/executor.go: the tool loop of `runChain`, how it ends and when it does not.
use lazy_vllm.Prelude.{
  ℕ, zero, suc, ◌<◌, ◌≡◌, refl, ap, String, Option, none, some, List, [], ◌∷◌, ◌++◌, map, arith,
  inl, inr, Bool-cases,
}
use lazy_vllm.Logger.{ToolCall}
use lazy_vllm.Agent.{ChatMessage, PipelineCtx}
use lazy_vllm.Agent.History.{
  extract_text_content, extract_text_value, strip_message_thinking, strip_content,
}
use lazy_vllm.Agent.Model.{HistoryPolicy, Host, ToolDef, Config, ModelResponse, call_model}
use lazy_vllm.Agent.Graph.{Texts, Node}
use lazy_vllm.Agent.Graph.Nodes.{
  windowed, commit, execute_tool, execute_tools, chain_loop, chain_turn, chain_calls, Looped,
  run_chain, assistant_turn, final_turn, after_tool,
}

extract_text_content-final_turn :
    (h : HistoryPolicy) (resp : ModelResponse)
    → extract_text_content (final_turn h resp).content ≡ resp.content
unfolding final_turn extract_text_content extract_text_value strip_message_thinking strip_content
extract_text_content-final_turn h resp = elim (Bool-cases h.strip_thinking_on_commit) [
  | inl on ↦ rw on
  | inr off ↦ rw off
]

-- Whose call a message answers.
abbrev pub answered_call : ChatMessage → String × String
answered_call m = (m.role, m.tool_call_id)

abbrev pub answer_due : ToolCall → String × String
answer_due c = ("tool", c.id)

module _ {W : Type 0} (t : Texts) (host : Host W) where
  -- After a turn of the model there is one tool message for each of its calls, in order, with the
  -- call's identifier, whether the tool is known or not and whether it fails or not.
  pub tools-tool_call_id :
      (ds : List (ToolDef W)) (cs : List ToolCall) (w : W)
      → map answered_call ((execute_tools t host ds cs w).0) ≡ map answer_due cs
  unfolding execute_tools
  tools-tool_call_id ds [] w = refl
  tools-tool_call_id ds (c ∷ cs) w =
      ap (λ r. answer_due c ∷ r)
        (tools-tool_call_id ds cs ((after_tool c (execute_tool t host ds c w)).1))

  -- A call of the model by a turn of the loop, over the messages so far.
  abbrev pub called :
      Config → Node W → PipelineCtx → List ChatMessage → W → Option ModelResponse × W
  called cfg node p working w = call_model host cfg node.agent p (windowed cfg node.agent working) w

  -- The world after a turn of the model and the tools that it calls.
  abbrev after_turn : Config → Node W → PipelineCtx → List ChatMessage → W → List ToolCall → W
  after_turn cfg node p working w cs =
      (execute_tools t host node.agent.tools cs ((called cfg node p working w).1)).1

  -- A measure of the world that every turn with tools lowers.
  abbrev pub IsCalming : (W → ℕ) → Config → Node W → PipelineCtx → Type 0
  IsCalming patience cfg node p =
      (working : List ChatMessage) (w : W) (resp : ModelResponse) (c : ToolCall)
      (cs : List ToolCall)
      → (called cfg node p working w).0 ≡ some resp
      → resp.tool_calls ≡ c ∷ cs
      → patience (after_turn cfg node p working w (c ∷ cs)) < patience w

  -- What a loop that ended in the world `v` leaves: nothing, after a call of the model that failed,
  -- or the answer of a call, which has no calls of tools. Each is the call that led to that world.
  abbrev pub IsCommitted :
      Config → Node W → PipelineCtx → Option (PipelineCtx × String) → W → Type 0
  IsCommitted cfg node p none v =
      (working : List ChatMessage) × (w : W) × (called cfg node p working w ≡ (none, v))
  IsCommitted cfg node p (some (q, output)) v =
      (working : List ChatMessage) × (w : W) × (resp : ModelResponse) × (called cfg node p working w
        ≡ (some resp, v))
      × (resp.tool_calls ≡ [])
      × (q ≡ record p { messages = p.messages ++ final_turn node.agent.history resp ∷ [] })
      × (output ≡ resp.content)

  abbrev Ends : Config → Node W → PipelineCtx → Looped W → Type 0
  Ends cfg node p l =
      (r : Option (PipelineCtx × String)) × (v : W) × (l ≡ some (r, v)) × IsCommitted cfg node p r v

  module _ (cfg : Config) (node : Node W) (p : PipelineCtx) (working : List ChatMessage)
      (next : List ChatMessage → W → Looped W) where
    calls-Ends :
        (w : W) (resp : ModelResponse) (calls : List ToolCall) (v : W)
        → called cfg node p working w ≡ (some resp, v)
        → resp.tool_calls ≡ calls
        → ((c : ToolCall) (cs : List ToolCall)
            → resp.tool_calls ≡ c ∷ cs
            → (ms : List ChatMessage)
            → Ends cfg node p (next ms ((execute_tools t host node.agent.tools (c ∷ cs) v).1)))
        → Ends cfg node p (chain_calls t host next node p working resp calls v)
    calls-Ends w resp [] v answered alone later = (
      some (commit node p resp),
      v,
      refl,
      (
        working,
        w,
        resp,
        answered,
        alone,
        refl,
        extract_text_content-final_turn node.agent.history resp,
      ),
    )
    calls-Ends w resp (c ∷ cs) v answered asks later =
        later c cs asks
          (working ++ assistant_turn resp ∷ (execute_tools t host node.agent.tools (c ∷ cs) v).0)

    turn-Ends :
        (w : W) (e : Option ModelResponse × W)
        → called cfg node p working w ≡ e
        → ((resp : ModelResponse) (c : ToolCall) (cs : List ToolCall)
            → e.0 ≡ some resp
            → resp.tool_calls ≡ c ∷ cs
            → (ms : List ChatMessage)
            → Ends cfg node p (next ms ((execute_tools t host node.agent.tools (c ∷ cs) (e.1)).1)))
        → Ends cfg node p (chain_turn t host next node p working e)
    turn-Ends w (none, v) is later = (none, v, refl, (working, w, is))
    turn-Ends w (some resp, v) is later =
        calls-Ends w resp resp.tool_calls v is refl (λ c cs asks. later resp c cs refl asks)

  chain_loop-Ends :
      (patience : W → ℕ) (cfg : Config) (node : Node W) (p : PipelineCtx)
      → IsCalming patience cfg node p
      → (n : ℕ) (working : List ChatMessage) (w : W) → patience w < n
      → Ends cfg node p (chain_loop t host n cfg node p working w)
  unfolding chain_loop
  chain_loop-Ends patience cfg node p calming zero working w enough = absurd (omega arith)
  chain_loop-Ends patience cfg node p calming (suc n) working w enough =
      turn-Ends cfg node p working (chain_loop t host n cfg node p) w (called cfg node p working w)
        refl
        (λ resp c cs answered asks ms.
          chain_loop-Ends patience cfg node p calming n ms
            (after_turn cfg node p working w (c ∷ cs))
            (omega (arith, enough, calming working w resp c cs answered asks)))

  -- If every turn of the model that calls tools lowers a measure of the world, then a chain ends
  -- with fuel above the measure, in the world that its last call of the model leaves. If that call
  -- fails there is no output; else its answer calls no tools, the context is the one before with
  -- that answer added as one message, and the output is the answer's text.
  pub run_chain_ends :
      (patience : W → ℕ) (cfg : Config) (node : Node W) (p : PipelineCtx)
      → IsCalming patience cfg node p
      → (n : ℕ) (w : W) → patience w < n
      → (r : Option (PipelineCtx × String)) × (v : W) × (run_chain t host n cfg node p w
          ≡ some (r, v))
        × IsCommitted cfg node p r v
  unfolding run_chain
  run_chain_ends patience cfg node p calming n w enough =
      chain_loop-Ends patience cfg node p calming n p.messages w enough

  -- Every turn of the model calls a tool.
  abbrev pub IsTireless : Config → Node W → PipelineCtx → Type 0
  IsTireless cfg node p =
      (working : List ChatMessage) (w : W)
      → (resp : ModelResponse) × (c : ToolCall) × (cs : List ToolCall) × ((called cfg node p working
            w).0
          ≡ some resp)
        × (resp.tool_calls ≡ c ∷ cs)

  module _ (node : Node W) (p : PipelineCtx) (working : List ChatMessage)
      (next : List ChatMessage → W → Looped W)
      (never : (ms : List ChatMessage) (w : W) → next ms w ≡ none) where
    calls_go_on :
        (resp : ModelResponse) (calls : List ToolCall) (v : W) (c : ToolCall) (cs : List ToolCall)
        → calls ≡ c ∷ cs
        → chain_calls t host next node p working resp calls v ≡ none
    calls_go_on resp [] v c cs asks = absurd (ground arith)
    calls_go_on resp (d ∷ ds) v c cs asks =
        never
          (working ++ assistant_turn resp ∷ (execute_tools t host node.agent.tools (d ∷ ds) v).0)
          ((execute_tools t host node.agent.tools (d ∷ ds) v).1)

    turn_goes_on :
        (e : Option ModelResponse × W) (resp : ModelResponse) (c : ToolCall) (cs : List ToolCall)
        → e.0 ≡ some resp
        → resp.tool_calls ≡ c ∷ cs
        → chain_turn t host next node p working e ≡ none
    turn_goes_on (none, v) resp c cs answered asks = absurd (ground arith)
    turn_goes_on (some r, v) resp c cs answered asks =
        calls_go_on r r.tool_calls v c cs (ground arith)

  chain_loop_goes_on :
      (cfg : Config) (node : Node W) (p : PipelineCtx)
      → IsTireless cfg node p
      → (n : ℕ) (working : List ChatMessage) (w : W)
      → chain_loop t host n cfg node p working w ≡ none
  unfolding chain_loop
  chain_loop_goes_on cfg node p tireless zero working w = refl
  chain_loop_goes_on cfg node p tireless (suc n) working w =
      let (resp, c, cs, answered, asks) = tireless working w in
      turn_goes_on node p working (chain_loop t host n cfg node p)
        (chain_loop_goes_on cfg node p tireless n) (called cfg node p working w) resp c cs answered
        asks

  -- A chain does not end, with any fuel, if every turn of the model calls a tool: nothing bounds the
  -- number of turns.
  pub run_chain_goes_on :
      (cfg : Config) (node : Node W) (p : PipelineCtx)
      → IsTireless cfg node p
      → (n : ℕ) (w : W) → run_chain t host n cfg node p w ≡ none
  unfolding run_chain
  run_chain_goes_on cfg node p tireless n w = chain_loop_goes_on cfg node p tireless n p.messages w
