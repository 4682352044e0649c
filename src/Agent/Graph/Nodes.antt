-- ===== src/Agent/Graph/Nodes.antt =====
-- agent/internal/agent/executor.go: what the nodes of a graph do, other than the scatter.
use lazy_vllm.Prelude.{
  ℕ, zero, suc, String, ◌<>◌, Bool, true, false, not, Option, none, some, List, [], ◌∷◌, ◌++◌,
  str_eq, if◌then◌else◌, ◌==◌,
}
use lazy_vllm.Json.{ℤ, pos, negsuc, str, Body}
use lazy_vllm.Text.Chars.{chars, of_chars, trim_space}
use lazy_vllm.Server.{Result, ok, failed, panicked}
use lazy_vllm.Logger.{ToolCall}
use lazy_vllm.Router.Classify.{Request, Response, json_content}
use lazy_vllm.Router.Handlers.{Reply, http_error, relayed, aborted}
use lazy_vllm.Agent.{decoded, ChatMessage, PipelineCtx, message, ApiFormat, openai, anthropic}
use lazy_vllm.Agent.History.{strip_message_thinking, apply_window, extract_text_content}
use lazy_vllm.Agent.Model.{
  Host, ToolResult, returned, raised, ToolDef, HistoryPolicy, Agent, Config, ModelResponse,
  call_model,
}
use lazy_vllm.Agent.Anthropic.Wire.{build_anthropic_request_body}
use lazy_vllm.Agent.Graph.{Texts, Node, rebuild_request_body, passed}

abbrev result_text : ToolResult → String
result_text (returned s) = s
result_text (raised e) = "error: " <> e

abbrev pub tool_turn : ToolCall → String → ChatMessage
tool_turn c result = record (message "tool" (decoded (str result))) {
  tool_call_id = c.id;
  name = c.function.name;
}

abbrev pub assistant_turn : ModelResponse → ChatMessage
assistant_turn resp = record (message "assistant" (decoded (str resp.content))) {
  reasoning_content = resp.reasoning;
  tool_calls = resp.tool_calls;
}

unfoldable pub final_turn : HistoryPolicy → ModelResponse → ChatMessage
final_turn h resp =
    let m = record (message "assistant" (decoded (str resp.content))) {
      reasoning_content = resp.reasoning;
    } in
    if h.strip_thinking_on_commit then strip_message_thinking m else m

-- The end of a tool loop: nothing out of fuel, and no context after an error.
abbrev pub Looped : Type 0 → Type 0
Looped W = Option (Option (PipelineCtx × String) × W)

module _ {W : Type 0} where
  -- `windowSize`.
  unfoldable pub window_size : Config → Agent W → ℤ
  window_size cfg ag = elim (ag.history.window_size) [
    | pos n ↦ if n == 0 then cfg.window_size else pos n
    | negsuc n ↦ cfg.window_size
  ]

  abbrev pub windowed : Config → Agent W → List ChatMessage → List ChatMessage
  unfolding window_size
  windowed cfg ag msgs = apply_window msgs (window_size cfg ag)

  abbrev pub after_tool : ToolCall → ToolResult × W → ChatMessage × W
  after_tool c (r, w) = (tool_turn c (result_text r), w)

  abbrev pub then_messages : ChatMessage → List ChatMessage × W → List ChatMessage × W
  then_messages m (ms, w) = (m ∷ ms, w)

  abbrev pub commit : Node W → PipelineCtx → ModelResponse → PipelineCtx × String
  commit node pctx resp =
      let m = final_turn node.agent.history resp in
      (record pctx { messages = pctx.messages ++ m ∷ [] }, extract_text_content m.content)

abbrev endpoint : PipelineCtx → String
endpoint p = elim p.format [
  | openai ↦ p.backend_url <> "/v1/chat/completions"
  | anthropic ↦ p.backend_url <> "/v1/messages"
]

abbrev passthrough : ApiFormat → List String
passthrough openai = "Authorization" ∷ "x-api-key" ∷ []
passthrough anthropic = "x-api-key" ∷ "anthropic-version" ∷ "anthropic-beta" ∷ "Authorization" ∷ []

module _ {W : Type 0} where
  abbrev forwarded : Bool → Option Response × W → (Reply × Bool) × W
  forwarded stream (none, w) = ((http_error 502 "upstream request failed", true), w)
  forwarded stream (some resp, w) = ((relayed stream resp, false), w)

module _ {W : Type 0} (t : Texts) (host : Host W) where
  abbrev pub routed : Option ModelResponse × W → Option String × W
  routed (none, w) = (none, w)
  routed (some resp, w) = (some (of_chars (trim_space (chars (t.to_upper resp.content)))), w)

  -- `runRoute`.
  unfoldable pub run_route : Config → Node W → PipelineCtx → W → Option String × W
  unfolding window_size
  run_route cfg node pctx w =
      routed (call_model host cfg node.agent pctx (windowed cfg node.agent pctx.messages) w)

  -- `executeTool`.
  unfoldable pub execute_tool : List (ToolDef W) → ToolCall → W → ToolResult × W
  execute_tool [] c w = (raised ("unknown tool " <> t.quote c.function.name), w)
  execute_tool (d ∷ ds) c w =
      if str_eq d.name c.function.name
      then d.handler c.function.arguments w
      else execute_tool ds c w

  -- The tools that a turn of the model calls, in order, and the messages they leave.
  unfoldable pub execute_tools : List (ToolDef W) → List ToolCall → W → List ChatMessage × W
  unfolding execute_tool
  execute_tools ds [] w = ([], w)
  execute_tools ds (c ∷ cs) w =
      let done = after_tool c (execute_tool ds c w) in
      then_messages (done.0) (execute_tools ds cs (done.1))

  -- What a turn of the model does, by the tools that it calls: it ends the loop, or it goes on with
  -- the tools' messages behind its own.
  abbrev pub chain_calls :
      (List ChatMessage → W → Looped W)
      → Node W
      → PipelineCtx
      → List ChatMessage
      → ModelResponse
      → List ToolCall
      → W
      → Looped W
  chain_calls next node pctx working resp [] w = some (some (commit node pctx resp), w)
  chain_calls next node pctx working resp (c ∷ cs) w =
      let ran = execute_tools node.agent.tools (c ∷ cs) w in
      next (working ++ assistant_turn resp ∷ ran.0) (ran.1)

  abbrev pub chain_turn :
      (List ChatMessage → W → Looped W)
      → Node W
      → PipelineCtx
      → List ChatMessage
      → Option ModelResponse × W
      → Looped W
  chain_turn next node pctx working (none, w) = some (none, w)
  chain_turn next node pctx working (some resp, w) =
      chain_calls next node pctx working resp resp.tool_calls w

  -- The loop of `runChain`.
  unfoldable pub chain_loop : ℕ → Config → Node W → PipelineCtx → List ChatMessage → W → Looped W
  unfolding call_model execute_tools window_size
  chain_loop zero cfg node pctx working w = none
  chain_loop (suc n) cfg node pctx working w =
      chain_turn (chain_loop n cfg node pctx) node pctx working
        (call_model host cfg node.agent pctx (windowed cfg node.agent working) w)

  -- `runChain`.
  unfoldable pub run_chain : ℕ → Config → Node W → PipelineCtx → W → Looped W
  run_chain n cfg node pctx w = chain_loop n cfg node pctx pctx.messages w

  abbrev rebuilt : PipelineCtx → Result Body
  unfolding rebuild_request_body build_anthropic_request_body
  rebuilt p = elim p.format [
    | openai ↦ rebuild_request_body p
    | anthropic ↦ build_anthropic_request_body t.json p.original_body p.messages p
  ]

  abbrev respond_request : PipelineCtx → Body → Request
  respond_request p body = record {
    method = "POST";
    url = endpoint p;
    headers = json_content ++ passed p.original_headers (passthrough p.format);
    body = body;
  }

  -- `runRespond`: what it answers, and whether it ends in an error or a panic.
  unfoldable pub run_respond : PipelineCtx → W → (Reply × Bool) × W
  unfolding rebuild_request_body build_anthropic_request_body
  run_respond p w = elim (rebuilt p) [
    | failed ↦ ((http_error 500 "failed to rebuild request", true), w)
    | panicked ↦ ((aborted, true), w)
    | ok body ↦
        (let req = respond_request p body in
          if not (host.is_valid req.method req.url)
          then ((http_error 500 "failed to build upstream request", true), w)
          else forwarded p.stream (host.exchange req w))
  ]
