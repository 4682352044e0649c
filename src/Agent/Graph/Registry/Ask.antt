-- ===== src/Agent/Graph/Registry/Ask.antt =====
-- What the agent program prints for a prompt.
use lazy_vllm.Prelude.{
  ℕ, zero, suc, ◌++◌, ◌≡◌, refl, ap, ◌∙◌, String, false, none, some, List, [], ◌∷◌, str_eq, arith,
}
use lazy_vllm.Json.{ℤ, pos, negsuc, str}
use lazy_vllm.Text.Chars.{chars, of_chars, trim_space}
use lazy_vllm.Logger.{ToolCall}
use lazy_vllm.Agent.{decoded, ChatMessage, PipelineCtx, message, set_output, output_of}
use lazy_vllm.Agent.History.{
  apply_window, strip_message_thinking, strip_content, extract_text_content, extract_text_value,
}
use lazy_vllm.Agent.Model.{Host, Config, ModelResponse, call_model}
use lazy_vllm.Agent.Graph.{Texts, Outcome, find_edge, Node, route, chain, with_output}
use lazy_vllm.Agent.Graph.Nodes.{
  window_size, run_route, chain_loop, run_chain, routed, chain_turn, chain_calls, Looped, commit,
  final_turn,
}
use lazy_vllm.Agent.Graph.Run.{after_route, after_chain, run, run_from}
use lazy_vllm.Agent.Graph.Registry.{
  classifier, to_respond, set_mode, answerer, assistant, Environment, printed, prompt_ctx,
  config_of, ask, lookup, build_thinking_router_graph, build_assistant_graph, last_assistant,
  extract_text,
}

-- A single message is in every window.
apply_window-one : (m : ChatMessage) (z : ℤ) → apply_window (m ∷ []) z ≡ m ∷ []
unfolding apply_window
apply_window-one m (negsuc n) = refl
apply_window-one m (pos zero) = refl
apply_window-one m (pos (suc n)) = ground arith

abbrev pub asked : String → List ChatMessage
asked prompt = message "user" (decoded (str prompt)) ∷ []

abbrev pub classification : Texts → ModelResponse → String
classification t resp = of_chars (trim_space (chars (t.to_upper resp.content)))

-- The context after the classification.
abbrev pub classified : Texts → Environment → String → ModelResponse → PipelineCtx
classified t env prompt resp = record (prompt_ctx env prompt) {
  node_outputs = ("classify", classification t resp) ∷ [];
  thinking_mode = some (str_eq (classification t resp) "REASONING");
}

module _ {W : Type 0} (t : Texts) (host : Host W) where
  routes :
      (cfg : Config) (node : Node W) (p : PipelineCtx) (prompt : String) (w v : W)
      (resp : ModelResponse)
      → p.messages ≡ asked prompt
      → call_model host cfg node.agent p (asked prompt) w ≡ (some resp, v)
      → run_route t host cfg node p w ≡ (some (classification t resp), v)
  unfolding run_route
  routes cfg node p prompt w v resp is answers =
      ap
        (λ ms.
          routed t host
            (call_model host cfg node.agent p (apply_window ms (window_size cfg node.agent)) w))
        is
      ∙ ap (λ ms. routed t host (call_model host cfg node.agent p ms w))
          (apply_window-one (message "user" (decoded (str prompt))) (window_size cfg node.agent))
      ∙ ap (routed t host) answers

  turns-done :
      (next : List ChatMessage → W → Looped W) (node : Node W) (p : PipelineCtx)
      (working : List ChatMessage) (resp : ModelResponse) (calls : List ToolCall) (w : W)
      → calls ≡ []
      → chain_calls t host next node p working resp calls w ≡ some (some (commit node p resp), w)
  turns-done next node p working resp [] w done = refl
  turns-done next node p working resp (c ∷ cs) w done = absurd (ground arith)

  chains :
      (n : ℕ) (cfg : Config) (node : Node W) (p : PipelineCtx) (prompt : String) (w v : W)
      (resp : ModelResponse)
      → p.messages ≡ asked prompt
      → call_model host cfg node.agent p (asked prompt) w ≡ (some resp, v)
      → resp.tool_calls ≡ []
      → run_chain t host (suc n) cfg node p w ≡ some (some (commit node p resp), v)
  unfolding run_chain chain_loop
  chains n cfg node p prompt w v resp is answers done =
      let turn = chain_turn t host (chain_loop t host n cfg node p) node p in
      ap
        (λ ms.
          turn ms
            (call_model host cfg node.agent p (apply_window ms (window_size cfg node.agent)) w))
        is
      ∙ ap (λ ms. turn (asked prompt) (call_model host cfg node.agent p ms w))
          (apply_window-one (message "user" (decoded (str prompt))) (window_size cfg node.agent))
      ∙ ap (turn (asked prompt)) answers
      ∙ turns-done (chain_loop t host n cfg node p) node p (asked prompt) resp resp.tool_calls v
          done

  at_classify :
      (n : ℕ) (cfg : Config) (p : PipelineCtx) (w v : W) (output : String)
      → run_route t host cfg (record { id = "classify"; kind = route; agent = classifier }) p w
        ≡ (some output, v)
      → run_from t host (suc n) "classify" (build_thinking_router_graph cfg) p w
        ≡ run_from t host n "respond"
            (build_thinking_router_graph cfg)
            (set_mode (with_output "classify" output p))
            v
  unfolding run_from find_edge build_thinking_router_graph
  at_classify n cfg p w v output is =
      ap
        (after_route (to_respond ∷ []) (λ j. run_from t host n j (build_thinking_router_graph cfg))
          "classify" p)
        is

  -- The outcome of a chain at the node that ends a graph.
  abbrev answered : PipelineCtx → ModelResponse → Outcome
  answered p resp = record {
    ctx = with_output "respond" resp.content (record p {
      messages = p.messages ++ message "assistant" (decoded (str resp.content)) ∷ [];
    });
    reply = none;
    error = none;
  }

  at_respond :
      (n : ℕ) (cfg : Config) (p : PipelineCtx) (w v : W) (resp : ModelResponse)
      → run_chain t host n cfg (record { id = "respond"; kind = chain; agent = answerer }) p w
        ≡ some (
          some (commit {W = W} (record { id = "respond"; kind = chain; agent = answerer }) p resp),
          v,
        )
      → run_from t host (suc n) "respond" (build_thinking_router_graph cfg) p w
        ≡ some (answered p resp, v)
  unfolding run_from find_edge build_thinking_router_graph final_turn strip_message_thinking
      strip_content extract_text_content extract_text_value
  at_respond n cfg p w v resp is =
      ap
        (after_chain (to_respond ∷ []) (λ j. run_from t host n j (build_thinking_router_graph cfg))
          "respond" p)
        is

  at_assistant :
      (n : ℕ) (cfg : Config) (p : PipelineCtx) (w v : W) (resp : ModelResponse)
      → run_chain t host n cfg (record { id = "respond"; kind = chain; agent = assistant }) p w
        ≡ some (
          some (commit {W = W} (record { id = "respond"; kind = chain; agent = assistant }) p resp),
          v,
        )
      → run_from t host (suc n) "respond" (build_assistant_graph cfg) p w
        ≡ some (answered p resp, v)
  unfolding run_from find_edge build_assistant_graph final_turn strip_message_thinking strip_content
      extract_text_content extract_text_value
  at_assistant n cfg p w v resp is =
      ap (after_chain [] (λ j. run_from t host n j (build_assistant_graph cfg)) "respond" p) is

  -- If the server's URL and the model's name are set, the classification gets an answer, and the
  -- answer to the prompt, which is asked for with thinking enabled exactly if the classification is
  -- REASONING in capitals and trimmed, calls no tools, then the thinking-router prints the text of
  -- that answer, behind these two calls.
  pub ask-thinking_router :
      (env : Environment) (prompt : String) (n : ℕ) (w v u : W) (verdict resp : ModelResponse)
      → str_eq env.proxy_url "" ≡ false
      → str_eq env.model_name "" ≡ false
      → call_model host (config_of env) classifier (prompt_ctx env prompt) (asked prompt) w
        ≡ (some verdict, v)
      → call_model host (config_of env) answerer (classified t env prompt verdict) (asked prompt) v
        ≡ (some resp, u)
      → resp.tool_calls ≡ []
      → ask t host (suc (suc (suc n))) env "thinking-router" prompt w
        ≡ some (printed resp.content, u)
  unfolding ask lookup last_assistant extract_text prompt_ctx run output_of set_output
      build_thinking_router_graph
  ask-thinking_router env prompt n w v u verdict resp url name first second done =
      let cfg = config_of env in
      let p = prompt_ctx env prompt in
      let q = classified t env prompt verdict in
      let route_node : Node W = record { id = "classify"; kind = route; agent = classifier } in
      let chain_node : Node W = record { id = "respond"; kind = chain; agent = answerer } in
      let ran =
        at_classify (suc (suc n)) cfg p w v (classification t verdict)
          (routes cfg route_node p prompt w v verdict refl first)
        ∙ at_respond (suc n) cfg q v u resp
            (chains n cfg chain_node q prompt v u resp refl second done) in
      rw (url, name, ran)

  -- If the server's URL and the model's name are set, and the model answers the prompt without
  -- calling tools, then the assistant prints the text of the answer, behind this one call.
  pub ask-assistant :
      (env : Environment) (prompt : String) (n : ℕ) (w v : W) (resp : ModelResponse)
      → str_eq env.proxy_url "" ≡ false
      → str_eq env.model_name "" ≡ false
      → call_model host (config_of env) assistant (prompt_ctx env prompt) (asked prompt) w
        ≡ (some resp, v)
      → resp.tool_calls ≡ []
      → ask t host (suc (suc n)) env "assistant" prompt w ≡ some (printed resp.content, v)
  unfolding ask lookup last_assistant extract_text prompt_ctx run build_assistant_graph
  ask-assistant env prompt n w v resp url name answers done =
      let cfg = config_of env in
      let p = prompt_ctx env prompt in
      let chain_node : Node W = record { id = "respond"; kind = chain; agent = assistant } in
      rw (
        url,
        name,
        at_assistant (suc n) cfg p w v resp
            (chains n cfg chain_node p prompt w v resp refl answers done),
      )
