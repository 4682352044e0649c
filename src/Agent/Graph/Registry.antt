-- ===== src/Agent/Graph/Registry.antt =====
-- agent/internal/graphs/registry.go: the graphs that the agent program offers, and agent/main.go: a run
-- of one of them on a prompt.
pub mod Ask
use lazy_vllm.Prelude.{
  ℕ, String, ◌<>◌, Bool, true, false, Option, none, some, List, [], ◌∷◌, str_eq, if◌then◌else◌,
}
use lazy_vllm.Json.{ℤ, pos, str, arr, obj, end, Body, doc, elements}
use lazy_vllm.Agent.{Content, decoded, ChatMessage, PipelineCtx, message, openai, output_of}
use lazy_vllm.Agent.History.{texts_of, join_with}
use lazy_vllm.Agent.Model.{Host, HistoryPolicy, Agent, Config}
use lazy_vllm.Agent.Graph.{
  Texts, Node, NodeKind, route, chain, Edge, Graph, graph, unconfigured, Outcome, RunError,
}
use lazy_vllm.Agent.Graph.Run.{run}

abbrev zero_agent : {W : Type 0} → Agent W
zero_agent = record {
  system_prompt = "";
  model = "";
  max_tokens = pos 0;
  thinking_mode = none;
  structured_choice = [];
  tools = [];
  history = record { strip_thinking_on_commit = false; window_size = pos 0 };
}

abbrev stripping : HistoryPolicy
stripping = record { strip_thinking_on_commit = true; window_size = pos 0 }

-- `routingPrompt`.
abbrev pub routing_prompt : String
routing_prompt =
    "You are a query router. Classify the user's latest message as DIRECT or REASONING based on the cognitive depth required to provide an accurate response.\n\nDIRECT: Use for shallow-processing tasks. This includes simple factual retrieval, greetings, or trivial transformations where the answer is immediate and requires no internal logical steps, synthesis of information, or complex reasoning.\n\nREASONING: Use for deep-processing tasks. This includes queries that require:\n- Multi-step logical deduction or sequential processing.\n- Synthesis or abstraction (e.g., summarizing, identifying themes, or distilling information).\n- Analytical reasoning (e.g., comparisons, critiques, or explaining 'why').\n- Complex constraint satisfaction (e.g., following intricate formatting or stylistic rules).\n- Processing high-density or structurally complex input.\n\nClassify the message based on the required depth of processing."

abbrev pub classifier : {W : Type 0} → Agent W
classifier = record zero_agent {
  system_prompt = routing_prompt;
  max_tokens = pos 16;
  thinking_mode = some false;
  structured_choice = "DIRECT" ∷ "REASONING" ∷ [];
}

abbrev pub answerer : {W : Type 0} → Agent W
answerer = record zero_agent { history = stripping }

abbrev pub assistant : {W : Type 0} → Agent W
assistant = record zero_agent {
  system_prompt = "You are a helpful assistant.";
  history = stripping;
}

abbrev pub set_mode : PipelineCtx → PipelineCtx
set_mode p = record p {
  thinking_mode = some (str_eq (output_of "classify" p.node_outputs) "REASONING");
}

abbrev pub to_respond : Edge
to_respond = record {
  from = "classify";
  to = "respond";
  condition = none;
  transform = some set_mode;
}

unfoldable pub build_thinking_router_graph : {W : Type 0} → Config → Graph W
build_thinking_router_graph cfg =
    graph
      (("classify", record { id = "classify"; kind = route; agent = classifier })
        ∷ ("respond", record { id = "respond"; kind = chain; agent = answerer })
        ∷ [])
      (λ id. unconfigured) (to_respond ∷ []) "classify" cfg

unfoldable pub build_assistant_graph : {W : Type 0} → Config → Graph W
build_assistant_graph cfg =
    graph (("respond", record { id = "respond"; kind = chain; agent = assistant }) ∷ [])
      (λ id. unconfigured) [] "respond" cfg

-- `Lookup`.
unfoldable pub lookup : {W : Type 0} → String → Option (Config → Graph W)
lookup name =
    if str_eq name "thinking-router"
    then some build_thinking_router_graph
    else if str_eq name "assistant"
    then some build_assistant_graph
    else none

-- The variables of the environment, PROXY_URL and MODEL_NAME with what is read when they are not set.
pub record Environment : Type 0 where
  pub proxy_url : String
  pub model_name : String
  pub window_size : ℤ
  pub api_key : String

-- The end of the program: what it prints, or an exit with status 1.
pub data Exit : Type 0 where
  printed : String → Exit
  exited : String → Exit

-- `extractText` of main.go.
unfoldable pub extract_text : Texts → Content → String
extract_text t (decoded (str s)) = s
extract_text t (decoded (arr vs)) = join_with "" (texts_of (elements vs))
extract_text t c = t.sprint c

-- The last message of the assistant.
abbrev or_earlier : Option ChatMessage → ChatMessage → Option ChatMessage
or_earlier none m = if str_eq m.role "assistant" then some m else none
or_earlier (some later) m = some later

unfoldable pub last_assistant : List ChatMessage → Option ChatMessage
last_assistant [] = none
last_assistant (m ∷ ms) = or_earlier (last_assistant ms) m

abbrev key_header : String → String → String
key_header key name =
    if str_eq key "" then "" else if str_eq name "Authorization" then "Bearer " <> key else ""

-- The context of a prompt.
unfoldable pub prompt_ctx : Environment → String → PipelineCtx
prompt_ctx env prompt = record {
  original_body = doc (obj end);
  original_headers = key_header env.api_key;
  stream = false;
  format = openai;
  messages = message "user" (decoded (str prompt)) ∷ [];
  node_outputs = [];
  thinking_mode = none;
  model_override = "";
  backend_url = env.proxy_url;
}

abbrev pub config_of : Environment → Config
config_of env = record { window_size = env.window_size; model_name = env.model_name }

abbrev report : Texts → Outcome → Exit
unfolding extract_text last_assistant
report t o = elim o.error [
  | some e ↦ exited "error"
  | none ↦ elim (last_assistant o.ctx.messages) [
    | none ↦ exited "error: no assistant response in output"
    | some m ↦ printed (extract_text t m.content)
  ]
]

-- The part of `main` behind the flags.
unfoldable pub ask :
    {W : Type 0} → Texts → Host W → ℕ → Environment → String → String → W → Option (Exit × W)
unfolding lookup prompt_ctx report
ask t host n env name prompt w = elim (lookup name) [
  | none ↦ some (exited "unknown agent", w)
  | some factory ↦
      if str_eq env.proxy_url ""
      then some (exited "PROXY_URL", w)
      else if str_eq env.model_name ""
      then some (exited "MODEL_NAME", w)
      else (elim (run t host n (factory (config_of env)) (prompt_ctx env prompt) w) [
        | none ↦ none
        | some (o, v) ↦ some (report t o, v)
      ])
]
