-- ===== src/Agent/Graph.antt =====
-- agent/internal/agent/executor.go and types.go: graphs of nodes, and how a request runs through one.
-- The state of the world behind the model's server and the tools is passed along. A run has fuel, for
-- the nodes it enters and for the turns of a tool loop. The branches of a scatter, which run at the
-- same time, run one after the other here, and their contexts are apart from the parent's.
pub mod Nodes
pub mod Loop
pub mod Run
pub mod Registry
pub mod Copies
use lazy_vllm.Prelude.{
  ℕ, zero, suc, String, ◌<>◌, Bool, true, false, not, ◌&&◌, Option, none, some, List, [], ◌∷◌, ◌++◌,
  str_eq, if◌then◌else◌, ◌==◌,
}
use lazy_vllm.Json.{ℤ, pos, negsuc, str, obj, Body, doc, put, Map, null_map, map_of}
use lazy_vllm.Text.Chars.{chars, of_chars, trim_space}
use lazy_vllm.Server.{Result, ok, failed, panicked, body_map}
use lazy_vllm.Logger.{ToolCall}
use lazy_vllm.Router.Classify.{Request, Response, Headers, json_content, header_unless_empty}
use lazy_vllm.Router.Handlers.{Reply, http_error, relayed, aborted}
use lazy_vllm.Agent.{
  Content, decoded, ChatMessage, PipelineCtx, message, chats_json, set_output, ApiFormat, openai,
  anthropic,
}
use lazy_vllm.Agent.History.{strip_message_thinking, apply_window, extract_text_content}
use lazy_vllm.Agent.Model.{
  Host, ToolResult, returned, raised, ToolDef, HistoryPolicy, Agent, Config, ModelResponse,
  call_model,
}
use lazy_vllm.Agent.Anthropic.{JsonText}
use lazy_vllm.Agent.Anthropic.Wire.{build_anthropic_request_body, set_thinking, set_model}

-- `strings.ToUpper`, `strconv.Quote`, the form %v of a content in fmt, and encoding/json.
pub record Texts : Type 0 where
  pub to_upper : String → String
  pub quote : String → String
  pub sprint : Content → String
  pub json : JsonText

pub data NodeKind : Type 0 where
  route chain scatter respond : NodeKind

pub record Node (W : Type 0) : Type 0 where
  pub id : String
  pub kind : NodeKind
  pub agent : Agent W

-- `condition` and `transform` may be nil.
pub record Edge : Type 0 where
  pub from : String
  pub to : String
  pub condition : Option (String → Bool)
  pub transform : Option (PipelineCtx → PipelineCtx)

mutual
  pub data Graph (W : Type 0) : Type 0 where
    graph : List (String × Node W) → (String → Scatter W) → List Edge → String → Config → Graph W

  -- The `ScatterConfig` of a node, if it has one: the factory and the merge.
  pub data Scatter (W : Type 0) : Type 0 where
    unconfigured : Scatter W
    scatter_config :
        (PipelineCtx → Branches W) → (PipelineCtx → List PipelineCtx → PipelineCtx) → Scatter W

  pub data Branches (W : Type 0) : Type 0 where
    no_branches : Branches W
    branch : PipelineCtx → Graph W → Branches W → Branches W

-- What `Run` returns an error for.
pub data RunError : Type 0 where
  unknown_node no_edge in_route in_chain in_scatter in_respond : String → RunError

-- The context after a run, what the client is answered, and the error.
pub record Outcome : Type 0 where
  pub ctx : PipelineCtx
  pub reply : Option Reply
  pub error : Option RunError

abbrev edge_matches : Edge → String → String → Bool
edge_matches e from output =
    str_eq e.from from && (elim e.condition [ none ↦ true | some c ↦ c output ])

-- `findEdge`.
unfoldable pub find_edge : List Edge → String → String → Option Edge
find_edge [] from output = none
find_edge (e ∷ es) from output =
    if edge_matches e from output then some e else find_edge es from output

abbrev pub find_node : {W : Type 0} → List (String × Node W) → String → Option (Node W)
find_node [] id = none
find_node ((k, node) ∷ nodes) id = if str_eq k id then some node else find_node nodes id

abbrev pub entry_of : {W : Type 0} → Graph W → String
entry_of (graph nodes scatters edges entry cfg) = entry

-- The body of `rebuildRequestBody`: the assignment to a nil map, from a body of null, panics.
unfoldable pub rebuild_request_body : PipelineCtx → Result Body
rebuild_request_body pctx = elim (body_map pctx.original_body) [
  | none ↦ failed
  | some null_map ↦ panicked
  | some (map_of fs) ↦ ok (
      doc (
        obj (
          set_model pctx.model_override
            (set_thinking pctx.thinking_mode (put "messages" (chats_json pctx.messages) fs)))))
]

abbrev pub apply_transform : Option (PipelineCtx → PipelineCtx) → PipelineCtx → PipelineCtx
apply_transform none p = p
apply_transform (some f) p = f p

abbrev pub with_output : String → String → PipelineCtx → PipelineCtx
with_output id output p = record p { node_outputs = set_output id output p.node_outputs }

abbrev pub passed : (String → String) → List String → Headers
passed header [] = []
passed header (k ∷ ks) = header_unless_empty k (header k) ++ passed header ks
