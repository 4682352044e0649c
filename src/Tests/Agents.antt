-- ===== src/Tests/Agents.antt =====
-- Runs of the agent against small hosts, whose state counts the answers.
use lazy_vllm.Prelude.{
  ℕ, zero, suc, ◌<◌, ◌≡◌, refl, sym, String, true, false, Option, none, some, List, [], ◌∷◌, map,
  arith,
}
use mathlib.Core.Path.{subst}
use lazy_vllm.Json.{pos, str, obj, arr, end, field, Fields, doc, of_list, get}
use lazy_vllm.Logger.{ToolCall}
use lazy_vllm.Router.Classify.{Response}
use lazy_vllm.Agent.{ChatMessage, PipelineCtx, message, decoded}
use lazy_vllm.Agent.History.{extract_text_value}
use lazy_vllm.Agent.Model.{Host, Config, ModelResponse, call_model, answer_in}
use lazy_vllm.Agent.Graph.{Branches, unconfigured, scatter_config}
use lazy_vllm.Agent.Graph.Run.{run, scattered}
use lazy_vllm.Agent.Graph.Copies.{copies, scattered-deep_copy}
use lazy_vllm.Agent.Anthropic.{JsonText, anthropic_to_chat_messages}
use lazy_vllm.Agent.Anthropic.Wire.{chat_messages_to_anthropic, text_block}
use lazy_vllm.Agent.Anthropic.Turns.{Turn, asked, returned, answered, wire, IsConversation}
use lazy_vllm.Agent.Anthropic.RoundTrip.{chat_messages-of_anthropic}
use lazy_vllm.Agent.Graph.{Texts, Node, chain}
use lazy_vllm.Agent.Graph.Nodes.{execute_tools, execute_tool, run_chain}
use lazy_vllm.Agent.Graph.Loop.{
  answered_call, tools-tool_call_id, IsCalming, IsCommitted, IsTireless, run_chain_ends,
  run_chain_goes_on,
}
use lazy_vllm.Agent.Graph.Registry.{Environment, printed, ask, answerer, prompt_ctx, config_of}
use lazy_vllm.Agent.Graph.Registry.Ask.{ask-thinking_router}

abbrev json_text : JsonText
json_text = record { decode = λ s. some (str s); encode = λ v. "{}" }

abbrev texts : Texts
texts = record { to_upper = λ s. s; quote = λ s. s; sprint = λ c. ""; json = json_text }

abbrev response : Fields → Response
response fs = record {
  status = 200;
  headers = [];
  body =
      some
        (doc (obj (field "choices" (arr (of_list (obj (field "message" (obj fs) end) ∷ []))) end)));
}

abbrev saying : String → Response
saying s = response (field "content" (str s) end)

abbrev calling : Response
calling = response (
    field "content" (str "")
      (field "tool_calls" (arr (of_list (obj (field "id" (str "c1") end) ∷ []))) end))

abbrev model_response : String → ModelResponse
model_response s = record { content = s; reasoning = ""; tool_calls = [] }

abbrev tool_call : String → ToolCall
tool_call id = record { id = id; type = ""; function = record { name = ""; arguments = "" } }

-- A host that says REASONING and then 4.
abbrev router_answer : ℕ → Option Response × ℕ
router_answer zero = (some (saying "REASONING"), 1)
router_answer (suc n) = (some (saying "4"), suc (suc n))

abbrev router_host : Host ℕ
router_host = record { is_valid = λ method url. true; exchange = λ req w. router_answer w }

abbrev env : Environment
env = record { proxy_url = "http://p"; model_name = "m"; window_size = pos 0; api_key = "" }

ask-thinking_router_example :
    ask texts router_host 3 env "thinking-router" "2+2?" 0 ≡ some (printed "4", 2)
unfolding call_model answer_in extract_text_value prompt_ctx get
ask-thinking_router_example =
    ask-thinking_router texts router_host env "2+2?" 0 0 1 2 (model_response "REASONING")
      (model_response "4") refl refl refl refl refl

abbrev cfg : Config
cfg = config_of env

abbrev node : Node ℕ
node = record { id = "respond"; kind = chain; agent = answerer }

abbrev ctx : PipelineCtx
unfolding prompt_ctx
ctx = prompt_ctx env "2+2?"

-- A host that calls a tool once, and one that calls a tool each time.
abbrev once_answer : ℕ → Option Response × ℕ
once_answer zero = (some calling, 1)
once_answer (suc n) = (some (saying "4"), suc n)

abbrev once : Host ℕ
once = record { is_valid = λ method url. true; exchange = λ req w. once_answer w }

abbrev always : Host ℕ
always = record { is_valid = λ method url. true; exchange = λ req w. (some calling, suc w) }

abbrev patience : ℕ → ℕ
patience zero = 1
patience (suc n) = 0

-- Without tools nothing changes the world.
idle : (cs : List ToolCall) (w : ℕ) → (execute_tools texts once [] cs w).1 ≡ w
unfolding execute_tools execute_tool
idle [] w = refl
idle (c ∷ cs) w = idle cs w

once-IsCalming : IsCalming texts once patience cfg node ctx
unfolding call_model answer_in extract_text_value prompt_ctx get
once-IsCalming working zero resp c cs says asks =
    subst (λ w. patience w < 1) (sym (idle (c ∷ cs) 1)) (omega arith)
once-IsCalming working (suc n) resp c cs says asks = absurd (ground arith)

run_chain_ends_example :
    (r : Option (PipelineCtx × String)) × (v : ℕ) × (run_chain texts once 2 cfg node ctx 0
      ≡ some (r, v))
    × IsCommitted texts once cfg node ctx r v
run_chain_ends_example =
    run_chain_ends texts once patience cfg node ctx once-IsCalming 2 0 (omega arith)

always-IsTireless : IsTireless texts always cfg node ctx
unfolding call_model answer_in extract_text_value prompt_ctx get
always-IsTireless working w = (_, tool_call "c1", [], refl, refl)

run_chain_goes_on_example : run_chain texts always 5 cfg node ctx 0 ≡ none
run_chain_goes_on_example = run_chain_goes_on texts always cfg node ctx always-IsTireless 5 0

tools-tool_call_id_example :
    map answered_call ((execute_tools texts once [] (tool_call "a" ∷ tool_call "b" ∷ []) 0).0)
    ≡ ("tool", "a") ∷ ("tool", "b") ∷ []
tools-tool_call_id_example = tools-tool_call_id texts once [] (tool_call "a" ∷ tool_call "b" ∷ []) 0

abbrev branches : PipelineCtx → Branches ℕ
branches q = copies texts once cfg "answer" answerer [] (λ id. unconfigured) [] q 2

scattered-deep_copy_example :
    scattered (run texts once 2) ctx (scatter_config branches (λ p ps. p)) 0 ≡ some (none, 0)
scattered-deep_copy_example =
    scattered-deep_copy texts once cfg "answer" answerer [] (λ id. unconfigured) [] 0 1 ctx
      (λ p ps. p) 0

abbrev conversation : List ChatMessage
conversation =
    record (message "assistant"
      (decoded (arr (of_list (obj (field "type" (str "thinking") end) ∷ str "4" ∷ []))))) {
        reasoning_content = "Hm.";
      }
    ∷ []

abbrev turns : List Turn
turns =
    asked "2+2?"
    ∷ answered (text_block "text" "I add." ∷ [])
        (record { id = "c1"; name = "add"; input = str "{}" } ∷ [])
    ∷ returned (record { id = "c1"; text = "4" }) []
    ∷ answered (text_block "text" "4" ∷ []) []
    ∷ []

turns-IsConversation : IsConversation json_text false turns
turns-IsConversation = (refl, (((refl, tt), (refl, tt)), (refl, (((refl, tt), tt), refl))))

chat_messages-of_anthropic_example :
    chat_messages_to_anthropic json_text
      (anthropic_to_chat_messages json_text (decoded (str "Be brief.")) (map wire turns))
    ≡ ("Be brief.", map wire turns)
chat_messages-of_anthropic_example =
    chat_messages-of_anthropic json_text "Be brief." turns turns-IsConversation
