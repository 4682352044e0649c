-- ===== src/Tests/Listings.antt =====
-- The listing of models, and requests on their way to a handler.
use lazy_vllm.Prelude.{
  ◌≡◌, ◌≢◌, refl, ◌<>◌, String, true, Option, none, some, List, [], ◌∷◌, take, keep, map, arith,
  eq_iff,
}
use lazy_vllm.Json.{arr, cons, nil, doc, Json, str, obj, end, field, Fields, get}
use lazy_vllm.Text.Chars.{Chars, chars, of_chars}
use lazy_vllm.Config.{info}
use lazy_vllm.Server.{flash_suffix, is_flash_model, strip_flash}
use lazy_vllm.Server.Attribution.Paths.{path_of}
use lazy_vllm.Store.{empty_db}
use lazy_vllm.Proxy.Models.{Arrived, merge_models, clone_model_with_flash}
use lazy_vllm.Proxy.Models.Listed.{occurs, at_most_one, is_unnamed, merge_models_once}
use lazy_vllm.Proxy.Models.Clones.{clone_model_with_flash_sound}
use lazy_vllm.Proxy.Serve.{
  World, HttpRequest, State, body_limit, handle_messages, handle_chat_completions, kept, serve,
}
use lazy_vllm.Proxy.Serve.Attributed.{
  attributed_request, messages_rest, chat_rest, serve_completions,
}
use lazy_vllm.Proxy.Serve.Reading.{serve-reads}
use lazy_vllm.Server.{ok, lookup_provider}
use lazy_vllm.Obs.{Bytes}
use lazy_vllm.Logger.{
  extract_tools, parse_anthropic_messages, extract_system_text, decode_blocks,
  convert_anthropic_message,
}
use lazy_vllm.Logger.Outputs.{parse_anthropic_json, add_blocks}
use lazy_vllm.Logger.Streams.{parse_anthropic_output}
use lazy_vllm.Store.Hex.{hash_hex}
use lazy_vllm.Store.{start_session, find_session, session_id_of}
use lazy_vllm.Store.Steps.{operate_all-IsValid}
use lazy_vllm.Store.Reads.{CompactSession, CompactSessionMessage}
use lazy_vllm.Store.Refines.{entry_of}
use lazy_vllm.Store.Ui.{detail, handle_session_detail}
use lazy_vllm.Proxy.{messages_call, body_to_forward, forward_request, send}
use lazy_vllm.Proxy.Logging.{Handled, keep_tools, message_json, output_json, is_stream}
use lazy_vllm.Proxy.Serve.Session.{conversation, handle_messages-handle_session_detail}
use lazy_vllm.Tests.Proxies.{server, upstream, how, at, request, encode}
use lazy_vllm.Tests.Stores.{marked, unary, unary-IsContentHash}

abbrev text_of : Json → String
text_of v = "id"

abbrev model : Fields
model = field "id" (str "qwen") (field "root" (str "qwen") (field "owned_by" (str "vllm") end))

-- One name spelled in two ways, one of them twice, and a text.
abbrev listed : List Arrived
listed =
    (some "n", obj model)
    ∷ (some "n", obj model)
    ∷ (some "u006e", obj model)
    ∷ (none, str "other")
    ∷ []

merge_models_once_example :
    ((t : String) → occurs t (merge_models listed []) ≡ at_most_one (occurs t listed))
    × (keep is_unnamed (merge_models listed []) ≡ keep is_unnamed listed)
merge_models_once_example = merge_models_once listed

abbrev literal : String → Option String
literal s = some s

clone_model_with_flash_sound_example :
    (gs : Fields) × (clone_model_with_flash literal (obj model) ≡ some (obj gs))
    × (get "id" gs ≡ some (str ("qwen" <> flash_suffix)))
    × ((is_flash_model ("qwen" <> flash_suffix) ≡ true)
        × (strip_flash ("qwen" <> flash_suffix) ≡ "qwen"))
    × ((k : String) → k ≢ "id" → k ≢ "root" → get k gs ≡ get k model)
    × (get "root" model ≡ some (str "qwen") → get "root" gs ≡ some (str ("qwen" <> flash_suffix)))
    × (get "root" model ≢ some (str "qwen")
        → ◌≢◌ {A = String} "qwen" ""
        → get "root" gs ≡ get "root" model)
unfolding get
clone_model_with_flash_sound_example = clone_model_with_flash_sound literal model "qwen" refl refl

abbrev world : World
world = record {
  server = server;
  upstream = upstream;
  how = how;
  text_of = text_of;
  id_text = λ n. text_of;
  literal = literal;
  decode = λ s. none;
  arrive = λ us. us;
  week_before = λ t. 0;
}

abbrev local : Chars
unfolding chars
local = chars "local"

abbrev ann : Chars
unfolding chars
ann = chars "ann"

abbrev project : Chars
unfolding chars
project = chars "cA"

abbrev post : HttpRequest
post = record {
  method = "POST";
  path = path_of local ann project messages_rest;
  uri = λ p. "/v1/messages";
  header = λ name. "";
  raw = b'{' ∷ b'}' ∷ [];
  readable = true;
}

abbrev state : State
state = record { db = empty_db; level = info }

serve_completions_example :
    (post.path ≡ path_of local ann project messages_rest
      → serve world at post state
        ≡ kept
            (handle_messages world at
              (attributed_request world at post local ann project ("/" ∷ messages_rest))
              (take body_limit post.raw)
              state.db)
            state)
    × (post.path ≡ path_of local ann project chat_rest
        → serve world at post state
          ≡ kept
              (handle_chat_completions world at
                (attributed_request world at post local ann project ("/" ∷ chat_rest))
                (take body_limit post.raw)
                state.db)
              state)
unfolding local ann project chars of_chars
serve_completions_example =
    serve_completions world at post local ann project state
      (refl, (refl, (refl, (refl, (refl, (refl, tt)))))) (refl, (refl, (refl, (refl, tt))))
      (refl, (refl, (refl, tt))) refl refl refl

abbrev get_session_request : HttpRequest
unfolding chars
get_session_request = record post { method = "GET"; path = chars "/api/sessions/s1" }

get-ne-post : ◌≢◌ {A = String} "GET" "POST"
get-ne-post = ground (arith, eq_iff "GET" "POST")

serve-reads_example : (serve world at get_session_request state).1 ≡ state
unfolding get_session_request
serve-reads_example = serve-reads world at get_session_request state get-ne-post

-- Any body asks "hi".
abbrev asking : Json
asking = obj (
    field "messages"
      (arr (cons (obj (field "role" (str "user") (field "content" (str "hi") end))) nil)) end)

abbrev reading : World
reading = record world {
  how = record how { codec = record { decode = λ b. some asking; encode = encode } };
}

-- The identifier "01020304-0506-4708-890a-0b0c0d0e0f10" behind its first digit.
abbrev session : Bytes
session =
    49 ∷ 48 ∷ 50 ∷ 48 ∷ 51 ∷ 48 ∷ 52 ∷ 45 ∷ 48 ∷ 53 ∷ 48 ∷ 54 ∷ 45 ∷ 52 ∷ 55 ∷ 48 ∷ 56 ∷ 45 ∷ 56
    ∷ 57 ∷ 48 ∷ 97 ∷ 45 ∷ 48 ∷ 98 ∷ 48 ∷ 99 ∷ 48 ∷ 100 ∷ 48 ∷ 101 ∷ 48 ∷ 102 ∷ 49 ∷ 48 ∷ []

handle_messages-handle_session_detail_example :
    (h : Handled) × (handle_messages reading at request [] empty_db ≡ ok h)
    × (s : CompactSession) × (ms : List CompactSessionMessage) × (handle_session_detail marked
          (48 ∷ session)
          h.db
        ≡ detail s ms)
    × (map (entry_of marked) ms ≡ conversation reading at request [] (doc asking))
unfolding body_to_forward start_session find_session extract_tools keep_tools message_json
    output_json chars of_chars get session_id_of forward_request send is_stream messages_call
    lookup_provider hash_hex parse_anthropic_messages extract_system_text decode_blocks
    convert_anthropic_message parse_anthropic_output parse_anthropic_json add_blocks
handle_messages-handle_session_detail_example =
    handle_messages-handle_session_detail reading at request [] unary-IsContentHash (doc asking)
      empty_db 48 session (operate_all-IsValid unary marked []) tt refl refl (refl, tt) refl
