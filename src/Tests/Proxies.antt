-- ===== src/Tests/Proxies.antt =====
-- Requests to the proxy, with the hash and the compressor of the store's tests.
use lazy_vllm.Prelude.{◌⊎◌, ◌≡◌, refl, String, Bool, true, false, Option, none, some, List, [], ◌∷◌}
use lazy_vllm.Json.{Json, pos, str, int, obj, end, field, Fields, Body, doc, get, asserted_string}
use lazy_vllm.Text.Chars.{chars, of_chars}
use lazy_vllm.Text.Codes.{codes, of_codes}
use lazy_vllm.Obs.{Bytes}
use lazy_vllm.Server.{ok}
use lazy_vllm.Server.Attribution.{attribution_middleware, attributed}
use lazy_vllm.Server.Attribution.Paths.{path_of, attribution_of, middleware-path_of}
use lazy_vllm.Logger.{Message, extract_tools}
use lazy_vllm.Logger.Outputs.{OutputLog}
use lazy_vllm.Store.{empty_db, start_session, find_session, session_id_of}
use lazy_vllm.Store.Steps.{operate_all-IsValid}
use lazy_vllm.Store.Refines.{transcript}
use lazy_vllm.Proxy.{Server, Incoming, Call, Upstream, body_to_forward, forward_request, send}
use lazy_vllm.Proxy.Choice.{unchanged, read_as_any, IsRead, Keeps, body_to_forward-Keeps}
use lazy_vllm.Proxy.Logging.{
  keep_tools, is_stream, Writing, Moment, Handled, forward_with_logging, message_json, output_json,
}
use lazy_vllm.Proxy.Transcript.{forward_with_logging-transcript}
use lazy_vllm.Tests.Stores.{unary, marked, random, unary-IsContentHash}

abbrev pub content_text : Option String → Bytes
unfolding chars
content_text none = []
content_text (some s) = codes (chars s)

-- A document is written as its content.
abbrev pub encode : Json → Bytes
encode (obj fs) = content_text (asserted_string (get "content" fs))
encode _ = []

abbrev pub how : Writing
how = record {
  sha = unary;
  zstd = marked;
  codec = record { decode = λ b. none; encode = encode };
  utf8 = λ s. codes (chars s);
}

abbrev pub at : Moment
at = record { started = 5; finished = 6; duration_ms = 7; random = random }

abbrev pub server : Server
server = record {
  backends = [];
  providers = [];
  routing_rules = [];
  memory_ingest_url = "";
  fraction_cap = λ n. n;
  instruction = "";
  reminder = "";
  reminds = false;
  as_any = λ v. some v;
}

abbrev pub upstream : Upstream
upstream = record {
  is_valid = λ method url. true;
  exchange = λ req. some (record { status = 200; headers = []; parts = (b'4' ∷ []) ∷ [] });
  decoded = λ req. none;
}

abbrev pub request : Incoming
request = record {
  method = "POST";
  request_uri = "/v1/messages";
  header = λ name. "";
  provider = "acme";
  user = "ann";
  project = "p";
}

abbrev fields : Fields
fields = field "max_tokens" (int (pos 9)) end

abbrev question : Call
question = record {
  body = doc (obj fields);
  format = "anthropic";
  token_count = 0;
  model = "m";
  is_flash = false;
  inject_obs = false;
  inject_thinking_budget = false;
}

abbrev hello : Message
hello = record {
  role = "user";
  content = some (str "hi");
  reasoning_content = "";
  tool_calls = none;
  tool_call_id = "";
  name = "";
}

abbrev messages : Body → List Message
messages body = hello ∷ []

abbrev output : Bytes → Bool → OutputLog
output bytes stream = record {
  reasoning = "";
  content = of_chars (of_codes bytes);
  tool_calls = [];
}

forward_with_logging-transcript_example :
    (h : Handled) × (forward_with_logging how messages output at server upstream request question []
        empty_db
      ≡ ok h)
    × (transcript marked h.db (session_id_of random) ≡ (b'h' ∷ b'i' ∷ [], 0) ∷ (b'4' ∷ [], 7) ∷ [])
unfolding body_to_forward start_session find_session extract_tools keep_tools message_json
    output_json chars of_chars get session_id_of forward_request send is_stream
forward_with_logging-transcript_example =
    forward_with_logging-transcript how unary-IsContentHash messages output at server upstream
      request question [] (doc (obj fields)) empty_db (session_id_of random)
      (operate_all-IsValid unary marked []) tt refl refl (refl, tt) refl

body_to_forward-Keeps_example :
    let r = record request { provider = "" } in
    let b = body_to_forward server false r question in
    Keeps (unchanged fields) b
    ⊎ (Keeps (read_as_any server fields) b × IsRead server r question fields)
body_to_forward-Keeps_example =
    body_to_forward-Keeps server (record request { provider = "" }) question fields refl

middleware-path_of_example :
    attribution_middleware
      (λ s. none)
      []
      (path_of (chars "local") (chars "ann") (chars "cA") (chars "v1"))
    ≡ attributed
        (attribution_of (λ s. none) (chars "local") (chars "ann") (chars "cA") (chars "v1"))
unfolding chars of_chars
middleware-path_of_example =
    middleware-path_of (λ s. none) [] (chars "local") (chars "ann") (chars "cA") (chars "v1")
      (refl, (refl, (refl, (refl, (refl, (refl, tt)))))) (refl, (refl, (refl, (refl, tt))))
      (refl, (refl, (refl, tt))) refl
