-- ===== src/Proxy.antt =====
-- proxy/internal/proxy/handlers.go: how the proxy handles a completion, from the backend and the body
-- that it chooses to the session that it logs. The upstream servers are a parameter, `Upstream`, which
-- answers one request the same way each time; the directive of obs.go is a field of `Server`.
pub mod Choice
pub mod Models
pub mod Logging
pub mod Logged
pub mod Kept
pub mod Transcript
pub mod Memory
pub mod Mux
pub mod Serve
use lazy_vllm.Prelude.{
  ℕ, ◌+◌, String, ◌<>◌, Bool, true, false, not, ◌&&◌, ◌||◌, Option, none, some, List, [], ◌∷◌, ◌++◌,
  str_eq, leb, if◌then◌else◌,
}
use lazy_vllm.Json.{ℤ, pos, negsuc, Json, Fields, end, null, obj, get, as_int, Body, doc, malformed}
use lazy_vllm.Obs.{Bytes}
use lazy_vllm.Obs.Inject.{is_probe_request, inject_obs_instruction}
use lazy_vllm.Config.{Backend, Provider, RouteRule}
use lazy_vllm.Server.{
  AsAny, Result, ok, failed, panicked, lookup_provider, find_backend, resolve_backend, strip_flash,
  is_flash_model, model_from_body, extract_model, inject_disable_thinking, request_disable_thinking,
  compute_thinking_budget, inject_thinking_token_budget,
}
use lazy_vllm.Router.Classify.{Request, Headers, json_content, header_unless_empty}

-- `as_any` is the float conversion of encoding/json, and `fraction_cap n` is `int(float64(n) * fraction)`.
pub record Server : Type 0 where
  pub backends : List Backend
  pub providers : List Provider
  pub routing_rules : List RouteRule
  pub memory_ingest_url : String
  pub fraction_cap : ℕ → ℕ
  pub instruction : String
  pub reminder : String
  pub reminds : Bool
  pub as_any : AsAny

-- A request, with the attribution in its context.
pub record Incoming : Type 0 where
  pub method : String
  pub request_uri : String
  pub header : String → String
  pub provider : String
  pub user : String
  pub project : String

-- A response, with its body as it is read part by part.
pub record Answer : Type 0 where
  pub status : ℕ
  pub headers : Headers
  pub parts : List Bytes

-- A request to count tokens is answered by a document, or by nothing if any step fails.
pub record Upstream : Type 0 where
  pub is_valid : String → String → Bool
  pub exchange : Request → Option Answer
  pub decoded : Request → Option Json

-- The arguments of `forwardWithLogging`, without the loggers and the parsers.
pub record Call : Type 0 where
  pub body : Body
  pub format : String
  pub token_count : ℕ
  pub model : String
  pub is_flash : Bool
  pub inject_obs : Bool
  pub inject_thinking_budget : Bool

abbrev pub is_foreign : String → Bool
is_foreign provider = not (str_eq provider "") && not (str_eq provider "local")

abbrev zero_provider : Provider
zero_provider = record {
  name = "";
  url = "";
  count_tokens = false;
  inject_obs_instructions = false;
}

abbrev or_zero : Option Provider → Provider
or_zero none = zero_provider
or_zero (some p) = p

-- `p, _ := lookupProvider(s.Providers, provider)`.
abbrev pub provider_of : Server → String → Provider
provider_of s name = or_zero (lookup_provider s.providers name)

-- A count in a field of an answer. A server counts no negative number of tokens.
abbrev count_of : Option ℤ → ℕ
count_of (some (pos n)) = n
count_of _ = 0

abbrev count_in : String → Option Json → ℕ
count_in k (some (obj fs)) = elim (get k fs) [ none ↦ 0 | some v ↦ count_of (as_int v) ]
count_in k _ = 0

abbrev count_request : String → Body → Request
count_request url body = record { method = "POST"; url = url; headers = json_content; body = body }

abbrev counted : Upstream → String → Request → ℕ
counted up k req = if up.is_valid req.method req.url then count_in k (up.decoded req) else 0

-- `countOpenAITokens` and `countAnthropicTokens`.
unfoldable pub count_openai_tokens : Upstream → String → Body → ℕ
count_openai_tokens up base_url body =
    counted up "count" (count_request (base_url <> "/tokenize") body)

unfoldable pub count_anthropic_tokens : Upstream → String → Body → ℕ
count_anthropic_tokens up base_url body =
    counted up "input_tokens" (count_request (base_url <> "/v1/messages/count_tokens") body)

-- The calls of `HandleChatCompletions` and `HandleMessages`, which count tokens in their own ways.
abbrev call_of : (String → Body → ℕ) → String → Server → Incoming → Body → Call
call_of count format s r body =
    if is_foreign r.provider
    then record {
      body = body;
      format = format;
      token_count =
          if (provider_of s r.provider).count_tokens
          then count (provider_of s r.provider).url body
          else 0;
      model = model_from_body s.as_any body;
      is_flash = false;
      inject_obs = (provider_of s r.provider).inject_obs_instructions;
      inject_thinking_budget = false;
    }
    else (let (model, cleaned) = extract_model s.as_any body in
        let backend = find_backend s.backends (strip_flash model) in
        record {
          body = cleaned;
          format = format;
          token_count = if backend.count_tokens then count backend.url cleaned else 0;
          model = model;
          is_flash = is_flash_model model;
          inject_obs = backend.inject_obs_instructions;
          inject_thinking_budget = backend.inject_thinking_budget;
        })

unfoldable pub chat_call : Upstream → Server → Incoming → Body → Call
unfolding count_openai_tokens
chat_call up s r body = call_of (count_openai_tokens up) "openai" s r body

unfoldable pub messages_call : Upstream → Server → Incoming → Body → Call
unfolding count_anthropic_tokens
messages_call up s r body = call_of (count_anthropic_tokens up) "anthropic" s r body

abbrev reaches : ℕ → ℤ → Bool
reaches tokens (pos n) = leb n tokens
reaches tokens (negsuc n) = true

-- The URL of the first routing rule that takes a model with a count of tokens.
unfoldable pub rule_url : Server → List RouteRule → String → ℕ → Option String
rule_url s [] model tokens = none
rule_url s (rule ∷ rules) model tokens =
    if str_eq model rule.source_model && reaches tokens rule.threshold
    then some (resolve_backend s.backends rule.target_model)
    else rule_url s rules model tokens

abbrev or_default : String → Option String → String
or_default url none = url
or_default url (some other) = other

-- The base URL that a call goes to.
unfoldable pub base_url : Server → Incoming → Call → String
unfolding rule_url
base_url s r c =
    if is_foreign r.provider
    then (provider_of s r.provider).url
    else or_default (resolve_backend s.backends (strip_flash c.model))
        (rule_url s s.routing_rules (strip_flash c.model) c.token_count)

-- Whether thinking is disabled, by the model's suffix, the effort or the client.
unfoldable pub effective_flash : Server → Call → Bool
effective_flash s c =
    c.is_flash
    || ((compute_thinking_budget s.fraction_cap c.body).1 || request_disable_thinking c.body)

abbrev instructed : Server → Bool → Call → Result Body
instructed s logs c =
    if c.inject_obs && (logs && not (is_probe_request c.body))
    then inject_obs_instruction s.instruction s.reminder s.reminds c.body c.format
    else ok c.body

abbrev or_unchanged : Body → Result Body → Result Body
or_unchanged b (ok b') = ok b'
or_unchanged b failed = ok b
or_unchanged b panicked = panicked

abbrev budgeted : Server → Call → Result Body → Result Body
budgeted s c (ok b) =
    or_unchanged b
      (inject_thinking_token_budget b ((compute_thinking_budget s.fraction_cap c.body).0))
budgeted s c failed = failed
budgeted s c panicked = panicked

-- The body that is forwarded; `logs` says that there is a session logger.
unfoldable pub body_to_forward : Server → Bool → Incoming → Call → Result Body
unfolding effective_flash
body_to_forward s logs r c =
    if is_foreign r.provider
    then instructed s logs c
    else if effective_flash s c
    then inject_disable_thinking s.as_any c.body
    else if c.inject_thinking_budget
    then budgeted s c (instructed s logs c)
    else instructed s logs c

abbrev passed : (String → String) → List String → Headers
passed header [] = []
passed header (k ∷ ks) = header_unless_empty k (header k) ++ passed header ks

abbrev passthrough_headers : List String
passthrough_headers =
    "Authorization" ∷ "x-api-key" ∷ "Content-Type" ∷ "Accept" ∷ "anthropic-version"
    ∷ "anthropic-beta" ∷ []

-- `http.Error`, or the server's response.
pub data Reply : Type 0 where
  http_error : ℕ → String → Reply
  answered : Answer → Reply

unfoldable pub send : Upstream → Request → Reply
send up req =
    if not (up.is_valid req.method req.url)
    then http_error 500 "failed to build upstream request"
    else (elim (up.exchange req) [
      | none ↦ http_error 502 "upstream request failed"
      | some a ↦ answered a
    ])

abbrev request_with : List String → Incoming → String → Body → Request
request_with names r url body = record {
  method = r.method;
  url = url <> r.request_uri;
  headers = passed r.header names;
  body = body;
}

-- `forwardRequest`.
unfoldable pub forward_request : Upstream → Incoming → String → Body → Reply
unfolding send
forward_request up r url body = send up (request_with passthrough_headers r url body)

abbrev sent_generic : Upstream → Incoming → String → Result Body → Result Reply
sent_generic up r url (ok body) =
    ok (send up (request_with ("Authorization" ∷ "Content-Type" ∷ "Accept" ∷ []) r url body))
sent_generic up r url failed = failed
sent_generic up r url panicked = panicked

-- `HandleGenericProxy`.
unfoldable pub handle_generic_proxy : Server → Upstream → Incoming → Body → Result Reply
unfolding send
handle_generic_proxy s up r body =
    if is_foreign r.provider
    then sent_generic up r (provider_of s r.provider).url (ok body)
    else (let (model, cleaned) = extract_model s.as_any body in
        sent_generic up r (resolve_backend s.backends (strip_flash model)) (
          if is_flash_model model || request_disable_thinking body
          then inject_disable_thinking s.as_any body
          else ok cleaned))
