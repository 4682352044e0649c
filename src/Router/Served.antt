-- ===== src/Router/Served.antt =====
-- What the handlers of the thinking router send to vLLM.
use lazy_vllm.Prelude.{
  ℕ, ◌-◌, ◌≤◌, ◌≡◌, refl, ap, sym, ◌∙◌, ◌≢◌, String, ◌<>◌, Bool, true, Option, none, some, List,
  ◌++◌, length, take, ltb, take-append-drop, length-drop, eq_iff, arith, if◌then◌else◌, Bool-cases,
  [], inl, inr,
}
use lazy_vllm.Json.{null, arr, obj, Items, Fields, Body, doc, get, put, elements, of_list}
use lazy_vllm.Json.Laws.{get-put}
use lazy_vllm.Router.{
  ChatMessage, MinimalRequest, AnthropicRequest, decode_request, decode_anthropic,
  strip_prior_thinking_blocks, inject_thinking_mode,
}
use lazy_vllm.Router.Strip.{EarlierWithout, strip_all_but_last, strip_prior_thinking_blocks_sound}
use lazy_vllm.Router.Classify.{Config, Client, Response, Request, verdict, verdict_of, classify}
use lazy_vllm.Router.Handlers.{
  Incoming, aborted, window_of, relay, settled, post, chat_headers, chat_verdict, messages_headers,
  messages_verdict, handle_chat_completions, handle_messages, counted, chat_read, chat_parsed,
  messages_read, messages_parsed, chat_decoded, messages_decoded, relay_modified, relay_stripped,
}
use lazy_vllm.Server.{ok, thinking_kwargs}

-- The window is the end of the conversation, of no more messages than its size: all of it if it has
-- no more, and exactly as many as the size if it has that many.
pub window_of_sound :
    (size : ℕ) (messages : List ChatMessage)
    → (older : List ChatMessage) × (older ++ window_of size messages ≡ messages)
      × (length (window_of size messages) ≤ size)
      × (length messages ≤ size → window_of size messages ≡ messages)
      × (size ≤ length messages → length (window_of size messages) ≡ size)
unfolding window_of
window_of_sound size messages =
    let over = length messages - size in
    elim (Bool-cases (ltb size (length messages))) [
      | inl more ↦ (
        take over messages,
        ground (arith, take-append-drop over messages),
        ground (arith, length-drop over messages),
        λ h. ground arith,
        λ h. ground (arith, length-drop over messages),
      )
      | inr within ↦ ([], ground arith, ground arith, λ h. ground arith, λ h. ground arith)
    ]

verdict_fail_open : (body : Body) (e : String) → (verdict body).1 ≡ some e → (verdict body).0 ≡ true
unfolding verdict
verdict_fail_open body e h = ground arith

verdict_of_fail_open :
    (resp : Response) (e : String) → (verdict_of resp).1 ≡ some e → (verdict_of resp).0 ≡ true
verdict_of_fail_open resp e h = grind (arith, verdict_fail_open)

fail_open :
    (client : Client) (cfg : Config) (messages : List ChatMessage) (auth : String) (e : String)
    → (classify client cfg messages auth).1 ≡ some e
    → (classify client cfg messages auth).0 ≡ true
unfolding classify
fail_open client cfg messages auth e h = grind (arith, verdict_of_fail_open)

settled_open :
    (v : Bool × Option String) → ((e : String) → v.1 ≡ some e → v.0 ≡ true) → (settled v).0 ≡ v.0
settled_open (enable, none) h = refl
settled_open (enable, some e) h = sym (h e refl)

-- A classification that fails is a verdict to think, with any client, and so the verdict that the
-- handlers work with is the one that `classify` returns.
pub classify_fail_open :
    (client : Client) (cfg : Config) (messages : List ChatMessage) (auth : String)
    → let v = classify client cfg messages auth in
      ((e : String) → v.1 ≡ some e → v.0 ≡ true) × ((settled v).0 ≡ v.0)
classify_fail_open client cfg messages auth = (
  fail_open client cfg messages auth,
  settled_open (classify client cfg messages auth) (fail_open client cfg messages auth),
)

messages-ne-kwargs : ◌≢◌ {A = String} "messages" "chat_template_kwargs"
messages-ne-kwargs = ground (arith, eq_iff "messages" "chat_template_kwargs")

relay_sent :
    (client : Client) (stream : Bool) (req : Request)
    → client.is_valid req.method req.url ≡ true
    → (relay client stream req).1 ≡ some req
unfolding relay
relay_sent client stream req h = ground arith

inject_get :
    (fs : Fields) (enable : Bool)
    → (gs : Fields) × (inject_thinking_mode (doc (obj fs)) enable ≡ ok (doc (obj gs)))
      × (get "chat_template_kwargs" gs ≡ some (thinking_kwargs enable))
      × ((k : String) → k ≢ "chat_template_kwargs" → get k gs ≡ get k fs)
unfolding inject_thinking_mode
inject_get fs enable = (
  put "chat_template_kwargs" (thinking_kwargs enable) fs,
  refl,
  get-put "chat_template_kwargs" "chat_template_kwargs" (thinking_kwargs enable) fs,
  λ k other. ground (
    arith,
    get-put k "chat_template_kwargs" (thinking_kwargs enable) fs,
    eq_iff "chat_template_kwargs" k,
  ),
)

chat_handled :
    (client : Client) (cfg : Config) (r : Incoming) (body : Body) (req : MinimalRequest)
    → r.body ≡ some body
    → decode_request body ≡ some req
    → handle_chat_completions client cfg r ≡ chat_decoded client cfg r body req
unfolding handle_chat_completions
chat_handled client cfg r body req h e =
    ap (chat_read client cfg r) h ∙ ap (chat_parsed client cfg r body) e

messages_handled :
    (client : Client) (cfg : Config) (r : Incoming) (body : Body) (req : AnthropicRequest)
    → r.body ≡ some body
    → decode_anthropic body ≡ some req
    → handle_messages client cfg r ≡ messages_decoded client cfg r body req
unfolding handle_messages
messages_handled client cfg r body req h e =
    ap (messages_read client cfg r) h ∙ ap (messages_parsed client cfg r body) e

-- A chat request that decodes, to a valid address, is sent on with the verdict in its template
-- arguments and every other field as it was, and it is counted under the verdict.
pub handle_chat_completions_sound :
    (client : Client) (cfg : Config) (r : Incoming) (fs : Fields) (req : MinimalRequest)
    → r.body ≡ some (doc (obj fs))
    → decode_request (doc (obj fs)) ≡ some req
    → client.is_valid "POST" (cfg.vllm_base_url <> "/v1/chat/completions") ≡ true
    → let out = handle_chat_completions client cfg r in
      let enable = (chat_verdict client cfg r req).0 in
      (gs : Fields) × (out.sent
        ≡ some (post (cfg.vllm_base_url <> "/v1/chat/completions") (chat_headers r) (doc (obj gs))))
      × (get "chat_template_kwargs" gs ≡ some (thinking_kwargs enable))
      × ((k : String) → k ≢ "chat_template_kwargs" → get k gs ≡ get k fs)
      × (out.label ≡ some (if enable then "reasoning" else "direct"))
handle_chat_completions_sound client cfg r fs req body decoded valid =
    let v = chat_verdict client cfg r req in
    let url = cfg.vllm_base_url <> "/v1/chat/completions" in
    let handled = chat_handled client cfg r (doc (obj fs)) req body decoded in
    let (gs, injected, here, others) = inject_get fs v.0 in
    (
      gs,
      ap (λ o. o.sent) handled
          ∙ ap (λ b. (counted v (relay_modified client req.stream url (chat_headers r) b)).sent)
              injected
          ∙ relay_sent client req.stream (post url (chat_headers r) (doc (obj gs))) valid,
      here,
      others,
      ap (λ o. o.label) handled,
    )

-- A messages request that decodes and has an array of messages, to a valid address, is sent on with
-- the verdict in its template arguments, every assistant message but the last without exactly its
-- blocks of the types thinking and redacted_thinking, and every other field as it was.
pub handle_messages_sound :
    (client : Client) (cfg : Config) (r : Incoming) (fs : Fields) (vs : Items)
    (req : AnthropicRequest)
    → r.body ≡ some (doc (obj fs))
    → decode_anthropic (doc (obj fs)) ≡ some req
    → get "messages" fs ≡ some (arr vs)
    → client.is_valid "POST" (cfg.vllm_base_url <> "/v1/messages") ≡ true
    → let out = handle_messages client cfg r in
      let enable = (messages_verdict client cfg r req).0 in
      (gs : Fields) × (out.sent
        ≡ some (post (cfg.vllm_base_url <> "/v1/messages") (messages_headers r) (doc (obj gs))))
      × (get "chat_template_kwargs" gs ≡ some (thinking_kwargs enable))
      × (get "messages" gs ≡ some (arr (of_list (strip_all_but_last (elements vs)))))
      × EarlierWithout (elements vs) (strip_all_but_last (elements vs))
      × ((k : String) → k ≢ "messages" → k ≢ "chat_template_kwargs" → get k gs ≡ get k fs)
handle_messages_sound client cfg r fs vs req body decoded messages valid =
    let v = messages_verdict client cfg r req in
    let url = cfg.vllm_base_url <> "/v1/messages" in
    let headers = messages_headers r in
    let handled = messages_handled client cfg r (doc (obj fs)) req body decoded in
    let (ss, stripped, there, without, kept, _) =
      strip_prior_thinking_blocks_sound fs vs messages in
    let (gs, injected, here, others) = inject_get ss v.0 in
    (
      gs,
      ap (λ o. o.sent) handled
          ∙ ap (λ b. (counted v (relay_stripped client req.stream url headers v.0 b)).sent) stripped
          ∙ ap (λ b. (counted v (relay_modified client req.stream url headers b)).sent) injected
          ∙ relay_sent client req.stream (post url headers (doc (obj gs))) valid,
      here,
      others "messages" messages-ne-kwargs ∙ there,
      without,
      λ k no_messages no_kwargs. others k no_kwargs ∙ kept k no_messages,
    )

-- A body that is the JSON text `null` decodes to a request without messages, and both handlers
-- panic after the classification, when they write to the nil map.
pub null_body_aborts :
    (client : Client) (cfg : Config) (r : Incoming)
    → r.body ≡ some (doc null)
    → ((handle_chat_completions client cfg r).reply ≡ aborted)
      × ((handle_messages client cfg r).reply ≡ aborted)
unfolding handle_chat_completions handle_messages decode_request decode_anthropic
    inject_thinking_mode strip_prior_thinking_blocks
null_body_aborts client cfg r h = (ground (arith), ground (arith))
