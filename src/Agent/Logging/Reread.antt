-- ===== src/Agent/Logging/Reread.antt =====
-- agent/internal/agent/disk_logger.go: the document of a log is read back as the log.
use lazy_vllm.Prelude.{
  ℕ, ◌<◌, ◌≡◌, refl, sym, ap, ◌∙◌, String, true, false, Option, none, some, List, [], ◌∷◌, map, inl,
  inr, Bool-cases, str_eq, eq_iff, arith,
}
use lazy_vllm.Json.{
  pos, Json, int, end, Fields, get, elements, of_list, field_string, doc, as_array, as_string,
  as_int,
}
use lazy_vllm.Json.Structs.{◌>>=◌, each, list_at, as_struct}
use lazy_vllm.Logger.{ToolCall}
use lazy_vllm.Logger.Outputs.{OutputLog, call_of}
use lazy_vllm.Agent.{
  decoded, ChatMessage, call_json, calls_field, unless_empty, content_json, chat_json,
}
use lazy_vllm.Agent.Logging.{CallLog, RequestLog}
use lazy_vllm.Agent.Logging.Disk
use lazy_vllm.Agent.Logging.Disk.{
  Clock, log_json, decode_log, chat_of, output_of, output_json, call_log_of, header_list,
  headers_json,
}

-- What a message and a call of a log are when they are read back: the content is decoded.
abbrev pub reread_chat : ChatMessage → ChatMessage
reread_chat m = record m { content = decoded (content_json m.content) }

abbrev pub reread_call : CallLog → CallLog
reread_call c = record c { input = map reread_chat c.input }

each-call_json :
    (cs : List ToolCall) → each call_of (elements (of_list (map call_json cs))) ≡ some cs
unfolding get
each-call_json [] = refl
each-call_json (c ∷ cs) = rw (each-call_json cs) refl

field_string-unless_empty :
    (k v : String) (fs : Fields) → get k fs ≡ none → field_string k (unless_empty k v fs) ≡ some v
unfolding get
field_string-unless_empty k v fs h = elim (Bool-cases (str_eq v "")) [
  | inl e ↦ rw (e, field_string, h) (ap some (sym ((eq_iff v "").0 e)))
  | inr e ↦ (let self : str_eq k k ≡ true = (eq_iff k k).1 refl in rw (e, field_string, self) refl)
]

get-unless_empty :
    (j k v : String) (fs : Fields) → str_eq k j ≡ false → get j (unless_empty k v fs) ≡ get j fs
unfolding get
get-unless_empty j k v fs h = elim (Bool-cases (str_eq v "")) [
  | inl e ↦ rw e refl
  | inr e ↦ rw (e, h) refl
]

get-calls_field :
    (j : String) (cs : List ToolCall) (fs : Fields)
    → str_eq "tool_calls" j ≡ false
    → get j (calls_field cs fs) ≡ get j fs
unfolding get
get-calls_field j [] fs h = refl
get-calls_field j (c ∷ cs) fs h = rw h refl

list_at-calls_field :
    (cs : List ToolCall) (fs : Fields)
    → get "tool_calls" fs ≡ none
    → (list_at "tool_calls" (calls_field cs fs) >>= each call_of) ≡ some cs
unfolding get
list_at-calls_field [] fs h = rw (list_at, h) refl
list_at-calls_field (c ∷ cs) fs h = each-call_json (c ∷ cs)

bind_some {ℓ κ} :
    {A : Type ℓ} {B : Type κ} (o : Option A) (a : A) (k : A → Option B)
    → o ≡ some a
    → (o >>= k) ≡ k a
bind_some o a k h = ap (λ q. q >>= k) h

bind_twice {ℓ κ μ} :
    {A : Type ℓ} {B : Type κ} {C : Type μ} (o : Option A) (b : B) (f : A → Option B)
    (k : B → Option C)
    → (o >>= f) ≡ some b
    → (o >>= (λ a. f a >>= k)) ≡ k b
bind_twice none b f k h = absurd (ground (arith, h))
bind_twice (some a) b f k h = ap (λ q. q >>= k) h

chat_of-chat_json : (m : ChatMessage) → chat_of (chat_json m) ≡ some (reread_chat m)
unfolding get
chat_of-chat_json m =
    let named = unless_empty "name" m.name end in
    let ids = unless_empty "tool_call_id" m.tool_call_id named in
    let calls = calls_field m.tool_calls ids in
    let all = unless_empty "reasoning" m.reasoning_content calls in
    let plain : (j : String)
        → str_eq "tool_call_id" j ≡ false
        → str_eq "name" j ≡ false
        → get j ids ≡ none =
      λ j h h'.
        get-unless_empty j "tool_call_id" m.tool_call_id named h
        ∙ get-unless_empty j "name" m.name end h' in
    let read_reasoning : field_string "reasoning" all ≡ some m.reasoning_content =
      field_string-unless_empty "reasoning" m.reasoning_content calls
        (get-calls_field "reasoning" m.tool_calls ids refl ∙ plain "reasoning" refl refl) in
    let read_calls : (list_at "tool_calls" all >>= each call_of) ≡ some m.tool_calls =
      ap (λ o. (elim o [ none ↦ some [] | some v ↦ as_array v ]) >>= each call_of)
        (get-unless_empty "tool_calls" "reasoning" m.reasoning_content calls refl)
      ∙ list_at-calls_field m.tool_calls ids (plain "tool_calls" refl refl) in
    let read_id : field_string "tool_call_id" all ≡ some m.tool_call_id =
      ap (λ o. elim o [ none ↦ some "" | some v ↦ as_string v ])
        (get-unless_empty "tool_call_id" "reasoning" m.reasoning_content calls refl
          ∙ get-calls_field "tool_call_id" m.tool_calls ids refl)
      ∙ field_string-unless_empty "tool_call_id" m.tool_call_id named
          (get-unless_empty "tool_call_id" "name" m.name end refl) in
    let read_name : field_string "name" all ≡ some m.name =
      ap (λ o. elim o [ none ↦ some "" | some v ↦ as_string v ])
        (get-unless_empty "name" "reasoning" m.reasoning_content calls refl
          ∙ get-calls_field "name" m.tool_calls ids refl
          ∙ get-unless_empty "name" "tool_call_id" m.tool_call_id named refl)
      ∙ field_string-unless_empty "name" m.name end refl in
    bind_some _ _ _ read_reasoning
    ∙ bind_twice (list_at "tool_calls" all) m.tool_calls (each call_of) _ read_calls
    ∙ bind_some _ _ _ read_id
    ∙ bind_some _ _ _ read_name

output_of-output_json : (o : OutputLog) → (as_struct (output_json o) >>= output_of) ≡ some o
unfolding get
output_of-output_json o =
    let calls = calls_field o.tool_calls end in
    let content = unless_empty "content" o.content calls in
    let all = unless_empty "reasoning" o.reasoning content in
    let read_reasoning : field_string "reasoning" all ≡ some o.reasoning =
      field_string-unless_empty "reasoning" o.reasoning content (
        get-unless_empty "reasoning" "content" o.content calls refl
        ∙ get-calls_field "reasoning" o.tool_calls end refl) in
    let read_content : field_string "content" all ≡ some o.content =
      ap (λ q. elim q [ none ↦ some "" | some v ↦ as_string v ])
        (get-unless_empty "content" "reasoning" o.reasoning content refl)
      ∙ field_string-unless_empty "content" o.content calls
          (get-calls_field "content" o.tool_calls end refl) in
    let read_calls : (list_at "tool_calls" all >>= each call_of) ≡ some o.tool_calls =
      ap (λ q. (elim q [ none ↦ some [] | some v ↦ as_array v ]) >>= each call_of)
        (get-unless_empty "tool_calls" "reasoning" o.reasoning content refl
          ∙ get-unless_empty "tool_calls" "content" o.content calls refl)
      ∙ list_at-calls_field o.tool_calls end refl in
    bind_some _ _ _ read_reasoning
    ∙ bind_some _ _ _ read_content
    ∙ bind_twice (list_at "tool_calls" all) o.tool_calls (each call_of) _ read_calls

each-map {ℓ κ} :
    {A : Type ℓ} {B : Type κ} (f : Json → Option B) (g : A → Json) (h : A → B)
    → ((a : A) → f (g a) ≡ some (h a))
    → (xs : List A) → each f (elements (of_list (map g xs))) ≡ some (map h xs)
each-map f g h law [] = refl
each-map f g h law (a ∷ xs) = rw (law a, each-map f g h law xs) refl

header_list-headers_json : (hs : List (String × String)) → header_list (headers_json hs) ≡ some hs
header_list-headers_json [] = refl
header_list-headers_json ((k, v) ∷ hs) = rw (header_list-headers_json hs) refl

-- The numbers of a log are in the range of an `int`.
abbrev pub IsInt : ℕ → Type 0
IsInt n = n < 9223372036854775808

abbrev pub AreInts : List CallLog → Type 0
AreInts [] = Unit
AreInts (c ∷ cs) = IsInt c.iteration × AreInts cs

as_int-int : (n : ℕ) → IsInt n → as_int (int (pos n)) ≡ some (pos n)
as_int-int n h = ground arith

module _ (clock : Clock) (prints : (t : ℕ) → clock.read (clock.print t) ≡ some t) where
  call_log_of-call_json :
      (c : CallLog)
      → IsInt c.iteration
      → call_log_of clock (Disk.call_json clock c) ≡ some (reread_call c)
  unfolding get
  call_log_of-call_json c h =
      bind_some _ _ _ (as_int-int c.iteration h)
      ∙ bind_some _ _ _ (prints c.timestamp)
      ∙ bind_some _ _ _ (each-map chat_of chat_json reread_chat chat_of-chat_json c.input)
      ∙ bind_some _ _ _ (output_of-output_json c.output)

  each-call_log_of :
      (cs : List CallLog)
      → AreInts cs
      → each (call_log_of clock) (elements (of_list (map (Disk.call_json clock) cs)))
        ≡ some (map reread_call cs)
  each-call_log_of [] h = refl
  each-call_log_of (c ∷ cs) (h, hs) = rw (call_log_of-call_json c h, each-call_log_of cs hs) refl

  read-calls_json :
      (cs : List CallLog)
      → AreInts cs
      → (as_array (Disk.calls_json clock cs) >>= each (call_log_of clock))
        ≡ some (map reread_call cs)
  read-calls_json [] h = refl
  read-calls_json (c ∷ cs) h = each-call_log_of (c ∷ cs) h

  read_document :
      (r : RequestLog) (body : Json)
      → IsInt r.duration_ms
      → AreInts r.calls
      → (log_json clock (record r { request_body = doc body }) >>= decode_log clock)
        ≡ some (record r { request_body = doc body; calls = map reread_call r.calls })
  unfolding log_json decode_log get
  read_document r body h hs =
      bind_some _ _ _ (prints r.started_at)
      ∙ bind_some _ _ _ (prints r.finished_at)
      ∙ bind_some _ _ _ (as_int-int r.duration_ms h)
      ∙ bind_some _ _ _ (header_list-headers_json r.request_headers)
      ∙ bind_twice (as_array (Disk.calls_json clock r.calls)) (map reread_call r.calls)
          (each (call_log_of clock)) _ (read-calls_json r.calls hs)

  -- A log whose body is JSON and whose numbers are in range is decoded from its document as it is,
  -- but for the contents of its messages, which are decoded JSON.
  pub decode_log-log_json :
      (r : RequestLog) (body : Json)
      → r.request_body ≡ doc body
      → IsInt r.duration_ms
      → AreInts r.calls
      → (log_json clock r >>= decode_log clock)
        ≡ some (record r { calls = map reread_call r.calls })
  decode_log-log_json r body is h hs =
      ap (λ b. log_json clock (record r { request_body = b }) >>= decode_log clock) is
      ∙ read_document r body h hs
      ∙ ap (λ b. some (record r { request_body = b; calls = map reread_call r.calls })) (sym is)
