-- ===== src/Tests/Logs.antt =====
-- Conversations as the session log keeps them.
use lazy_vllm.Prelude.{◌≡◌, ◌≢◌, String, some, [], ◌∷◌, arith, eq_iff}
use lazy_vllm.Json.{Json, str, arr, obj, field, end, nil, cons}
use lazy_vllm.Logger.{AnthropicMessage, convert_all}
use lazy_vllm.Logger.Calls.{answered, returned, answered-convert_all}

abbrev text_of : Json → String
text_of v = "{}"

-- A call of a tool, and its result.
abbrev call : AnthropicMessage
call = record {
  role = "assistant";
  content = some (
      arr (
        cons
          (obj
            (field "type" (str "tool_use") (field "id" (str "a1") (field "name" (str "ls") end))))
          nil));
}

abbrev result : AnthropicMessage
result = record {
  role = "user";
  content = some (
      arr (
        cons
          (obj (
            field "type" (str "tool_result")
              (field "tool_use_id" (str "a1") (field "content" (str "main.go") end))))
          nil));
}

assistant-ne-tool : ◌≢◌ {A = String} "assistant" "tool"
assistant-ne-tool = ground (arith, eq_iff "assistant" "tool")

user-ne-tool : ◌≢◌ {A = String} "user" "tool"
user-ne-tool = ground (arith, eq_iff "user" "tool")

answered-convert_all_example :
    answered (convert_all text_of (call ∷ result ∷ [])) ≡ returned (call ∷ result ∷ [])
answered-convert_all_example =
    answered-convert_all text_of (call ∷ result ∷ []) (assistant-ne-tool, (user-ne-tool, tt))
