-- ===== src/Logger/Messages.antt =====
-- proxy/internal/logger/parse.go: the messages of a request of the OpenAI API.
use lazy_vllm.Prelude.{String, Option, none, some, List, [], map}
use lazy_vllm.Json.{Json, obj, arr, Fields, Body, doc, malformed, get, elements, string_or_zero}
use lazy_vllm.Logger.{Message, plain}

-- `ParseMessages` drops the error of a field that has another type, and the field with it.
abbrev kept_string : String → Fields → String
kept_string k fs = string_or_zero (get k fs)

abbrev message_of : Json → Message
message_of (obj fs) = record {
  role = kept_string "role" fs;
  content = get "content" fs;
  reasoning_content = kept_string "reasoning" fs;
  tool_calls = get "tool_calls" fs;
  tool_call_id = kept_string "tool_call_id" fs;
  name = kept_string "name" fs;
}
message_of _ = plain "" none

abbrev listed_messages : Option Json → List Message
listed_messages (some (arr vs)) = map message_of (elements vs)
listed_messages _ = []

-- `ParseMessages`.
unfoldable pub parse_messages : Body → List Message
parse_messages (malformed text) = []
parse_messages (doc (obj fs)) = listed_messages (get "messages" fs)
parse_messages (doc _) = []
