-- ===== src/Logger/Calls.antt =====
-- The results of tool calls in the log.
use mathlib.Core.Path.{ap₂}
use lazy_vllm.Prelude.{
  ◌≡◌, refl, ◌∙◌, ◌≢◌, arith, String, Option, none, some, List, [], ◌∷◌, ◌++◌, All, str_eq, eq_iff,
  if◌then◌else◌,
}
use lazy_vllm.Json.{Json, as_string}
use lazy_vllm.Logger.{
  Message, AnthropicMessage, AnthropicBlock, ◌>>=◌, decode_blocks, tool_messages, user_message,
  text_parts, convert_anthropic_user_blocks, convert_anthropic_assistant_blocks, converted,
  convert_anthropic_message, convert_all,
}

-- The ids of the results among logged messages, and among blocks.
abbrev pub answered : List Message → List String
answered [] = []
answered (m ∷ ms) =
    let rest = answered ms in if str_eq m.role "tool" then m.tool_call_id ∷ rest else rest

abbrev pub result_ids : List AnthropicBlock → List String
result_ids [] = []
result_ids (b ∷ bs) =
    let rest = result_ids bs in if str_eq b.type "tool_result" then b.tool_use_id ∷ rest else rest

abbrev pub ids_in : Option String → Option (List AnthropicBlock) → List String
ids_in none (some blocks) = result_ids blocks
ids_in _ _ = []

-- The ids of the results that the users of a conversation return.
abbrev pub returned : List AnthropicMessage → List String
returned [] = []
returned (m ∷ ms) =
    (if str_eq m.role "user"
      then ids_in (m.content >>= as_string) (decode_blocks m.content)
      else [])
    ++ returned ms

answered-append : (ms ns : List Message) → answered (ms ++ ns) ≡ answered ms ++ answered ns
answered-append [] ns = refl
answered-append (m ∷ ms) ns = ground (arith, answered-append ms ns)

answered-tool_messages :
    (bs : List AnthropicBlock) (text : String)
    → answered (tool_messages bs ++ user_message text) ≡ result_ids bs
unfolding tool_messages
answered-tool_messages [] text = ground arith
answered-tool_messages (b ∷ bs) text = ground (arith, answered-tool_messages bs text)

answered-user :
    (bs : List AnthropicBlock) → answered (convert_anthropic_user_blocks bs) ≡ result_ids bs
unfolding convert_anthropic_user_blocks
answered-user bs = answered-tool_messages bs (text_parts bs)

module _ (text_of : Json → String) where
  answered-assistant :
      (bs : List AnthropicBlock)
      → answered (convert_anthropic_assistant_blocks text_of bs ∷ []) ≡ []
  unfolding convert_anthropic_assistant_blocks
  answered-assistant bs = refl

  answered-converted :
      (m : AnthropicMessage) (s : Option String) (bs : Option (List AnthropicBlock))
      → m.role ≢ "tool"
      → answered (converted text_of m s bs) ≡ (if str_eq m.role "user" then ids_in s bs else [])
  answered-converted m (some s) none h = ground (arith, eq_iff m.role "tool")
  answered-converted m (some s) (some bs) h = ground (arith, eq_iff m.role "tool")
  answered-converted m none none h = ground (arith, eq_iff m.role "tool")
  answered-converted m none (some bs) h =
      ground (arith, eq_iff m.role "tool", answered-user bs, answered-assistant bs)

  -- If no message of a conversation has the role of a tool, then the log has a tool message for
  -- each tool result that a user message returns, with its id, in order, and no other.
  pub answered-convert_all :
      (ms : List AnthropicMessage)
      → All (λ m. m.role ≢ "tool") ms
      → answered (convert_all text_of ms) ≡ returned ms
  unfolding convert_anthropic_message
  answered-convert_all [] h = refl
  answered-convert_all (m ∷ ms) (h, hs) =
      answered-append (convert_anthropic_message text_of m) (convert_all text_of ms)
      ∙ ap₂ (λ a b. a ++ b)
          (answered-converted m (m.content >>= as_string) (decode_blocks m.content) h)
          (answered-convert_all ms hs)
