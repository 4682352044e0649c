-- ===== src/Agent/Anthropic/RoundTrip.antt =====
-- agent/internal/agent/anthropic.go: `AnthropicToChatMessages` and `chatMessagesToAnthropic` one
-- after the other.
use lazy_vllm.Prelude.{
  ◌≡◌, refl, ap, ◌∙◌, String, Bool, true, false, List, [], ◌∷◌, ◌++◌, map, str_eq, eq_iff,
  Bool-cases, inl, inr, arith,
}
use lazy_vllm.Json.{str}
use lazy_vllm.Agent.{decoded, ChatMessage, AnthropicContentBlock}
use lazy_vllm.Agent.History.{extract_text_value, extract_text_content, join_with}
use lazy_vllm.Agent.Anthropic.{
  JsonText, convert_messages, anthropic_to_chat_messages, convert_anthropic_user_msg, tool_message,
  decode_anthropic_blocks, extract_anthropic_text,
}
use lazy_vllm.Agent.Anthropic.Wire.{
  flush, system_parts, anthropic_messages, chat_messages_to_anthropic,
  assistant_to_anthropic_blocks, internal_content_to_anthropic,
}
use lazy_vllm.Agent.Anthropic.Turns.{
  Turn, asked, shown, returned, answered, wire, IsConversation, convert-shown, convert-returned,
  convert-answered, messages-results, use-call, blocks-remaining, result_block, Outcome,
}

tools-system_parts :
    (bs : List Outcome) (ms : List ChatMessage)
    → system_parts (map tool_message (map result_block bs) ++ ms) ≡ system_parts ms
unfolding system_parts
tools-system_parts [] ms = refl
tools-system_parts (b ∷ bs) ms = tools-system_parts bs ms

module _ (j : JsonText) where
  turns-system_parts :
      (before : Bool) (ts : List Turn)
      → IsConversation j before ts
      → system_parts (convert_messages j (map wire ts)) ≡ []
  unfolding system_parts convert_messages convert_anthropic_user_msg decode_anthropic_blocks
  turns-system_parts before [] h = refl
  turns-system_parts before (asked s ∷ ts) h = turns-system_parts false ts (h.1)
  turns-system_parts before (shown b bs ∷ ts) h =
      ap system_parts (convert-shown j b bs (map wire ts) (h.0)) ∙ turns-system_parts false ts (h.1)
  turns-system_parts before (returned o os ∷ ts) h =
      ap system_parts (convert-returned j o os (map wire ts))
      ∙ tools-system_parts (o ∷ os) (convert_messages j (map wire ts))
      ∙ turns-system_parts true ts (h.1)
  turns-system_parts before (answered bs us ∷ ts) h =
      ap system_parts (convert-answered j bs us (map wire ts) (h.0.0))
      ∙ turns-system_parts false ts (h.1)

  abbrev is_waiting : List AnthropicContentBlock → Bool
  is_waiting [] = false
  is_waiting (b ∷ bs) = true

  -- The turns come back behind the results that wait, which no result joins.
  messages-turns :
      (waiting : List AnthropicContentBlock) (ts : List Turn)
      → IsConversation j (is_waiting waiting) ts
      → anthropic_messages j waiting (convert_messages j (map wire ts))
        ≡ flush waiting (map wire ts)
  unfolding convert_messages convert_anthropic_user_msg decode_anthropic_blocks anthropic_messages
      assistant_to_anthropic_blocks internal_content_to_anthropic extract_anthropic_text
      extract_text_value
  messages-turns waiting [] h = refl
  messages-turns waiting (asked s ∷ ts) h = rw (messages-turns [] ts (h.1))
  messages-turns waiting (shown b bs ∷ ts) h =
      rw (convert-shown j b bs (map wire ts) (h.0), messages-turns [] ts (h.1))
  messages-turns [] (returned o os ∷ ts) h =
      ap (anthropic_messages j []) (convert-returned j o os (map wire ts))
      ∙ messages-results j [] (o ∷ os) (convert_messages j (map wire ts))
      ∙ messages-turns (map result_block (o ∷ os)) ts (h.1)
  messages-turns (b ∷ bs) (returned o os ∷ ts) h = absurd (ground arith)
  messages-turns waiting (answered bs us ∷ ts) h =
      ap (anthropic_messages j waiting) (convert-answered j bs us (map wire ts) (h.0.0))
      ∙ rw (messages-turns [] ts (h.1), blocks-remaining bs, use-call j us (h.0.1))

  -- A conversation of the Anthropic API comes back as it was, with its system prompt, after it was
  -- turned into internal messages and back, if each turn is a text, blocks without tool results,
  -- tool results, or an answer whose tool calls come last and have inputs that are read back from
  -- their texts, and no two turns of tool results are next to each other.
  pub chat_messages-of_anthropic :
      (s : String) (ts : List Turn)
      → IsConversation j false ts
      → chat_messages_to_anthropic j (anthropic_to_chat_messages j (decoded (str s)) (map wire ts))
        ≡ (s, map wire ts)
  unfolding chat_messages_to_anthropic anthropic_to_chat_messages anthropic_messages system_parts
      join_with extract_anthropic_text extract_text_value extract_text_content
  chat_messages-of_anthropic s ts h = elim (Bool-cases (str_eq s "")) [
    | inl e ↦ rw (e, turns-system_parts false ts h, messages-turns [] ts h, (eq_iff s "").0 e)
    | inr n ↦ rw (n, turns-system_parts false ts h, messages-turns [] ts h)
  ]
