-- ===== src/Agent/History.antt =====
-- agent/internal/agent/history.go and the texts of llm.go: the stripping of thinking from messages,
-- the window of a conversation, and copies of the state.
pub mod Stripped
use mathlib.Core.List
use lazy_vllm.Prelude.{
  ℕ, ◌-◌, String, ◌<>◌, Bool, true, false, not, ◌||◌, Option, none, some, List, [], ◌∷◌, map, keep,
  length, drop, ltb, str_eq, if◌then◌else◌, ◌==◌, leb,
}
use lazy_vllm.Json.{
  ℤ, pos, negsuc, Json, null, str, obj, arr, Fields, get, elements, of_list, as_maps, Map, map_of,
  null_map, as_string, of_maps, asserted_string, entry,
}
use lazy_vllm.Agent.{
  Content, decoded, content_blocks, anthropic_blocks, raw_message, ChatMessage, ContentBlock,
  AnthropicContentBlock, PipelineCtx,
}

abbrev pub is_thinking : String → Bool
is_thinking t = str_eq t "thinking" || str_eq t "redacted_thinking"

abbrev pub type_or_empty : Option String → String
type_or_empty none = ""
type_or_empty (some t) = t

-- An item of a `[]any` stays unless it is a map of the type of thinking.
unfoldable pub is_kept_item : Json → Bool
is_kept_item (obj fs) = not (is_thinking (type_or_empty (asserted_string (get "type" fs))))
is_kept_item _ = true

abbrev pub is_kept_type : Option Json → Bool
is_kept_type none = true
is_kept_type (some v) = elim (as_string v) [ none ↦ true | some t ↦ not (is_thinking t) ]

unfoldable pub is_kept_map : Map → Bool
is_kept_map m = is_kept_type (entry "type" m)

-- The content of a message without its thinking.
unfoldable pub strip_content : Content → Content
strip_content (decoded (arr vs)) = decoded (arr (of_list (keep is_kept_item (elements vs))))
strip_content (decoded v) = decoded v
strip_content (content_blocks bs) = content_blocks (keep (λ b. not (is_thinking b.type)) bs)
strip_content (anthropic_blocks bs) = anthropic_blocks (keep (λ b. not (is_thinking b.type)) bs)
strip_content (raw_message v) = elim (as_maps v) [
  | none ↦ raw_message v
  | some ms ↦ raw_message (of_maps (keep is_kept_map ms))
]

-- `StripMessageThinking` and `StripAllThinking`.
unfoldable pub strip_message_thinking : ChatMessage → ChatMessage
strip_message_thinking m = record m { reasoning_content = ""; content = strip_content m.content }

unfoldable pub strip_all_thinking : List ChatMessage → List ChatMessage
strip_all_thinking ms = map strip_message_thinking ms

-- `applyWindow`.
unfoldable pub apply_window : List ChatMessage → ℤ → List ChatMessage
apply_window msgs (negsuc n) = msgs
apply_window msgs (pos n) =
    if n == 0 || leb (length msgs) n then msgs else drop (length msgs - n) msgs

-- `DeepCopy`, which leaves out the backend's URL.
unfoldable pub deep_copy : PipelineCtx → PipelineCtx
deep_copy p = record p { backend_url = "" }

abbrev pub item_text : Json → Option String
item_text (obj fs) = asserted_string (get "text" fs)
item_text _ = none

abbrev pub texts_of : List Json → List String
texts_of [] = []
texts_of (v ∷ vs) = let rest = texts_of vs in elim (item_text v) [ none ↦ rest | some t ↦ t ∷ rest ]

-- `strings.Join(parts, sep)`.
unfoldable pub join_with : String → List String → String
join_with sep [] = ""
join_with sep (p ∷ []) = p
join_with sep (p ∷ q ∷ ps) = p <> (sep <> join_with sep (q ∷ ps))

-- `joinNonEmpty`.
unfoldable pub join_non_empty : List String → String
join_non_empty ss = join_with " " (keep (λ s. not (str_eq s "")) ss)

-- `extractTextContent` of a value that was decoded, and of a content.
unfoldable pub extract_text_value : Json → String
extract_text_value (str s) = s
extract_text_value (arr vs) = join_non_empty (texts_of (elements vs))
extract_text_value _ = ""

unfoldable pub extract_text_content : Content → String
extract_text_content (decoded v) = extract_text_value v
extract_text_content _ = ""
