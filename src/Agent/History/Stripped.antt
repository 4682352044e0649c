-- ===== src/Agent/History/Stripped.antt =====
-- agent/internal/agent/history.go: what `StripMessageThinking` leaves.
use lazy_vllm.Prelude.{◌≡◌, Without, Option, none, some, List, [], ◌∷◌, keep}
use lazy_vllm.Json.{Json, arr, elements, of_list, as_maps, of_maps, Map, entry}
use lazy_vllm.Agent.{
  Content, decoded, content_blocks, anthropic_blocks, raw_message, ChatMessage, ContentBlock,
  AnthropicContentBlock,
}
use lazy_vllm.Json.Thinking.{IsThoughtType, IsThoughtEntry, IsThought}
use lazy_vllm.Agent.History.{is_kept_map}

abbrev stripped_raw : Json → Option (List Map) → Content
stripped_raw v none = raw_message v
stripped_raw v (some ms) = raw_message (of_maps (keep is_kept_map ms))

-- What a content is without the blocks that hold thinking.
abbrev IsThoughtMap : Map → Type 0
IsThoughtMap m = IsThoughtEntry (entry "type" m)

abbrev RawWithout : Json → Option (List Map) → Content → Type 0
RawWithout v none c = c ≡ raw_message v
RawWithout v (some ms) c =
    (ns : List Map) × (c ≡ raw_message (of_maps ns)) × Without IsThoughtMap ms ns

abbrev pub ContentWithout : Content → Content → Type 0
ContentWithout (decoded (arr vs)) c =
    (ws : List Json) × (c ≡ decoded (arr (of_list ws))) × Without IsThought (elements vs) ws
ContentWithout (content_blocks bs) c =
    (cs : List ContentBlock) × (c ≡ content_blocks cs) × Without (λ b. IsThoughtType b.type) bs cs
ContentWithout (anthropic_blocks bs) c =
    (cs : List AnthropicContentBlock) × (c ≡ anthropic_blocks cs)
    × Without (λ b. IsThoughtType b.type) bs cs
ContentWithout (raw_message v) c = RawWithout v (as_maps v) c
ContentWithout (decoded v) c = c ≡ decoded v

pub data MessagesWithout : List ChatMessage → List ChatMessage → Type 0 where
  no_messages : MessagesWithout [] []
  message_without :
      {m : ChatMessage} {ms ns : List ChatMessage} (c : Content)
      → ContentWithout m.content c
      → MessagesWithout ms ns
      → MessagesWithout (m ∷ ms) ((record m { reasoning_content = ""; content = c }) ∷ ns)
