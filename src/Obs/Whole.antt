-- ===== src/Obs/Whole.antt =====
-- proxy/internal/proxy/obs.go: the observation of a response that is not streamed.
pub mod Agreement
use lazy_vllm.Prelude.{
  ℕ, ◌+◌, String, Bool, true, false, ◌||◌, Option, none, some, List, [], ◌∷◌, ◌==◌, length, take,
  drop, str_eq, if◌then◌else◌,
}
use Prim.Native.Char.{Char, code}
use lazy_vllm.Json.{
  Json, null, str, arr, obj, Fields, Map, null_map, map_of, get, put, as_map, as_array, as_maps,
  entry, elements, of_list, of_maps, field_string, inner_string,
}
use lazy_vllm.Json.Codec.{Codec}
use lazy_vllm.Text.{index, cut, trim_right}
use lazy_vllm.Text.Chars.{Chars, chars, of_chars, char_eq, trim_space}
use lazy_vllm.Obs.{Bytes, Capture, obs_open_tag, obs_close_tag, emit}

infixl 5 ◌>>=◌
abbrev ◌>>=◌ {ℓ κ} : {A : Type ℓ} {B : Type κ} → Option A → (A → Option B) → Option B
none >>= k = none
some a >>= k = k a

abbrev up_to_close : Option (Chars × Chars) → Chars → Chars
up_to_close none after = after
up_to_close (some (before, _)) after = before

-- The observation in what follows the opening tag.
unfoldable pub observation : Chars → Chars
observation after = up_to_close (cut obs_close_tag after) after

-- The observation of a text with the opening tag at `at`, and what stands before the tag.
abbrev pub split_at : Option ℕ → Chars → Option (Chars × Chars)
split_at none text = none
split_at (some idx) text = some (observation (drop (idx + length obs_open_tag) text), take idx text)

unfoldable pub split_obs : Chars → Option (Chars × Chars)
split_obs text = split_at (index obs_open_tag text) text

-- `strings.TrimRight(s, "\n ")`.
abbrev is_trailing : Char → Bool
is_trailing c = code c == 10 || code c == b' '

unfoldable pub trimmed : Chars → Json
trimmed before = str (of_chars (trim_right is_trailing before))

abbrev stripped_text : Fields → Chars × Chars → Chars × Json
stripped_text fs (mem, before) = (mem, obj (put "text" (trimmed before) fs))

-- One block of an Anthropic response: `none` if it is no text block with a tag.
unfoldable pub strip_block : Json → Option (Chars × Json)
strip_block (obj fs) = do
  kind ← field_string "type" fs
  text ← field_string "text" fs
  found ← if str_eq kind "text" then split_obs (chars text) else none
  some (stripped_text fs found)
strip_block _ = none

abbrev behind : Json → Chars × List Json → Chars × List Json
behind v (mem, vs) = (mem, v ∷ vs)

-- The loop of `stripObsAnthropicJSON`: the first such block.
unfoldable pub strip_blocks : List Json → Option (Chars × List Json)
strip_blocks [] = none
strip_blocks (v ∷ vs) =
    let later = strip_blocks vs in
    elim (strip_block v) [
      | some (mem, w) ↦ some (mem, w ∷ vs)
      | none ↦ elim later [ none ↦ none | some found ↦ some (behind v found) ]
    ]

abbrev with_blocks : Fields → Chars × List Json → Chars × Json
with_blocks fs (mem, vs) = (mem, obj (put "content" (arr (of_list vs)) fs))

-- `stripObsAnthropicJSON`: `none` where its last result is false.
unfoldable pub strip_obs_anthropic_json : Json → Option (Chars × Json)
strip_obs_anthropic_json (obj fs) = do
  content ← get "content" fs
  vs ← as_array content
  found ← strip_blocks vs
  some (with_blocks fs found)
strip_obs_anthropic_json _ = none

-- `choices[i].message.content` for every choice, or an error.
abbrev message_content : Map → Option String
message_content null_map = some ""
message_content (map_of fs) = inner_string "message" "content" fs

abbrev message_contents : List Map → Option (List String)
message_contents [] = some []
message_contents (m ∷ ms) = do s ← message_content m; ss ← message_contents ms; some (s ∷ ss)

abbrev first_of : List String → Option String
first_of [] = none
first_of (s ∷ _) = some s

-- A first choice with content is a map, and so is its message.
abbrev with_message : Chars → Fields → List Map → Option Json
with_message before fs (map_of c ∷ cs) = do
  v ← get "message" c
  message ← as_map v
  (case_message message)
  where
    case_message : Map → Option Json
    case_message null_map = none
    case_message (map_of ms) = some (
        obj (
          put "choices"
            (of_maps (map_of (put "message" (obj (put "content" (trimmed before) ms)) c) ∷ cs)) fs))
with_message before fs _ = none

-- `stripObsOpenAIJSON`.
unfoldable pub strip_obs_openai_json : Json → Option (Chars × Json)
strip_obs_openai_json (obj fs) = do
  raw ← get "choices" fs
  choices ← as_maps raw
  ss ← message_contents choices
  content ← first_of ss
  found ← split_obs (chars content)
  v ← with_message (found.1) fs choices
  some (found.0, v)
strip_obs_openai_json _ = none

module _ (codec : Codec) where
  abbrev strip_obs : String → Bytes → Option (Chars × Json)
  strip_obs format body =
      if str_eq format "anthropic"
      then codec.decode body >>= strip_obs_anthropic_json
      else if str_eq format "openai"
      then codec.decode body >>= strip_obs_openai_json
      else none

  -- `finalizeNonStreaming`.
  unfoldable pub finalize_non_streaming : Capture → Chars × Capture
  finalize_non_streaming c =
      if length c.body_buf == 0 then ([], c) else (elim (strip_obs c.format c.body_buf) [
        | some (mem, v) ↦ (trim_space mem, emit (codec.encode v) c)
        | none ↦ ([], emit c.body_buf c)
      ])
