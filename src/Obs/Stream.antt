-- ===== src/Obs/Stream.antt =====
-- proxy/internal/proxy/obs.go: server-sent events. `Write` collects bytes, each complete event is
-- handled, and `Finalize` flushes what is left. The JSON text is read by a `Codec`.
use lazy_vllm.Prelude.{ℕ, String, Option, none, some, List, [], ◌∷◌, ◌++◌, if◌then◌else◌, ◌==◌}
use lazy_vllm.Json.{
  Json, Map, map_of, put, as_map, entry, str, obj, of_maps, null_map, as_maps, field_string,
  inner_string,
}
use lazy_vllm.Json.Codec.{Codec}
use lazy_vllm.Text.{strip_prefix, nat_eq}
use lazy_vllm.Text.Chars.{Chars, of_chars}
use lazy_vllm.Obs.{Bytes}

-- "\n\n" and "data: ".
abbrev pub blank_line : Bytes
blank_line = 10 ∷ 10 ∷ []

abbrev pub data_prefix : Bytes
data_prefix = b'd' ∷ b'a' ∷ b't' ∷ b'a' ∷ b':' ∷ b' ' ∷ []

-- `bytes.SplitSeq(b, "\n")`.
abbrev pub add_to_first : ℕ → List Bytes → List Bytes
add_to_first c [] = (c ∷ []) ∷ []
add_to_first c (l ∷ ls) = (c ∷ l) ∷ ls

unfoldable pub split_lines : Bytes → List Bytes
split_lines [] = [] ∷ []
split_lines (c ∷ s) = let rest = split_lines s in if c == 10 then [] ∷ rest else add_to_first c rest

-- What stands on the first `data: ` line.
unfoldable pub payload : List Bytes → Option Bytes
unfolding strip_prefix
payload [] = none
payload (l ∷ ls) = elim (strip_prefix data_prefix l) [ none ↦ payload ls | some p ↦ some p ]

-- The fields of an Anthropic event that the capture reads.
pub record AnthEvent : Type 0 where
  pub kind : String
  pub block_type : String
  pub delta_type : String
  pub delta_text : String

infixl 5 ◌>>=◌
abbrev ◌>>=◌ {ℓ κ} : {A : Type ℓ} {B : Type κ} → Option A → (A → Option B) → Option B
none >>= k = none
some a >>= k = k a

abbrev pub anth_event_of : Map → Option AnthEvent
anth_event_of null_map =
    some (record { kind = ""; block_type = ""; delta_type = ""; delta_text = "" })
anth_event_of (map_of fs) = do
  kind ← field_string "type" fs
  block_type ← inner_string "content_block" "type" fs
  delta_type ← inner_string "delta" "type" fs
  delta_text ← inner_string "delta" "text" fs
  some (record {
    kind = kind;
    block_type = block_type;
    delta_type = delta_type;
    delta_text = delta_text;
  })

unfoldable pub anth_event : Json → Option AnthEvent
anth_event v = do m ← as_map v; anth_event_of m

-- `choices[i].delta.content` for every choice, or an error.
abbrev choice_content : Map → Option String
choice_content null_map = some ""
choice_content (map_of fs) = inner_string "delta" "content" fs

abbrev contents : List Map → Option (List String)
contents [] = some []
contents (m ∷ ms) = do s ← choice_content m; ss ← contents ms; some (s ∷ ss)

abbrev choices_of : Option Json → Option (List String)
choices_of none = some []
choices_of (some v) = do ms ← as_maps v; contents ms

unfoldable pub openai_contents : Json → Option (List String)
openai_contents v = do m ← as_map v; choices_of (entry "choices" m)

-- The mutators. (Where the `delta` is null, Go would assign to a nil map and panic. An event that
-- comes here has a delta with text on its first data line, so that takes a second data line.)
abbrev set_text_in : String → Map → Map → Option Json
set_text_in new (map_of ds) (map_of fs) =
    some (obj (put "delta" (obj (put "text" (str new) ds)) fs))
set_text_in new _ _ = none

unfoldable pub set_text : String → Map → Option Json
set_text new m = do d ← entry "delta" m; delta ← as_map d; set_text_in new delta m

abbrev set_content_in : String → Map → List Map → Map → Option Json
set_content_in new (map_of ds) (map_of c ∷ cs) (map_of fs) = some (
    obj
      (put "choices" (of_maps (map_of (put "delta" (obj (put "content" (str new) ds)) c) ∷ cs)) fs))
set_content_in new _ _ _ = none

abbrev first_delta : List Map → Option Json
first_delta [] = none
first_delta (c ∷ cs) = entry "delta" c

unfoldable pub set_content : String → Map → Option Json
set_content new m = do
  cv ← entry "choices" m
  choices ← as_maps cv
  d ← first_delta choices
  delta ← as_map d
  set_content_in new delta choices m

module _ (codec : Codec) where
  -- `rebuildSSEDataField`, over the lines of the event.
  unfoldable pub rebuild_line : (Map → Option Json) → Bytes → Bytes
  rebuild_line mutate line = elim (strip_prefix data_prefix line) [
    | none ↦ line ++ (10 ∷ [])
    | some p ↦ elim (codec.decode p >>= as_map >>= mutate) [
      | none ↦ line ++ (10 ∷ [])
      | some v ↦ data_prefix ++ (codec.encode v ++ (10 ∷ []))
    ]
  ]

  abbrev rebuild_lines : (Map → Option Json) → List Bytes → Bytes
  rebuild_lines mutate [] = []
  rebuild_lines mutate (l ∷ ls) = rebuild_line mutate l ++ rebuild_lines mutate ls

  unfoldable pub rebuild_sse_data_field : (Map → Option Json) → Bytes → Bytes
  rebuild_sse_data_field mutate raw = rebuild_lines mutate (split_lines raw)

  unfoldable pub rebuild_anthropic_text_delta : Bytes → Chars → Bytes
  rebuild_anthropic_text_delta raw new = rebuild_sse_data_field (set_text (of_chars new)) raw

  unfoldable pub rebuild_openai_delta : Bytes → Chars → Bytes
  rebuild_openai_delta raw new = rebuild_sse_data_field (set_content (of_chars new)) raw
