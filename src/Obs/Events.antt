-- ===== src/Obs/Events.antt =====
-- proxy/internal/proxy/obs.go: `Write`, `drainSSE`, the event handlers and `Finalize` of a stream.
pub mod Frame
pub mod Chunks
use lazy_vllm.Prelude.{
  ℕ, zero, suc, ◌+◌, String, Bool, true, false, not, ◌||◌, Option, none, some, List, [], ◌∷◌, ◌++◌,
  length, take, drop, str_eq, if◌then◌else◌,
}
use lazy_vllm.Json.Codec.{Codec}
use lazy_vllm.Text.{index, nat_eq}
use lazy_vllm.Text.Chars.{Chars, chars, trim_space}
use lazy_vllm.Obs.{
  Bytes, Capture, CaptureState, searching, suppressing, done, emit, handle_text_delta,
}
use lazy_vllm.Obs.Stream.{
  blank_line, split_lines, payload, AnthEvent, anth_event, openai_contents,
  rebuild_anthropic_text_delta, rebuild_openai_delta,
}

module _ (codec : Codec) where
  -- The delta of a thinking block, or of another kind than text, is forwarded.
  unfoldable pub handle_block_delta : AnthEvent → Bytes → Capture → Capture
  handle_block_delta evt raw c =
      if c.in_think || not (str_eq evt.delta_type "text_delta")
      then emit raw c
      else handle_text_delta (rebuild_anthropic_text_delta codec) (chars evt.delta_text) raw c

  unfoldable pub handle_anthropic_event : AnthEvent → Bytes → Capture → Capture
  unfolding handle_block_delta
  handle_anthropic_event evt raw c =
      if str_eq evt.kind "content_block_start"
      then emit raw (record c { in_think = str_eq evt.block_type "thinking" })
      else if str_eq evt.kind "content_block_stop"
      then emit raw (record c { in_think = false })
      else if str_eq evt.kind "content_block_delta"
      then handle_block_delta evt raw c
      else emit raw c

  -- The content of the first choice, if there is a choice and it is not empty.
  unfoldable pub handle_openai_contents : List String → Bytes → Capture → Capture
  handle_openai_contents [] raw c = emit raw c
  handle_openai_contents (text ∷ _) raw c =
      if str_eq text ""
      then emit raw c
      else handle_text_delta (rebuild_openai_delta codec) (chars text) raw c

  unfoldable pub handle_payload : Bytes → Bytes → Capture → Capture
  handle_payload data_text raw c =
      if str_eq c.format "anthropic"
      then (elim (codec.decode data_text) [
        | none ↦ emit raw c
        | some v ↦ elim (anth_event v) [
          | none ↦ emit raw c
          | some evt ↦ handle_anthropic_event evt raw c
        ]
      ])
      else if str_eq c.format "openai"
      then (elim (codec.decode data_text) [
        | none ↦ emit raw c
        | some v ↦ elim (openai_contents v) [
          | none ↦ emit raw c
          | some ts ↦ handle_openai_contents ts raw c
        ]
      ])
      else emit raw c

  unfoldable pub handle_sse_event : Bytes → Capture → Capture
  handle_sse_event event c = elim (payload (split_lines event)) [
    | none ↦ emit event c
    | some p ↦ handle_payload p event c
  ]

  -- One round of `drainSSE` at the position of the blank line, or its end.
  -- An event and its blank line take two bytes at least, so rounds end before the bytes do.
  unfoldable pub drain_sse : ℕ → Capture → Capture
  drain_sse zero c = c
  drain_sse (suc fuel) c = elim (index blank_line c.sse_buf) [
    | none ↦ c
    | some idx ↦ drain_sse fuel (
        handle_sse_event (take (idx + 2) c.sse_buf)
          (record c { sse_buf = drop (idx + 2) c.sse_buf }))
  ]

  -- `Write`.
  unfoldable pub write : Bytes → Capture → Capture
  write p c =
      if c.is_streaming
      then drain_sse (suc (length (c.sse_buf ++ p)))
          (record c { full = c.full ++ p; sse_buf = c.sse_buf ++ p })
      else record c { full = c.full ++ p; body_buf = c.body_buf ++ p }

abbrev flush_held : CaptureState → Option Bytes → Capture → Capture
flush_held searching (some e) c = record (emit e c) { held_event = none }
flush_held _ _ c = c

abbrev flush_rest : Bytes → Capture → Capture
flush_rest [] c = c
flush_rest (b ∷ bs) c = emit (b ∷ bs) c

-- `Finalize` of a stream: the observation, and the state with all that is written.
unfoldable pub finalize_streaming : Capture → Chars × Capture
finalize_streaming c =
    (trim_space c.obs_buf, flush_held c.obs_state c.held_event (flush_rest c.sse_buf c))
