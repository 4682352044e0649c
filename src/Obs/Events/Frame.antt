-- ===== src/Obs/Events/Frame.antt =====
-- The event handlers leave the byte buffers alone, and do not look at them.
use lazy_vllm.Prelude.{
  ℕ, ◌+◌, ◌≡◌, refl, ap, ◌∙◌, String, Bool, true, false, Option, none, some, List, [], ◌∷◌, length,
  take, drop, arith,
}
use lazy_vllm.Json.Codec.{Codec}
use lazy_vllm.Text.Chars.{Chars, chars, char_eq}
use lazy_vllm.Obs.{
  Bytes, obs_open_tag, CaptureState, searching, suppressing, done, Capture, emit_unless_empty,
  has_suspicious_tail, release_held, hold_or_emit, release, emit_before_from, emit_before, settle,
  combine, start_suppressing, search_at, search_delta, suppress_delta, dispatch_delta,
  handle_text_delta,
}
use lazy_vllm.Obs.Stream.{AnthEvent, rebuild_anthropic_text_delta, rebuild_openai_delta}
use lazy_vllm.Obs.Events.{
  handle_block_delta, handle_anthropic_event, handle_openai_contents, handle_payload,
  handle_sse_event,
}

-- The same state with other buffers.
abbrev pub rebuf : Bool → Bytes → Bytes → Capture → Capture
rebuf s b f c = record c { is_streaming = s; sse_buf = b; full = f }

module _ (s : Bool) (b f : Bytes) where
  emit_unless_empty-rebuf :
      (t : Chars) (p : Bytes) (c : Capture)
      → emit_unless_empty t p (rebuf s b f c) ≡ rebuf s b f (emit_unless_empty t p c)
  emit_unless_empty-rebuf [] p c = refl
  emit_unless_empty-rebuf (x ∷ t) p c = refl

  release_held-rebuf :
      (held : Option Bytes) (c : Capture)
      → release_held held (rebuf s b f c) ≡ rebuf s b f (release_held held c)
  unfolding release_held
  release_held-rebuf none c = refl
  release_held-rebuf (some e) c = refl

  hold_or_emit-rebuf :
      (x : Bool) (t : Chars) (raw : Bytes) (c : Capture)
      → hold_or_emit x t raw (rebuf s b f c) ≡ rebuf s b f (hold_or_emit x t raw c)
  unfolding hold_or_emit
  hold_or_emit-rebuf true t raw c = refl
  hold_or_emit-rebuf false t raw c = refl

  settle-rebuf :
      (found : Option (Chars × Chars)) (c : Capture)
      → settle found (rebuf s b f c) ≡ rebuf s b f (settle found c)
  unfolding settle
  settle-rebuf none c = refl
  settle-rebuf (some _) c = refl

  module _ (rebuild : Bytes → Chars → Bytes) where
    emit_before_from-rebuf :
        (held : Option Bytes) (idx : ℕ) (before : Chars) (raw : Bytes) (c : Capture)
        → emit_before_from rebuild held idx before raw (rebuf s b f c)
          ≡ rebuf s b f (emit_before_from rebuild held idx before raw c)
    unfolding emit_before_from
    emit_before_from-rebuf none idx [] raw c = refl
    emit_before_from-rebuf none idx (x ∷ before) raw c = refl
    emit_before_from-rebuf (some e) idx before raw c =
        ground (arith, emit_unless_empty-rebuf before (rebuild e before) c)

    search_at-rebuf :
        (at : Option ℕ) (t : Chars) (raw : Bytes) (c : Capture)
        → search_at rebuild at t raw (rebuf s b f c) ≡ rebuf s b f (search_at rebuild at t raw c)
    unfolding search_at release emit_before start_suppressing
    search_at-rebuf none t raw c =
        ap (hold_or_emit (has_suspicious_tail t) t raw) (release_held-rebuf c.held_event c)
        ∙ hold_or_emit-rebuf (has_suspicious_tail t) t raw (release_held c.held_event c)
    search_at-rebuf (some idx) t raw c =
        ap (start_suppressing rebuild (drop (idx + length obs_open_tag) (combine t c)))
          (emit_before_from-rebuf c.held_event idx (take idx (combine t c)) raw c)
        ∙ settle-rebuf _ _

    dispatch_delta-rebuf :
        (st : CaptureState) (t : Chars) (raw : Bytes) (c : Capture)
        → dispatch_delta rebuild st t raw (rebuf s b f c)
          ≡ rebuf s b f (dispatch_delta rebuild st t raw c)
    unfolding search_delta suppress_delta
    dispatch_delta-rebuf done t raw c = refl
    dispatch_delta-rebuf suppressing t raw c = settle-rebuf _ _
    dispatch_delta-rebuf searching t raw c = search_at-rebuf _ t raw c

    handle_text_delta-rebuf :
        (t : Chars) (raw : Bytes) (c : Capture)
        → handle_text_delta rebuild t raw (rebuf s b f c)
          ≡ rebuf s b f (handle_text_delta rebuild t raw c)
    unfolding handle_text_delta
    handle_text_delta-rebuf t raw c = dispatch_delta-rebuf c.obs_state t raw c

  module _ (codec : Codec) where
    handle_block_delta-rebuf :
        (evt : AnthEvent) (raw : Bytes) (c : Capture)
        → handle_block_delta codec evt raw (rebuf s b f c)
          ≡ rebuf s b f (handle_block_delta codec evt raw c)
    unfolding handle_block_delta
    handle_block_delta-rebuf evt raw c = ground (
      arith,
      handle_text_delta-rebuf (rebuild_anthropic_text_delta codec) (chars evt.delta_text) raw c,
    )

    handle_anthropic_event-rebuf :
        (evt : AnthEvent) (raw : Bytes) (c : Capture)
        → handle_anthropic_event codec evt raw (rebuf s b f c)
          ≡ rebuf s b f (handle_anthropic_event codec evt raw c)
    unfolding handle_anthropic_event
    handle_anthropic_event-rebuf evt raw c = ground (arith, handle_block_delta-rebuf evt raw c)

    handle_openai_contents-rebuf :
        (ts : List String) (raw : Bytes) (c : Capture)
        → handle_openai_contents codec ts raw (rebuf s b f c)
          ≡ rebuf s b f (handle_openai_contents codec ts raw c)
    unfolding handle_openai_contents
    handle_openai_contents-rebuf [] raw c = refl
    handle_openai_contents-rebuf (t ∷ ts) raw c =
        ground (arith, handle_text_delta-rebuf (rebuild_openai_delta codec) (chars t) raw c)

    handle_payload-rebuf :
        (p raw : Bytes) (c : Capture)
        → handle_payload codec p raw (rebuf s b f c) ≡ rebuf s b f (handle_payload codec p raw c)
    unfolding handle_payload
    handle_payload-rebuf p raw c =
        grind (arith, handle_anthropic_event-rebuf, handle_openai_contents-rebuf)

    -- `handleSSEEvent` neither reads nor changes the buffers that `Write` fills.
    pub handle_sse_event-rebuf :
        (e : Bytes) (c : Capture)
        → handle_sse_event codec e (rebuf s b f c) ≡ rebuf s b f (handle_sse_event codec e c)
    unfolding handle_sse_event
    handle_sse_event-rebuf e c = grind (arith, handle_payload-rebuf)
