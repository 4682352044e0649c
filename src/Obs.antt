-- ===== src/Obs.antt =====
-- proxy/internal/proxy/obs.go, the streaming side of `obsCapture`: the state, and the handling of
-- one text delta. What the methods write to `mc.w` is the list `out` of the slices written.
pub mod Scan
pub mod View
pub mod Split
pub mod Stream
pub mod Events
pub mod Whole
pub mod Inject
use lazy_vllm.Prelude.{
  ℕ, zero, suc, ◌+◌, String, Bool, true, false, ◌&&◌, Option, none, some, List, [], ◌∷◌, ◌++◌,
  length, take, drop, leb, if◌then◌else◌,
}
use lazy_vllm.Text.{has_suffix, index, cut}
use lazy_vllm.Text.Chars.{Chars, chars, char_eq}

abbrev pub Bytes : Type 0
Bytes = List ℕ

abbrev pub obs_open_tag : Chars
unfolding chars
obs_open_tag = chars "<obs>"

abbrev pub obs_close_tag : Chars
unfolding chars
obs_close_tag = chars "</obs>"

pub data CaptureState : Type 0 where
  searching suppressing done : CaptureState

-- `held_event` is nil or an event; the buffers are their contents.
pub record Capture : Type 0 where
  pub out : List Bytes
  pub is_streaming : Bool
  pub format : String
  pub sse_buf : Bytes
  pub in_think : Bool
  pub obs_state : CaptureState
  pub held_event : Option Bytes
  pub held_text : Chars
  pub obs_buf : Chars
  pub body_buf : Bytes
  pub full : Bytes

-- `newObsCapture`.
abbrev pub new_obs_capture : Bool → String → Capture
new_obs_capture is_streaming format = record {
  out = [];
  is_streaming = is_streaming;
  format = format;
  sse_buf = [];
  in_think = false;
  obs_state = searching;
  held_event = none;
  held_text = [];
  obs_buf = [];
  body_buf = [];
  full = [];
}

-- `mc.w.Write(p)`.
abbrev pub emit : Bytes → Capture → Capture
emit p c = record c { out = c.out ++ (p ∷ []) }

-- The loop of `hasSuspiciousTail` from `i` on, for `n` rounds at most.
tail_loop : ℕ → ℕ → Chars → Bool
tail_loop zero i text = false
tail_loop (suc n) i text =
    let next = tail_loop n (suc i) text in
    if leb i (length obs_open_tag) && leb i (length text)
    then (if has_suffix (take i obs_open_tag) text then true else next)
    else false

-- The tag has five characters, so the loop makes at most five rounds.
unfoldable pub has_suspicious_tail : Chars → Bool
unfolding tail_loop has_suffix
has_suspicious_tail text = tail_loop (suc (length obs_open_tag)) 1 text

-- `if text != "" { mc.w.Write(event) }`.
abbrev pub emit_unless_empty : Chars → Bytes → Capture → Capture
emit_unless_empty [] p c = c
emit_unless_empty (_ ∷ _) p c = emit p c

-- Write the held event, if any, and hold nothing.
unfoldable pub release_held : Option Bytes → Capture → Capture
release_held none c = c
release_held (some e) c = record (emit e c) { held_event = none; held_text = [] }

unfoldable pub hold_or_emit : Bool → Chars → Bytes → Capture → Capture
hold_or_emit true text raw c = record c { held_event = some raw; held_text = text }
hold_or_emit false text raw c = emit raw c

-- No tag found: release the held event, and hold the current one or write it.
unfoldable pub release : Chars → Bytes → Capture → Capture
release text raw c = hold_or_emit (has_suspicious_tail text) text raw (release_held c.held_event c)

-- `if before, _, ok := strings.Cut(...); ok { ... }` on the collected text.
unfoldable pub settle : Option (Chars × Chars) → Capture → Capture
settle none c = c
settle (some (before, _)) c = record c { obs_buf = before; obs_state = done }

-- The text of the held event, if any, and of this one.
abbrev pub combine_with : Option Bytes → Chars → Chars → Chars
combine_with none held text = text
combine_with (some _) held text = held ++ text

abbrev pub combine : Chars → Capture → Chars
combine text c = combine_with c.held_event c.held_text text

module _ (rebuild : Bytes → Chars → Bytes) where
  -- Tag found at `idx` of the combined text: write what stands before it. The tag begins in the
  -- held event or right behind it, or else in the current event.
  unfoldable pub emit_before_from : Option Bytes → ℕ → Chars → Bytes → Capture → Capture
  emit_before_from none idx before raw c = emit_unless_empty before (rebuild raw before) c
  emit_before_from (some e) idx before raw c =
      let current_before = drop (length c.held_text) before in
      let c' =
        if leb idx (length c.held_text)
        then emit_unless_empty before (rebuild e before) c
        else emit_unless_empty current_before (rebuild raw current_before) (emit e c) in
      record c' { held_event = none; held_text = [] }

  unfoldable pub emit_before : ℕ → Chars → Bytes → Capture → Capture
  unfolding emit_before_from
  emit_before idx combined raw c = emit_before_from c.held_event idx (take idx combined) raw c

  -- What follows the tag is the observation, up to the closing tag if that has come.
  unfoldable pub start_suppressing : Chars → Capture → Capture
  start_suppressing after c =
      settle (cut obs_close_tag after)
        (record c { obs_state = suppressing; obs_buf = c.obs_buf ++ after })

  -- The two outcomes of the search in the combined text.
  unfoldable pub search_at : Option ℕ → Chars → Bytes → Capture → Capture
  search_at none text raw c = release text raw c
  search_at (some idx) text raw c =
      let combined = combine text c in
      start_suppressing (drop (idx + length obs_open_tag) combined) (emit_before idx combined raw c)

  unfoldable pub search_delta : Chars → Bytes → Capture → Capture
  unfolding search_at
  search_delta text raw c = search_at (index obs_open_tag (combine text c)) text raw c

  unfoldable pub suppress_delta : Chars → Capture → Capture
  suppress_delta text c =
      let all = c.obs_buf ++ text in settle (cut obs_close_tag all) (record c { obs_buf = all })

  abbrev pub dispatch_delta : CaptureState → Chars → Bytes → Capture → Capture
  dispatch_delta done text raw c = c
  dispatch_delta suppressing text raw c = suppress_delta text c
  dispatch_delta searching text raw c = search_delta text raw c

  -- `handleTextDelta`.
  unfoldable pub handle_text_delta : Chars → Bytes → Capture → Capture
  handle_text_delta text raw c = dispatch_delta c.obs_state text raw c
