-- ===== src/Obs/Whole/Agreement.antt =====
-- The observation of a response that comes in deltas is the one of the same response in one piece.
use mathlib.Core.List.{append-nil, append_assoc}
use lazy_vllm.Prelude.{
  ℕ, ◌+◌, ◌≡◌, refl, sym, ap, ◌∙◌, String, true, none, some, List, [], ◌∷◌, ◌++◌, inl, inr, length,
  take, drop, take-append_of_le, drop-append_of_le, Option-cases, arith,
}
use lazy_vllm.Text.{index, cut}
use lazy_vllm.Text.Laws.{index-append, index_found_le}
use lazy_vllm.Text.Chars.{Chars, char_eq}
use lazy_vllm.Obs.{
  Bytes, Capture, obs_open_tag, obs_close_tag, suppressing, done, new_obs_capture, settle,
  suppress_delta, start_suppressing, search_at, search_delta, emit_before, emit_before_from,
  handle_text_delta, emit_unless_empty,
}
use lazy_vllm.Obs.Scan.{feed, texts}
use lazy_vllm.Obs.Whole.{observation, split_obs, split_at}

observation_open : (after : Chars) → cut obs_close_tag after ≡ none → observation after ≡ after
unfolding observation
observation_open after h = ground arith

observation_closed :
    (after x b a : Chars) → cut obs_close_tag after ≡ some (b, a) → observation (after ++ x) ≡ b
unfolding observation cut
observation_closed after x b a h = elim (Option-cases (index obs_close_tag after)) [
  | inl e ↦ absurd (ground arith)
  | inr (i, e) ↦ ground (
    arith,
    index-append obs_close_tag after x i e,
    index_found_le obs_close_tag after i e,
    take-append_of_le i after x,
  )
]

obs_buf-emit_unless_empty :
    (t : Chars) (p : Bytes) (c : Capture) → (emit_unless_empty t p c).obs_buf ≡ c.obs_buf
obs_buf-emit_unless_empty [] p c = refl
obs_buf-emit_unless_empty (x ∷ t) p c = refl

split_found :
    (text : Chars) (idx : ℕ)
    → index obs_open_tag text ≡ some idx
    → split_obs text ≡ some (observation (drop (idx + length obs_open_tag) text), take idx text)
unfolding split_obs
split_found text idx h = ap (λ at. split_at at text) h

-- A text that goes on behind its opening tag.
split_found-append :
    (text more : Chars) (idx : ℕ)
    → index obs_open_tag text ≡ some idx
    → split_obs (text ++ more)
      ≡ some (observation (drop (idx + length obs_open_tag) text ++ more), take idx text)
split_found-append text more idx h =
    let le = index_found_le obs_open_tag text idx h in
    split_found (text ++ more) idx (index-append obs_open_tag text more idx h)
    ∙ rw
        (
          drop-append_of_le (idx + length obs_open_tag) text more le,
          take-append_of_le idx text more (omega (arith, le)),
        )
        refl

module _ (rebuild : Bytes → Chars → Bytes) where
  feed_done : (ds : List (Chars × Bytes)) (c : Capture) → c.obs_state ≡ done → feed rebuild ds c ≡ c
  unfolding handle_text_delta
  feed_done [] c h = refl
  feed_done ((text, raw) ∷ ds) c h = ground (arith, feed_done ds c h)

  suppressed :
      (text : Chars) (raw : Bytes) (c : Capture)
      → c.obs_state ≡ suppressing
      → handle_text_delta rebuild text raw c
        ≡ settle (cut obs_close_tag (c.obs_buf ++ text)) (record c { obs_buf = c.obs_buf ++ text })
  unfolding handle_text_delta suppress_delta
  suppressed text raw c h = ground arith

  feed_closed :
      (ds : List (Chars × Bytes)) (all b a : Chars) (c : Capture)
      → cut obs_close_tag all ≡ some (b, a)
      → (feed rebuild ds (settle (cut obs_close_tag all) c)).obs_buf ≡ observation (all ++ texts ds)
  unfolding settle
  feed_closed ds all b a c e =
      ap (λ f. (feed rebuild ds (settle f c)).obs_buf) e
      ∙ ap (λ d. d.obs_buf) (feed_done ds (record c { obs_buf = b; obs_state = done }) refl)
      ∙ sym (observation_closed all (texts ds) b a e)

  -- From an observation that is open, the deltas collect the one of the whole rest.
  feed_settled :
      (ds : List (Chars × Bytes)) (all : Chars) (c : Capture)
      → c.obs_state ≡ suppressing
      → c.obs_buf ≡ all
      → (feed rebuild ds (settle (cut obs_close_tag all) c)).obs_buf ≡ observation (all ++ texts ds)
  unfolding settle
  feed_settled [] all c st same = elim (Option-cases (cut obs_close_tag all)) [
    | inr ((b, a), e) ↦ feed_closed [] all b a c e
    | inl e ↦
        ap (λ f. (settle f c).obs_buf) e
        ∙ same
        ∙ sym (ap observation (append-nil all) ∙ observation_open all e)
  ]
  feed_settled ((text, raw) ∷ ds) all c st same = elim (Option-cases (cut obs_close_tag all)) [
    | inr ((b, a), e) ↦ feed_closed ((text, raw) ∷ ds) all b a c e
    | inl e ↦
        ap (λ f. (feed rebuild ds (handle_text_delta rebuild text raw (settle f c))).obs_buf) e
        ∙ ap (λ d. (feed rebuild ds d).obs_buf) (suppressed text raw c st)
        ∙ feed_settled ds (c.obs_buf ++ text) (record c { obs_buf = c.obs_buf ++ text }) st refl
        ∙ ap (λ r. observation ((r ++ text) ++ texts ds)) same
        ∙ ap observation (append_assoc all text (texts ds))
  ]

  started :
      (text : Chars) (raw : Bytes) (format : String) (idx : ℕ)
      → index obs_open_tag text ≡ some idx
      → let after = drop (idx + length obs_open_tag) text in
        (c : Capture) × (handle_text_delta rebuild text raw (new_obs_capture true format)
          ≡ settle (cut obs_close_tag after) c)
        × (c.obs_state ≡ suppressing)
        × (c.obs_buf ≡ after)
  unfolding handle_text_delta search_delta search_at start_suppressing emit_before emit_before_from
  started text raw format idx h =
      let c = emit_before_from rebuild none idx (take idx text) raw (new_obs_capture true format) in
      (
        record c {
          obs_state = suppressing;
          obs_buf = c.obs_buf ++ drop (idx + length obs_open_tag) text;
        },
        rw h refl,
        refl,
        ap (λ r. r ++ drop (idx + length obs_open_tag) text)
            (obs_buf-emit_unless_empty (take idx text) (rebuild raw (take idx text))
              (new_obs_capture true format)),
      )

  -- If the first text delta of a stream holds the opening tag, then after any further deltas the
  -- observation that is collected is the one that the whole text has when it is not streamed.
  pub feed-split_obs :
      (text : Chars) (raw : Bytes) (format : String) (idx : ℕ) (ds : List (Chars × Bytes))
      → index obs_open_tag text ≡ some idx
      → split_obs (text ++ texts ds)
        ≡ some
            ((feed rebuild ((text, raw) ∷ ds) (new_obs_capture true format)).obs_buf, take idx text)
  feed-split_obs text raw format idx ds h =
      let after = drop (idx + length obs_open_tag) text in
      let (c, first, st, same) = started text raw format idx h in
      split_found-append text (texts ds) idx h
      ∙ ap (λ o. some (o, take idx text))
          (sym (ap (λ d. (feed rebuild ds d).obs_buf) first ∙ feed_settled ds after c st same))
