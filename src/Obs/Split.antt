-- ===== src/Obs/Split.antt =====
-- Which tags are found. The held text is that of one event, so a tag is found when it lies within
-- two consecutive text deltas, and missed when it is spread over three.
use lazy_vllm.Prelude.{ℕ, ◌≡◌, refl, ◌≢◌, false, Option, none, some, [], ◌∷◌, ◌++◌, arith}
use lazy_vllm.Text.{index}
use lazy_vllm.Text.Laws.{index_of_append}
use lazy_vllm.Text.Chars.{Chars, char_eq}
use lazy_vllm.Obs.{
  Bytes, obs_open_tag, searching, Capture, start_suppressing, search_at, settle, search_delta,
  combine, release, release_held, hold_or_emit, has_suspicious_tail, handle_text_delta,
}
use lazy_vllm.Obs.Scan.{feed}

module _ (rebuild : Bytes → Chars → Bytes) where
  search_at-ne-searching :
      (at : Option ℕ) (text : Chars) (raw : Bytes) (c : Capture)
      → at ≢ none
      → (search_at rebuild at text raw c).obs_state ≢ searching
  unfolding search_at start_suppressing settle
  search_at-ne-searching none text raw c h = absurd (h refl)
  search_at-ne-searching (some idx) text raw c h = ground arith

  -- While searching, a tag within the held text and the next delta is found at that delta.
  pub handle_text_delta-finds :
      (text b a : Chars) (raw : Bytes) (c : Capture)
      → c.obs_state ≡ searching
      → combine text c ≡ b ++ (obs_open_tag ++ a)
      → (handle_text_delta rebuild text raw c).obs_state ≢ searching
  unfolding handle_text_delta search_delta
  handle_text_delta-finds text b a raw c st h =
      simp st
        (search_at-ne-searching _ text raw c (λ e. index_of_append obs_open_tag b a (rw h at e)))

  -- While searching with nothing held, take three deltas. If none of them holds the opening tag, nor
  -- the first two together, and the second does not end like the start of the tag, then the search
  -- goes on after the third, whatever the three make together.
  pub feed_misses :
      (t u v : Chars) (e f g : Bytes) (c : Capture)
      → c.obs_state ≡ searching
      → c.held_event ≡ none
      → index obs_open_tag t ≡ none
      → index obs_open_tag u ≡ none
      → index obs_open_tag (t ++ u) ≡ none
      → has_suspicious_tail u ≡ false
      → index obs_open_tag v ≡ none
      → (feed rebuild ((t, e) ∷ (u, f) ∷ (v, g) ∷ []) c).obs_state ≡ searching
  unfolding handle_text_delta search_delta search_at release release_held hold_or_emit
  feed_misses t u v e f g c st nh ht hu htu su hv = ground arith
