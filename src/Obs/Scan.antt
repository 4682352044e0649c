-- ===== src/Obs/Scan.antt =====
-- One text delta, and a run of them: the text that the client sees and the observation together
-- make up the text that the model sent.
use mathlib.Core.Path.{subst}
use mathlib.Core.List.{append-nil, append_assoc}
use lazy_vllm.Prelude.{
  ℕ, ◌+◌, ◌≡◌, refl, sym, ap, ◌∙◌, Option, none, some, List, [], ◌∷◌, ◌++◌, length, take, drop,
}
use lazy_vllm.Text.{index}
use lazy_vllm.Text.Laws.{index_split}
use lazy_vllm.Text.Chars.{Chars, char_eq}
use lazy_vllm.Obs.{
  Bytes, obs_open_tag, CaptureState, searching, suppressing, done, Capture, emit_before_from,
  emit_before, start_suppressing, search_at, search_delta, combine, handle_text_delta,
  dispatch_delta,
}
use lazy_vllm.Obs.View.{
  view, ExplainsIn, Explains, view-emit_before_from, obs_buf-emit_before_from, settle-Explains,
  suppress_delta-Explains, release-Explains, told_combined,
}

-- The deltas of a stream, handled in order.
abbrev pub feed : (Bytes → Chars → Bytes) → List (Chars × Bytes) → Capture → Capture
feed rebuild [] c = c
feed rebuild ((text, raw) ∷ ds) c = feed rebuild ds (handle_text_delta rebuild text raw c)

abbrev pub texts : List (Chars × Bytes) → Chars
texts [] = []
texts ((text, _) ∷ ds) = text ++ texts ds

module _ (text_of : Bytes → Chars) (IsDelta : Bytes → Type 0) where
  -- Each event of the stream carries the text that was decoded from it.
  abbrev pub Carries : List (Chars × Bytes) → Type 0
  Carries [] = Unit
  Carries ((text, raw) ∷ ds) = IsDelta raw × (text_of raw ≡ text) × Carries ds

module _ (text_of : Bytes → Chars) (IsDelta : Bytes → Type 0) (rebuild : Bytes → Chars → Bytes)
    (law : (e : Bytes) (t : Chars) → IsDelta e → text_of (rebuild e t) ≡ t) where
  found-Explains :
      (told text : Chars) (raw : Bytes) (c : Capture) (idx : ℕ)
      → ExplainsIn text_of IsDelta searching told c
      → IsDelta raw
      → index obs_open_tag (combine text c) ≡ some idx
      → Explains text_of IsDelta (told ++ text) (
          start_suppressing rebuild
            (drop (idx + length obs_open_tag) (combine text c))
            (emit_before rebuild idx (combine text c) raw c))
  unfolding start_suppressing emit_before
  found-Explains told text raw c idx (h, same, empty, hd) d at =
      let after = drop (idx + length obs_open_tag) (combine text c) in
      let c' = emit_before_from rebuild c.held_event idx (take idx (combine text c)) raw c in
      let fresh : c'.obs_buf ++ after ≡ after =
        ap (λ b. b ++ after)
          (obs_buf-emit_before_from text_of IsDelta rebuild law c.held_event idx _ raw c ∙ empty) in
      settle-Explains text_of IsDelta rebuild law (told ++ text) after _
        (record c' { obs_state = suppressing; obs_buf = c'.obs_buf ++ after }) refl refl fresh
        (told_combined text_of IsDelta rebuild law told text c.held_event c h same
          ∙ ap (λ r. view text_of c.out ++ r) (index_split obs_open_tag (combine text c) idx at)
          ∙ sym (append_assoc (view text_of c.out) _ _)
          ∙ ap (λ r. r ++ (obs_open_tag ++ after))
              (sym (
                view-emit_before_from text_of IsDelta rebuild law c.held_event idx text raw c d hd
                  same)))

  search_at-Explains :
      (told text : Chars) (raw : Bytes) (c : Capture) (at : Option ℕ)
      → index obs_open_tag (combine text c) ≡ at
      → c.obs_state ≡ searching
      → ExplainsIn text_of IsDelta searching told c
      → IsDelta raw
      → text_of raw ≡ text
      → Explains text_of IsDelta (told ++ text) (search_at rebuild at text raw c)
  unfolding search_at
  search_at-Explains told text raw c none at st x d t =
      release-Explains text_of IsDelta rebuild law told text raw c st x d t
  search_at-Explains told text raw c (some idx) at st x d t =
      found-Explains told text raw c idx x d at

  dispatch_delta-Explains :
      (told text : Chars) (raw : Bytes) (c : Capture) (s : CaptureState)
      → c.obs_state ≡ s
      → ExplainsIn text_of IsDelta s told c
      → IsDelta raw
      → text_of raw ≡ text
      → Explains text_of IsDelta (told ++ text) (dispatch_delta rebuild s text raw c)
  unfolding search_delta
  dispatch_delta-Explains told text raw c searching st x d t =
      search_at-Explains told text raw c _ refl st x d t
  dispatch_delta-Explains told text raw c suppressing st x d t =
      suppress_delta-Explains text_of IsDelta rebuild law told text c st x
  dispatch_delta-Explains told text raw c done st (rest, h) d t =
      subst (λ s. ExplainsIn text_of IsDelta s (told ++ text) c) (sym st)
        (rest ++ text, ap (λ r. r ++ text) h ∙ simp append_assoc)

  pub handle_text_delta-Explains :
      (told text : Chars) (raw : Bytes) (c : Capture)
      → Explains text_of IsDelta told c
      → IsDelta raw
      → text_of raw ≡ text
      → Explains text_of IsDelta (told ++ text) (handle_text_delta rebuild text raw c)
  unfolding handle_text_delta
  handle_text_delta-Explains told text raw c x d t =
      dispatch_delta-Explains told text raw c c.obs_state refl x d t

  -- If rebuilding an event for a text makes an event of that text, and each delta's event carries
  -- its text, then after the deltas the text sent by the model is what has been written to the
  -- client, then what is held; or, once a tag was found, what was written, the opening tag and the
  -- observation so far; or, when it is closed, these, the closing tag and some dropped rest.
  pub feed-Explains :
      (told : Chars) (ds : List (Chars × Bytes)) (c : Capture)
      → Explains text_of IsDelta told c
      → Carries text_of IsDelta ds
      → Explains text_of IsDelta (told ++ texts ds) (feed rebuild ds c)
  feed-Explains told [] c x k = subst (λ r. Explains text_of IsDelta r c) (sym (append-nil told)) x
  feed-Explains told ((text, raw) ∷ ds) c x (d, t, k) =
      subst
        (λ r. Explains text_of IsDelta r (feed rebuild ds (handle_text_delta rebuild text raw c)))
        (append_assoc told text (texts ds))
        (feed-Explains (told ++ text) ds (handle_text_delta rebuild text raw c)
          (handle_text_delta-Explains told text raw c x d t) k)
