-- ===== src/Obs/Events/Chunks.antt =====
-- How the upstream cuts its bytes into writes does not matter.
use mathlib.Core.Path.{ap₂}
use mathlib.Core.List.{append_assoc}
use lazy_vllm.Prelude.{
  ℕ, zero, suc, ◌+◌, ◌≤◌, ◌<◌, ◌≡◌, refl, sym, ap, ◌∙◌, true, none, some, ◌++◌, length, take, drop,
  length-append, length-drop, take-append_of_le, drop-append_of_le, inl, inr, arith, Option-cases,
}
use lazy_vllm.Json.Codec.{Codec}
use lazy_vllm.Text.{index, nat_eq}
use lazy_vllm.Text.Laws.{index_found_le, index-append}
use lazy_vllm.Obs.{Bytes, Capture}
use lazy_vllm.Obs.Stream.{blank_line}
use lazy_vllm.Obs.Events.{handle_sse_event, drain_sse, write}
use lazy_vllm.Obs.Events.Frame.{rebuf, handle_sse_event-rebuf}

-- More bytes behind those that wait.
abbrev push : Bytes → Capture → Capture
push q c = rebuf c.is_streaming (c.sse_buf ++ q) (c.full ++ q) c

module _ (codec : Codec) where
  -- One event taken off the front of the buffer and handled.
  abbrev advance : ℕ → Capture → Capture
  advance idx c =
      handle_sse_event codec (take (idx + 2) c.sse_buf)
        (record c { sse_buf = drop (idx + 2) c.sse_buf })

  advance_lem :
      (idx : ℕ) (c : Capture)
      → advance idx c
        ≡ rebuf c.is_streaming
            (drop (idx + 2) c.sse_buf)
            c.full
            (handle_sse_event codec (take (idx + 2) c.sse_buf) c)
  advance_lem idx c =
      handle_sse_event-rebuf c.is_streaming (drop (idx + 2) c.sse_buf) c.full codec
        (take (idx + 2) c.sse_buf) c

  advance-push :
      (idx : ℕ) (q : Bytes) (c : Capture)
      → idx + 2 ≤ length c.sse_buf
      → advance idx (push q c) ≡ push q (advance idx c)
  advance-push idx q c h =
      let e = take-append_of_le (idx + 2) c.sse_buf q h in
      let d = drop-append_of_le (idx + 2) c.sse_buf q h in
      advance_lem idx (push q c)
      ∙ rw (e, d)
          (ap (rebuf c.is_streaming (drop (idx + 2) c.sse_buf ++ q) (c.full ++ q)) (
              handle_sse_event-rebuf c.is_streaming (c.sse_buf ++ q) (c.full ++ q) codec
                (take (idx + 2) c.sse_buf) c)
            ∙ ap (push q) (sym (advance_lem idx c)))

  drain_some :
      (f idx : ℕ) (c : Capture)
      → index blank_line c.sse_buf ≡ some idx
      → drain_sse codec (suc f) c ≡ drain_sse codec f (advance idx c)
  unfolding drain_sse
  drain_some f idx c h = rw (h, drain_sse)

  drain_zero : (c : Capture) → drain_sse codec zero c ≡ c
  unfolding drain_sse
  drain_zero c = refl

  drain_none : (f : ℕ) (c : Capture) → index blank_line c.sse_buf ≡ none → drain_sse codec f c ≡ c
  unfolding drain_sse
  drain_none zero c h = refl
  drain_none (suc f) c h = rw (h, drain_sse)

  -- Handling an event leaves fewer bytes.
  sse_buf-advance :
      (idx : ℕ) (c : Capture)
      → index blank_line c.sse_buf ≡ some idx
      → length (advance idx c).sse_buf + 2 ≤ length c.sse_buf
  sse_buf-advance idx c h =
      let left = ap (λ d. length d.sse_buf) (advance_lem idx c) in
      omega
        (arith, left, length-drop (idx + 2) c.sse_buf, index_found_le blank_line c.sse_buf idx h)

  -- Fuel for every byte that waits is enough: more makes no difference.
  drain_enough :
      (f g : ℕ) (c : Capture)
      → length c.sse_buf < f
      → length c.sse_buf < g
      → drain_sse codec f c ≡ drain_sse codec g c
  drain_enough zero g c hf hg = absurd (omega arith)
  drain_enough (suc f) zero c hf hg = absurd (omega arith)
  drain_enough (suc f) (suc g) c hf hg = elim (Option-cases (index blank_line c.sse_buf)) [
    | inl e ↦ drain_none (suc f) c e ∙ sym (drain_none (suc g) c e)
    | inr (idx, e) ↦
        let less = sse_buf-advance idx c e in
        drain_some f idx c e
        ∙ drain_enough f g (advance idx c) (omega arith) (omega arith)
        ∙ sym (drain_some g idx c e)
  ]

  length-drain : (f : ℕ) (c : Capture) → length (drain_sse codec f c).sse_buf ≤ length c.sse_buf
  length-drain zero c = rw drain_zero (omega arith)
  length-drain (suc f) c = elim (Option-cases (index blank_line c.sse_buf)) [
    | inl e ↦ rw (drain_none (suc f) c e) (omega arith)
    | inr (idx, e) ↦
        rw (drain_some f idx c e)
          (omega (arith, sse_buf-advance idx c e, length-drain f (advance idx c)))
  ]

  is_streaming-drain : (f : ℕ) (c : Capture) → (drain_sse codec f c).is_streaming ≡ c.is_streaming
  is_streaming-drain zero c = ap (λ d. d.is_streaming) (drain_zero c)
  is_streaming-drain (suc f) c = elim (Option-cases (index blank_line c.sse_buf)) [
    | inl e ↦ ap (λ d. d.is_streaming) (drain_none (suc f) c e)
    | inr (idx, e) ↦
        ap (λ d. d.is_streaming) (drain_some f idx c e)
        ∙ is_streaming-drain f (advance idx c)
        ∙ ap (λ d. d.is_streaming) (advance_lem idx c)
  ]

  -- Events that are complete before more bytes come are handled alike if the bytes come first.
  drain-push :
      (f g : ℕ) (q : Bytes) (c : Capture)
      → length c.sse_buf + length q < g
      → drain_sse codec g (push q (drain_sse codec f c)) ≡ drain_sse codec g (push q c)
  drain-push zero g q c hg = ap (λ d. drain_sse codec g (push q d)) (drain_zero c)
  drain-push (suc f) zero q c hg = absurd (omega arith)
  drain-push (suc f) (suc g) q c hg = elim (Option-cases (index blank_line c.sse_buf)) [
    | inl e ↦ ap (λ d. drain_sse codec (suc g) (push q d)) (drain_none (suc f) c e)
    | inr (idx, e) ↦
        let less = sse_buf-advance idx c e in
        let pushed = index-append blank_line c.sse_buf q idx e in
        let less' = sse_buf-advance idx (push q c) pushed in
        let sum = length-append c.sse_buf q in
        ap (λ d. drain_sse codec (suc g) (push q d)) (drain_some f idx c e)
        ∙ drain-push f (suc g) q (advance idx c) (omega arith)
        ∙ ap (drain_sse codec (suc g))
            (sym (advance-push idx q c (omega (arith, index_found_le blank_line c.sse_buf idx e))))
        ∙ drain_enough (suc g) g (advance idx (push q c)) (omega arith) (omega arith)
        ∙ sym (drain_some g idx (push q c) pushed)
  ]

  write_streaming :
      (p : Bytes) (c : Capture)
      → c.is_streaming ≡ true
      → write codec p c ≡ drain_sse codec (suc (length (c.sse_buf ++ p))) (push p c)
  unfolding write
  write_streaming p c h = ground arith

  -- Two writes do what one write of both pieces does.
  pub write-append :
      (p q : Bytes) (c : Capture)
      → c.is_streaming ≡ true
      → write codec q (write codec p c) ≡ write codec (p ++ q) c
  write-append p q c h =
      let f = suc (length (c.sse_buf ++ p)) in
      let g = suc (length (c.sse_buf ++ (p ++ q))) in
      let d = drain_sse codec f (push p c) in
      let same = append_assoc c.sse_buf p q in
      let bytes = ap length same in
      let sum = length-append (c.sse_buf ++ p) q in
      let sum' = length-append d.sse_buf q in
      let less = length-drain f (push p c) in
      ap (write codec q) (write_streaming p c h)
      ∙ write_streaming q d (is_streaming-drain f (push p c) ∙ h)
      ∙ drain_enough (suc (length (d.sse_buf ++ q))) g (push q d) (omega arith) (omega arith)
      ∙ drain-push f g q (push p c) (omega arith)
      ∙ ap (drain_sse codec g)
          (ap₂ (λ b f'. rebuf c.is_streaming b f' c) same (append_assoc c.full p q))
      ∙ sym (write_streaming (p ++ q) c h)
