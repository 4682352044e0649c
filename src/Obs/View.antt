-- ===== src/Obs/View.antt =====
-- What the client sees of the text deltas, and what is collected as the observation.
use lazy_vllm.Prelude.{
  ℕ, ◌≤◌, ◌≡◌, refl, zero, suc, inl, inr, sym, ap, ◌∙◌, Bool, true, false, Option, none, some, List,
  [], ◌∷◌, ◌++◌, length, take, drop, leb, arith, Option-cases, Bool-cases,
}
use mathlib.Core.Path.{ap₂, subst}
use mathlib.Core.List.{append_assoc, append-nil}
use lazy_vllm.Text.{index, cut}
use lazy_vllm.Text.Laws.{index_split}
use lazy_vllm.Text.Chars.{Chars, char_eq}
use lazy_vllm.Obs.{
  Bytes, obs_open_tag, obs_close_tag, CaptureState, searching, suppressing, done, Capture, emit,
  emit_unless_empty, release, suppress_delta, hold_or_emit, settle, combine_with, emit_before_from,
  release_held,
}

-- The text that a list of written events carries.
abbrev pub view : (Bytes → Chars) → List Bytes → Chars
view text_of [] = []
view text_of (e ∷ es) = text_of e ++ view text_of es

pub view-append :
    (text_of : Bytes → Chars) (es fs : List Bytes)
    → view text_of (es ++ fs) ≡ view text_of es ++ view text_of fs
view-append text_of [] fs = refl
view-append text_of (e ∷ es) fs = simp (view-append text_of es fs, append_assoc)

pub cut_split : (sep s b a : Chars) → cut sep s ≡ some (b, a) → s ≡ b ++ (sep ++ a)
unfolding cut
cut_split sep s b a h = elim (Option-cases (index sep s)) [
  | inl e ↦ absurd (ground arith)
  | inr (i, e) ↦ ground (arith, index_split sep s i e)
]

take_held :
    (h t : Chars) (i : ℕ) → length h ≤ i → h ++ drop (length h) (take i (h ++ t)) ≡ take i (h ++ t)
take_held [] t i k = refl
take_held (c ∷ h) t (suc i) k = ap (λ r. c ∷ r) (take_held h t i (omega arith))
take_held (c ∷ h) t zero k = absurd (omega arith)

view-emit :
    (text_of : Bytes → Chars) (p : Bytes) (c : Capture)
    → view text_of (emit p c).out ≡ view text_of c.out ++ text_of p
view-emit text_of p c =
    view-append text_of c.out (p ∷ []) ∙ ap (λ r. view text_of c.out ++ r) (append-nil _)

-- `told` is all the text that the model has sent so far.
module _ (text_of : Bytes → Chars) (IsDelta : Bytes → Type 0) where
  abbrev pub held_view : Option Bytes → Chars
  held_view none = []
  held_view (some e) = text_of e

  abbrev pub HoldsDelta : Option Bytes → Type 0
  HoldsDelta none = Unit
  HoldsDelta (some e) = IsDelta e

  abbrev pub ExplainsIn : CaptureState → Chars → Capture → Type 0
  ExplainsIn searching told c =
      (told ≡ view text_of c.out ++ held_view c.held_event)
      × (held_view c.held_event ≡ c.held_text)
      × (c.obs_buf ≡ [])
      × HoldsDelta c.held_event
  ExplainsIn suppressing told c = told ≡ view text_of c.out ++ (obs_open_tag ++ c.obs_buf)
  ExplainsIn done told c =
      (rest : Chars) × (told
        ≡ view text_of c.out ++ (obs_open_tag ++ (c.obs_buf ++ (obs_close_tag ++ rest))))

  abbrev pub Explains : Chars → Capture → Type 0
  Explains told c = ExplainsIn c.obs_state told c

  module _ (rebuild : Bytes → Chars → Bytes)
      (law : (e : Bytes) (t : Chars) → IsDelta e → text_of (rebuild e t) ≡ t) where
    view-emit_unless_empty :
        (t : Chars) (e : Bytes) (c : Capture)
        → IsDelta e
        → view text_of (emit_unless_empty t (rebuild e t) c).out ≡ view text_of c.out ++ t
    view-emit_unless_empty [] e c d = sym (append-nil _)
    view-emit_unless_empty (x ∷ t) e c d =
        view-emit text_of (rebuild e (x ∷ t)) c
        ∙ ap (λ r. view text_of c.out ++ r) (law e (x ∷ t) d)

    pub view-emit_before_from :
        (held : Option Bytes) (idx : ℕ) (text : Chars) (raw : Bytes) (c : Capture)
        → IsDelta raw
        → HoldsDelta held
        → held_view held ≡ c.held_text
        → let before = take idx (combine_with held c.held_text text) in
          view text_of (emit_before_from rebuild held idx before raw c).out
          ≡ view text_of c.out ++ before
    unfolding emit_before_from
    view-emit_before_from none idx text raw c d hd same =
        view-emit_unless_empty (take idx text) raw c d
    view-emit_before_from (some e) idx text raw c d hd same =
        elim (Bool-cases (leb idx (length c.held_text))) [
          | inl early ↦ rw early (view-emit_unless_empty _ e c hd)
          | inr late ↦ rw late (
              view-emit_unless_empty _ raw (emit e c) d
              ∙ ap (λ r. r ++ drop (length c.held_text) (take idx (c.held_text ++ text)))
                  (view-emit text_of e c)
              ∙ append_assoc (view text_of c.out) (text_of e) _
              ∙ ap (λ r. view text_of c.out ++ r)
                  (ap (λ r. r ++ drop (length c.held_text) (take idx (c.held_text ++ text))) same
                    ∙ take_held c.held_text text idx (ground arith)))
        ]

    pub obs_buf-emit_before_from :
        (held : Option Bytes) (idx : ℕ) (before : Chars) (raw : Bytes) (c : Capture)
        → (emit_before_from rebuild held idx before raw c).obs_buf ≡ c.obs_buf
    unfolding emit_before_from
    obs_buf-emit_before_from none idx [] raw c = refl
    obs_buf-emit_before_from none idx (x ∷ before) raw c = refl
    obs_buf-emit_before_from (some e) idx before raw c = ground arith

    pub settle-Explains :
        (told all : Chars) (found : Option (Chars × Chars)) (c : Capture)
        → cut obs_close_tag all ≡ found
        → c.obs_state ≡ suppressing
        → c.obs_buf ≡ all
        → told ≡ view text_of c.out ++ (obs_open_tag ++ all)
        → Explains told (settle found c)
    unfolding settle
    settle-Explains told all none c e st buf h =
        subst (λ s. ExplainsIn s told c) (sym st)
          (h ∙ ap (λ r. view text_of c.out ++ (obs_open_tag ++ r)) (sym buf))
    settle-Explains told all (some (before, rest)) c e st buf h = (
      rest,
      h
          ∙ ap (λ r. view text_of c.out ++ (obs_open_tag ++ r))
              (cut_split obs_close_tag all before rest e),
    )

    pub suppress_delta-Explains :
        (told text : Chars) (c : Capture)
        → c.obs_state ≡ suppressing
        → told ≡ view text_of c.out ++ (obs_open_tag ++ c.obs_buf)
        → Explains (told ++ text) (suppress_delta rebuild text c)
    unfolding suppress_delta
    suppress_delta-Explains told text c st h =
        settle-Explains (told ++ text) (c.obs_buf ++ text) _
          (record c { obs_buf = c.obs_buf ++ text }) refl st refl
          (ap (λ r. r ++ text) h
            ∙ append_assoc (view text_of c.out) (obs_open_tag ++ c.obs_buf) text
            ∙ ap (λ r. view text_of c.out ++ r) (append_assoc obs_open_tag c.obs_buf text))

    view-release_held :
        (told : Chars) (held : Option Bytes) (c : Capture)
        → told ≡ view text_of c.out ++ held_view held
        → told ≡ view text_of (release_held held c).out
    unfolding release_held
    view-release_held told none c h = h ∙ append-nil _
    view-release_held told (some e) c h = h ∙ sym (view-emit text_of e c)

    release_held_fields :
        (held : Option Bytes) (c : Capture)
        → c.held_event ≡ held
        → held_view held ≡ c.held_text
        → let c' = release_held held c in
          (c'.held_event ≡ none)
          × (c'.held_text ≡ [])
          × (c'.obs_buf ≡ c.obs_buf)
          × (c'.obs_state ≡ c.obs_state)
    unfolding release_held
    release_held_fields none c e same = (e, sym same, refl, refl)
    release_held_fields (some _) c e same = (refl, refl, refl, refl)

    hold_or_emit-Explains :
        (told text : Chars) (raw : Bytes) (b : Bool) (c : Capture)
        → c.obs_state ≡ searching
        → told ≡ view text_of c.out
        → c.held_event ≡ none
        → c.held_text ≡ []
        → c.obs_buf ≡ []
        → IsDelta raw
        → text_of raw ≡ text
        → Explains (told ++ text) (hold_or_emit b text raw c)
    unfolding hold_or_emit
    hold_or_emit-Explains told text raw true c st h none_held no_text empty d t =
        subst (λ s. ExplainsIn s (told ++ text) (hold_or_emit true text raw c)) (sym st)
          (ap₂ (λ r q. r ++ q) h (sym t), t, empty, d)
    hold_or_emit-Explains told text raw false c st h none_held no_text empty d t =
        subst (λ s. ExplainsIn s (told ++ text) (emit raw c)) (sym st)
          (
            ap₂ (λ r q. r ++ q) h (sym t)
                ∙ sym (view-emit text_of raw c)
                ∙ sym (append-nil _)
                ∙ ap (λ r. view text_of (emit raw c).out ++ held_view r) (sym none_held),
            ap held_view none_held ∙ sym no_text,
            empty,
            subst HoldsDelta (sym none_held) tt,
          )

    pub release-Explains :
        (told text : Chars) (raw : Bytes) (c : Capture)
        → c.obs_state ≡ searching
        → ExplainsIn searching told c
        → IsDelta raw
        → text_of raw ≡ text
        → Explains (told ++ text) (release text raw c)
    unfolding release
    release-Explains told text raw c st (h, same, empty, hd) d t =
        let (a, b, e, s) = release_held_fields c.held_event c refl same in
        hold_or_emit-Explains told text raw _ (release_held c.held_event c) (s ∙ st)
          (view-release_held told c.held_event c h) a b (e ∙ empty) d t

    pub told_combined :
        (told text : Chars) (held : Option Bytes) (c : Capture)
        → told ≡ view text_of c.out ++ held_view held
        → held_view held ≡ c.held_text
        → told ++ text ≡ view text_of c.out ++ combine_with held c.held_text text
    told_combined told text none c h same = ap (λ r. r ++ text) (h ∙ append-nil _)
    told_combined told text (some e) c h same =
        ap (λ r. r ++ text) h
        ∙ append_assoc (view text_of c.out) (text_of e) text
        ∙ ap (λ r. view text_of c.out ++ (r ++ text)) same
