-- ===== src/Router/Thinned.antt =====
-- router/internal/router/types.go, `stripPriorThinkingBlocks`: one message without its thinking blocks.
use mathlib.Core.Path.{subst}
use lazy_vllm.Prelude.{
  ◌≤◌, ◌≡◌, ◌≢◌, eq_iff, refl, sym, ap, ◌∙◌, inl, inr, String, Bool, false, Option, none, some,
  List, [], ◌∷◌, length, keep, arith, ◌==◌, Bool-cases, Without, keep-Without,
}
use lazy_vllm.Json.{
  Json, null, bool, int, real, str, obj, arr, Fields, Items, nil, cons, get, put, elements, of_list,
}
use lazy_vllm.Json.Laws.{get-put}
use lazy_vllm.Json.Thinking.{IsThought, is_plain, kept-IsThought, kept-false}
use lazy_vllm.Router.{is_kept_block, strip_message, with_content, blocks_in}

-- What a message is without the blocks that hold thinking: its array of blocks is what is left of
-- the one before, and its other fields stay. A content that is no array stays.
abbrev pub MessageWithout : Fields → Option Json → Json → Type 0
MessageWithout fs (some (arr vs)) v =
    (gs : Fields) × (ws : List Json) × (v ≡ obj gs)
    × (get "content" gs ≡ some (arr (of_list ws)))
    × Without IsThought (elements vs) ws
    × ((k : String) → k ≢ "content" → get k gs ≡ get k fs)
MessageWithout fs _ v = v ≡ obj fs

abbrev pub RawWithout : Json → Json → Type 0
RawWithout (obj fs) v = MessageWithout fs (get "content" fs) v
RawWithout raw v = v ≡ raw

pub strip_message-none : (fs : Fields) → blocks_in fs ≡ none → strip_message (obj fs) ≡ obj fs
unfolding strip_message
strip_message-none fs h = rw (h, strip_message)

pub strip_message-some :
    (fs : Fields) (blocks : List Json)
    → blocks_in fs ≡ some blocks
    → strip_message (obj fs) ≡ with_content fs blocks (keep is_kept_block blocks)
unfolding strip_message
strip_message-some fs blocks h = rw (h, strip_message)

pub with_content_same :
    (fs : Fields) (blocks filtered : List Json)
    → filtered ≡ blocks
    → with_content fs blocks filtered ≡ obj fs
with_content_same fs blocks filtered h = ground (arith, ap length h)

kept_type-eq :
    (fs : Fields) (o : Option Json) → get "type" fs ≡ o → is_kept_block (obj fs) ≡ is_plain o
unfolding is_kept_block
kept_type-eq fs none h = rw (h, is_kept_block) refl
kept_type-eq fs (some (str t)) h = rw (h, is_kept_block) refl
kept_type-eq fs (some null) h = rw (h, is_kept_block) refl
kept_type-eq fs (some (bool b)) h = rw (h, is_kept_block) refl
kept_type-eq fs (some (int z)) h = rw (h, is_kept_block) refl
kept_type-eq fs (some (real s)) h = rw (h, is_kept_block) refl
kept_type-eq fs (some (arr vs)) h = rw (h, is_kept_block) refl
kept_type-eq fs (some (obj gs)) h = rw (h, is_kept_block) refl

only_objects : (v : Json) → is_kept_block v ≡ false → (fs : Fields) × (v ≡ obj fs)
unfolding is_kept_block
only_objects (obj fs) h = (fs, refl)
only_objects null h = absurd (ground (arith, h))
only_objects (bool b) h = absurd (ground (arith, h))
only_objects (int z) h = absurd (ground (arith, h))
only_objects (real s) h = absurd (ground (arith, h))
only_objects (str s) h = absurd (ground (arith, h))
only_objects (arr vs) h = absurd (ground (arith, h))

blocks-Without : (vs : List Json) → Without IsThought vs (keep is_kept_block vs)
blocks-Without =
    let same : (fs : Fields) → is_kept_block (obj fs) ≡ is_plain (get "type" fs) =
      λ fs. kept_type-eq fs (get "type" fs) refl in
    keep-Without IsThought is_kept_block (kept-IsThought is_kept_block only_objects same)
      (kept-false is_kept_block only_objects same)

length-keep : (p : Json → Bool) (vs : List Json) → length (keep p vs) ≤ length vs
length-keep p [] = omega arith
length-keep p (v ∷ vs) = ground (arith, length-keep p vs)

-- As many blocks are left as there were only if all are.
keep_all : (p : Json → Bool) (vs : List Json) → length (keep p vs) ≡ length vs → keep p vs ≡ vs
keep_all p [] h = refl
keep_all p (v ∷ vs) h = elim (Bool-cases (p v)) [
  | inl t ↦ rw t (ap (λ r. v ∷ r) (keep_all p vs (ground (arith, h, t))))
  | inr f ↦ absurd (ground (arith, h, f, length-keep p vs))
]

of_list-elements : (vs : Items) → of_list (elements vs) ≡ vs
of_list-elements nil = refl
of_list-elements (cons v vs) = ap (λ r. cons v r) (of_list-elements vs)

with_content-Without :
    (fs : Fields) (vs : Items)
    → get "content" fs ≡ some (arr vs)
    → MessageWithout fs
        (some (arr vs))
        (with_content fs (elements vs) (keep is_kept_block (elements vs)))
with_content-Without fs vs h =
    let kept = keep is_kept_block (elements vs) in
    elim (Bool-cases (length kept == length (elements vs))) [
      | inl e ↦
          (let all : kept ≡ elements vs =
              keep_all is_kept_block (elements vs) (ground (arith, e)) in
            rw e (
              fs,
              kept,
              refl,
              h ∙ ap (λ r. some (arr r)) (sym (of_list-elements vs) ∙ ap of_list (sym all)),
              blocks-Without (elements vs),
              λ k other. refl,
            ))
      | inr e ↦ rw e (
        put "content" (arr (of_list kept)) fs,
        kept,
        refl,
        get-put "content" "content" (arr (of_list kept)) fs,
        blocks-Without (elements vs),
        λ k other. ground (arith, get-put k "content" (arr (of_list kept)) fs, eq_iff "content" k),
      )
    ]

message-Without :
    (fs : Fields) (o : Option Json)
    → get "content" fs ≡ o
    → MessageWithout fs o (strip_message (obj fs))
message-Without fs none h = strip_message-none fs (ground (arith, h))
message-Without fs (some (arr vs)) h =
    subst (MessageWithout fs (some (arr vs)))
      (sym (strip_message-some fs (elements vs) (ground (arith, h)))) (with_content-Without fs vs h)
message-Without fs (some null) h =
    strip_message-some fs [] (ground (arith, h)) ∙ with_content_same fs [] [] refl
message-Without fs (some (bool b)) h = strip_message-none fs (ground (arith, h))
message-Without fs (some (int z)) h = strip_message-none fs (ground (arith, h))
message-Without fs (some (real s)) h = strip_message-none fs (ground (arith, h))
message-Without fs (some (str s)) h = strip_message-none fs (ground (arith, h))
message-Without fs (some (obj gs)) h = strip_message-none fs (ground (arith, h))

pub strip_message-Without : (raw : Json) → RawWithout raw (strip_message raw)
unfolding strip_message
strip_message-Without (obj fs) = message-Without fs (get "content" fs) refl
strip_message-Without null = refl
strip_message-Without (bool b) = refl
strip_message-Without (int z) = refl
strip_message-Without (real s) = refl
strip_message-Without (str s) = refl
strip_message-Without (arr vs) = refl
