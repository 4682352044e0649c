-- ===== src/Router/Strip.antt =====
-- What stripping the earlier thinking blocks does to the messages.
use lazy_vllm.Prelude.{
  ℕ, suc, ◌≤◌, ◌≡◌, ◌≢◌, eq_iff, refl, sym, ap, ◌∙◌, inl, inr, String, Bool, true, false, ◌&&◌,
  Option, none, some, List, [], ◌∷◌, length, keep, any, arith, ◌==◌, Bool-cases, Option-cases,
  if◌then◌else◌,
}
use lazy_vllm.Json.{
  Json, null, bool, int, real, str, obj, arr, Fields, Items, doc, get, put, elements, of_list,
}
use lazy_vllm.Json.Laws.{get-put, put-put}
use lazy_vllm.Router.{
  is_assistant, last_assistant_from, is_kept_block, strip_message, strip_from, with_content,
  blocks_in, strip_prior_thinking_blocks,
}
use lazy_vllm.Router.Thinned.{
  RawWithout, strip_message-none, strip_message-some, with_content_same, strip_message-Without,
}
use lazy_vllm.Server.{ok}

-- Every assistant message is stripped but for the last.
unfoldable pub strip_all_but_last : List Json → List Json
strip_all_but_last [] = []
strip_all_but_last (raw ∷ rest) =
    (if is_assistant raw && any is_assistant rest then strip_message raw else raw)
    ∷ strip_all_but_last rest

-- With no assistant message to come the index stays, and else it is one to come.
last_assistant_none :
    (i : ℕ) (last : Option ℕ) (msgs : List Json)
    → any is_assistant msgs ≡ false
    → last_assistant_from i last msgs ≡ last
unfolding last_assistant_from
last_assistant_none i last [] h = refl
last_assistant_none i last (raw ∷ rest) h = ground (arith, last_assistant_none (suc i) last rest)

last_assistant_some :
    (i : ℕ) (last : Option ℕ) (msgs : List Json)
    → any is_assistant msgs ≡ true
    → (j : ℕ) × (i ≤ j) × (last_assistant_from i last msgs ≡ some j)
unfolding last_assistant_from
last_assistant_some i last [] h = cc
last_assistant_some i last (raw ∷ rest) h = elim (Bool-cases (any is_assistant rest)) [
  | inl more ↦
      let (j, le, e) =
        last_assistant_some (suc i) (if is_assistant raw then some i else last) rest more in
      (j, omega arith, e)
  | inr last_one ↦
      let here : is_assistant raw ≡ true = ground arith in
      (i, omega arith, ground (arith, last_assistant_none (suc i) (some i) rest))
]

-- The two loops over indexes strip every assistant message but the last.
strip_from-eq :
    (i : ℕ) (last : Option ℕ) (msgs : List Json)
    → strip_from i (last_assistant_from i last msgs) msgs ≡ strip_all_but_last msgs
unfolding strip_from strip_all_but_last last_assistant_from
strip_from-eq i last [] = refl
strip_from-eq i last (raw ∷ rest) =
    let last' = if is_assistant raw then some i else last in
    let later = strip_from-eq (suc i) last' rest in
    elim (Bool-cases (any is_assistant rest)) [
      | inl more ↦
          let (j, le, e) = last_assistant_some (suc i) last' rest more in rw later (ground (arith))
      | inr last_one ↦ rw later (ground (arith, last_assistant_none (suc i) last' rest))
    ]

is_assistant-with_content :
    (fs : Fields) (blocks filtered : List Json)
    → is_assistant (with_content fs blocks filtered) ≡ is_assistant (obj fs)
unfolding is_assistant
is_assistant-with_content fs blocks filtered =
    ground (arith, get-put "role" "content" (arr (of_list filtered)) fs)

keep-keep {ℓ} : {A : Type ℓ} (p : A → Bool) (xs : List A) → keep p (keep p xs) ≡ keep p xs
keep-keep p [] = refl
keep-keep p (x ∷ xs) = ground (arith, keep-keep p xs)

elements-of_list : (vs : List Json) → elements (of_list vs) ≡ vs
elements-of_list [] = refl
elements-of_list (v ∷ vs) = ap (λ r. v ∷ r) (elements-of_list vs)

-- Stripping a message leaves its role.
is_assistant-strip_message : (raw : Json) → is_assistant (strip_message raw) ≡ is_assistant raw
unfolding strip_message
is_assistant-strip_message (obj fs) = elim (Option-cases (blocks_in fs)) [
  | inl e ↦ ap is_assistant (strip_message-none fs e)
  | inr (blocks, e) ↦
      ap is_assistant (strip_message-some fs blocks e)
      ∙ is_assistant-with_content fs blocks (keep is_kept_block blocks)
]
is_assistant-strip_message null = refl
is_assistant-strip_message (bool _) = refl
is_assistant-strip_message (int _) = refl
is_assistant-strip_message (real _) = refl
is_assistant-strip_message (str _) = refl
is_assistant-strip_message (arr _) = refl

blocks_in-put :
    (fs : Fields) (blocks : List Json)
    → blocks_in (put "content" (arr (of_list blocks)) fs) ≡ some blocks
blocks_in-put fs blocks =
    ground (arith, get-put "content" "content" (arr (of_list blocks)) fs, elements-of_list blocks)

-- Once the blocks are filtered, filtering again changes nothing.
strip_message-with_content :
    (fs : Fields) (blocks : List Json)
    → strip_message (obj fs) ≡ with_content fs blocks (keep is_kept_block blocks)
    → strip_message (with_content fs blocks (keep is_kept_block blocks))
      ≡ with_content fs blocks (keep is_kept_block blocks)
strip_message-with_content fs blocks h =
    let kept = keep is_kept_block blocks in
    let fs' = put "content" (arr (of_list kept)) fs in
    let again =
      strip_message-some fs' kept (blocks_in-put fs kept)
      ∙ with_content_same fs' kept (keep is_kept_block kept) (keep-keep is_kept_block blocks) in
    elim (Bool-cases (length kept == length blocks)) [
      | inl e ↦ ground (arith)
      | inr e ↦ ground (arith)
    ]

strip_message-strip_message : (raw : Json) → strip_message (strip_message raw) ≡ strip_message raw
unfolding strip_message
strip_message-strip_message (obj fs) = elim (Option-cases (blocks_in fs)) [
  | inl e ↦ ap strip_message (strip_message-none fs e)
  | inr (blocks, e) ↦
      let once = strip_message-some fs blocks e in
      ap strip_message once ∙ strip_message-with_content fs blocks once ∙ sym once
]
strip_message-strip_message null = refl
strip_message-strip_message (bool _) = refl
strip_message-strip_message (int _) = refl
strip_message-strip_message (real _) = refl
strip_message-strip_message (str _) = refl
strip_message-strip_message (arr _) = refl

any-strip : (msgs : List Json) → any is_assistant (strip_all_but_last msgs) ≡ any is_assistant msgs
unfolding strip_all_but_last
any-strip [] = refl
any-strip (raw ∷ rest) = ground (arith, any-strip rest, is_assistant-strip_message raw)

-- Stripping twice is stripping once.
strip_all_but_last-twice :
    (msgs : List Json) → strip_all_but_last (strip_all_but_last msgs) ≡ strip_all_but_last msgs
unfolding strip_all_but_last
strip_all_but_last-twice [] = refl
strip_all_but_last-twice (raw ∷ rest) = ground (
  arith,
  any-strip rest,
  is_assistant-strip_message raw,
  strip_message-strip_message raw,
  strip_all_but_last-twice rest,
)

pub strip_body :
    (fs : Fields) (vs : Items)
    → get "messages" fs ≡ some (arr vs)
    → strip_prior_thinking_blocks (doc (obj fs))
      ≡ ok (doc (obj (put "messages" (arr (of_list (strip_all_but_last (elements vs)))) fs)))
unfolding strip_prior_thinking_blocks
strip_body fs vs h = ground (arith, h, strip_from-eq 0 none (elements vs))

-- Every assistant message but the last is without its thinking, and the other messages stay.
pub data EarlierWithout : List Json → List Json → Type 0 where
  no_messages : EarlierWithout [] []
  earlier :
      {raw v : Json} {msgs vs : List Json}
      → is_assistant raw ≡ true
      → any is_assistant msgs ≡ true
      → RawWithout raw v
      → EarlierWithout msgs vs
      → EarlierWithout (raw ∷ msgs) (v ∷ vs)
  as_it_was :
      {raw : Json} {msgs vs : List Json}
      → (is_assistant raw && any is_assistant msgs) ≡ false
      → EarlierWithout msgs vs
      → EarlierWithout (raw ∷ msgs) (raw ∷ vs)

strip_all_but_last-Without : (msgs : List Json) → EarlierWithout msgs (strip_all_but_last msgs)
unfolding strip_all_but_last
strip_all_but_last-Without [] = no_messages
strip_all_but_last-Without (raw ∷ rest) =
    let later = strip_all_but_last-Without rest in
    elim (Bool-cases (is_assistant raw && any is_assistant rest)) [
      | inl t ↦
          rw t (earlier (ground (arith, t)) (ground (arith, t)) (strip_message-Without raw) later)
      | inr f ↦ rw f (as_it_was f later)
    ]

-- For a body with an array of messages, what is forwarded has the messages of which every assistant
-- message but the last is without exactly its blocks of the types thinking and redacted_thinking,
-- and no other field changed, and stripping it again changes nothing.
pub strip_prior_thinking_blocks_sound :
    (fs : Fields) (vs : Items)
    → get "messages" fs ≡ some (arr vs)
    → (gs : Fields) × (strip_prior_thinking_blocks (doc (obj fs)) ≡ ok (doc (obj gs)))
      × (get "messages" gs ≡ some (arr (of_list (strip_all_but_last (elements vs)))))
      × EarlierWithout (elements vs) (strip_all_but_last (elements vs))
      × ((k : String) → k ≢ "messages" → get k gs ≡ get k fs)
      × (strip_prior_thinking_blocks (doc (obj gs)) ≡ ok (doc (obj gs)))
strip_prior_thinking_blocks_sound fs vs h =
    let out = strip_all_but_last (elements vs) in
    let gs = put "messages" (arr (of_list out)) fs in
    let there = get-put "messages" "messages" (arr (of_list out)) fs in
    let same =
      ap strip_all_but_last (elements-of_list out) ∙ strip_all_but_last-twice (elements vs) in
    (
      gs,
      strip_body fs vs h,
      there,
      strip_all_but_last-Without (elements vs),
      λ k other. ground (arith, get-put k "messages" (arr (of_list out)) fs, eq_iff "messages" k),
      strip_body gs (of_list out) there
          ∙ ap (λ ms. ok (doc (obj (put "messages" (arr (of_list ms)) gs)))) same
          ∙ ap (λ f. ok (doc (obj f))) (put-put "messages" (arr (of_list out)) fs),
    )
