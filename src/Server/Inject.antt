-- ===== src/Server/Inject.antt =====
-- What the changes of a body leave of it.
use mathlib.Core.Path.{subst}
use mathlib.Core.Bool.{false≢true}
use lazy_vllm.Text.{has_suffix}
use lazy_vllm.Text.Chars.{chars}
use lazy_vllm.Prelude.{
  ℕ, String, ◌<>◌, true, false, Option, none, some, inl, inr, Option-cases, ◌≡◌, refl, ◌≢◌, ◌∙◌, ap,
  arith, eq_iff,
}
use lazy_vllm.Json.{asserted_string, Json, end, field, null, str, obj, Fields, doc, get, put}
use lazy_vllm.Json.Laws.{get-put}
use lazy_vllm.Server.{
  ok, panicked, flash_suffix, is_flash_model, strip_flash, extract_model, thinking_kwargs, AsAny,
  any_fields, ◌>>=◌, without_thinking, inject_disable_thinking, inject_thinking_token_budget,
}
use lazy_vllm.Server.Flash.{strip_flash-append, cut_flash-append}

not_model : ◌≢◌ {A = String} "chat_template_kwargs" "model"
not_model = ground (arith, eq_iff "chat_template_kwargs" "model")

pub get-put_other : (k j : String) (v : Json) (fs : Fields) → k ≢ j → get k (put j v fs) ≡ get k fs
get-put_other k j v fs h = ground (arith, get-put k j v fs, eq_iff j k)

flash-ne-empty : (name : String) → name <> flash_suffix ≢ ""
unfolding is_flash_model chars has_suffix
flash-ne-empty name e =
    let flash : is_flash_model "" ≡ true =
      subst (λ s. is_flash_model s ≡ true) e (strip_flash-append name).0 in
    false≢true flash

-- A field of the map that is read into `any` is that field, read and written again.
pub get-any_fields :
    (as_any : AsAny) (k : String) (fs gs : Fields)
    → any_fields as_any fs ≡ some gs
    → get k gs ≡ (get k fs >>= as_any)
unfolding any_fields get
get-any_fields as_any k end gs h = ground (arith, h)
get-any_fields as_any k (field j v fs) gs h = elim (Option-cases (as_any v)) [
  | inl e ↦ absurd (ground (arith, h, e))
  | inr (w, e) ↦ elim (Option-cases (any_fields as_any fs)) [
    | inl e' ↦ absurd (ground (arith, h, e, e'))
    | inr (rest, e') ↦ ground (arith, h, e, e', get-any_fields as_any k fs rest e')
  ]
]

-- The body with thinking disabled has the other fields of the map that was read.
pub get-without_thinking :
    (k : String) (model : Option String) (gs : Fields)
    → k ≢ "model"
    → k ≢ "chat_template_kwargs"
    → get k (without_thinking model gs) ≡ get k gs
get-without_thinking k none gs h h' = ground (
  arith,
  get-put k "chat_template_kwargs" (thinking_kwargs false) gs,
  eq_iff "chat_template_kwargs" k,
)
get-without_thinking k (some m) gs h h' = ground (
  arith,
  get-put k "chat_template_kwargs" (thinking_kwargs false) gs,
  get-put k "model" (str (strip_flash m)) (put "chat_template_kwargs" (thinking_kwargs false) gs),
  eq_iff "chat_template_kwargs" k,
  eq_iff "model" k,
)

pub inject_read :
    (as_any : AsAny) (fs gs : Fields)
    → any_fields as_any fs ≡ some gs
    → inject_disable_thinking as_any (doc (obj fs))
      ≡ ok (doc (obj (without_thinking (asserted_string (get "model" fs)) gs)))
unfolding inject_disable_thinking
inject_read as_any fs gs h = rw (inject_disable_thinking, h) refl

pub inject_unread :
    (as_any : AsAny) (fs : Fields)
    → any_fields as_any fs ≡ none
    → inject_disable_thinking as_any (doc (obj fs)) ≡ ok (doc (obj fs))
unfolding inject_disable_thinking
inject_unread as_any fs h = rw (inject_disable_thinking, h) refl

without_thinking-flash :
    (name : String) (gs : Fields)
    → without_thinking (some (name <> flash_suffix)) gs
      ≡ put "model" (str name) (put "chat_template_kwargs" (thinking_kwargs false) gs)
without_thinking-flash name gs = let (flash, stripped) = strip_flash-append name in ground arith

-- For a request for `name-FLASH`, if no number in it is too large for a float, the backend is asked
-- for `name` with thinking disabled, and every other field of the request is as encoding/json writes
-- the value that it reads into an `any`.
pub inject_disable_thinking_sound :
    (as_any : AsAny) (name : String) (fs hs : Fields)
    → get "model" fs ≡ some (str (name <> flash_suffix))
    → any_fields as_any fs ≡ some hs
    → (gs : Fields) × (inject_disable_thinking as_any (doc (obj fs)) ≡ ok (doc (obj gs)))
      × (get "model" gs ≡ some (str name))
      × (get "chat_template_kwargs" gs ≡ some (thinking_kwargs false))
      × ((k : String) → k ≢ "model" → k ≢ "chat_template_kwargs" → get k gs ≡ (get k fs >>= as_any))
inject_disable_thinking_sound as_any name fs hs h read =
    let model = some (name <> flash_suffix) in
    let disabled = put "chat_template_kwargs" (thinking_kwargs false) hs in
    let flash = without_thinking-flash name hs in
    (
      without_thinking model hs,
      inject_read as_any fs hs read
          ∙ ap (λ o. ok (doc (obj (without_thinking (asserted_string o) hs)))) h,
      ap (get "model") flash ∙ get-put "model" "model" (str name) disabled,
      ap (get "chat_template_kwargs") flash
          ∙ get-put_other "chat_template_kwargs" "model" (str name) disabled not_model
          ∙ get-put "chat_template_kwargs" "chat_template_kwargs" (thinking_kwargs false) hs,
      λ k no_model no_kwargs.
          get-without_thinking k model hs no_model no_kwargs ∙ get-any_fields as_any k fs hs read,
    )

extract_read :
    (as_any : AsAny) (name : String) (fs hs : Fields)
    → get "model" fs ≡ some (str (name <> flash_suffix))
    → any_fields as_any fs ≡ some hs
    → extract_model as_any (doc (obj fs))
      ≡ (name <> flash_suffix, doc (obj (put "model" (str name) hs)))
unfolding extract_model
extract_read as_any name fs hs h read =
    ground
      (arith, h, read, cut_flash-append name, eq_iff (name <> flash_suffix) "", flash-ne-empty name)

-- The body that `extractModel` forwards for `name-FLASH`, if no number in it is too large for a
-- float, names the model without the suffix, and has every other field as encoding/json writes the
-- value that it reads into an `any`. The model that it returns has the suffix.
pub extract_model-flash :
    (as_any : AsAny) (name : String) (fs hs : Fields)
    → get "model" fs ≡ some (str (name <> flash_suffix))
    → any_fields as_any fs ≡ some hs
    → (gs : Fields) × (extract_model as_any (doc (obj fs)) ≡ (name <> flash_suffix, doc (obj gs)))
      × (get "model" gs ≡ some (str name))
      × ((k : String) → k ≢ "model" → get k gs ≡ (get k fs >>= as_any))
extract_model-flash as_any name fs hs h read = (
  put "model" (str name) hs,
  extract_read as_any name fs hs h read,
  get-put "model" "model" (str name) hs,
  λ k other. get-put_other k "model" (str name) hs other ∙ get-any_fields as_any k fs hs read,
)

-- A body that is the JSON text `null` decodes to a nil map without an error, and every function
-- that writes to the map panics.
pub null_body_panics :
    (as_any : AsAny) (budget : ℕ)
    → (inject_disable_thinking as_any (doc null) ≡ panicked)
      × (inject_thinking_token_budget (doc null) budget ≡ panicked)
unfolding inject_disable_thinking inject_thinking_token_budget
null_body_panics as_any budget = (refl, refl)
