-- ===== src/Agent/Anthropic/Turns.antt =====
-- agent/internal/agent/anthropic.go: a conversation of the Anthropic API on its way through the
-- internal messages and back.
use lazy_vllm.Prelude.{
  ◌≡◌, refl, ap, ◌∙◌, String, Bool, true, false, not, some, List, [], ◌∷◌, ◌++◌, map, keep, All,
  Bool-cases, inl, inr,
}
use lazy_vllm.Json.{Json, str}
use lazy_vllm.Agent.{message, decoded, anthropic_blocks, ChatMessage, AnthropicContentBlock}
use lazy_vllm.Agent.History.{extract_text_value, extract_text_content}
use lazy_vllm.Agent.Anthropic.{
  JsonText, AnthropicMessage, is_result, is_use, use_call, tool_message, convert_messages,
  convert_anthropic_user_msg, convert_anthropic_assistant_msg, decode_anthropic_blocks,
  extract_anthropic_text, remaining_content,
}
use lazy_vllm.Agent.Anthropic.Wire.{
  block_of_type, user_message, use_block, anthropic_messages, tool_msg_to_result_block,
  content_to_blocks,
}

-- What a model asks of a tool, and what the tool returned.
pub record Use : Type 0 where
  pub id : String
  pub name : String
  pub input : Json

pub record Outcome : Type 0 where
  pub id : String
  pub text : String

pub data Turn : Type 0 where
  asked : String → Turn
  shown : AnthropicContentBlock → List AnthropicContentBlock → Turn
  returned : Outcome → List Outcome → Turn
  answered : List AnthropicContentBlock → List Use → Turn

abbrev pub result_block : Outcome → AnthropicContentBlock
result_block o = record (block_of_type "tool_result") {
  tool_use_id = o.id;
  content = some (str o.text);
}

abbrev pub request_block : Use → AnthropicContentBlock
request_block u = record (block_of_type "tool_use") {
  id = u.id;
  name = u.name;
  input = some u.input;
}

-- A turn as the API has it.
abbrev pub wire : Turn → AnthropicMessage
wire (asked s) = user_message (decoded (str s))
wire (shown b bs) = user_message (anthropic_blocks (b ∷ bs))
wire (returned o os) = user_message (anthropic_blocks (map result_block (o ∷ os)))
wire (answered bs us) = record {
  role = "assistant";
  content = anthropic_blocks (bs ++ map request_block us);
}

abbrev pub is_returned : Turn → Bool
is_returned (returned _ _) = true
is_returned _ = false

module _ (j : JsonText) where
  -- The blocks of a turn are of its kind, the text of a tool's input is read back as that input, and
  -- the results of tools are in one turn, not in two in a row.
  abbrev pub IsTurn : Bool → Turn → Type 0
  IsTurn before (asked s) = before ≡ before
  IsTurn before (shown b bs) = All (λ c. is_result c ≡ false) (b ∷ bs)
  IsTurn before (returned o os) = before ≡ false
  IsTurn before (answered bs us) =
      All (λ c. is_use c ≡ false) bs × All (λ u. j.decode (j.encode u.input) ≡ some u.input) us

  abbrev pub IsConversation : Bool → List Turn → Type 0
  IsConversation before [] = before ≡ before
  IsConversation before (t ∷ ts) = IsTurn before t × IsConversation (is_returned t) ts

module _ {A : Type 0} where
  keep-of_All : (p : A → Bool) (xs : List A) → All (λ x. p x ≡ false) xs → keep p xs ≡ []
  keep-of_All p [] h = refl
  keep-of_All p (x ∷ xs) h = rw (h.0, keep-of_All p xs (h.1))

  keep-not-of_All :
      (p : A → Bool) (xs : List A) → All (λ x. p x ≡ false) xs → keep (λ x. not (p x)) xs ≡ xs
  keep-not-of_All p [] h = refl
  keep-not-of_All p (x ∷ xs) h = rw (h.0, keep-not-of_All p xs (h.1))

  keep-append : (p : A → Bool) (xs ys : List A) → keep p (xs ++ ys) ≡ keep p xs ++ keep p ys
  keep-append p [] ys = refl
  keep-append p (x ∷ xs) ys = elim (Bool-cases (p x)) [
    | inl t ↦ rw (t, keep-append p xs ys)
    | inr f ↦ rw (f, keep-append p xs ys)
  ]

  append_nil : (xs : List A) → xs ++ [] ≡ xs
  append_nil [] = refl
  append_nil (x ∷ xs) = ap (λ r. x ∷ r) (append_nil xs)

  append_assoc : (xs ys zs : List A) → (xs ++ ys) ++ zs ≡ xs ++ (ys ++ zs)
  append_assoc [] ys zs = refl
  append_assoc (x ∷ xs) ys zs = ap (λ r. x ∷ r) (append_assoc xs ys zs)

keep_results : (os : List Outcome) → keep is_result (map result_block os) ≡ map result_block os
keep_results [] = refl
keep_results (o ∷ os) = ap (λ r. result_block o ∷ r) (keep_results os)

keep_others : (os : List Outcome) → keep (λ b. not (is_result b)) (map result_block os) ≡ []
keep_others [] = refl
keep_others (o ∷ os) = keep_others os

keep_uses : (us : List Use) → keep is_use (map request_block us) ≡ map request_block us
keep_uses [] = refl
keep_uses (u ∷ us) = ap (λ r. request_block u ∷ r) (keep_uses us)

keep_rest : (us : List Use) → keep (λ b. not (is_use b)) (map request_block us) ≡ []
keep_rest [] = refl
keep_rest (u ∷ us) = keep_rest us

pub blocks-remaining :
    (bs : List AnthropicContentBlock) → content_to_blocks (remaining_content bs) ≡ bs
blocks-remaining [] = refl
blocks-remaining (b ∷ bs) = refl

module _ (j : JsonText) where
  pub use-call :
      (us : List Use)
      → All (λ u. j.decode (j.encode u.input) ≡ some u.input) us
      → map (use_block j) (map (use_call j) (map request_block us)) ≡ map request_block us
  use-call [] h = refl
  use-call (u ∷ us) (e, h) = rw (e, use-call us h)

  pub convert-shown :
      (b : AnthropicContentBlock) (bs : List AnthropicContentBlock) (ms : List AnthropicMessage)
      → All (λ c. is_result c ≡ false) (b ∷ bs)
      → convert_messages j (wire (shown b bs) ∷ ms)
        ≡ message "user" (anthropic_blocks (b ∷ bs)) ∷ convert_messages j ms
  unfolding convert_messages convert_anthropic_user_msg decode_anthropic_blocks
  convert-shown b bs ms h =
      rw (keep-of_All is_result (b ∷ bs) h, keep-not-of_All is_result (b ∷ bs) h)

  pub convert-returned :
      (o : Outcome) (os : List Outcome) (ms : List AnthropicMessage)
      → convert_messages j (wire (returned o os) ∷ ms)
        ≡ map tool_message (map result_block (o ∷ os)) ++ convert_messages j ms
  unfolding convert_messages convert_anthropic_user_msg decode_anthropic_blocks
  convert-returned o os ms =
      rw (keep_results os, keep_others os, append_nil (map tool_message (map result_block os)))

  pub convert-answered :
      (bs : List AnthropicContentBlock) (us : List Use) (ms : List AnthropicMessage)
      → All (λ c. is_use c ≡ false) bs
      → convert_messages j (wire (answered bs us) ∷ ms)
        ≡ record (message "assistant" (remaining_content bs)) {
          tool_calls = map (use_call j) (map request_block us);
        }
          ∷ convert_messages j ms
  unfolding convert_messages convert_anthropic_assistant_msg decode_anthropic_blocks
  convert-answered bs us ms h = rw (
    keep-append is_use bs (map request_block us),
    keep-append (λ b. not (is_use b)) bs (map request_block us),
    keep-of_All is_use bs h,
    keep-not-of_All is_use bs h,
    keep_uses us,
    keep_rest us,
    append_nil bs,
  )

  -- The results of a turn wait until the next message.
  pub messages-results :
      (waiting : List AnthropicContentBlock) (os : List Outcome) (ms : List ChatMessage)
      → anthropic_messages j waiting (map tool_message (map result_block os) ++ ms)
        ≡ anthropic_messages j (waiting ++ map result_block os) ms
  unfolding anthropic_messages tool_msg_to_result_block extract_anthropic_text extract_text_content
      extract_text_value
  messages-results waiting [] ms = rw (append_nil waiting)
  messages-results waiting (o ∷ os) ms =
      messages-results (waiting ++ result_block o ∷ []) os ms
      ∙ ap (λ w. anthropic_messages j w ms)
          (append_assoc waiting (result_block o ∷ []) (map result_block os))
