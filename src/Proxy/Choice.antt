-- ===== src/Proxy/Choice.antt =====
-- proxy/internal/proxy/handlers.go: what the body that is forwarded keeps of the client's.
use lazy_vllm.Prelude.{
  ◌≡◌, ◌≢◌, ◌⊎◌, true, Option-cases, refl, ap, ◌∙◌, String, false, Option, none, inl, inr,
  Bool-cases, arith,
}
use lazy_vllm.Json.{Json, obj, Fields, get, put, Body, doc, asserted_string, pos, int}
use lazy_vllm.Server.{
  ◌>>=◌, any_fields, without_thinking, Result, ok, inject_disable_thinking,
  inject_thinking_token_budget, compute_thinking_budget,
}
use lazy_vllm.Server.Inject.{
  get-put_other, inject_read, inject_unread, get-any_fields, get-without_thinking,
}
use lazy_vllm.Proxy.{
  Server, Incoming, Call, is_foreign, effective_flash, instructed, budgeted, body_to_forward,
}

-- A key that the proxy does not write when it has no session log.
abbrev pub IsOther : String → Type 0
IsOther k = (k ≢ "chat_template_kwargs") × (k ≢ "thinking_token_budget") × (k ≢ "model")

-- A body is an object that has these values under the other keys.
abbrev pub Keeps : (String → Option Json) → Result Body → Type 0
Keeps value b =
    (gs : Fields) × (b ≡ ok (doc (obj gs))) × ((k : String) → IsOther k → get k gs ≡ value k)

abbrev pub unchanged : Fields → String → Option Json
unchanged fs k = get k fs

-- The values as encoding/json writes them when it has read them into `any`.
abbrev pub read_as_any : Server → Fields → String → Option Json
read_as_any s fs k = get k fs >>= s.as_any

-- Thinking is disabled for a model of this host, and no number in the body is too large for a float.
abbrev pub IsRead : Server → Incoming → Call → Fields → Type 0
IsRead s r c fs =
    (is_foreign r.provider ≡ false) × (effective_flash s c ≡ true) × (any_fields s.as_any fs ≢ none)

disable_thinking-Keeps :
    (s : Server) (fs : Fields)
    → Keeps (unchanged fs) (inject_disable_thinking s.as_any (doc (obj fs)))
      ⊎ (Keeps (read_as_any s fs) (inject_disable_thinking s.as_any (doc (obj fs)))
          × (any_fields s.as_any fs ≢ none))
disable_thinking-Keeps s fs = elim (Option-cases (any_fields s.as_any fs)) [
  | inl large ↦ inl (fs, inject_unread s.as_any fs large, λ k other. refl)
  | inr (gs, read) ↦
      (let model = asserted_string (get "model" fs) in
        inr (
          (
            without_thinking model gs,
            inject_read s.as_any fs gs read,
            λ k other.
                get-without_thinking k model gs (other.2) (other.0)
                ∙ get-any_fields s.as_any k fs gs read,
          ),
          λ large. absurd (ground (arith, read, large)),
        ))
]

budgeted-Keeps :
    (s : Server) (c : Call) (fs : Fields) → Keeps (unchanged fs) (budgeted s c (ok (doc (obj fs))))
unfolding inject_thinking_token_budget
budgeted-Keeps s c fs =
    let budget = int (pos ((compute_thinking_budget s.fraction_cap c.body).0)) in
    (
      put "thinking_token_budget" budget fs,
      refl,
      λ k other. get-put_other k "thinking_token_budget" budget fs (other.1),
    )

instructed_without_log : (s : Server) (c : Call) → instructed s false c ≡ ok c.body
instructed_without_log s c = elim (Bool-cases c.inject_obs) [ inl t ↦ rw t | inr f ↦ rw f ]

-- Without a session log, the body that is forwarded for an object is an object, whichever the
-- backend, the model and the client's settings. Under every key other than the template's arguments,
-- the thinking budget and the model it has the same value, or, where thinking is disabled for a model
-- of this host and no number in the body is too large for a float, the value as encoding/json writes
-- it when it has read it into an `any`.
pub body_to_forward-Keeps :
    (s : Server) (r : Incoming) (c : Call) (fs : Fields)
    → c.body ≡ doc (obj fs)
    → Keeps (unchanged fs) (body_to_forward s false r c)
      ⊎ (Keeps (read_as_any s fs) (body_to_forward s false r c) × IsRead s r c fs)
unfolding body_to_forward
body_to_forward-Keeps s r c fs is =
    let plain : instructed s false c ≡ ok (doc (obj fs)) = instructed_without_log s c ∙ ap ok is in
    elim (Bool-cases (is_foreign r.provider)) [
      | inl foreign ↦ rw (foreign, plain) (inl (fs, refl, λ k other. refl))
      | inr domestic ↦ elim (Bool-cases (effective_flash s c)) [
        | inl flash ↦
            rw (domestic, flash, is)
              (elim (disable_thinking-Keeps s fs) [
                | inl same ↦ inl same
                | inr (read, fits) ↦ inr (read, (refl, refl, fits))
              ])
        | inr thinks ↦ elim (Bool-cases c.inject_thinking_budget) [
          | inl budget ↦ rw (domestic, thinks, budget, plain) (inl (budgeted-Keeps s c fs))
          | inr free ↦ rw (domestic, thinks, free, plain) (inl (fs, refl, λ k other. refl))
        ]
      ]
    ]
