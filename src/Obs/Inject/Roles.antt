-- ===== src/Obs/Inject/Roles.antt =====
-- The reminders change the contents of messages alone.
use lazy_vllm.Prelude.{
  ◌≡◌, refl, ap, ◌≢◌, String, Bool, false, Option, none, some, List, [], ◌∷◌, arith, eq_iff,
}
use lazy_vllm.Json.{Json, Map, null_map, map_of, entry}
use lazy_vllm.Json.Laws.{get-put}
use lazy_vllm.Obs.Inject.{
  set_entry, put_back, remind_text, remind_anthropic, remind_anthropic_all, remind_openai,
  remind_openai_all,
}

-- Two lists of messages that agree on every key but the content.
pub data AgreeButContent : List Map → List Map → Type 0 where
  nothing : AgreeButContent [] []
  message :
      {m m' : Map} {ms ms' : List Map}
      → ((k : String) → k ≢ "content" → entry k m' ≡ entry k m)
      → AgreeButContent ms ms'
      → AgreeButContent (m ∷ ms) (m' ∷ ms')

entry-set_entry :
    (k : String) (v : Json) (m : Map)
    → k ≢ "content"
    → entry k (set_entry "content" v m) ≡ entry k m
entry-set_entry k v null_map h = refl
entry-set_entry k v (map_of fs) h = ground (arith, get-put k "content" v fs, eq_iff "content" k)

entry-remind_text :
    (reminder k : String) (m m' : Map)
    → remind_text reminder m ≡ some m'
    → k ≢ "content"
    → entry k m' ≡ entry k m
entry-remind_text reminder k m m' h ne = grind (arith, entry-set_entry)

entry-remind_anthropic :
    (reminder k : String) (m m' : Map)
    → remind_anthropic reminder m ≡ some m'
    → k ≢ "content"
    → entry k m' ≡ entry k m
unfolding remind_anthropic
entry-remind_anthropic reminder k m m' h ne = grind (arith, entry-set_entry)

entry-remind_openai :
    (reminder k : String) (m m' : Map) (later : List Map)
    → remind_openai reminder m later ≡ some m'
    → k ≢ "content"
    → entry k m' ≡ entry k m
unfolding remind_openai
entry-remind_openai reminder k m m' later h ne = grind (arith, entry-remind_text)

put_back-AgreeButContent :
    (m : Map) (r : Option Map) (p : List Map × Bool) (ms : List Map)
    → ((m' : Map) → r ≡ some m' → (k : String) → k ≢ "content" → entry k m' ≡ entry k m)
    → AgreeButContent ms p.0
    → AgreeButContent (m ∷ ms) (put_back m r p).0
put_back-AgreeButContent m none (ms', b) ms h rest = message (λ k ne. refl) rest
put_back-AgreeButContent m (some m') (ms', b) ms h rest = message (h m' refl) rest

put_back-unmodified :
    (m : Map) (r : Option Map) (p : List Map × Bool) (ms : List Map)
    → (p.1 ≡ false → p.0 ≡ ms)
    → (put_back m r p).1 ≡ false
    → (put_back m r p).0 ≡ m ∷ ms
put_back-unmodified m none (ms', b) ms h e = ap (λ l. m ∷ l) (h e)
put_back-unmodified m (some m') (ms', b) ms h e = cc

-- The reminder in a request to Anthropic's API leaves the number and the order of the messages and
-- every key of a message but its content, and where it reports no change it has made none.
pub remind_anthropic_all_sound :
    (reminder : String) (ms : List Map)
    → AgreeButContent ms (remind_anthropic_all reminder ms).0
      × ((remind_anthropic_all reminder ms).1 ≡ false → (remind_anthropic_all reminder ms).0 ≡ ms)
unfolding remind_anthropic_all
remind_anthropic_all_sound reminder [] = (nothing, λ e. refl)
remind_anthropic_all_sound reminder (m ∷ ms) =
    let (agree, same) = remind_anthropic_all_sound reminder ms in
    let rest = remind_anthropic_all reminder ms in
    (
      put_back-AgreeButContent m (remind_anthropic reminder m) rest ms
          (λ m' e k ne. entry-remind_anthropic reminder k m m' e ne) agree,
      put_back-unmodified m (remind_anthropic reminder m) rest ms same,
    )

-- The reminder in a request to OpenAI's API leaves the number and the order of the messages and
-- every key of a message but its content, and where it reports no change it has made none.
pub remind_openai_all_sound :
    (reminder : String) (ms : List Map)
    → AgreeButContent ms (remind_openai_all reminder ms).0
      × ((remind_openai_all reminder ms).1 ≡ false → (remind_openai_all reminder ms).0 ≡ ms)
unfolding remind_openai_all
remind_openai_all_sound reminder [] = (nothing, λ e. refl)
remind_openai_all_sound reminder (m ∷ ms) =
    let (agree, same) = remind_openai_all_sound reminder ms in
    let rest = remind_openai_all reminder ms in
    (
      put_back-AgreeButContent m (remind_openai reminder m ms) rest ms
          (λ m' e k ne. entry-remind_openai reminder k m m' ms e ne) agree,
      put_back-unmodified m (remind_openai reminder m ms) rest ms same,
    )
