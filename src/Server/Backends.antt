-- ===== src/Server/Backends.antt =====
-- Choosing a backend, and the list of distinct URLs.
use mathlib.Core.Path.{subst}
use lazy_vllm.Prelude.{
  String, Bool, true, false, ◌||◌, Option, none, some, List, [], ◌∷◌, ◌≡◌, refl, ◌≢◌, ◌⊎◌, inl, inr,
  All, any, map, arith, str_eq, eq_iff, Bool-cases,
}
use lazy_vllm.Config.{Backend}
use lazy_vllm.Server.{find_named, or_first, find_backend, unique_urls_from, unique_urls}

abbrev pub NoneNamed : String → List Backend → Type 0
NoneNamed model = All (λ b. b.name ≢ model)

-- The first of the list with the name.
pub data IsFirstNamed (model : String) (b : Backend) : List Backend → Type 0 where
  here : {bs : List Backend} → b.name ≡ model → IsFirstNamed model b (b ∷ bs)
  later :
      {x : Backend} {bs : List Backend}
      → x.name ≢ model
      → IsFirstNamed model b bs
      → IsFirstNamed model b (x ∷ bs)

find_named-some :
    (bs : List Backend) (model : String) (b : Backend)
    → find_named bs model ≡ some b
    → IsFirstNamed model b bs
unfolding find_named
find_named-some [] model b h = cc
find_named-some (x ∷ bs) model b h = elim (Bool-cases (str_eq x.name model)) [
  | inl same ↦
      let it : x ≡ b = ground arith in
      subst (λ y. IsFirstNamed model y (x ∷ bs)) it (here ((eq_iff x.name model).0 same))
  | inr other ↦
      later (ground (arith, eq_iff x.name model)) (find_named-some bs model b (ground arith))
]

find_named-none :
    (bs : List Backend) (model : String) → find_named bs model ≡ none → NoneNamed model bs
unfolding find_named
find_named-none [] model h = tt
find_named-none (x ∷ bs) model h =
    (ground (arith, eq_iff x.name model), find_named-none bs model (ground arith))

-- A model is served by the first backend of its name; where none has the name, by the first of all.
pub find_backend_sound :
    (b : Backend) (bs : List Backend) (model : String)
    → IsFirstNamed model (find_backend (b ∷ bs) model) (b ∷ bs)
      ⊎ (NoneNamed model (b ∷ bs) × (find_backend (b ∷ bs) model ≡ b))
unfolding find_backend
find_backend_sound b bs model = choose (find_named (b ∷ bs) model) refl
  where
    choose :
        (found : Option Backend)
        → find_named (b ∷ bs) model ≡ found
        → IsFirstNamed model (or_first found (b ∷ bs)) (b ∷ bs)
          ⊎ (NoneNamed model (b ∷ bs) × (or_first found (b ∷ bs) ≡ b))
    choose none e = inr (find_named-none (b ∷ bs) model e, refl)
    choose (some x) e = inl (find_named-some (b ∷ bs) model x e)

abbrev pub contains : List String → String → Bool
contains urls u = any (λ v. str_eq v u) urls

abbrev pub urls_of : List Backend → List String
urls_of = map (λ b. b.url)

contains-unique_urls_from :
    (u : String) (seen : List String) (bs : List Backend)
    → (contains seen u || contains (unique_urls_from seen bs) u)
      ≡ (contains seen u || contains (urls_of bs) u)
unfolding unique_urls_from
contains-unique_urls_from u seen [] = refl
contains-unique_urls_from u seen (r ∷ rs) = ground (
  arith,
  eq_iff r.url u,
  contains-unique_urls_from u seen rs,
  contains-unique_urls_from u (r.url ∷ seen) rs,
)

abbrev pub Distinct : List String → Type 0
Distinct [] = Unit
Distinct (u ∷ us) = (contains us u ≡ false) × Distinct us

unique_urls_from-fresh :
    (u : String) (seen : List String) (bs : List Backend)
    → contains seen u ≡ true
    → contains (unique_urls_from seen bs) u ≡ false
unfolding unique_urls_from
unique_urls_from-fresh u seen [] h = refl
unique_urls_from-fresh u seen (r ∷ rs) h = ground (
  arith,
  eq_iff r.url u,
  unique_urls_from-fresh u seen rs,
  unique_urls_from-fresh u (r.url ∷ seen) rs,
)

unique_urls_from-Distinct :
    (seen : List String) (bs : List Backend) → Distinct (unique_urls_from seen bs)
unfolding unique_urls_from
unique_urls_from-Distinct seen [] = tt
unique_urls_from-Distinct seen (r ∷ rs) = ground (
  arith,
  eq_iff r.url r.url,
  unique_urls_from-fresh r.url (r.url ∷ seen) rs,
  unique_urls_from-Distinct seen rs,
  unique_urls_from-Distinct (r.url ∷ seen) rs,
)

-- `uniqueURLs` lists the URLs of the backends, each of them once.
pub unique_urls_sound :
    (bs : List Backend)
    → Distinct (unique_urls bs)
      × ((u : String) → contains (unique_urls bs) u ≡ contains (urls_of bs) u)
unfolding unique_urls
unique_urls_sound bs = (unique_urls_from-Distinct [] bs, λ u. contains-unique_urls_from u [] bs)
