-- ===== src/Proxy/Models.antt =====
-- proxy/internal/proxy/models.go: the listing of models. A text between quotes is read as a string
-- of JSON by `literal`, which has no value where that is no JSON; the text of a document is given by
-- `text_of`. The backends answer in any order, `arrive`.
pub mod Listed
pub mod Clones
use lazy_vllm.Prelude.{
  suc, ℕ, String, ◌<>◌, Bool, true, false, not, ◌&&◌, Option, none, some, List, [], ◌∷◌, ◌++◌, map,
  any, str_eq, leb, ltb, if◌then◌else◌,
}
use lazy_vllm.Json.{
  Json, null, str, obj, arr, end, field, Fields, malformed, get, put, as_map, Map, null_map, map_of,
  as_string, entry, of_list, field_string,
}
use lazy_vllm.Json.Structs.{◌>>=◌, as_struct, list_at}
use lazy_vllm.Config.{Backend}
use lazy_vllm.Server.{unique_urls, flash_suffix}
use lazy_vllm.Router.Classify.{Request}
use lazy_vllm.Proxy.{Server, Incoming, Answer, Upstream, passed, passthrough_headers}

-- The models of a `modelsResponse`.
abbrev models_in : Json → Option (List Json)
models_in v = do fs ← as_struct v; object ← field_string "object" fs; list_at "data" fs

abbrev listing_request : Incoming → String → Request
listing_request r url = record {
  method = "GET";
  url = url <> "/v1/models";
  headers = passed r.header passthrough_headers;
  body = malformed "";
}

abbrev is_success : ℕ → Bool
is_success status = leb 200 status && ltb status 300

-- One backend is asked for its models.
unfoldable pub query_models : Upstream → Incoming → String → Option (List Json)
query_models up r url =
    let req = listing_request r url in
    if not (up.is_valid req.method req.url) then none else elim (up.exchange req) [
      | none ↦ none
      | some a ↦ if is_success a.status then up.decoded req >>= models_in else none
    ]

abbrev or_no_models : Option (List Json) → List Json
or_no_models none = []
or_no_models (some ms) = ms

abbrev pub all_models : List (Option (List Json)) → List Json
all_models [] = []
all_models (o ∷ os) = or_no_models o ++ all_models os

abbrev pub id_of : Json → Option Json
id_of v = as_map v >>= entry "id"

-- A model that arrives, with the bytes of its id, if it has one.
abbrev pub Arrived : Type 0
Arrived = Option String × Json

abbrev pub merge_model :
    (List String → List Arrived) → List String → Option String → Json → List Arrived
merge_model rest seen none v = (none, v) ∷ rest seen
merge_model rest seen (some id) v =
    if any (str_eq id) seen then rest seen else (some id, v) ∷ rest (id ∷ seen)

-- The loop over the models that arrive, by the bytes of the ids that were seen.
unfoldable pub merge_models : List Arrived → List String → List Arrived
merge_models [] seen = []
merge_models ((id, v) ∷ vs) seen = merge_model (merge_models vs) seen id v

-- The models that arrive: `id_text n` is the bytes of the id of the one behind `n` others.
abbrev arrived : (ℕ → Json → String) → ℕ → List Json → List Arrived
arrived id_text n [] = []
arrived id_text n (v ∷ vs) =
    ((do id ← id_of v; some (id_text n id)), v) ∷ arrived id_text (suc n) vs

-- A value that the program writes as a text between quotes.
abbrev spliced : Option String → Option Json
spliced none = none
spliced (some s) = some (str s)

abbrev pub same_string : String → Option String → Bool
same_string id none = false
same_string id (some root) = str_eq root id

abbrev pub with_root : String → Json → Fields → Fields
with_root id new fs = if same_string id (get "root" fs >>= as_string) then put "root" new fs else fs

abbrev cons_some : Option Json → List Json → List Json
cons_some none vs = vs
cons_some (some v) vs = v ∷ vs

module _ (literal : String → Option String) where
  abbrev clone_named : Fields → String → Option Json
  clone_named fs id = do
    new ← spliced (literal (id <> flash_suffix))
    some (obj (with_root id new (put "id" new fs)))

  abbrev clone_of : Map → Option Json
  clone_of null_map = none
  clone_of (map_of fs) = do v ← get "id" fs; id ← as_string v; clone_named fs id

  -- `cloneModelWithFlash`: nothing is nil.
  unfoldable pub clone_model_with_flash : Json → Option Json
  clone_model_with_flash raw = do m ← as_map raw; clone_of m

  -- `injectFlashModels`.
  unfoldable pub inject_flash_models : List Json → List Json
  inject_flash_models [] = []
  inject_flash_models (v ∷ vs) = v ∷ cons_some (clone_model_with_flash v) (inject_flash_models vs)

-- `HandleModels` answers by an error, or the document of the list.
pub data ModelsReply : Type 0 where
  models_error : ℕ → String → ModelsReply
  models_listed : Json → ModelsReply

-- A list without models is nil, which is written as null.
abbrev models_json : List Json → Json
models_json [] = null
models_json (v ∷ vs) = arr (of_list (v ∷ vs))

abbrev list_document : List Json → Json
list_document vs = obj (field "object" (str "list") (field "data" (models_json vs) end))

module _ (id_text : ℕ → Json → String) (literal : String → Option String) where
  -- `HandleModels`.
  unfoldable pub handle_models :
      (List String → List String) → Upstream → Server → Incoming → ModelsReply
  handle_models arrive up s r = elim (unique_urls s.backends) [
    | [] ↦ models_error 502 "no backends configured"
    | u ∷ us ↦ models_listed (
        list_document (
          inject_flash_models literal (
            map (λ a. a.1)
              (merge_models
                (arrived id_text 0 (all_models (map (query_models up r) (arrive (u ∷ us))))) []))))
  ]
