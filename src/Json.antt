-- ===== src/Json.antt =====
-- Decoded JSON, as the Go code sees it through encoding/json: the value of a `json.RawMessage`
-- or of an `any`. An object is the Go map that it decodes to, with its entries in a list; the
-- order of a map's entries means nothing to the program, and encoding/json sorts the keys when it
-- writes one. `Body` is a request or response body: a document, or text that is not JSON.
pub mod Laws
pub mod Codec
pub mod Structs
pub mod Thinking
use lazy_vllm.Prelude.{
  ℕ, String, Bool, true, false, Option, none, some, List, [], ◌∷◌, str_eq, ltb, if◌then◌else◌,
}

-- `negsuc n` is -(n + 1).
pub data ℤ : Type 0 where
  pos : ℕ → ℤ
  negsuc : ℕ → ℤ

-- `real` is a number that is not written as an integer, by its text.
mutual
  pub data Json : Type 0 where
    null : Json
    bool : Bool → Json
    int : ℤ → Json
    real : String → Json
    str : String → Json
    arr : Items → Json
    obj : Fields → Json

  pub data Items : Type 0 where
    nil : Items
    cons : Json → Items → Items

  pub data Fields : Type 0 where
    end : Fields
    field : String → Json → Fields → Fields

pub data Body : Type 0 where
  doc : Json → Body
  malformed : String → Body

abbrev pub elements : Items → List Json
elements nil = []
elements (cons v vs) = v ∷ elements vs

abbrev pub of_list : List Json → Items
of_list [] = nil
of_list (v ∷ vs) = cons v (of_list vs)

-- `m[k]` with its `ok`.
unfoldable pub get : String → Fields → Option Json
get k end = none
get k (field j v fs) = if str_eq j k then some v else get k fs

-- `m[k] = v`.
unfoldable pub put : String → Json → Fields → Fields
put k v end = field k v end
put k v (field j w fs) = if str_eq j k then field j v fs else field j w (put k v fs)

-- `delete(m, k)`.
unfoldable pub delete : String → Fields → Fields
delete k end = end
delete k (field j w fs) = let rest = delete k fs in if str_eq j k then rest else field j w rest

-- `json.Unmarshal` into a fresh variable: `none` is an error. A JSON null leaves the variable at
-- its zero value, so a map is nil (`null_map`), and an assignment to an entry of it panics.
pub data Map : Type 0 where
  null_map : Map
  map_of : Fields → Map

abbrev pub as_map : Json → Option Map
as_map null = some null_map
as_map (obj fs) = some (map_of fs)
as_map _ = none

abbrev pub as_string : Json → Option String
as_string null = some ""
as_string (str s) = some s
as_string _ = none

abbrev pub as_bool : Json → Option Bool
as_bool null = some false
as_bool (bool b) = some b
as_bool _ = none

abbrev pub as_array : Json → Option (List Json)
as_array null = some []
as_array (arr vs) = some (elements vs)
as_array _ = none

-- Into a Go `int` of 64 bits: a number out of range is an error.
abbrev pub as_int : Json → Option ℤ
as_int null = some (pos 0)
as_int (int (pos n)) = if ltb n 9223372036854775808 then some (pos n) else none
as_int (int (negsuc n)) = if ltb n 9223372036854775808 then some (negsuc n) else none
as_int _ = none

-- `m[k]` of a map, which may be nil.
abbrev pub entry : String → Map → Option Json
entry k null_map = none
entry k (map_of fs) = get k fs

-- `json.Unmarshal(m[k], &s)` with its error dropped: a missing entry is empty input, an error.
abbrev pub string_or_zero : Option Json → String
string_or_zero (some (str s)) = s
string_or_zero _ = ""

-- `v, ok := m[k].(string)`: null is not a string.
abbrev pub asserted_string : Option Json → Option String
asserted_string (some (str s)) = some s
asserted_string _ = none

-- Every element decodes, or the slice as a whole does not.
abbrev pub all_maps : List Json → Option (List Map)
all_maps [] = some []
all_maps (v ∷ vs) = elim (as_map v) [
  | none ↦ none
  | some m ↦ elim (all_maps vs) [ none ↦ none | some ms ↦ some (m ∷ ms) ]
]

-- Into `[]map[string]json.RawMessage`.
abbrev pub as_maps : Json → Option (List Map)
as_maps v = elim (as_array v) [ none ↦ none | some vs ↦ all_maps vs ]

-- A string field of a struct that is decoded: absent and null leave it empty.
abbrev pub field_string : String → Fields → Option String
field_string k fs = elim (get k fs) [ none ↦ some "" | some v ↦ as_string v ]

-- A string field of a struct inside a struct.
abbrev pub inner_string : String → String → Fields → Option String
inner_string k j fs = elim (get k fs) [
  | none ↦ some ""
  | some v ↦ elim (as_map v) [
    | none ↦ none
    | some m ↦ elim (entry j m) [ none ↦ some "" | some w ↦ as_string w ]
  ]
]

-- `json.Marshal` of a map and of a slice of maps; a nil map is null.
abbrev pub of_map : Map → Json
of_map null_map = null
of_map (map_of fs) = obj fs

abbrev pub items_of_maps : List Map → Items
items_of_maps [] = nil
items_of_maps (m ∷ ms) = cons (of_map m) (items_of_maps ms)

abbrev pub of_maps : List Map → Json
of_maps ms = arr (items_of_maps ms)
