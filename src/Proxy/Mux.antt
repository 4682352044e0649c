-- ===== src/Proxy/Mux.antt =====
-- proxy/main.go: the patterns of the server of a proxy that keeps sessions, matched as Go's ServeMux
-- does, over paths without escaped characters.
use Prim.Native.Char.{Char}
use lazy_vllm.Prelude.{
  String, Bool, true, false, not, ◌&&◌, ◌||◌, List, [], ◌∷◌, map, str_eq, if◌then◌else◌,
}
use lazy_vllm.Text.Chars.{Chars, of_chars, char_beq}

-- The handlers that the paths name.
pub data Endpoint : Type 0 where
  health metrics chat_completions messages models log_level : Endpoint
  logs_ui sessions_list : Endpoint
  session_detail raw_request tools_detail : String → Endpoint
  generic : Endpoint

-- A path's segments.
abbrev add_char : Char → List Chars → List Chars
add_char c [] = (c ∷ []) ∷ []
add_char c (s ∷ ss) = (c ∷ s) ∷ ss

unfoldable pub segments : Chars → List Chars
segments [] = [] ∷ []
segments (c ∷ s) = let rest = segments s in if char_beq c "/" then [] ∷ rest else add_char c rest

abbrev pub names : Chars → List String
names path = map of_chars (segments path)

-- Whether `cleanPath` leaves the path: no segment but the last is empty, and none is a dot or two.
abbrev is_dots : String → Bool
is_dots s = str_eq s "." || str_eq s ".."

abbrev clean_names : List String → Bool
clean_names [] = true
clean_names (s ∷ []) = not (is_dots s)
clean_names (s ∷ t ∷ ss) = not (str_eq s "" || is_dots s) && clean_names (t ∷ ss)

abbrev pub is_clean : List String → Bool
is_clean [] = false
is_clean (s ∷ ss) = str_eq s "" && clean_names ss

abbrev pub is_get : String → Bool
is_get method = str_eq method "GET" || str_eq method "HEAD"

abbrev pub named_by : String → Endpoint → Endpoint
named_by id e = if str_eq id "" then generic else e

abbrev pub posted : List String → Endpoint
posted (v ∷ a ∷ b ∷ []) =
    if str_eq v "v1" && (str_eq a "chat" && str_eq b "completions")
    then chat_completions
    else generic
posted (v ∷ a ∷ []) = if str_eq v "v1" && str_eq a "messages" then messages else generic
posted (v ∷ []) = if str_eq v "log-level" then log_level else generic
posted _ = generic

abbrev pub got : List String → Endpoint
got (a ∷ []) = if str_eq a "health" then health else if str_eq a "metrics" then metrics else generic
got (a ∷ b ∷ []) =
    if str_eq a "v1" && str_eq b "models"
    then models
    else if str_eq a "ui" && str_eq b "logs"
    then logs_ui
    else if str_eq a "api" && str_eq b "sessions"
    then sessions_list
    else generic
got (a ∷ b ∷ id ∷ []) =
    if str_eq a "api" && str_eq b "sessions"
    then named_by id (session_detail id)
    else if str_eq a "api" && str_eq b "tools"
    then named_by id (tools_detail id)
    else generic
got (a ∷ b ∷ id ∷ c ∷ []) =
    if str_eq a "api" && (str_eq b "sessions" && str_eq c "raw")
    then named_by id (raw_request id)
    else generic
got _ = generic

abbrev pub behind_root : List String → List String
behind_root [] = []
behind_root (_ ∷ ss) = ss

-- The pattern of the mux that a request matches.
unfoldable pub endpoint_of : String → Chars → Endpoint
endpoint_of method path =
    let ss = behind_root (names path) in
    if str_eq method "POST" then posted ss else if is_get method then got ss else generic
