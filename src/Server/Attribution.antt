-- ===== src/Server/Attribution.antt =====
-- proxy/internal/proxy/context.go: who a request is attributed to by its path, and the middleware
-- that reads it. `decode` is `base64.RawURLEncoding.DecodeString`, or nothing after its error.
pub mod Paths
use Prim.Native.Char.{Char}
use lazy_vllm.Prelude.{
  ℕ, ◌+◌, String, ◌<>◌, Bool, true, false, Option, none, some, List, [], ◌∷◌, ◌++◌, take, drop,
  ◌||◌, str_eq, if◌then◌else◌,
}
use lazy_vllm.Text.{strip_prefix, has_prefix, index}
use lazy_vllm.Text.Chars.{Chars, chars, of_chars, char_eq}
use lazy_vllm.Config.{Provider}
use lazy_vllm.Server.{lookup_provider}

pub record Attribution : Type 0 where
  pub provider : String
  pub user : String
  pub project : String
  pub remaining : Chars

infixl 5 ◌>>=◌
abbrev ◌>>=◌ {ℓ κ} : {A : Type ℓ} {B : Type κ} → Option A → (A → Option B) → Option B
none >>= k = none
some a >>= k = k a

abbrev pub provider_prefix : Chars
unfolding chars
provider_prefix = chars "/provider/"

abbrev pub user_prefix : Chars
unfolding chars
user_prefix = chars "user/"

abbrev pub project_prefix : Chars
unfolding chars
project_prefix = chars "project/"

abbrev pub old_prefix : Chars
unfolding chars
old_prefix = chars "/user/"

abbrev pub slash : Chars
unfolding chars
slash = chars "/"

-- `rest[:idx]` and `rest[idx+1:]`, where `idx` is the first slash.
abbrev pub segment_at : Chars → Option ℕ → Option (Chars × Chars)
segment_at rest none = none
segment_at rest (some i) = some (take i rest, drop (i + 1) rest)

-- The last segment keeps its slash for the remaining path.
abbrev pub last_at : Chars → Option ℕ → Chars × Chars
last_at rest none = (rest, slash)
last_at rest (some i) = (take i rest, drop i rest)

abbrev pub is_empty : Chars → Bool
is_empty [] = true
is_empty (c ∷ s) = false

abbrev pub or_encoded : Chars → Option Chars → Chars
or_encoded encoded none = encoded
or_encoded encoded (some project) = project

abbrev pub attributed_to :
    (Chars → Option Chars) → Chars → Chars → Chars × Chars → Option Attribution
attributed_to decode provider user (encoded, remaining) =
    if is_empty provider || (is_empty user || is_empty encoded)
    then none
    else some (record {
      provider = of_chars provider;
      user = of_chars user;
      project = of_chars (or_encoded encoded (decode encoded));
      remaining = remaining;
    })

-- `extractAttribution`: nothing unless the whole path matches.
unfoldable pub extract_attribution : (Chars → Option Chars) → Chars → Option Attribution
extract_attribution decode path = do
  rest ← strip_prefix provider_prefix path
  (provider, after) ← segment_at rest (index slash rest)
  named ← strip_prefix user_prefix after
  (user, behind) ← segment_at named (index slash named)
  last ← strip_prefix project_prefix behind
  attributed_to decode provider user (last_at last (index slash last))

-- What the middleware does with a request: it answers 400, or passes the request on.
pub data Passed : Type 0 where
  refused : String → Passed
  anonymous : Passed
  attributed : Attribution → Passed

abbrev pub is_some {ℓ} : {A : Type ℓ} → Option A → Bool
is_some none = false
is_some (some _) = true

abbrev pub checked : List Provider → Option Attribution → Passed
checked providers none =
    refused
      "malformed attribution path: expected /provider/{name}/user/{user}/project/{base64url}/..."
checked providers (some a) =
    if str_eq a.provider "local" || is_some (lookup_provider providers a.provider)
    then attributed a
    else refused ("unknown provider: " <> a.provider)

-- `AttributionMiddleware`, on the path of a request.
unfoldable pub attribution_middleware : (Chars → Option Chars) → List Provider → Chars → Passed
unfolding extract_attribution
attribution_middleware decode providers path =
    if has_prefix old_prefix path
    then refused "partial attribution path: include /provider/{name}/ prefix"
    else if has_prefix provider_prefix path
    then checked providers (extract_attribution decode path)
    else anonymous
