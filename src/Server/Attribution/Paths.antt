-- ===== src/Server/Attribution/Paths.antt =====
-- proxy/internal/proxy/context.go: the paths that attribute a request.
use Prim.Native.Char.{Char}
use lazy_vllm.Prelude.{
  suc, ◌+◌, ◌≡◌, refl, ap, ◌∙◌, true, false, ◌||◌, Option, some, List, [], ◌∷◌, ◌++◌, All, take,
  drop, length, drop-append, arith, str_eq,
}
use lazy_vllm.Text.{strip_prefix, has_prefix, index}
use lazy_vllm.Text.Laws.{strip_prefix-append}
use lazy_vllm.Text.Chars.{Chars, of_chars, char_eq, char_beq}
use lazy_vllm.Config.{Provider}
use lazy_vllm.Server.{lookup_provider}
use lazy_vllm.Server.Attribution.{
  Attribution, attributed, provider_prefix, user_prefix, project_prefix, old_prefix, slash, is_some,
  segment_at, last_at, checked, is_empty, or_encoded, extract_attribution, attribution_middleware,
}

abbrev slash_char : Char
slash_char = "/"

-- A segment of a path: it is not empty, and has no slash.
abbrev pub IsSegment : Chars → Type 0
IsSegment s = (is_empty s ≡ false) × All (λ c. char_beq slash_char c ≡ false) s

index-slash :
    (s r : Chars)
    → All (λ c. char_beq slash_char c ≡ false) s
    → index slash (s ++ slash_char ∷ r) ≡ some (length s)
unfolding index strip_prefix slash
index-slash [] r h = refl
index-slash (c ∷ s) r h = rw (h.0, index-slash s r (h.1))

take-length : {A : Type 0} (s r : List A) → take (length s) (s ++ r) ≡ s
take-length [] r = refl
take-length (c ∷ s) r = ap (λ t. c ∷ t) (take-length s r)

drop-length : {A : Type 0} (s : List A) (c : A) (r : List A) → drop (length s + 1) (s ++ c ∷ r) ≡ r
drop-length [] c r = refl
drop-length (d ∷ s) c r =
    let e : suc (length s) + 1 ≡ suc (length s + 1) = omega arith in rw e (drop-length s c r)

segment-append :
    (s r : Chars)
    → IsSegment s
    → segment_at (s ++ slash_char ∷ r) (index slash (s ++ slash_char ∷ r)) ≡ some (s, r)
segment-append s r h =
    rw (index-slash s r (h.1), take-length s (slash_char ∷ r), drop-length s slash_char r)

last-append :
    (s r : Chars)
    → IsSegment s
    → last_at (s ++ slash_char ∷ r) (index slash (s ++ slash_char ∷ r)) ≡ (s, slash_char ∷ r)
last-append s r h =
    rw (index-slash s r (h.1), take-length s (slash_char ∷ r), drop-append s (slash_char ∷ r))

-- The path of a request that is attributed, and what is left of it.
abbrev pub path_of : Chars → Chars → Chars → Chars → Chars
path_of provider user encoded rest =
    provider_prefix
    ++ (provider
        ++ slash_char
          ∷ (user_prefix
              ++ (user ++ slash_char ∷ (project_prefix ++ (encoded ++ slash_char ∷ rest)))))

module _ (decode : Chars → Option Chars) where
  abbrev pub attribution_of : Chars → Chars → Chars → Chars → Attribution
  attribution_of provider user encoded rest = record {
    provider = of_chars provider;
    user = of_chars user;
    project = of_chars (or_encoded encoded (decode encoded));
    remaining = slash_char ∷ rest;
  }

  extract-path_of :
      (p u e rest : Chars)
      → IsSegment p
      → IsSegment u
      → IsSegment e
      → extract_attribution decode (path_of p u e rest) ≡ some (attribution_of p u e rest)
  unfolding extract_attribution
  extract-path_of p u e rest hp hu he = rw (
    strip_prefix-append provider_prefix (
        p
        ++ slash_char
          ∷ (user_prefix ++ (u ++ slash_char ∷ (project_prefix ++ (e ++ slash_char ∷ rest))))),
    segment-append p
        (user_prefix ++ (u ++ slash_char ∷ (project_prefix ++ (e ++ slash_char ∷ rest)))) hp,
    strip_prefix-append user_prefix
        (u ++ slash_char ∷ (project_prefix ++ (e ++ slash_char ∷ rest))),
    segment-append u (project_prefix ++ (e ++ slash_char ∷ rest)) hu,
    strip_prefix-append project_prefix (e ++ slash_char ∷ rest),
    last-append e rest he,
    hp.0,
    hu.0,
    he.0,
  )

  -- A path with a provider, a user and a project that are not empty and have no slash is attributed
  -- to them and passed on with the rest of the path, if the provider is local or configured; the
  -- project is the decoded segment, or the segment itself if it cannot be decoded.
  pub middleware-path_of :
      (providers : List Provider) (p u e rest : Chars)
      → IsSegment p
      → IsSegment u
      → IsSegment e
      → (str_eq (of_chars p) "local" || is_some (lookup_provider providers (of_chars p))) ≡ true
      → attribution_middleware decode providers (path_of p u e rest)
        ≡ attributed (attribution_of p u e rest)
  unfolding attribution_middleware has_prefix strip_prefix old_prefix provider_prefix
  middleware-path_of providers p u e rest hp hu he known =
      ap (checked providers) (extract-path_of p u e rest hp hu he) ∙ rw known
