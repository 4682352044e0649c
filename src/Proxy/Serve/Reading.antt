-- ===== src/Proxy/Serve/Reading.antt =====
-- proxy/main.go: which requests change the state of the server.
use lazy_vllm.Prelude.{
  ◌≡◌, ◌≢◌, refl, Bool, true, false, ◌||◌, ◌&&◌, String, List, [], ◌∷◌, inl, inr, Bool-cases,
  str_eq, eq_iff, if◌then◌else◌,
}
use lazy_vllm.Text.Chars.{Chars}
use lazy_vllm.Server.Attribution.{Passed, refused, anonymous, attributed, attribution_middleware}
use lazy_vllm.Proxy.{Incoming}
use lazy_vllm.Proxy.Logging.{Moment}
use lazy_vllm.Proxy.Mux.{
  Endpoint, health, metrics, chat_completions, messages, models, log_level, logs_ui, sessions_list,
  session_detail, raw_request, tools_detail, generic, names, is_clean, got, is_get, behind_root,
  endpoint_of,
}
use lazy_vllm.Proxy.Serve.{
  HttpRequest, World, State, run_endpoint, dispatch, after_middleware, serve,
}

-- Whether an endpoint leaves the state alone.
abbrev reads : Endpoint → Bool
reads chat_completions = false
reads messages = false
reads log_level = false
reads _ = true

reads-if :
    (b : Bool) (x y : Endpoint)
    → reads x ≡ true
    → reads y ≡ true
    → reads (if b then x else y) ≡ true
reads-if true x y h g = h
reads-if false x y h g = g

reads-got : (ss : List String) → reads (got ss) ≡ true
reads-got [] = refl
reads-got (a ∷ []) =
    reads-if (str_eq a "health") _ _ refl (reads-if (str_eq a "metrics") _ _ refl refl)
reads-got (a ∷ b ∷ []) = reads-if (str_eq a "v1" && str_eq b "models") _ _ refl (
    reads-if (str_eq a "ui" && str_eq b "logs") _ _ refl
      (reads-if (str_eq a "api" && str_eq b "sessions") _ _ refl refl))
reads-got (a ∷ b ∷ id ∷ []) =
    reads-if (str_eq a "api" && str_eq b "sessions") _ _ (reads-if (str_eq id "") _ _ refl refl) (
      reads-if (str_eq a "api" && str_eq b "tools") _ _ (reads-if (str_eq id "") _ _ refl refl)
        refl)
reads-got (a ∷ b ∷ id ∷ c ∷ []) =
    reads-if (str_eq a "api" && (str_eq b "sessions" && str_eq c "raw")) _ _
      (reads-if (str_eq id "") _ _ refl refl) refl
reads-got (a ∷ b ∷ id ∷ c ∷ d ∷ ss) = refl

reads-endpoint_of :
    (method : String) (path : Chars) → method ≢ "POST" → reads (endpoint_of method path) ≡ true
unfolding endpoint_of
reads-endpoint_of method path h = elim (Bool-cases (str_eq method "POST")) [
  | inl t ↦ absurd (h ((eq_iff method "POST").0 t))
  | inr t ↦ rw t (reads-if (is_get method) _ _ (reads-got (behind_root (names path))) refl)
]

module _ (w : World) (at : Moment) where
  run_endpoint-reads :
      (e : Endpoint) (r : Incoming) (req : HttpRequest) (st : State)
      → reads e ≡ true
      → (run_endpoint w at e r req st).1 ≡ st
  unfolding run_endpoint
  run_endpoint-reads health r req st h = refl
  run_endpoint-reads metrics r req st h = refl
  run_endpoint-reads chat_completions r req st h = cc
  run_endpoint-reads messages r req st h = cc
  run_endpoint-reads models r req st h = refl
  run_endpoint-reads log_level r req st h = cc
  run_endpoint-reads logs_ui r req st h = refl
  run_endpoint-reads sessions_list r req st h = refl
  run_endpoint-reads (session_detail id) r req st h = refl
  run_endpoint-reads (raw_request id) r req st h = refl
  run_endpoint-reads (tools_detail id) r req st h = refl
  run_endpoint-reads generic r req st h = elim (Bool-cases req.readable) [
    | inl t ↦ rw t refl
    | inr t ↦ rw t refl
  ]

  dispatch-reads :
      (req : HttpRequest) (path : Chars) (r : Incoming) (st : State)
      → req.method ≢ "POST"
      → (dispatch w at req path r st).1 ≡ st
  unfolding dispatch
  dispatch-reads req path r st h =
      elim (Bool-cases (str_eq req.method "CONNECT" || is_clean (names path))) [
        | inl t ↦ rw t (
            run_endpoint-reads (endpoint_of req.method path) r req st
              (reads-endpoint_of req.method path h))
        | inr t ↦ rw t refl
      ]

  after_middleware-reads :
      (req : HttpRequest) (p : Passed) (st : State)
      → req.method ≢ "POST"
      → (after_middleware w at req p st).1 ≡ st
  after_middleware-reads req (refused text) st h = refl
  after_middleware-reads req anonymous st h = dispatch-reads req req.path _ st h
  after_middleware-reads req (attributed a) st h = dispatch-reads req a.remaining _ st h

  -- A request of another method than POST leaves the session store and the level of the log as they
  -- were.
  pub serve-reads :
      (req : HttpRequest) (st : State) → req.method ≢ "POST" → (serve w at req st).1 ≡ st
  unfolding serve
  serve-reads req st h =
      after_middleware-reads req (attribution_middleware w.decode w.server.providers req.path) st h
