-- ===== src/Proxy/Serve/Attributed.antt =====
-- proxy/main.go: the completions of a user's project reach their handlers.
use lazy_vllm.Prelude.{◌≡◌, refl, ap, ◌∙◌, true, ◌||◌, take, str_eq, ◌∷◌}
use lazy_vllm.Text.Chars.{Chars, chars, of_chars}
use lazy_vllm.Server.{lookup_provider}
use lazy_vllm.Server.Attribution.{is_some, or_encoded, attribution_middleware}
use lazy_vllm.Server.Attribution.Paths.{IsSegment, path_of, middleware-path_of}
use lazy_vllm.Proxy.{Incoming}
use lazy_vllm.Proxy.Logging.{Moment}
use lazy_vllm.Proxy.Mux.{segments, endpoint_of}
use lazy_vllm.Proxy.Serve.{
  HttpRequest, World, State, body_limit, handle_chat_completions, handle_messages, kept,
  run_endpoint, incoming, dispatch, after_middleware, serve,
}

abbrev pub messages_rest : Chars
unfolding chars
messages_rest = chars "v1/messages"

abbrev pub chat_rest : Chars
unfolding chars
chat_rest = chars "v1/chat/completions"

module _ (w : World) (at : Moment) where
  abbrev pub attributed_request : HttpRequest → Chars → Chars → Chars → Chars → Incoming
  attributed_request req p u e path =
      incoming w at req path (of_chars p) (of_chars u) (of_chars (or_encoded e (w.decode e)))

  serve-path_of :
      (req : HttpRequest) (p u e rest : Chars) (st : State)
      → IsSegment p
      → IsSegment u
      → IsSegment e
      → (str_eq (of_chars p) "local" || is_some (lookup_provider w.server.providers (of_chars p)))
        ≡ true
      → req.path ≡ path_of p u e rest
      → serve w at req st
        ≡ dispatch w at req ("/" ∷ rest) (attributed_request req p u e ("/" ∷ rest)) st
  unfolding serve
  serve-path_of req p u e rest st hp hu he known path =
      ap (λ c. after_middleware w at req c st)
        (ap (attribution_middleware w.decode w.server.providers) path
          ∙ middleware-path_of w.decode w.server.providers p u e rest hp hu he known)

  -- A request to post to the path of a provider that is local or configured, a user and a project,
  -- whose body can be read, reaches the handler of messages or of chat completions, if that is the
  -- rest of its path, with the provider, the user and the project as its attribution, and with its
  -- body up to the limit.
  pub serve_completions :
      (req : HttpRequest) (p u e : Chars) (st : State)
      → IsSegment p
      → IsSegment u
      → IsSegment e
      → (str_eq (of_chars p) "local" || is_some (lookup_provider w.server.providers (of_chars p)))
        ≡ true
      → req.method ≡ "POST"
      → req.readable ≡ true
      → (req.path ≡ path_of p u e messages_rest
          → serve w at req st
            ≡ kept
                (handle_messages w at
                  (attributed_request req p u e ("/" ∷ messages_rest))
                  (take body_limit req.raw)
                  st.db)
                st)
        × (req.path ≡ path_of p u e chat_rest
            → serve w at req st
              ≡ kept
                  (handle_chat_completions w at
                    (attributed_request req p u e ("/" ∷ chat_rest))
                    (take body_limit req.raw)
                    st.db)
                  st)
  unfolding dispatch run_endpoint endpoint_of segments messages_rest chat_rest of_chars chars
  serve_completions req p u e st hp hu he known post readable = (
    λ path. serve-path_of req p u e messages_rest st hp hu he known path ∙ rw (post, readable) refl,
    λ path. serve-path_of req p u e chat_rest st hp hu he known path ∙ rw (post, readable) refl,
  )
