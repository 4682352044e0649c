-- ===== src/Proxy/Memory.antt =====
-- proxy/internal/proxy/memory_client.go: what the memory service is sent of an observation.
use lazy_vllm.Prelude.{ℕ, String, Bool, ◌<>◌, Option, none, some, if◌then◌else◌}
use lazy_vllm.Json.{pos, str, int, obj, end, field, doc}
use lazy_vllm.Logger.{unless_empty}
use lazy_vllm.Router.Classify.{Request, json_content}

pub record Ingested : Type 0 where
  pub session_id : String
  pub summary : String
  pub model : String
  pub format : String
  pub user : String
  pub project : String
  pub provider : String
  pub token_count : ℕ

-- `ingestToMemory`, at the time `now` in milliseconds: the request, whose response is not read, or
-- nothing where it cannot be made.
unfoldable pub ingest_to_memory : (String → String → Bool) → String → Ingested → ℕ → Option Request
ingest_to_memory is_valid base_url i now =
    if is_valid "POST" (base_url <> "/ingest")
    then some (record {
      method = "POST";
      url = base_url <> "/ingest";
      headers = json_content;
      body = doc (
          obj (
            field "session_id" (str i.session_id) (
              field "summary" (str i.summary) (
                field "model" (str i.model) (
                  field "format" (str i.format) (
                    field "token_count" (int (pos i.token_count)) (
                      field "created_at_ms" (int (pos now)) (
                        unless_empty "user" i.user (
                          unless_empty "project" i.project
                            (unless_empty "provider" i.provider end))))))))));
    })
    else none
