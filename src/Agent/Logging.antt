-- ===== src/Agent/Logging.antt =====
-- agent/internal/agent/disk_logger.go: the log of a request, with the calls of models made for it.
-- A time is its count of nanoseconds from the zero time;
-- the clock does not run backwards.
pub mod Stream
pub mod Chunks
pub mod Agreement
pub mod Whole
pub mod Disk
pub mod Reread
pub mod Files
use lazy_vllm.Prelude.{ℕ, String, List, [], ◌∷◌, ◌++◌, str_eq, ◌-◌, ◌/◌, if◌then◌else◌}
use lazy_vllm.Json.{Body}
use lazy_vllm.Logger.Outputs.{OutputLog}
use lazy_vllm.Agent.{ChatMessage}
use lazy_vllm.Agent.Model.{ModelResponse}

pub record CallLog : Type 0 where
  pub node_id : String
  pub node_kind : String
  pub iteration : ℕ
  pub timestamp : ℕ
  pub input : List ChatMessage
  pub output : OutputLog

pub record RequestLog : Type 0 where
  pub id : String
  pub started_at : ℕ
  pub finished_at : ℕ
  pub duration_ms : ℕ
  pub format : String
  pub request_path : String
  pub request_headers : List (String × String)
  pub request_body : Body
  pub calls : List CallLog

abbrev pub output_log : ModelResponse → OutputLog
output_log resp = record {
  reasoning = resp.reasoning;
  content = resp.content;
  tool_calls = resp.tool_calls;
}

abbrev pub call_log : String → String → ℕ → List ChatMessage → ModelResponse → ℕ → CallLog
call_log node_id node_kind iteration input resp now = record {
  node_id = node_id;
  node_kind = node_kind;
  iteration = iteration;
  timestamp = now;
  input = input;
  output = output_log resp;
}

-- `AddCall`, at the time `now`.
unfoldable pub add_call :
    String → String → ℕ → List ChatMessage → ModelResponse → ℕ → RequestLog → RequestLog
add_call node_id node_kind iteration input resp now r = record r {
  calls = r.calls ++ call_log node_id node_kind iteration input resp now ∷ [];
}
