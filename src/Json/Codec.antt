-- ===== src/Json/Codec.antt =====
-- The text of JSON documents: `json.Unmarshal` of bytes into a value, and `json.Marshal` of a value.
-- The grammar is encoding/json's, and what is proved holds with any reading and any writing.
use lazy_vllm.Prelude.{ℕ, Option, List}
use lazy_vllm.Json.{Json}

pub record Codec : Type 0 where
  pub decode : List ℕ → Option Json
  pub encode : Json → List ℕ
