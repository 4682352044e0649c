-- ===== src/Store/Schema.antt =====
-- proxy/internal/logger/compact.go: `migrateCompact`, over the columns of each table. A statement
-- that fails ends the migration, but for a DROP, and what was done before it stays.
pub mod Upgrade
use lazy_vllm.Prelude.{
  ℕ, String, Bool, true, false, Option, none, some, List, [], ◌∷◌, ◌++◌, any, ltb, str_eq,
  if◌then◌else◌,
}

-- The version that is read is 0 where there is none. `refuses` says which tables SQLite does not drop
-- when a migration comes to them, such as one that rows of another table refer to; no table is
-- dropped twice.
pub record Schema : Type 0 where
  pub version : ℕ
  pub tables : String → Option (List String)
  pub refuses : String → Bool

pub data Statement : Type 0 where
  drop_table : String → Statement
  create_table : String → List String → Statement
  create_index : String → Statement
  set_version : ℕ → Statement
  add_column : String → String → Statement

abbrev pub set_table : String → Option (List String) → Schema → Schema
set_table t cols s = record s { tables = λ k. if str_eq t k then cols else s.tables k }

abbrev pub created : Option (List String) → String → List String → Schema → Schema
created none t cols s = set_table t (some cols) s
created (some _) t cols s = s

-- A column that is there cannot be added again.
abbrev pub added : Option (List String) → String → String → Schema → Option Schema
added none t c s = none
added (some cols) t c s =
    if any (λ k. str_eq k c) cols then none else some (set_table t (some (cols ++ (c ∷ []))) s)

-- One statement. The errors of DROP are dropped.
unfoldable pub execute : Statement → Schema → Option Schema
execute (drop_table t) s = some (set_table t (if s.refuses t then s.tables t else none) s)
execute (create_table t cols) s = some (created (s.tables t) t cols s)
execute (create_index t) s = some s
execute (set_version v) s = some (record s { version = v })
execute (add_column t c) s = added (s.tables t) t c s

infixl 5 ◌>>=◌
abbrev pub ◌>>=◌ : Option Schema → (Schema → Option Schema) → Option Schema
none >>= k = none
some a >>= k = k a

unfoldable pub execute_all : List Statement → Schema → Option Schema
unfolding execute
execute_all [] s = some s
execute_all (st ∷ sts) s = execute st s >>= execute_all sts

abbrev pub blob_columns : List String
blob_columns = "hash" ∷ "body" ∷ "created_at" ∷ []

abbrev pub base_columns : List String
base_columns =
    "id" ∷ "format" ∷ "model" ∷ "token_count" ∷ "tools_hash" ∷ "summary" ∷ "created_at" ∷ []

abbrev pub link_columns : List String
link_columns = "session_id" ∷ "message_hash" ∷ "sequence" ∷ "duration_ms" ∷ []

abbrev pub raw_columns : List String
raw_columns = "session_id" ∷ "path" ∷ "headers" ∷ "body" ∷ "created_at" ∷ []

abbrev base_schema : List Statement
base_schema =
    drop_table "session_messages"
    ∷ drop_table "sessions"
    ∷ drop_table "messages"
    ∷ drop_table "tools"
    ∷ drop_table "schema_version"
    ∷ drop_table "raw_requests"
    ∷ create_table "schema_version" ("version" ∷ [])
    ∷ create_table "tools" blob_columns
    ∷ create_table "messages" blob_columns
    ∷ create_table "sessions" base_columns
    ∷ create_table "session_messages" link_columns
    ∷ create_index "sessions"
    ∷ set_version 3
    ∷ []

abbrev pub raw_requests_schema : List Statement
raw_requests_schema =
    create_table "raw_requests" raw_columns ∷ create_index "raw_requests" ∷ set_version 4 ∷ []

abbrev pub attribution_schema : List Statement
attribution_schema =
    add_column "sessions" "user" ∷ add_column "sessions" "project" ∷ set_version 5 ∷ []

abbrev pub provider_schema : List Statement
provider_schema = add_column "sessions" "provider" ∷ set_version 6 ∷ []

abbrev pub below : ℕ → ℕ → List Statement → Schema → Option Schema
below from version statements s = if ltb from version then execute_all statements s else some s

-- `migrateCompact`; `none` is its error. The first step leaves `fromVersion` at 3, which is below
-- what the later steps ask for too.
unfoldable pub migrate_compact : ℕ → Schema → Option Schema
unfolding execute_all
migrate_compact from_version s =
    below from_version 3 base_schema s
    >>= below from_version 4 raw_requests_schema
    >>= below from_version 5 attribution_schema
    >>= below from_version 6 provider_schema

-- What `NewCompact` does with the schema that it opens.
unfoldable pub open_schema : Schema → Option Schema
unfolding migrate_compact
open_schema s = if ltb s.version 6 then migrate_compact s.version s else some s
