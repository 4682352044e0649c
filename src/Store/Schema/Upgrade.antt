-- ===== src/Store/Schema/Upgrade.antt =====
-- Where a migration leads, and where it stops.
use mathlib.Core.Path.{subst}
use lazy_vllm.Prelude.{
  ℕ, zero, suc, ◌≤◌, ◌<◌, ◌≡◌, refl, ◌++◌, String, true, false, Option, none, some, List, [], ◌∷◌,
  any, leb, str_eq, arith, if◌then◌else◌, sym, ap, ◌∙◌,
}
use lazy_vllm.Store.Schema.{
  Schema, add_column, set_version, created, added, ◌>>=◌, raw_requests_schema, attribution_schema,
  provider_schema, execute_all, migrate_compact, open_schema, base_columns, blob_columns,
  link_columns, raw_columns,
}

-- The columns of the sessions, and the raw requests, at a version.
abbrev pub session_columns : ℕ → List String
session_columns v =
    base_columns
    ++ ((if leb 5 v then "user" ∷ "project" ∷ [] else [])
        ++ (if leb 6 v then "provider" ∷ [] else []))

abbrev pub raw_at : ℕ → Option (List String)
raw_at v = if leb 4 v then some raw_columns else none

abbrev pub IsAt : ℕ → Schema → Type 0
IsAt v s =
    (s.version ≡ v)
    × (s.tables "sessions" ≡ some (session_columns v))
    × (s.tables "raw_requests" ≡ raw_at v)
    × (s.tables "messages" ≡ some blob_columns)
    × (s.tables "tools" ≡ some blob_columns)
    × (s.tables "session_messages" ≡ some link_columns)

-- SQLite drops every table that a migration drops.
abbrev pub Droppable : Schema → Type 0
Droppable s = (t : String) → s.refuses t ≡ false

migrate_dropped :
    (v : ℕ) (s : Schema)
    → v < 3
    → (s' : Schema) × (migrate_compact v (record s { refuses = λ t. false }) ≡ some s') × IsAt 6 s'
unfolding migrate_compact
migrate_dropped zero s h = (_, refl, (refl, refl, refl, refl, refl, refl))
migrate_dropped (suc zero) s h = (_, refl, (refl, refl, refl, refl, refl, refl))
migrate_dropped (suc (suc zero)) s h = (_, refl, (refl, refl, refl, refl, refl, refl))
migrate_dropped (suc (suc (suc v))) s h = absurd (omega arith)

migrate_legacy :
    (v : ℕ) (s : Schema)
    → v < 3
    → Droppable s
    → (s' : Schema) × (migrate_compact v s ≡ some s') × IsAt 6 s'
migrate_legacy v s h d =
    let all : s.refuses ≡ (λ t. false) = λ i t. d t i in
    subst
      (λ r. (s' : Schema) × (migrate_compact v (record s { refuses = r }) ≡ some s') × IsAt 6 s')
      (sym all) (migrate_dropped v s h)

-- The three later steps, each from one version to the next.
step_3 :
    (s : Schema)
    → IsAt 3 s
    → (s' : Schema) × (execute_all raw_requests_schema s ≡ some s') × IsAt 4 s'
unfolding execute_all
step_3 s (e, sessions, raw, messages, tools, links) =
    subst
      (λ o.
        (s' : Schema) × (some (record (created o "raw_requests" raw_columns s) { version = 4 })
          ≡ some s')
        × IsAt 4 s')
      (sym raw) (_, refl, (refl, sessions, refl, messages, tools, links))

step_4 :
    (s : Schema)
    → IsAt 4 s
    → (s' : Schema) × (execute_all attribution_schema s ≡ some s') × IsAt 5 s'
unfolding execute_all
step_4 s (e, sessions, raw, messages, tools, links) =
    subst
      (λ o.
        (s' : Schema) × ((added o "sessions" "user" s
            >>= execute_all (add_column "sessions" "project" ∷ set_version 5 ∷ []))
          ≡ some s')
        × IsAt 5 s')
      (sym sessions) (_, refl, (refl, refl, raw, messages, tools, links))

step_5 :
    (s : Schema) → IsAt 5 s → (s' : Schema) × (execute_all provider_schema s ≡ some s') × IsAt 6 s'
unfolding execute_all
step_5 s (e, sessions, raw, messages, tools, links) =
    subst
      (λ o.
        (s' : Schema) × ((added o "sessions" "provider" s >>= execute_all (set_version 6 ∷ []))
          ≡ some s')
        × IsAt 6 s')
      (sym sessions) (_, refl, (refl, refl, raw, messages, tools, links))

migrate_5 : (s : Schema) → IsAt 5 s → (s' : Schema) × (migrate_compact 5 s ≡ some s') × IsAt 6 s'
unfolding migrate_compact
migrate_5 s at = step_5 s at

migrate_4 : (s : Schema) → IsAt 4 s → (s' : Schema) × (migrate_compact 4 s ≡ some s') × IsAt 6 s'
unfolding migrate_compact
migrate_4 s at =
    let (s1, e, at1) = step_4 s at in
    let (s2, f, at2) = step_5 s1 at1 in (s2, ap (λ o. o >>= execute_all provider_schema) e ∙ f, at2)

migrate_3 : (s : Schema) → IsAt 3 s → (s' : Schema) × (migrate_compact 3 s ≡ some s') × IsAt 6 s'
unfolding migrate_compact
migrate_3 s at =
    let (s1, e, at1) = step_3 s at in
    let (s2, f, at2) = step_4 s1 at1 in
    let (s3, g, at3) = step_5 s2 at2 in
    (
      s3,
      ap (λ o. (o >>= execute_all attribution_schema) >>= execute_all provider_schema) e
          ∙ ap (λ o. o >>= execute_all provider_schema) f
          ∙ g,
      at3,
    )

-- Any schema of a version below 3 whose tables SQLite does not refuse to drop, and every schema that
-- is as its version from 3 to 5 has it, migrates without an error to the schema of version 6.
pub migrate_compact_sound :
    (v : ℕ) (s : Schema)
    → v ≤ 5
    → (v < 3 → Droppable s)
    → (3 ≤ v → IsAt v s)
    → (s' : Schema) × (migrate_compact v s ≡ some s') × IsAt 6 s'
migrate_compact_sound zero s k drops at = migrate_legacy 0 s (omega arith) (drops (omega arith))
migrate_compact_sound (suc zero) s k drops at =
    migrate_legacy 1 s (omega arith) (drops (omega arith))
migrate_compact_sound (suc (suc zero)) s k drops at =
    migrate_legacy 2 s (omega arith) (drops (omega arith))
migrate_compact_sound (suc (suc (suc zero))) s k drops at = migrate_3 s (at (omega arith))
migrate_compact_sound (suc (suc (suc (suc zero)))) s k drops at = migrate_4 s (at (omega arith))
migrate_compact_sound (suc (suc (suc (suc (suc zero))))) s k drops at =
    migrate_5 s (at (omega arith))
migrate_compact_sound (suc (suc (suc (suc (suc (suc v)))))) s k drops at = absurd (omega arith)

-- A schema of version 4 whose sessions have a user column already, as it is left by an upgrade
-- that stops behind its first statement, cannot be upgraded or opened any more.
pub open_schema_stuck :
    (s : Schema) (cols : List String)
    → s.version ≡ 4
    → s.tables "sessions" ≡ some cols
    → any (λ k. str_eq k "user") cols ≡ true
    → open_schema s ≡ none
unfolding open_schema
open_schema_stuck s cols v e u = ground arith
