-- ===== src/Logger/Tools.antt =====
-- proxy/internal/logger/parse.go: the tool calls that a stream builds, a map from their index.
pub mod Sorted
use lazy_vllm.Prelude.{
  ℕ, zero, suc, String, ◌<>◌, Bool, true, false, List, [], ◌∷◌, map, length, leb, if◌then◌else◌,
  ◌==◌,
}
use lazy_vllm.Json.{ℤ, pos, negsuc}
use lazy_vllm.Logger.{ToolCall}

abbrev pub int_le : ℤ → ℤ → Bool
int_le (pos m) (pos n) = leb m n
int_le (pos m) (negsuc n) = false
int_le (negsuc m) (pos n) = true
int_le (negsuc m) (negsuc n) = leb n m

abbrev pub int_same : ℤ → ℤ → Bool
int_same (pos m) (pos n) = m == n
int_same (negsuc m) (negsuc n) = m == n
int_same _ _ = false

-- `map[int]*ToolCall`.
abbrev pub Tools : Type 0
Tools = List (ℤ × ToolCall)

abbrev pub blank_call : String → String → String → ToolCall
blank_call id type name = record {
  id = id;
  type = type;
  function = record { name = name; arguments = "" };
}

-- `tc.Function.Arguments += s`.
abbrev pub extend : String → ToolCall → ToolCall
extend s c = record {
  id = c.id;
  type = c.type;
  function = record { name = c.function.name; arguments = c.function.arguments <> s };
}

-- The call of an index is `c` if it is new, and its arguments are extended.
unfoldable pub accumulate : ℤ → ToolCall → String → Tools → Tools
accumulate i c s [] = (i, extend s c) ∷ []
accumulate i c s ((j, d) ∷ m) =
    if int_same j i then (j, extend s d) ∷ m else (j, d) ∷ accumulate i c s m

-- `accumTools[i] = c`.
unfoldable pub assign : ℤ → ToolCall → Tools → Tools
assign i c [] = (i, c) ∷ []
assign i c ((j, d) ∷ m) = if int_same j i then (j, c) ∷ m else (j, d) ∷ assign i c m

-- The arguments of an index that there is are extended.
unfoldable pub extend_at : ℤ → String → Tools → Tools
extend_at i s [] = []
extend_at i s ((j, d) ∷ m) = if int_same j i then (j, extend s d) ∷ m else (j, d) ∷ extend_at i s m

-- The arguments of the call that was added last are extended, where there is one.
unfoldable pub extend_last : String → Tools → Tools
extend_last s m = elim (length m) [ zero ↦ m | suc k ↦ extend_at (pos k) s m ]

abbrev pub insert : ℤ × ToolCall → Tools → Tools
insert e [] = e ∷ []
insert e (f ∷ m) = if int_le (e.0) (f.0) then e ∷ f ∷ m else f ∷ insert e m

-- `sort.Ints` of the indexes, each with its call.
unfoldable pub sort_tools : Tools → Tools
sort_tools [] = []
sort_tools (e ∷ m) = insert e (sort_tools m)

-- `sortedToolCalls`.
unfoldable pub sorted_tool_calls : Tools → List ToolCall
sorted_tool_calls m = map (λ e. e.1) (sort_tools m)
