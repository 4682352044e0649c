-- ===== src/Logger/Streams/Calls.antt =====
-- proxy/internal/logger/parse.go: the tool calls that the pieces in a stream make up.
use lazy_vllm.Prelude.{
  ◌≡◌, refl, sym, ap, ◌∙◌, String, ◌<>◌, Option, none, some, List, [], ◌∷◌, ◌++◌, map, inl, inr,
  Bool-cases, Option-cases, if◌then◌else◌,
}
use lazy_vllm.Json.{ℤ}
use lazy_vllm.Json.Codec.{Codec}
use lazy_vllm.Json.Structs.{◌>>=◌}
use lazy_vllm.Text.Same.{same}
use lazy_vllm.Obs.{Bytes}
use lazy_vllm.Obs.Stream.{split_lines}
use lazy_vllm.Logger.{ToolCall}
use lazy_vllm.Logger.Tools.{
  int_same, Tools, blank_call, extend, accumulate, sort_tools, sorted_tool_calls,
}
use lazy_vllm.Logger.Tools.Sorted.{
  find, Distinct, Increasing, or_else, sort_tools-Increasing, accumulate-Distinct, find-accumulate,
}
use lazy_vllm.Logger.Streams.{
  Gathered, nothing_gathered, Fragment, Delta, deltas_in, add_fragments, add_delta,
  first_delta_into, openai_chunk, openai_lines, data_of, done_mark, output_of, parse_openai_sse,
}

-- The arguments in the fragments of an index, behind `s`, in order.
abbrev pub arguments_from : String → ℤ → List Fragment → String
arguments_from s i [] = s
arguments_from s i (f ∷ fs) =
    arguments_from (if int_same f.index i then s <> f.arguments else s) i fs

-- The call of an index: the first fragment names it, and its arguments are those of all.
abbrev pub built : ℤ → List Fragment → Option ToolCall
built i [] = none
built i (f ∷ fs) =
    let rest = built i fs in
    if int_same f.index i
    then some (record {
      id = f.id;
      type = f.type;
      function = record { name = f.name; arguments = arguments_from "" i (f ∷ fs) };
    })
    else rest

abbrev grown : ℤ → List Fragment → ToolCall → ToolCall
grown i fs c = record {
  id = c.id;
  type = c.type;
  function = record {
    name = c.function.name;
    arguments = arguments_from c.function.arguments i fs;
  };
}

abbrev more : ℤ → List Fragment → Option ToolCall → Option ToolCall
more i fs none = built i fs
more i fs (some c) = some (grown i fs c)

abbrev call_of : Fragment → ToolCall
call_of f = blank_call f.id f.type f.name

more-extend :
    (i : ℤ) (f : Fragment) (fs : List Fragment) (o : Option ToolCall)
    → more i fs
        (if int_same f.index i then some (extend f.arguments (or_else (call_of f) o)) else o)
      ≡ more i (f ∷ fs) o
more-extend i f fs none = elim (Bool-cases (int_same f.index i)) [
  | inl t ↦ rw t refl
  | inr t ↦ rw t refl
]
more-extend i f fs (some c) = elim (Bool-cases (int_same f.index i)) [
  | inl t ↦ rw t refl
  | inr t ↦ rw t refl
]

more-nil : (i : ℤ) (o : Option ToolCall) → more i [] o ≡ o
more-nil i none = refl
more-nil i (some c) = refl

find-add_fragments :
    (i : ℤ) (fs : List Fragment) (m : Tools) → find i (add_fragments fs m) ≡ more i fs (find i m)
unfolding add_fragments
find-add_fragments i [] m = sym (more-nil i (find i m))
find-add_fragments i (f ∷ fs) m =
    find-add_fragments i fs (accumulate f.index (call_of f) f.arguments m)
    ∙ (ap (more i fs) (find-accumulate i f.index (call_of f) f.arguments m)
        ∙ more-extend i f fs (find i m))

add_fragments-Distinct :
    (fs : List Fragment) (m : Tools) → Distinct m → Distinct (add_fragments fs m)
unfolding add_fragments
add_fragments-Distinct [] m h = h
add_fragments-Distinct (f ∷ fs) m h =
    add_fragments-Distinct fs (accumulate f.index (call_of f) f.arguments m)
      (accumulate-Distinct f.index (call_of f) f.arguments m h)

add_fragments-append :
    (fs gs : List Fragment) (m : Tools)
    → add_fragments (fs ++ gs) m ≡ add_fragments gs (add_fragments fs m)
unfolding add_fragments
add_fragments-append [] gs m = refl
add_fragments-append (f ∷ fs) gs m =
    add_fragments-append fs gs (accumulate f.index (call_of f) f.arguments m)

abbrev pub first_fragments : Option (List Delta) → List Fragment
first_fragments (some (d ∷ _)) = d.tool_calls
first_fragments _ = []

tools-first_delta_into :
    (o : Option (List Delta)) (g : Gathered)
    → (first_delta_into o g).tools ≡ add_fragments (first_fragments o) g.tools
unfolding add_delta add_fragments
tools-first_delta_into none g = refl
tools-first_delta_into (some []) g = refl
tools-first_delta_into (some (d ∷ ds)) g = refl

module _ (codec : Codec) where
  -- The fragments on a line in front of those on the lines behind it.
  abbrev pub line_fragments : Option Bytes → List Fragment → List Fragment
  line_fragments none rest = rest
  line_fragments (some p) rest =
      if same p done_mark then [] else first_fragments (codec.decode p >>= deltas_in) ++ rest

  -- The fragments in a stream, up to the mark of its end.
  abbrev pub fragments : List Bytes → List Fragment
  fragments [] = []
  fragments (l ∷ ls) = line_fragments (data_of l) (fragments ls)

  tools-openai_lines :
      (ls : List Bytes) (g : Gathered)
      → (openai_lines codec ls g).tools ≡ add_fragments (fragments ls) g.tools
  unfolding openai_lines openai_chunk add_fragments
  tools-openai_lines [] g = refl
  tools-openai_lines (l ∷ ls) g = elim (Option-cases (data_of l)) [
    | inl e ↦ rw e (tools-openai_lines ls g)
    | inr (p, e) ↦ elim (Bool-cases (same p done_mark)) [
      | inl d ↦ rw (e, d) refl
      | inr d ↦
          (let o = codec.decode p >>= deltas_in in
            rw (e, d)
              (tools-openai_lines ls (openai_chunk codec p g)
                ∙ (ap (add_fragments (fragments ls)) (tools-first_delta_into o g)
                    ∙ sym (add_fragments-append (first_fragments o) (fragments ls) g.tools))))
    ]
  ]

  -- The tool calls that the log keeps of a stream of the OpenAI API are in increasing order of their
  -- indexes, and the call of an index is what its fragments up to the end mark make up: the first names
  -- it, and the arguments of all follow one another.
  pub parse_openai_sse-built :
      (body : Bytes)
      → (m : Tools) × ((parse_openai_sse codec body).tool_calls ≡ map (λ e. e.1) m)
        × Increasing m
        × ((i : ℤ) → find i m ≡ built i (fragments (split_lines body)))
  unfolding parse_openai_sse output_of sorted_tool_calls
  parse_openai_sse-built body =
      let fs = fragments (split_lines body) in
      let built_tools = add_fragments fs [] in
      let (inc, found) = sort_tools-Increasing built_tools (add_fragments-Distinct fs [] tt) in
      (
        sort_tools built_tools,
        ap (λ m. map (λ e. e.1) (sort_tools m))
            (tools-openai_lines (split_lines body) nothing_gathered),
        inc,
        λ i. found i ∙ find-add_fragments i fs [],
      )
