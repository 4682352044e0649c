-- ===== src/Agent/Graph/Run.antt =====
-- agent/internal/agent/executor.go: `Run` and `runScatter`.
use lazy_vllm.Prelude.{
  ℕ, zero, suc, String, Bool, true, false, Option, none, some, List, [], ◌∷◌, if◌then◌else◌,
}
use lazy_vllm.Router.Handlers.{Reply}
use lazy_vllm.Agent.{PipelineCtx}
use lazy_vllm.Agent.Model.{Config, Host}
use lazy_vllm.Agent.Graph.{
  Node, Texts, NodeKind, route, chain, scatter, respond, Edge, Graph, graph, Scatter, unconfigured,
  scatter_config, Branches, no_branches, branch, RunError, unknown_node, no_edge, in_route,
  in_chain, in_scatter, in_respond, Outcome, find_edge, find_node, entry_of, apply_transform,
  with_output,
}
use lazy_vllm.Agent.Graph.Nodes.{Looped, run_route, run_chain, run_respond}

abbrev pub Runner : Type 0 → Type 0
Runner W = Graph W → PipelineCtx → W → Option (Outcome × W)

-- The contexts of the branches after their runs, unless one failed.
abbrev pub add_branch : Outcome → Option (List PipelineCtx) → Option (List PipelineCtx)
add_branch o rest = elim o.error [
  | some e ↦ none
  | none ↦ elim rest [ none ↦ none | some ps ↦ some (o.ctx ∷ ps) ]
]

abbrev pub kind_ends : NodeKind → Bool
kind_ends route = true
kind_ends chain = true
kind_ends _ = false

module _ {W : Type 0} where
  abbrev pub stopped : PipelineCtx → RunError → W → Option (Outcome × W)
  stopped p e w = some (record { ctx = p; reply = none; error = some e }, w)

  abbrev pub with_rest :
      Outcome → Option (Option (List PipelineCtx) × W) → Option (Option (List PipelineCtx) × W)
  with_rest o none = none
  with_rest o (some (ps, w)) = some (add_branch o ps, w)

  abbrev pub after_branch :
      (W → Option (Option (List PipelineCtx) × W))
      → Option (Outcome × W)
      → Option (Option (List PipelineCtx) × W)
  after_branch rest none = none
  after_branch rest (some (o, w)) = with_rest o (rest w)

  unfoldable pub run_branches : Runner W → Branches W → W → Option (Option (List PipelineCtx) × W)
  run_branches run no_branches w = some (some [], w)
  run_branches run (branch p g bs) w = after_branch (run_branches run bs) (run g p w)

  abbrev pub merged :
      (PipelineCtx → List PipelineCtx → PipelineCtx)
      → PipelineCtx
      → Option (Option (List PipelineCtx) × W)
      → Option (Option PipelineCtx × W)
  merged merge p none = none
  merged merge p (some (none, w)) = some (none, w)
  merged merge p (some (some ps, w)) = some (some (merge p ps), w)

  abbrev pub scattered_in :
      Runner W
      → (PipelineCtx → List PipelineCtx → PipelineCtx)
      → PipelineCtx
      → Branches W
      → W
      → Option (Option PipelineCtx × W)
  scattered_in run merge p no_branches w = some (some p, w)
  scattered_in run merge p (branch q g bs) w = merged merge p (run_branches run (branch q g bs) w)

  -- `runScatter`: without branches nothing is merged.
  abbrev pub scattered : Runner W → PipelineCtx → Scatter W → W → Option (Option PipelineCtx × W)
  scattered run p unconfigured w = some (none, w)
  scattered run p (scatter_config factory merge) w = scattered_in run merge p (factory p) w

  -- After a node: its output is stored, and the run goes on along the first edge that matches.
  abbrev pub finished :
      List Edge
      → (String → PipelineCtx → W → Option (Outcome × W))
      → String
      → NodeKind
      → PipelineCtx
      → String
      → W
      → Option (Outcome × W)
  finished edges next id kind p output w =
      let q = with_output id output p in
      elim (find_edge edges id output) [
        | some e ↦ next e.to (apply_transform e.transform q) w
        | none ↦
            if kind_ends kind
            then some (record { ctx = q; reply = none; error = none }, w)
            else stopped q (no_edge id) w
      ]

  -- After a route, a chain, a scatter and a respond at a node.
  abbrev pub after_route :
      List Edge
      → (String → PipelineCtx → W → Option (Outcome × W))
      → String
      → PipelineCtx
      → Option String × W
      → Option (Outcome × W)
  after_route edges next id p (none, w) = stopped p (in_route id) w
  after_route edges next id p (some output, w) = finished edges next id route p output w

  abbrev pub after_chain :
      List Edge
      → (String → PipelineCtx → W → Option (Outcome × W))
      → String
      → PipelineCtx
      → Looped W
      → Option (Outcome × W)
  after_chain edges next id p none = none
  after_chain edges next id p (some (none, w)) = stopped p (in_chain id) w
  after_chain edges next id p (some (some (q, output), w)) = finished edges next id chain q output w

  abbrev pub after_scatter :
      List Edge
      → (String → PipelineCtx → W → Option (Outcome × W))
      → String
      → PipelineCtx
      → Option (Option PipelineCtx × W)
      → Option (Outcome × W)
  after_scatter edges next id p none = none
  after_scatter edges next id p (some (none, w)) = stopped p (in_scatter id) w
  after_scatter edges next id p (some (some q, w)) = finished edges next id scatter q "" w

  abbrev pub after_respond : String → PipelineCtx → (Reply × Bool) × W → Option (Outcome × W)
  after_respond id p ((reply, error), w) = some (
    record { ctx = p; reply = some reply; error = if error then some (in_respond id) else none },
    w,
  )

module _ {W : Type 0} (t : Texts) (host : Host W) where
  -- A round of the loop of `Run` at the node of an identifier, if there is one.
  abbrev pub at_node :
      ℕ
      → (String → PipelineCtx → W → Option (Outcome × W))
      → Runner W
      → (String → Scatter W)
      → List Edge
      → Config
      → String
      → PipelineCtx
      → W
      → Option (Node W)
      → Option (Outcome × W)
  at_node n next inner scatters edges cfg id p w none = stopped p (unknown_node id) w
  at_node n next inner scatters edges cfg id p w (some node) = elim node.kind [
    | route ↦ after_route edges next id p (run_route t host cfg node p w)
    | chain ↦ after_chain edges next id p (run_chain t host n cfg node p w)
    | scatter ↦ after_scatter edges next id p (scattered inner p (scatters node.id) w)
    | respond ↦ after_respond id p (run_respond t host p w)
  ]

  -- The loop of `Run`: one round of it for each unit of fuel.
  unfoldable pub run_from : ℕ → String → Runner W
  run_from zero id g p w = none
  run_from (suc n) id (graph nodes scatters edges entry cfg) p w =
      at_node n (λ j. run_from n j (graph nodes scatters edges entry cfg))
        (λ g. run_from n (entry_of g) g) scatters edges cfg id p w (find_node nodes id)

  -- `Run`.
  unfoldable pub run : ℕ → Runner W
  unfolding run_from
  run n g = run_from n (entry_of g) g
