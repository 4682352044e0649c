-- ===== src/Agent/Graph/Copies.antt =====
-- agent/internal/agent/executor.go and history.go: a scatter over copies of its context.
use lazy_vllm.Prelude.{ℕ, zero, suc, ◌≡◌, refl, ap, ◌∙◌, String, none, some, List, ◌∷◌, eq_iff}
use lazy_vllm.Agent.{PipelineCtx}
use lazy_vllm.Agent.History.{deep_copy}
use lazy_vllm.Agent.Model.{Host, Agent, Config}
use lazy_vllm.Agent.Model.Calls.{call_model-deep_copy}
use lazy_vllm.Agent.Graph.{
  Texts, Node, chain, Edge, Graph, graph, Scatter, scatter_config, Branches, branch, no_branches,
  in_chain, find_node, entry_of,
}
use lazy_vllm.Agent.Graph.Nodes.{windowed, run_chain, chain_loop, chain_turn}
use lazy_vllm.Agent.Graph.Run.{
  at_node, with_rest, after_branch, merged, run, run_from, run_branches, scattered, stopped,
  after_chain,
}

module _ {W : Type 0} (t : Texts) (host : Host W) where
  chain-deep_copy :
      (n : ℕ) (cfg : Config) (node : Node W) (p : PipelineCtx) (w : W)
      → run_chain t host (suc n) cfg node (deep_copy p) w ≡ some (none, w)
  unfolding run_chain chain_loop
  chain-deep_copy n cfg node p w =
      ap
        (chain_turn t host (chain_loop t host n cfg node (deep_copy p)) node (deep_copy p)
          (deep_copy p).messages)
        (call_model-deep_copy host cfg node.agent p (windowed cfg node.agent (deep_copy p).messages)
          w)

  module _ (cfg : Config) (id : String) (agent : Agent W) (nodes : List (String × Node W))
      (scatters : String → Scatter W) (edges : List Edge) where
    -- A graph that begins with a chain.
    abbrev pub chain_graph : Graph W
    chain_graph =
        graph ((id, record { id = id; kind = chain; agent = agent }) ∷ nodes) scatters edges id cfg

    found :
        (i : String)
        → find_node ((i, record { id = i; kind = chain; agent = agent }) ∷ nodes) i
          ≡ some (record { id = i; kind = chain; agent = agent })
    found i = rw ((eq_iff i i).1 refl)

    run-deep_copy :
        (n : ℕ) (p : PipelineCtx) (w : W)
        → run t host (suc (suc n)) chain_graph (deep_copy p) w
          ≡ stopped (deep_copy p) (in_chain id) w
    unfolding run run_from
    run-deep_copy n p w =
        ap
          (at_node t host (suc n) (λ j. run_from t host (suc n) j chain_graph)
            (λ g. run_from t host (suc n) (entry_of g) g) scatters edges cfg id (deep_copy p) w)
          (found id)
        ∙ ap (after_chain edges (λ j. run_from t host (suc n) j chain_graph) id (deep_copy p))
            (chain-deep_copy n cfg (record { id = id; kind = chain; agent = agent }) p w)

    -- As many branches with copies of a context.
    abbrev pub copies : PipelineCtx → ℕ → Branches W
    copies p zero = no_branches
    copies p (suc k) = branch (deep_copy p) chain_graph (copies p k)

    branches-deep_copy :
        (n k : ℕ) (p : PipelineCtx) (w : W)
        → run_branches (run t host (suc (suc n))) (copies p (suc k)) w ≡ some (none, w)
    unfolding run_branches
    branches-deep_copy n zero p w =
        ap (after_branch (run_branches (run t host (suc (suc n))) no_branches))
          (run-deep_copy n p w)
    branches-deep_copy n (suc k) p w =
        ap (after_branch (run_branches (run t host (suc (suc n))) (copies p (suc k))))
          (run-deep_copy n p w)
        ∙ ap (with_rest (record { ctx = deep_copy p; reply = none; error = some (in_chain id) }))
            (branches-deep_copy n k p w)

    -- A scatter fails, whatever its merge, if it has one or more branches, each with a copy of
    -- the context and a graph that begins with a chain, whichever agent the chain has.
    pub scattered-deep_copy :
        (n k : ℕ) (p : PipelineCtx) (merge : PipelineCtx → List PipelineCtx → PipelineCtx) (w : W)
        → scattered (run t host (suc (suc n))) p (scatter_config (λ q. copies q (suc k)) merge) w
          ≡ some (none, w)
    scattered-deep_copy n k p merge w = ap (merged merge p) (branches-deep_copy n k p w)
