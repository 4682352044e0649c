-- ===== src/Agent/Model/Calls.antt =====
-- What a call of the model depends on.
use lazy_vllm.Prelude.{◌≡◌, refl, none, List}
use lazy_vllm.Agent.{ChatMessage, PipelineCtx}
use lazy_vllm.Agent.History.{deep_copy}
use lazy_vllm.Agent.Model.{Host, Agent, Config, call_model}

module _ {W : Type 0} where
  -- A call in the context of a copy fails without reaching the server, since a copy has no address.
  pub call_model-deep_copy :
      (host : Host W) (cfg : Config) (ag : Agent W) (p : PipelineCtx) (msgs : List ChatMessage)
      (w : W)
      → call_model host cfg ag (deep_copy p) msgs w ≡ (none, w)
  unfolding call_model deep_copy
  call_model-deep_copy host cfg ag p msgs w = refl
