-- ===== src/Program/Ends.antt =====
-- What the program has started when its tasks run, and when it ends without an error.
use world_tree.Prelude.{ℕ, ◌≡◌, ◌≢◌, Bool, ◌⊎◌, inl, inr, Option, none, some, List, [], ◌∷◌}
use world_tree.Merkle.{PoseidonTree}
use world_tree.Foreign.{Foreign}
use world_tree.Throttle
use world_tree.Throttle.{ThrottledProvider, Governor, JsonRpcClient}
use world_tree.Throttle.Paced.{Paced}
use world_tree.Retry.{JsonRpcError, HttpClientError}
use world_tree.WorldTree.{WorldTree}
use world_tree.Service
use world_tree.Service.Serve
use Prim.Native.String.{String}
use world_tree.Config.{Serde, WorldTreeConfig}
use world_tree.Program.{RetrySettings, Outcome, ended, join_failed, task_failed}

-- Every task has ended well.
pub data AllOk {J E : Type 0} : List (J ⊎ Option E) → Type 0 where
  no_more : AllOk []
  one_ok : {rest : List (J ⊎ Option E)} → AllOk rest → AllOk (inr none ∷ rest)

-- The first task that does not end well, among those that end.
pub data FirstFailure {J E : Type 0} : List (J ⊎ Option E) → Outcome J E → Type 0 where
  joins : {j : J} {rest : List (J ⊎ Option E)} → FirstFailure (inl j ∷ rest) (join_failed j)
  fails : {e : E} {rest : List (J ⊎ Option E)} → FirstFailure (inr (some e) ∷ rest) (task_failed e)
  after :
      {rest : List (J ⊎ Option E)} {o : Outcome J E}
      → FirstFailure rest o
      → FirstFailure (inr none ∷ rest) o

-- The program ends well when all tasks have, and else with the error of the first that has not.
pub EndsAs : {J E : Type 0} → List (J ⊎ Option E) → Outcome J E → Type 0
EndsAs results outcome =
    ((outcome ≡ ended) × AllOk results) ⊎ ((outcome ≢ ended) × FirstFailure results outcome)

module _ (P : PoseidonTree) (F : Foreign) {Socket Url Jitter Call Reply : Type 0}
    (S : Serde ℕ Socket Url) (G : Governor Jitter) (C : JsonRpcClient Call Reply)
    (http : Url → C.Provider) (jitter_new : ℕ → ℕ → Jitter) {Json Client : Type 0}
    (parse : String → Option (JsonRpcError Json))
    (retry_new : RetrySettings
      → ThrottledProvider G C
      → (HttpClientError Json → Bool)
      → Client) where
  -- The world tree that a configuration asks for.
  abbrev pub tree_of : F.Db → ℕ → WorldTreeConfig ℕ Socket → WorldTree P F
  tree_of db topic config =
      Service.new P F db topic config.tree_depth config.dense_prefix_depth config.tree_history_size
        config.world_id_contract_address config.creation_block config.window_size
