-- ===== src/Service/Serve.antt =====
-- src/tree/service.rs, `TreeAvailabilityService`: the service as a whole, and the tasks it starts.
use world_tree.Prelude.{ℕ, List, [], ◌∷◌}
use world_tree.Merkle.{PoseidonTree}
use world_tree.Foreign.{Foreign}
use world_tree.WorldTree.{WorldTree}
use world_tree.Claims
use world_tree.Claims.{ClaimUpdater}
use world_tree.Service

-- The contract of the claims, 0x7f26a7572e8b877654eedcbc4e573657619fa3ce, and its creation block.
abbrev pub claim_contract : ℕ
claim_contract = 725903833630357273909771585696472294320504808398

abbrev pub claim_creation_block : ℕ
claim_creation_block = 118372573

-- A task that `serve` starts: the server of the router, or the sync of the tree that it reads.
pub data Task (P : PoseidonTree) (F : Foreign) (Socket : Type 0) : Type 0 where
  http_server : Socket → WorldTree P F → Task P F Socket
  tree_sync : WorldTree P F → Task P F Socket

module _ (P : PoseidonTree) (F : Foreign) where
  pub record TreeAvailabilityService : Type 0 where
    pub world_tree : WorldTree P F
    pub claim_storage : ClaimUpdater

  unfoldable pub new : F.Db → ℕ → ℕ → ℕ → ℕ → ℕ → ℕ → ℕ → ℕ → TreeAvailabilityService
  new db tree_changed_signature transfer_signature tree_depth dense_prefix_depth tree_history_size
        world_tree_address world_tree_creation_block window_size =
      record {
        world_tree =
            Service.new P F db tree_changed_signature tree_depth dense_prefix_depth
              tree_history_size world_tree_address world_tree_creation_block window_size;
        claim_storage = Claims.new transfer_signature claim_contract claim_creation_block 2;
      }

  -- The handles in their order; the claims have no task.
  unfoldable pub serve :
      {Socket : Type 0} → TreeAvailabilityService → Socket → List (Task P F Socket)
  serve self addr = http_server addr self.world_tree ∷ tree_sync self.world_tree ∷ []
