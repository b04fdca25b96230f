-- ===== src/Service.antt =====
-- src/tree/service.rs: the handlers of the service, over the `WorldTree` that they share.
pub mod Replies
pub mod Complete
pub mod Rounds
pub mod Serve
pub mod History
pub mod Scanned
pub mod Broken
use Prim.Native.String.{String}
use world_tree.Prelude.{ℕ, Bool, true, false, ◌⊎◌, inl, inr, Option, none, some, if◌then◌else◌}
use world_tree.Merkle.{Hash, hash_zero, PoseidonTree}
use world_tree.Foreign.{Foreign}
use world_tree.TreeData.{InclusionProof, get_inclusion_proof}
use world_tree.Error.{TreeError, tree_not_synced}
use world_tree.WorldTree
use world_tree.WorldTree.{WorldTree}

-- The status codes in use.
abbrev pub status_ok : ℕ
status_ok = 200

abbrev pub service_unavailable : ℕ
service_unavailable = 503

pub record InclusionProofRequest : Type 0 where
  pub identity_commitment : Hash
  pub root : Option Hash

pub record SyncResponse : Type 0 where
  pub synced : Bool
  pub block_number : Option ℕ

unfoldable pub to_status_code : TreeError → ℕ
to_status_code tree_not_synced = service_unavailable

-- `Display` of the error, from src/tree/error.rs.
unfoldable pub error_text : TreeError → String
error_text tree_not_synced = "The world tree is not fully synced"

unfoldable pub into_response : TreeError → ℕ × String
unfolding to_status_code error_text
into_response e = (to_status_code e, error_text e)

unfoldable pub health : ℕ
health = status_ok

module _ (P : PoseidonTree) (F : Foreign) where
  -- The `WorldTree` that `TreeAvailabilityService::new` sets up.
  unfoldable pub new : F.Db → ℕ → ℕ → ℕ → ℕ → ℕ → ℕ → ℕ → WorldTree P F
  unfolding WorldTree.new
  new db tree_changed_signature tree_depth dense_prefix_depth tree_history_size world_tree_address
        world_tree_creation_block window_size =
      WorldTree.new P F db tree_changed_signature
        (P.new_with_dense_prefix tree_depth dense_prefix_depth hash_zero) tree_history_size
        world_tree_address world_tree_creation_block window_size

  unfoldable pub inclusion_proof :
      WorldTree P F → InclusionProofRequest → TreeError ⊎ (ℕ × Option (InclusionProof P))
  inclusion_proof world_tree req =
      if world_tree.synced
      then inr
          (status_ok, get_inclusion_proof P world_tree.tree_data req.identity_commitment req.root)
      else inl tree_not_synced

  unfoldable pub synced : WorldTree P F → ℕ × SyncResponse
  synced world_tree =
      if world_tree.synced then (status_ok, record { synced = true; block_number = none }) else (
        status_ok,
        record { synced = false; block_number = some world_tree.updater.latest_synced_block },
      )
