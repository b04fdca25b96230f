-- ===== src/Tests/Sync.antt =====
-- The theorems on the updater, the task and the service, in the round of the contract.
use mathlib.Core.List.{Permᴰ}
use world_tree.TreeData.Full.{Unrepeated, get_elem?-replicate}
use world_tree.Updater.Traced.{AllMoveOn}
use world_tree.Updater.Full.{NeverRepeated}
use world_tree.Prelude.{
  ℕ, zero, suc, ◌+◌, ◌^◌, ◌<◌, ◌≡◌, refl, some, List, [], ◌∷◌, arith, get_elem?, replicate,
}
use world_tree.Prelude.Int.{as_i64, pos}
use world_tree.Merkle.{Hash, hash_zero}
use world_tree.Chain.{Block, filter_for}
use world_tree.BlockScanner
use world_tree.BlockScanner.{BlockScanner}
use world_tree.BlockScanner.Complete.{span}
use world_tree.BlockMap
use world_tree.BlockMap.{BlockMap}
use world_tree.Indices.{unpack_indices, from_be_bytes}
use world_tree.TreeData.Delete.{clear_all}
use world_tree.TreeData.Live.{IsVacant}
use world_tree.Foreign.{RegisterIdentitiesCall}
use world_tree.Updater
use world_tree.Rows.{created_at}
use world_tree.Updater.{
  SyncState, Round, selector_eq, padding_index, indices_of, collect, sync_to_head,
  sync_from_transaction, selector_of, dispatch, next_logs, sync_logs, register_identities,
  delete_identities,
}
use world_tree.Updater.Calls.{IsKnown, plain}
use world_tree.Updater.Mirror.{Effect, registers, deletes, none_left, first}
use world_tree.Updater.Head.{Delivers}
use world_tree.WorldTree
use world_tree.WorldTree.{WorldTree, Step, Reach, starting, first_sync, here, next}
use world_tree.Service
use world_tree.Service.{InclusionProofRequest, status_ok, inclusion_proof, synced}
use world_tree.Tests.Tree.{list_tree}
use world_tree.Tests.Contract.{crates, tx_register, tx_delete, log_of, one_round}

abbrev pub block_5 : Block
block_5 = record { timestamp = 5 }

abbrev pub zeros : List Hash
zeros = 0 ∷ 0 ∷ 0 ∷ 0 ∷ []

abbrev pub middle : List Hash
middle = 7 ∷ 8 ∷ 0 ∷ 0 ∷ []

abbrev pub final : List Hash
final = 7 ∷ 0 ∷ 0 ∷ 0 ∷ []

abbrev pub call : RegisterIdentitiesCall
call = record {
  insertion_proof = [];
  pre_root = 0;
  start_index = 0;
  identity_commitments = 7 ∷ 8 ∷ 0 ∷ [];
  post_root = 0;
}

abbrev pub packed : List ℕ
packed = 0 ∷ 0 ∷ 0 ∷ 1 ∷ 0 ∷ 0 ∷ 0 ∷ 4 ∷ []

-- The service before its first sync: a contract created at block 3, windows of two blocks.
abbrev pub service : WorldTree list_tree crates
service = Service.new list_tree crates 0 2 2 0 5 1 3 1

register-IsKnown : IsKnown list_tree crates one_round tx_register
unfolding created_at as_i64
register-IsKnown = record {
  number = 5;
  block = block_5;
  at = pos 5;
  ts = 100;
  long = omega arith;
  mined = refl;
  found = refl;
  dated = refl;
  clock = refl;
}

delete-IsKnown : IsKnown list_tree crates one_round tx_delete
unfolding created_at as_i64
delete-IsKnown = record {
  number = 6;
  block = record { timestamp = 6 };
  at = pos 6;
  ts = 100;
  long = omega arith;
  mined = refl;
  found = refl;
  dated = refl;
  clock = refl;
}

pub call-IsVacant : IsVacant 0 (7 ∷ 8 ∷ []) zeros
call-IsVacant = record { fits = omega arith; vacant = empty_before; nonzero = refl }
  where
    empty_before : (k : ℕ) → k < 2 → get_elem? zeros (0 + k) ≡ some hash_zero
    empty_before zero h = refl
    empty_before (suc zero) h = refl
    empty_before (suc (suc k)) h = absurd (omega arith)

pub register-Effect : Effect list_tree crates one_round 2 tx_register zeros middle
unfolding selector_eq
register-Effect =
    registers call (record { known = register-IsKnown; selected = refl; decoded = refl })
      call-IsVacant refl

pub delete-Effect : Effect list_tree crates one_round 2 tx_delete middle final
unfolding selector_eq padding_index unpack_indices from_be_bytes clear_all
delete-Effect =
    deletes packed [] 0 0 delete-IsKnown (omega arith) (plain refl refl refl) (omega arith, tt) refl

abbrev pub scanner_after : BlockScanner
scanner_after = record { last_synced_block = 6; window_size = 1; filter = filter_for 1 2 }

pub service-Delivers :
    Delivers list_tree crates one_round 2 service.updater.block_scanner scanner_after
      (replicate (2 ^ 2) hash_zero)
      final
unfolding Service.new WorldTree.new Updater.new BlockScanner.new BlockScanner.next BlockScanner.scan
    BlockScanner.window_end span BlockMap.values
service-Delivers = record {
  fetches = record {
    log = log_of 50;
    logs = log_of 60 ∷ [];
    hashes = 50 ∷ 60 ∷ [];
    entries = (5, tx_register) ∷ (6, tx_delete) ∷ [];
    scanned = refl;
    asked = refl;
    arrived = Permᴰ.swap refl refl;
    sorted = ((omega arith, tt), (tt, tt));
    mined = (refl, (refl, tt));
  };
  effects = first register-Effect (first delete-Effect none_left);
}

pub middle-Unrepeated : Unrepeated middle
middle-Unrepeated zero zero q h k z = refl
middle-Unrepeated (suc zero) (suc zero) q h k z = refl
middle-Unrepeated zero (suc zero) q h k z = absurd (ground (arith, h, k))
middle-Unrepeated (suc zero) zero q h k z = absurd (ground (arith, h, k))
middle-Unrepeated i (suc (suc j)) q h k z = absurd (z (get_elem?-replicate 2 j 0 q k))
middle-Unrepeated (suc (suc i)) j q h k z = absurd (z (get_elem?-replicate 2 i 0 q h))

pub service-NeverRepeated : NeverRepeated list_tree crates one_round service-Delivers.effects
unfolding service-Delivers
service-NeverRepeated =
    ((λ i j q h k z. absurd (z (get_elem?-replicate 4 i 0 q h))), (middle-Unrepeated, tt))

pub service-AllMoveOn : AllMoveOn list_tree crates one_round service-Delivers.effects 0
unfolding service-Delivers register-Effect delete-Effect register-IsKnown delete-IsKnown
service-AllMoveOn = (omega arith, (omega arith, tt))
