-- ===== src/Tests/Task.antt =====
-- The theorems on orders, failures and the states of the task.
use mathlib.Core.List.{Permᴰ}
use world_tree.Prelude.{
  ℕ, ◌≡◌, refl, ◌⊎◌, inl, inr, true, false, Option, none, some, List, [], ◌∷◌, ◌++◌, arith,
}
use world_tree.Exec.{ok, err}
use world_tree.Chain.{Transaction, Middleware}
use world_tree.BlockScanner
use world_tree.BlockMap
use world_tree.BlockMap.{BlockMap}
use world_tree.BlockMap.Sorted.{IsSorted}
use world_tree.TreeData
use world_tree.TreeData.{InclusionProof, get_inclusion_proof}
use world_tree.LeafMap
use world_tree.Updater.{
  Round, Error, collect, sync_to_head, sync_from_transaction, selector_of, selector_eq, dispatch,
  next_logs,
}
use world_tree.Updater.Order.{collect-perm}
use world_tree.Updater.Sorted.{get, last_of, Refused, collect_lem}
use world_tree.Error.{unrecognized_function_selector}
use world_tree.WorldTree
use world_tree.WorldTree.{WorldTree, Step, Reach, starting, looping, first_sync, first, here, next}
use world_tree.WorldTree.Invariant.{Sound, Reach-Sound}
use world_tree.Service
use world_tree.Service.{InclusionProofRequest, status_ok, inclusion_proof, synced}
use world_tree.Tests.Tree.{list_tree}
use world_tree.Tests.Contract.{crates, tx_register, tx_delete, one_round}
use world_tree.Tests.Sync.{service}

-- Another transaction of block 5.
abbrev tx_other : Transaction
tx_other = record { hash = 51; block_number = some 5; input = [] }

-- The later of the two replaces the earlier, which is never handled.
lost-run :
    collect list_tree crates one_round (inr (some tx_register) ∷ inr (some tx_other) ∷ []) []
    ≡ ok ((5, tx_other) ∷ [])
unfolding collect BlockMap.insert
lost-run = refl

collect_lem_example :
    ((m : BlockMap) × (collect list_tree crates one_round
          (inr (some tx_register) ∷ inr (some tx_other) ∷ [])
          []
        ≡ ok m)
      × IsSorted m
      × ((b : ℕ)
          → get b m
            ≡ last_of list_tree crates one_round b
                (inr (some tx_register) ∷ inr (some tx_other) ∷ [])))
    × ((bad : ℕ ⊎ Option Transaction) (rest : List (ℕ ⊎ Option Transaction))
          (e : Error list_tree crates)
        → Refused list_tree crates one_round bad e
        → collect list_tree crates one_round
            ((inr (some tx_register) ∷ inr (some tx_other) ∷ []) ++ (bad ∷ rest))
            []
          ≡ err e)
collect_lem_example =
    collect_lem list_tree crates one_round (inr (some tx_register) ∷ inr (some tx_other) ∷ [])
      ((5, refl), ((5, refl), tt))

collect-perm_example :
    collect list_tree crates one_round (inr (some tx_delete) ∷ inr (some tx_register) ∷ []) []
    ≡ collect list_tree crates one_round (inr (some tx_register) ∷ inr (some tx_delete) ∷ []) []
collect-perm_example =
    collect-perm list_tree crates one_round (inr (some tx_delete) ∷ inr (some tx_register) ∷ [])
      (inr (some tx_register) ∷ inr (some tx_delete) ∷ []) (Permᴰ.swap refl refl)
      ((6, refl), ((5, refl), tt)) (((λ e. absurd (ground (arith, e))), tt), (tt, tt))

-- A transaction that calls no known function.
abbrev tx_unknown : Transaction
tx_unknown = record { hash = 70; block_number = some 6; input = 9 ∷ 9 ∷ 9 ∷ 9 ∷ [] }

unknown-run :
    (sync_from_transaction list_tree crates one_round tx_unknown service.state).0
    ≡ err unrecognized_function_selector
unfolding sync_from_transaction selector_of dispatch selector_eq
unknown-run = refl

-- The provider does not answer.
abbrev down : Middleware ℕ
down = record {
  get_block_number = inl 9;
  get_logs = λ f. inl 9;
  get_transaction = λ h. inl 9;
  get_block = λ n. inl 9;
}

abbrev round_down : Round crates
round_down = record one_round { middleware = down }

abbrev pub failed : WorldTree list_tree crates
failed = first_sync list_tree crates round_down service

pub failed-Reach : Reach list_tree crates service failed
unfolding Service.new WorldTree.new
failed-Reach = next here (first round_down refl refl)

failed-synced : failed.synced ≡ false
unfolding first_sync sync_to_head next_logs BlockScanner.next Service.new WorldTree.new
failed-synced = refl

abbrev pub request : InclusionProofRequest
request = record { identity_commitment = 7; root = none }

abbrev succeeded : WorldTree list_tree crates
succeeded = first_sync list_tree crates one_round service

succeeded-Reach : Reach list_tree crates service succeeded
unfolding Service.new WorldTree.new
succeeded-Reach = next here (first one_round refl refl)

Reach-Sound_example : Sound service succeeded
unfolding Service.new WorldTree.new TreeData.new
Reach-Sound_example = Reach-Sound list_tree crates (omega arith) refl succeeded-Reach

-- A task that has synced goes through a round in which the provider does not answer.
abbrev synced_service : WorldTree list_tree crates
synced_service = record { state = service.state; synced = true; phase = looping }

-- A tree that holds 7.
abbrev serving : WorldTree list_tree crates
serving = record synced_service {
  state = record service.state {
    tree_data = record service.state.tree_data {
      tree = 7 ∷ 0 ∷ 0 ∷ 0 ∷ [];
      leaves = (7, 100) ∷ [];
    };
  };
}

abbrev proof_of_7 : InclusionProof list_tree
proof_of_7 = record { root = 10007; proof = (7 ∷ 0 ∷ 0 ∷ 0 ∷ [], 0) }

proof_of_7-run : inclusion_proof list_tree crates serving request ≡ inr (status_ok, some proof_of_7)
unfolding inclusion_proof get_inclusion_proof TreeData.proof_for TreeData.inclusion_at
    TreeData.proof TreeData.position LeafMap.get
proof_of_7-run = refl
