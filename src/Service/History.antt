-- ===== src/Service/History.antt =====
-- What the service answers for older roots, after any number of rounds that succeed.
use mathlib.Core.List.{append-nil}
use world_tree.Prelude.{
  ℕ, ◌^◌, ◌≡◌, ◌↔◌, refl, ap, ◌∙◌, inr, true, some, List, [], map, take, arith, map-take, replicate,
}
use world_tree.Merkle.{Hash, hash_zero, PoseidonTree, IsMerkle}
use world_tree.LeafMap
use world_tree.Foreign.{Foreign}
use world_tree.TreeData
use world_tree.TreeData.{InclusionProof, get_inclusion_proof}
use world_tree.TreeData.Dated.{IsDue}
use world_tree.TreeData.Runs.{begin, Runs-Kept}
use world_tree.TreeData.Timely.{runs_answered}
use world_tree.Updater.{Error}
use world_tree.Updater.Accept.{Accepts}
use world_tree.Updater.Traced.{Traced, view}
use world_tree.WorldTree
use world_tree.WorldTree.{WorldTree, looping}
use world_tree.WorldTree.Follow.{Follows, Follows-InStep}
use world_tree.WorldTree.Traced.{FollowsTimely, states_before, Follows-Traced}
use world_tree.Service.{status_ok, new, inclusion_proof}
use world_tree.Service.Rounds.{start-InStep}

module _ (P : PoseidonTree) (F : Foreign) where
  module _ (db : F.Db) (signature depth dense size address creation_block window : ℕ) where
    abbrev start : WorldTree P F
    start = new P F db signature depth dense size address creation_block window

    pub start-Traced : Traced P (Error P F) start.tree_data [] 0 start.tree_data
    unfolding new WorldTree.new TreeData.new
    start-Traced = record { past = []; runs = begin; timely = tt; viewed = refl; now = refl }

    -- The trees that a run of batches from the start keeps.
    pub kept_views :
        (L : IsMerkle P) (v : WorldTree P F) (seen : List (List Hash × ℕ)) (t : ℕ)
        → Traced P (Error P F) start.tree_data seen t v.tree_data
        → map (view P) v.tree_data.tree_history ≡ take size seen
    unfolding new WorldTree.new TreeData.new
    kept_views L v seen t k =
        let kept = Runs-Kept P (Error P F) L (omega arith) k.runs in
        ap (map (view P)) (kept.history ∙ ap (take size) (append-nil k.past))
        ∙ map-take (view P) size k.past
        ∙ ap (take size) k.viewed

    -- A request with a root is answered when an answer is due.
    answered_iff :
        (L : IsMerkle P) (v : WorldTree P F) (seen : List (List Hash × ℕ)) (t : ℕ)
        → Traced P (Error P F) start.tree_data seen t v.tree_data
        → (q root : Hash)
        → ((p : InclusionProof P) × (get_inclusion_proof P v.tree_data q (some root) ≡ some p))
          ↔ ((t : ℕ) × (LeafMap.get q v.tree_data.leaves ≡ some t) × IsDue P v.tree_data t root)
    unfolding new WorldTree.new
    answered_iff L v seen t k =
        runs_answered P (Error P F) L (P.new_with_dense_prefix depth dense hash_zero) size k.runs
          k.timely

    -- The handler of a synced service returns what the tree answers.
    handled_iff :
        (v : WorldTree P F) (q root : Hash)
        → v.synced ≡ true
        → ((p : InclusionProof P) × (inclusion_proof P F v
                (record { identity_commitment = q; root = some root })
              ≡ inr (status_ok, some p)))
          ↔ ((p : InclusionProof P) × (get_inclusion_proof P v.tree_data q (some root) ≡ some p))
    unfolding inclusion_proof
    handled_iff v q root e =
        ((λ (p, h). (p, ground (arith, e, h))), (λ (p, h). (p, ground (arith, e, h))))

    -- A service that started with an empty tree and went through rounds that each bring transactions
    -- of the contract or no logs, over a database that accepts every statement and with a clock that
    -- moves on before each registration and is not behind at a deletion: in its loop, its history has
    -- the leaves of the contract before each of the last transactions, with the times of their roots,
    -- up to the configured size; and a request for an identity at a root is answered with a proof
    -- exactly if the identity is in the map, and the root is the current one or that of a tree of the
    -- history (the newest one with that root) which is no older than the identity.
    pub rounds_history :
        (L : IsMerkle P) (A : Accepts F) (v : WorldTree P F) (ls : List Hash)
        → (f : Follows P F depth
            (new P F db signature depth dense size address creation_block window)
            (replicate (2 ^ depth) hash_zero)
            v
            ls)
        → FollowsTimely P F depth f
        → v.phase ≡ looping
        → (map (view P) v.tree_data.tree_history ≡ take size (states_before P F depth f))
          × ((q root : Hash)
              → ((p : InclusionProof P) × (inclusion_proof P F v
                      (record { identity_commitment = q; root = some root })
                    ≡ inr (status_ok, some p)))
                ↔ ((t : ℕ) × (LeafMap.get q v.tree_data.leaves ≡ some t)
                    × IsDue P v.tree_data t root))
    rounds_history L A v ls f u looped =
        let i = start-InStep P F db signature depth dense size address creation_block window L in
        let k = Follows-Traced P F depth L A i start-Traced f u in
        let j = Follows-InStep P F depth L A i f in
        (
          kept_views L v _ _ k,
          λ q root.
              let handled = handled_iff v q root (j.ready looped) in
              let answered = answered_iff L v _ _ k q root in
              ((λ h. answered.0 (handled.0 h)), (λ h. handled.1 (answered.1 h))),
        )
