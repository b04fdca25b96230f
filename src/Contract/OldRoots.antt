-- ===== src/Contract/OldRoots.antt =====
-- Which older states of the contract the service still serves.
use mathlib.Core.Path.{subst}
use world_tree.Prelude.{
  ℕ, suc, ◌-◌, ◌^◌, ◌≡◌, ◌≢◌, sym, ap, ◌∙◌, true, some, List, [], map, take, All, get_elem?,
  replicate, map-map, map-take, All-of_map, All-take_twice,
}
use world_tree.Merkle.{Hash, hash_zero, PoseidonTree, IsMerkle}
use world_tree.LeafMap
use world_tree.Foreign.{Foreign}
use world_tree.TreeData.{HistoricalTree, InclusionProof, get_inclusion_proof}
use world_tree.TreeData.Proofs.{Verifies}
use world_tree.TreeData.Full.{Unrepeated}
use world_tree.TreeData.Standing.{runs_old_root}
use world_tree.Updater.{Round, Error}
use world_tree.Updater.Accept.{Accepts}
use world_tree.Updater.Traced.{Traced, view}
use world_tree.WorldTree
use world_tree.WorldTree.{WorldTree}
use world_tree.WorldTree.Full.{Follows-IsFull}
use world_tree.WorldTree.Traced.{Follows-Traced, states_before, last_time}
use world_tree.WorldTree.Run.{advance}
use world_tree.Service.{new, status_ok}
use world_tree.Service.Complete.{start-IsFull}
use world_tree.Service.History.{start-Traced, kept_views}
use world_tree.Logging.{HttpBody}
use world_tree.Http.{Axum, Parts, app}
use world_tree.Http.Posts.{IsAxum, Posts}
use world_tree.Http.Answers.{synced_reply}
use world_tree.Contract.{Contract, Honest}
use world_tree.Contract.Passage.{Increasing, Before, states, states-Unrepeated}
use world_tree.Contract.Start.{start-at, start-begun}
use world_tree.Contract.Follow.{Honestly, round_more, Honestly-Tracks, Honestly-Looping}

module _ (P : PoseidonTree) (F : Foreign) (A : Axum P) where
  module _ (db : F.Db) (signature depth dense size address creation_block window : ℕ) where
    abbrev start : WorldTree P F
    start = new P F db signature depth dense size address creation_block window

    module _ (L : IsMerkle P) (D : Accepts F) (c : Contract F depth) (handled_at : ℕ → ℕ)
        (empty : c.leaves_at creation_block ≡ replicate (2 ^ depth) hash_zero)
        (apart : (n : ℕ) → Unrepeated (c.leaves_at n)) (mono : Increasing handled_at)
        (early : Before handled_at 0 creation_block) where
      -- The contract's leaves before each transaction since its creation, the last one first.
      abbrev states_to : ℕ → List (List Hash)
      states_to latest = states F depth c creation_block (latest - creation_block) []

      -- A service in its loop, with the contract's leaves before each transaction as the leaves of the
      -- trees before its last batches.
      record Remembers (v : WorldTree P F) (latest : ℕ) : Type 0 where
        synced : v.synced ≡ true
        leaves : P.leaves v.tree_data.tree ≡ c.leaves_at latest
        in_map :
            (j : ℕ) (q : Hash)
            → get_elem? (c.leaves_at latest) j ≡ some q
            → q ≢ hash_zero
            → (t : ℕ) × (LeafMap.get q v.tree_data.leaves ≡ some t)
        before : List (List Hash × ℕ)
        time : ℕ
        traced : Traced P (Error P F) start.tree_data before time v.tree_data
        states_before : map (λ s. s.0) before ≡ states_to latest

      Honestly-Remembers :
          {v : WorldTree P F} {n : ℕ}
          → Honestly P F depth c handled_at start creation_block v n
          → (round : Round F) (latest : ℕ)
          → Honest F depth P c handled_at v.updater.block_scanner round latest
          → Remembers (advance P F v.phase round v) latest
      Honestly-Remembers {v} h round latest honest =
          let at = start-at P F db signature depth dense size address creation_block window in
          let begun =
            start-begun P F db signature depth dense size address creation_block window L c empty in
          let looped =
            Honestly-Looping P F depth c handled_at L D apart creation_block begun at h round latest
              honest in
          let t =
            Honestly-Tracks P F depth c handled_at L D apart creation_block begun at
              (round_more h round latest honest) in
          let (timely, later) = t.on_time mono early in
          let none_yet =
            start-Traced P F db signature depth dense size address creation_block window in
          let full =
            start-IsFull P F db signature depth dense size address creation_block window L in
          record {
            synced = looped.in_step.ready looped.phase;
            leaves = looped.in_step.mirrors.leaves;
            in_map = λ j q e z.
                Follows-IsFull P F depth L D begun full t.follows t.unrepeated j q
                  (rw looped.in_step.mirrors.leaves e) z;
            before = states_before P F depth t.follows;
            time = last_time P F depth t.follows;
            traced = Follows-Traced P F depth L D begun none_yet t.follows timely;
            states_before = t.seen;
          }

      -- The history has the last of the states.
      remembered :
          (v : WorldTree P F) (latest : ℕ)
          → Remembers v latest
          → map (λ h. P.leaves h.tree) v.tree_data.tree_history ≡ take size (states_to latest)
      remembered v latest r =
          sym (map-map (λ s. s.0) (view P) v.tree_data.tree_history)
          ∙ ap (map (λ s. s.0)) (
              kept_views P F db signature depth dense size address creation_block window L v
                r.before r.time r.traced)
          ∙ map-take (λ s. s.0) size r.before
          ∙ ap (take size) r.states_before

      old_root_proof :
          (v : WorldTree P F) (latest : ℕ)
          → Remembers v latest
          → (k : ℕ) (h : HistoricalTree P) → get_elem? v.tree_data.tree_history k ≡ some h
          → (j : ℕ) (q : Hash) → get_elem? (c.leaves_at latest) j ≡ some q
          → q ≢ hash_zero
          → All (λ ls. (i : ℕ) × (get_elem? ls i ≡ some q)) (take (suc k) (states_to latest))
          → (p : InclusionProof P) × (get_inclusion_proof P v.tree_data q (some (P.root h.tree))
              ≡ some p)
            × Verifies P q p
            × (p.root ≡ P.root h.tree)
      unfolding new WorldTree.new
      old_root_proof v latest r k h at_k j q e z stood =
          let (t, in_map) = r.in_map j q e z in
          let leaves_of : HistoricalTree P → List Hash = λ x. P.leaves x.tree in
          let viewed =
            sym (map-map (λ s. s.0) (view P) r.traced.past)
            ∙ ap (map (λ s. s.0)) r.traced.viewed
            ∙ r.states_before in
          let always = All-of_map Unrepeated leaves_of r.traced.past (
            subst (All Unrepeated) (sym viewed)
              (states-Unrepeated F depth c creation_block (latest - creation_block) [] apart tt)) in
          let stands : List Hash → Type 0 = λ ls. (i : ℕ) × (get_elem? ls i ≡ some q) in
          let has = All-of_map stands leaves_of (take (suc k) v.tree_data.tree_history) (
            subst (All stands)
              (ap (take (suc k)) (sym (remembered v latest r))
                ∙ sym (map-take leaves_of (suc k) v.tree_data.tree_history))
              (All-take_twice stands (suc k) size (states_to latest) stood)) in
          runs_old_root P (Error P F) L (P.new_with_dense_prefix depth dense hash_zero) size
            r.traced.runs r.traced.timely always (rw r.leaves (apart latest)) q t in_map k h at_k
            has

      -- A service that starts with an empty tree at the contract's creation block, whose tree is
      -- empty then, never has an identity twice, and changes at most once in a block and, with
      -- deletions, has a depth below 32, over a database that accepts every statement, with
      -- responses of axum as documented and a clock by which later blocks are handled later: after
      -- one round of the task or more, each with an honest provider, the trees of its history have
      -- the contract's leaves before its last transactions, in order and up to the configured size;
      -- and a readable POST to `/inclusionProof` with the root of one of them, for an identity that
      -- stood in its leaves and in those of every later state, the one at the chain's head
      -- included, is answered through the middleware with status 200 and the JSON of a proof for
      -- that identity at that root, which verifies.
      pub old_root_served :
          (I : IsAxum A) {v : WorldTree P F} {n : ℕ}
          → Honestly P F depth c handled_at
              (new P F db signature depth dense size address creation_block window)
              creation_block
              v
              n
          → (round : Round F) (latest : ℕ)
          → Honest F depth P c handled_at v.updater.block_scanner round latest
          → (k : ℕ) (h : HistoricalTree P)
          → get_elem? (advance P F v.phase round v).tree_data.tree_history k ≡ some h
          → (j : ℕ) (q : Hash) → get_elem? (c.leaves_at latest) j ≡ some q
          → q ≢ hash_zero
          → All
              (λ ls. (i : ℕ) × (get_elem? ls i ≡ some q))
              (take (suc k) (states F depth c creation_block (latest - creation_block) []))
          → (parts : Parts A.Headers) (body : HttpBody A.Failure)
          → Posts P F A parts body (record { identity_commitment = q; root = some (P.root h.tree) })
          → (map (λ x. P.leaves x.tree) (advance P F v.phase round v).tree_data.tree_history
              ≡ take size (states F depth c creation_block (latest - creation_block) []))
            × ((p : InclusionProof P) × (app P F A (advance P F v.phase round v) parts body
                  ≡ A.json_proof status_ok (some p))
                × Verifies P q p
                × (p.root ≡ P.root h.tree))
      old_root_served I {v} reached round latest honest k h at_k j q e z stood parts body posts =
          let after : WorldTree P F = advance P F v.phase round v in
          let r = Honestly-Remembers reached round latest honest in
          let (p, answered, verified, at_root) =
            old_root_proof after latest r k h at_k j q e z stood in
          let replied =
            synced_reply P F A I after
              (record { identity_commitment = q; root = some (P.root h.tree) }) parts body posts
              r.synced in
          (
            remembered after latest r,
            (p, replied ∙ ap (A.json_proof status_ok) answered, verified, at_root),
          )
