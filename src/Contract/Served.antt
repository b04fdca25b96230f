-- ===== src/Contract/Served.antt =====
-- What clients of the service get, against the contract: the chain, the rounds of the task, the tree,
-- the handler, the router and its middleware together.
use mathlib.Core.Path.{subst}
use world_tree.Prelude.{ℕ, ◌^◌, ◌≡◌, ◌≢◌, true, none, some, get_elem?, replicate}
use world_tree.Merkle.{Hash, hash_zero, PoseidonTree, IsMerkle}
use world_tree.Foreign.{Foreign}
use world_tree.TreeData.{InclusionProof}
use world_tree.TreeData.Proofs.{Verifies}
use world_tree.TreeData.Full.{Unrepeated}
use world_tree.Updater.{Round}
use world_tree.Updater.Accept.{Accepts}
use world_tree.WorldTree.{WorldTree}
use world_tree.WorldTree.Run.{advance}
use world_tree.Service.{new, status_ok}
use world_tree.Logging.{HttpBody}
use world_tree.Http.{Axum, Parts, app}
use world_tree.Http.Posts.{IsAxum, Posts}
use world_tree.Http.Answers.{posted_proof}
use world_tree.Contract.{Contract, Honest}
use world_tree.Contract.Start.{start-at, start-begun}
use world_tree.Contract.Follow.{Honestly, round_more, Tracks, Honestly-Tracks, Honestly-Looping}

module _ (P : PoseidonTree) (F : Foreign) (A : Axum P) where
  module _ (db : F.Db) (signature depth dense size address creation_block window : ℕ) where
    abbrev start : WorldTree P F
    start = new P F db signature depth dense size address creation_block window

    -- A service that starts with an empty tree at the contract's creation block, whose tree is
    -- empty then, never has an identity twice, and changes at most once in a block and, with
    -- deletions, has a depth below 32, over a database that accepts every statement and with
    -- responses of axum as documented: after one round of the task or more, each with an honest
    -- provider, it is synced, and its tree has the leaves of the contract at the chain's head of
    -- the last round; and a readable POST to `/inclusionProof` for an identity among them, with no
    -- root, is answered through the middleware with status 200 and the JSON of a proof for that
    -- identity at the latest root, which verifies.
    pub contract_served :
        (I : IsAxum A) (L : IsMerkle P) (D : Accepts F) (c : Contract F depth) (handled_at : ℕ → ℕ)
        → c.leaves_at creation_block ≡ replicate (2 ^ depth) hash_zero
        → ((n : ℕ) → Unrepeated (c.leaves_at n))
        → {v : WorldTree P F} {n : ℕ}
        → Honestly P F depth c handled_at
            (new P F db signature depth dense size address creation_block window)
            creation_block
            v
            n
        → (round : Round F) (latest : ℕ)
        → Honest F depth P c handled_at v.updater.block_scanner round latest
        → (j : ℕ) (q : Hash) → get_elem? (c.leaves_at latest) j ≡ some q
        → q ≢ hash_zero
        → (parts : Parts A.Headers) (body : HttpBody A.Failure)
        → Posts P F A parts body (record { identity_commitment = q; root = none })
        → ((advance P F v.phase round v).synced ≡ true)
          × (P.leaves (advance P F v.phase round v).tree_data.tree ≡ c.leaves_at latest)
          × ((p : InclusionProof P) × (app P F A (advance P F v.phase round v) parts body
                ≡ A.json_proof status_ok (some p))
              × Verifies P q p
              × (p.root ≡ P.root (advance P F v.phase round v).tree_data.tree))
    contract_served I L D c handled_at empty apart {v} h round latest honest j q e z parts body
          posts =
        let at = start-at P F db signature depth dense size address creation_block window in
        let begun =
          start-begun P F db signature depth dense size address creation_block window L c empty in
        let looped =
          Honestly-Looping P F depth c handled_at L D apart creation_block begun at h round latest
            honest in
        let tracks =
          subst
            (λ ls0.
              Tracks P F depth c handled_at start creation_block ls0 (advance P F v.phase round v)
                latest)
            empty
            (Honestly-Tracks P F depth c handled_at L D apart creation_block begun at
              (round_more h round latest honest)) in
        (
          looped.in_step.ready looped.phase,
          looped.in_step.mirrors.leaves,
          posted_proof P F A db signature depth dense size address creation_block window I L D _
              (c.leaves_at latest) tracks.follows tracks.unrepeated looped.phase j q e z parts body
              posts,
        )
