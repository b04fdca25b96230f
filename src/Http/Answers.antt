-- ===== src/Http/Answers.antt =====
-- What clients get of `/inclusionProof` through the whole router, middleware included.
use world_tree.Prelude.{
  arith, ℕ, ◌^◌, ◌≡◌, ◌≢◌, true, false, none, some, List, get_elem?, ap, replicate,
}
use world_tree.Merkle.{Hash, hash_zero, PoseidonTree, IsMerkle}
use world_tree.Foreign.{Foreign}
use world_tree.TreeData.{InclusionProof, get_inclusion_proof}
use world_tree.TreeData.Proofs.{Verifies}
use world_tree.Updater.Accept.{Accepts}
use world_tree.WorldTree.{WorldTree, Reach, looping}
use world_tree.WorldTree.Follow.{Follows}
use world_tree.WorldTree.Full.{FollowsUnrepeated}
use world_tree.Service.{InclusionProofRequest, new, status_ok, service_unavailable, synced}
use world_tree.Service.Replies.{unsynced_replies}
use world_tree.Service.Rounds.{rounds_complete}
use world_tree.Logging.{HttpBody}
use world_tree.Http.{Axum, Parts, Req, is_get, app}
use world_tree.Http.Posts.{
  IsAxum, Posts, request_handled, proof_replied, synced_proof, refusal_replied, refusal_passes,
  reply_passes,
}

module _ (P : PoseidonTree) (F : Foreign) (A : Axum P) where
  -- Once the service is synced, the reply has what the tree has for the request.
  pub synced_reply :
      (I : IsAxum A) (v : WorldTree P F) (req : InclusionProofRequest)
      → (parts : Parts A.Headers) (body : HttpBody A.Failure) → Posts P F A parts body req
      → v.synced ≡ true
      → app P F A v parts body
        ≡ A.json_proof status_ok
            (get_inclusion_proof P v.tree_data req.identity_commitment req.root)
  synced_reply I v req parts body c e =
      let request : Req A = record {
        parts = parts;
        is_get = is_get parts.method;
        body = A.body_from c.text;
      } in
      let proof = get_inclusion_proof P v.tree_data req.identity_commitment req.root in
      request_handled P F A v parts body req c (A.json_proof status_ok proof)
        (A.json_proof status_ok proof)
        (proof_replied P F A v request req proof c.decoded (synced_proof P F A v req e))
        (reply_passes P F A (A.json_proof status_ok proof) (I.proof_status status_ok proof))

  module _ (db : F.Db) (signature depth dense size address creation_block window : ℕ) where
    -- With responses of axum as documented, the service of rounds that each bring transactions of
    -- the contract or no logs, from an empty tree and over a database that accepts every statement,
    -- while no state of the contract's leaves had an identity twice: in its loop, a readable POST
    -- to `/inclusionProof` for an identity among the contract's leaves, with no root, is answered
    -- through the middleware with status 200 and the JSON of a proof for that identity at the
    -- latest root, which verifies.
    pub posted_proof :
        (I : IsAxum A) (L : IsMerkle P) (D : Accepts F) (v : WorldTree P F) (ls : List Hash)
        → (f : Follows P F depth
            (new P F db signature depth dense size address creation_block window)
            (replicate (2 ^ depth) hash_zero)
            v
            ls)
        → FollowsUnrepeated P F depth f
        → v.phase ≡ looping
        → (j : ℕ) (q : Hash) → get_elem? ls j ≡ some q
        → q ≢ hash_zero
        → (parts : Parts A.Headers) (body : HttpBody A.Failure)
        → Posts P F A parts body (record { identity_commitment = q; root = none })
        → (p : InclusionProof P) × (app P F A v parts body ≡ A.json_proof status_ok (some p))
          × Verifies P q p
          × (p.root ≡ P.root v.tree_data.tree)
    posted_proof I L D v ls f u looped j q h z parts body c =
        let (synced, served) =
          rounds_complete P F db signature depth dense size address creation_block window L D v ls f
            u looped in
        let (p, e, verified, root) = served j q h z in
        let reply = A.json_proof status_ok (some p) in
        (
          p,
          request_handled P F A v parts body (record { identity_commitment = q; root = none }) c
              reply reply
              (proof_replied P F A v
                (record { parts = parts; is_get = is_get parts.method; body = A.body_from c.text })
                (record { identity_commitment = q; root = none }) (some p) c.decoded e)
              (reply_passes P F A reply (I.proof_status status_ok (some p))),
          verified,
          root,
        )

    -- With responses of axum as documented, a readable POST to `/inclusionProof`, in every state
    -- that the service reaches, is answered through the middleware: once the service is synced with
    -- status 200 and the JSON of what the tree has for the identity and the root, a proof or
    -- nothing, and before that, whatever the rounds have brought, with status 503 and the text of
    -- the error.
    pub posted_reply :
        (I : IsAxum A) {v : WorldTree P F} (req : InclusionProofRequest)
        → Reach P F (new P F db signature depth dense size address creation_block window) v
        → (parts : Parts A.Headers) (body : HttpBody A.Failure) → Posts P F A parts body req
        → (v.synced ≡ true
            → app P F A v parts body
              ≡ A.json_proof status_ok
                  (get_inclusion_proof P v.tree_data req.identity_commitment req.root))
          × (v.synced ≡ false
              → ((app P F A v parts body).status ≡ service_unavailable)
                × ((app P F A v parts body).body
                    ≡ A.body_from (I.text_of "The world tree is not fully synced")))
    posted_reply I {v} req reached parts body c =
        let request : Req A = record {
          parts = parts;
          is_get = is_get parts.method;
          body = A.body_from c.text;
        } in
        (
          synced_reply I v req parts body c,
          (λ e.
              let (_, refused) =
                unsynced_replies P F db signature depth dense size address creation_block window req
                  reached e in
              let answered =
                request_handled P F A v parts body req c
                  (A.with_text service_unavailable "The world tree is not fully synced") _
                  (refusal_replied P F A v request req c.decoded refused)
                  (refusal_passes P F A I "The world tree is not fully synced" (omega arith)) in
              (ap (λ r. r.status) answered, ap (λ r. r.body) answered)),
        )
