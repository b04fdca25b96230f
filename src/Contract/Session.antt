-- ===== src/Contract/Session.antt =====
-- Rounds of the task and requests of clients in any order, against the contract.
use world_tree.Prelude.{
  ℕ, suc, ◌^◌, ◌≤◌, ◌≡◌, ◌≢◌, refl, sym, ap, ◌∙◌, false, none, some, List, [], ◌∷◌, All, arith,
  get_elem?, replicate,
}
use world_tree.Merkle.{Hash, hash_zero, PoseidonTree, IsMerkle}
use world_tree.Foreign.{Foreign}
use world_tree.TreeData.{InclusionProof}
use world_tree.TreeData.Proofs.{Verifies}
use world_tree.TreeData.Full.{Unrepeated}
use world_tree.Updater.{Round}
use world_tree.Updater.Accept.{Accepts}
use world_tree.WorldTree
use world_tree.WorldTree.{WorldTree, here}
use world_tree.WorldTree.Run.{advance}
use world_tree.Service.{new, status_ok, service_unavailable}
use world_tree.Logging.{HttpBody}
use world_tree.Http.{Axum, Parts, Res, app}
use world_tree.Http.Posts.{IsAxum, Posts}
use world_tree.Http.Answers.{posted_reply}
use world_tree.Contract.{Contract, Honest}
use world_tree.Contract.Start.{start-at, start-begun}
use world_tree.Contract.Follow.{Honestly, not_yet, round_more, Honestly-Tracks}
use world_tree.Contract.Served.{contract_served}

module _ (P : PoseidonTree) (F : Foreign) (A : Axum P) where
  -- A POST for an identity, and the reply, when the task had gone through so many rounds, to the
  -- given block in the last one.
  pub record Exchange : Type 0 where
    pub identity : Hash
    pub reply : Res A
    pub rounds : ℕ
    pub block : ℕ

  module _ (depth : ℕ) (c : Contract F depth) (handled_at : ℕ → ℕ) where
    -- What the service `w` becomes in a session: rounds with honest providers, and requests for
    -- proofs at the latest root in between. The exchanges of the session, the last one first.
    pub data Session (w : WorldTree P F) (n0 : ℕ)
        : WorldTree P F → ℕ → ℕ → List Exchange → Type 0 where
      opens : Session w n0 w 0 n0 []
      syncs :
          {v : WorldTree P F} {rounds n : ℕ} {xs : List Exchange}
          → Session w n0 v rounds n xs
          → (round : Round F) (latest : ℕ)
          → Honest F depth P c handled_at v.updater.block_scanner round latest
          → Session w n0 (advance P F v.phase round v) (suc rounds) latest xs
      asks :
          {v : WorldTree P F} {rounds n : ℕ} {xs : List Exchange}
          → Session w n0 v rounds n xs
          → (q : Hash) (parts : Parts A.Headers) (body : HttpBody A.Failure)
          → Posts P F A parts body (record { identity_commitment = q; root = none })
          → Session w n0 v rounds n (
              record { identity = q; reply = app P F A v parts body; rounds = rounds; block = n }
              ∷ xs)

    Session-Honestly :
        {w : WorldTree P F} {n0 : ℕ} {v : WorldTree P F} {rounds n : ℕ} {xs : List Exchange}
        → Session w n0 v rounds n xs
        → Honestly P F depth c handled_at w n0 v n
    Session-Honestly opens = not_yet
    Session-Honestly (syncs s round latest h) = round_more (Session-Honestly s) round latest h
    Session-Honestly (asks s q parts body posts) = Session-Honestly s

    -- A reply to a request for a leaf of the contract at the block of the exchange: a refusal before
    -- the first round, and after it a proof that verifies, at the root of a tree with the leaves of
    -- the contract at that block.
    pub record Answered (x : Exchange) : Type 0 where
      pub refused : x.rounds ≡ 0 → x.reply.status ≡ service_unavailable
      pub proved :
          x.rounds ≢ 0
          → (j : ℕ) → get_elem? (c.leaves_at x.block) j ≡ some x.identity
          → x.identity ≢ hash_zero
          → (t : P.Tree) × (p : InclusionProof P) × (P.leaves t ≡ c.leaves_at x.block)
            × (x.reply ≡ A.json_proof status_ok (some p))
            × Verifies P x.identity p
            × (p.root ≡ P.root t)

    -- Later exchanges are at later blocks or at the same.
    abbrev pub InOrder : List Exchange → Type 0
    InOrder [] = Unit
    InOrder (x ∷ xs) = All (λ y. y.block ≤ x.block) xs × InOrder xs

  All-later :
      (n m : ℕ) (xs : List Exchange) → n ≤ m → All (λ y. y.block ≤ n) xs → All (λ y. y.block ≤ m) xs
  All-later n m [] l a = tt
  All-later n m (x ∷ xs) l a = (omega (arith, l, a.0), All-later n m xs l a.1)

  module _ (db : F.Db) (signature depth dense size address creation_block window : ℕ) where
    abbrev start : WorldTree P F
    start = new P F db signature depth dense size address creation_block window

    start-synced : start.synced ≡ false
    unfolding new WorldTree.new
    start-synced = refl

    module _ (L : IsMerkle P) (D : Accepts F) (c : Contract F depth) (handled_at : ℕ → ℕ)
        (empty : c.leaves_at creation_block ≡ replicate (2 ^ depth) hash_zero)
        (apart : (n : ℕ) → Unrepeated (c.leaves_at n)) where
      abbrev Opened : WorldTree P F → ℕ → ℕ → List Exchange → Type 0
      Opened = Session depth c handled_at start creation_block

      -- The scanner stands at the block of the last round.
      stands :
          {v : WorldTree P F} {rounds n : ℕ} {xs : List Exchange}
          → Opened v rounds n xs
          → v.updater.block_scanner.last_synced_block ≡ n
      stands s =
          (Honestly-Tracks P F depth c handled_at L D apart creation_block
            (start-begun P F db signature depth dense size address creation_block window L c empty)
            (start-at P F db signature depth dense size address creation_block window)
            (Session-Honestly depth c handled_at s)).at

      not_after :
          {v : WorldTree P F} {rounds n : ℕ} {xs : List Exchange}
          → Opened v rounds n xs
          → All (λ y. y.block ≤ n) xs
      not_after opens = tt
      not_after (syncs {n = n} {xs = xs} s round latest h) =
          let behind : n ≤ latest = rw (← stands s) h.head.behind in
          All-later n latest xs behind (not_after s)
      not_after (asks s q parts body posts) = (omega arith, not_after s)

      in_order :
          {v : WorldTree P F} {rounds n : ℕ} {xs : List Exchange}
          → Opened v rounds n xs
          → InOrder depth c handled_at xs
      in_order opens = tt
      in_order (syncs s round latest h) = in_order s
      in_order (asks s q parts body posts) = (not_after s, in_order s)

      unchanged :
          {v : WorldTree P F} {rounds n : ℕ} {xs : List Exchange}
          → Opened v rounds n xs
          → rounds ≡ 0
          → start ≡ v
      unchanged opens e = refl
      unchanged (syncs s round latest h) e = absurd cc
      unchanged (asks s q parts body posts) e = unchanged s e

      module _ (I : IsAxum A) (q : Hash) (parts : Parts A.Headers) (body : HttpBody A.Failure)
          (posts : Posts P F A parts body (record { identity_commitment = q; root = none })) where
        refuses :
            {v : WorldTree P F} {rounds n : ℕ} {xs : List Exchange}
            → Opened v rounds n xs
            → rounds ≡ 0
            → (app P F A v parts body).status ≡ service_unavailable
        refuses s e =
            let (answered, refused) =
              posted_reply P F A db signature depth dense size address creation_block window I
                (record { identity_commitment = q; root = none }) here parts body posts in
            ap (λ v. (app P F A v parts body).status) (sym (unchanged s e))
            ∙ (refused start-synced).0

        proves :
            {v : WorldTree P F} {rounds n : ℕ} {xs : List Exchange}
            → Opened v rounds n xs
            → rounds ≢ 0
            → (j : ℕ) → get_elem? (c.leaves_at n) j ≡ some q
            → q ≢ hash_zero
            → (t : P.Tree) × (p : InclusionProof P) × (P.leaves t ≡ c.leaves_at n)
              × (app P F A v parts body ≡ A.json_proof status_ok (some p))
              × Verifies P q p
              × (p.root ≡ P.root t)
        proves opens e j at z = absurd (e refl)
        proves (syncs {v} s round latest h) e j at z =
            let (synced, leaves, found) =
              contract_served P F A db signature depth dense size address creation_block window I L
                D c handled_at empty apart (Session-Honestly depth c handled_at s) round latest h j
                q at z parts body posts in
            let (p, replied, verified, root) = found in
            ((advance P F v.phase round v).tree_data.tree, p, leaves, replied, verified, root)
        proves (asks s q' parts' body' posts') e j at z = proves s e j at z

      -- A service that starts with an empty tree at the contract's creation block, whose tree is
      -- empty then, never has an identity twice, and changes at most once in a block and, with
      -- deletions, has a depth below 32, over a database that accepts every statement and with
      -- responses of axum as documented, through a session of rounds with honest providers and
      -- readable POSTs to `/inclusionProof` with no root, in any order: each reply before the first
      -- round has status 503; each reply after it, for an identity among the contract's leaves at
      -- the chain's head of the last round, is status 200 and the JSON of a proof for that identity
      -- which verifies, at the root of a tree with just these leaves; and later replies are of
      -- later blocks or the same.
      pub Session-Answered :
          (I : IsAxum A) {v : WorldTree P F} {rounds n : ℕ} {xs : List Exchange}
          → Session depth c handled_at
              (new P F db signature depth dense size address creation_block window)
              creation_block
              v
              rounds
              n
              xs
          → All (Answered depth c handled_at) xs × InOrder depth c handled_at xs
      Session-Answered I s = (answered s, in_order s)
        where
          answered :
              {v : WorldTree P F} {rounds n : ℕ} {xs : List Exchange}
              → Opened v rounds n xs
              → All (Answered depth c handled_at) xs
          answered opens = tt
          answered (syncs s round latest h) = answered s
          answered (asks s q parts body posts) = (
            record {
              refused = refuses I q parts body posts s;
              proved = proves I q parts body posts s;
            },
            answered s,
          )
