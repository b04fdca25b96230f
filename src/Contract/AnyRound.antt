-- ===== src/Contract/AnyRound.antt =====
-- What the service keeps and answers after any rounds, failing or not, against the contract.
use mathlib.Core.Path.{subst}
use world_tree.Prelude.{
  ℕ, ◌^◌, ◌≤◌, ◌≡◌, ◌≢◌, refl, sym, ap, ◌⊎◌, inl, inr, Option, Option-cases, Bool-cases, true,
  false, none, some, arith, replicate,
}
use world_tree.Merkle.{Hash, hash_zero, PoseidonTree, IsMerkle}
use world_tree.Foreign.{Foreign}
use world_tree.TreeData.{InclusionProof, get_inclusion_proof}
use world_tree.TreeData.Proofs.{Verifies, get_inclusion_proof-Verifies}
use world_tree.Error.{TreeError, tree_not_synced}
use world_tree.Updater.Mirror.{Mirrors}
use world_tree.WorldTree.{WorldTree, Phase, starting, looping, stopped}
use world_tree.Service.{status_ok, new, inclusion_proof}
use world_tree.Contract.{Contract}
use world_tree.Contract.Faulty.{Faultily, Inside, Faultily-Inside}
use world_tree.Contract.Start.{start-at, start-begun}

stopped_or_not : (p : Phase) → (p ≡ stopped) ⊎ (p ≢ stopped)
stopped_or_not starting = inr (λ h. cc)
stopped_or_not looping = inr (λ h. cc)
stopped_or_not stopped = inl refl

module _ (P : PoseidonTree) (F : Foreign) where
  -- The leaves are the contract's, where the scanner stands as long as the task runs.
  Inside-leaves :
      (depth n0 : ℕ) (c : Contract F depth) (v : WorldTree P F)
      → Inside P F depth c n0 v
      → (block : ℕ) × (n0 ≤ block)
        × (block ≤ v.updater.block_scanner.last_synced_block)
        × (P.leaves v.tree_data.tree ≡ c.leaves_at block)
        × ((v.phase ≡ stopped) ⊎ (block ≡ v.updater.block_scanner.last_synced_block))
  Inside-leaves depth n0 c v i = elim (stopped_or_not v.phase) [
    | inl e ↦ (i.held.block, i.held.after, i.held.before, i.held.leaves, inl e)
    | inr runs ↦ (
      v.updater.block_scanner.last_synced_block,
      omega (arith, i.held.after, i.held.before),
      omega arith,
      (i.running runs).leaves,
      inr refl,
    )
  ]

  -- Rounds start over from any state, with the block that its tree is at.
  Inside-here :
      (depth n0 : ℕ) (c : Contract F depth) (v : WorldTree P F)
      → Inside P F depth c n0 v
      → (block : ℕ) × (n0 ≤ block)
        × (P.leaves v.tree_data.tree ≡ c.leaves_at block)
        × Inside P F depth c block v
  Inside-here depth n0 c v i =
      let (block, from, to, leaves, stands) = Inside-leaves depth n0 c v i in
      (
        block,
        from,
        leaves,
        record {
          running = i.running;
          held = record { block = block; after = omega arith; before = to; leaves = leaves };
        },
      )

  -- The answers of the service for an identity and no root: before the sync that there is none, and
  -- after it no proof, or a proof that verifies at the root of the tree.
  abbrev Answers : WorldTree P F → Hash → TreeError ⊎ (ℕ × Option (InclusionProof P)) → Type 0
  Answers v q a =
      ((v.synced ≡ false) × (a ≡ inl tree_not_synced))
      ⊎ ((v.synced ≡ true)
          × ((a ≡ inr (status_ok, none))
              ⊎ ((p : InclusionProof P) × (a ≡ inr (status_ok, some p))
                  × Verifies P q p
                  × (p.root ≡ P.root v.tree_data.tree))))

  inclusion_proof-Answers :
      (L : IsMerkle P) (v : WorldTree P F) (q : Hash)
      → Answers v q (inclusion_proof P F v (record { identity_commitment = q; root = none }))
  unfolding inclusion_proof
  inclusion_proof-Answers L v q = elim (Bool-cases v.synced) [
    | inl e ↦ elim (Option-cases (get_inclusion_proof P v.tree_data q none)) [
      | inl f ↦ inr (e, inl (rw e (ap (λ o. inr (status_ok, o)) f)))
      | inr (p, f) ↦
          let (verified, root) = get_inclusion_proof-Verifies P L v.tree_data q none p f in
          inr (e, inr (p, rw e (ap (λ o. inr (status_ok, o)) f), verified, root))
    ]
    | inr e ↦ inl (e, rw e refl)
  ]

  module _ (db : F.Db) (signature depth dense size address creation_block window : ℕ) where
    abbrev start : WorldTree P F
    start = new P F db signature depth dense size address creation_block window

    start-Inside :
        (L : IsMerkle P) (c : Contract F depth)
        → c.leaves_at creation_block ≡ replicate (2 ^ depth) hash_zero
        → Inside P F depth c creation_block start
    start-Inside L c empty =
        let at = start-at P F db signature depth dense size address creation_block window in
        let begun =
          start-begun P F db signature depth dense size address creation_block window L c empty in
        record {
          running = λ h.
              subst (λ n. Mirrors P F depth (c.leaves_at n) start.state) (sym at) begun.mirrors;
          held = record {
            block = creation_block;
            after = omega arith;
            before = omega (arith, at);
            leaves = begun.mirrors.leaves;
          };
        }

    -- For a service that starts with an empty tree at the contract's creation block, whose tree is
    -- empty then and changes at most once in a block and, with deletions, has a depth below 32, and
    -- for a state `v` after any rounds of the task and a state `w` after any more of them, each
    -- with a provider whose head, logs and transactions are the chain's or errors (or, for a
    -- transaction, missing), the transactions in any order, whose head is not behind the scanner
    -- and within a u64 with the window, and with any answers for blocks, any clock and any
    -- database, whether the rounds fail or succeed: the leaves of the tree in `v` are those of the
    -- contract after some block, from the creation block on, and in `w` after that block or a later
    -- one, up to where the scanner stands, and exactly there unless the task has stopped; and in
    -- `w` the service answers a request for any identity and no root, while it is not synced, with
    -- the error for that, and else with status 200 and no proof or a proof that verifies at the
    -- root of that tree.
    pub faults_safe :
        (L : IsMerkle P) (c : Contract F depth)
        → c.leaves_at creation_block ≡ replicate (2 ^ depth) hash_zero
        → {v w : WorldTree P F}
        → Faultily P F depth c
            (new P F db signature depth dense size address creation_block window)
            v
        → Faultily P F depth c v w
        → (q : Hash)
        → ((earlier : ℕ) × (creation_block ≤ earlier)
            × (P.leaves v.tree_data.tree ≡ c.leaves_at earlier)
            × ((block : ℕ) × (earlier ≤ block)
                × (block ≤ w.updater.block_scanner.last_synced_block)
                × (P.leaves w.tree_data.tree ≡ c.leaves_at block)
                × ((w.phase ≡ stopped) ⊎ (block ≡ w.updater.block_scanner.last_synced_block))))
          × Answers w q (inclusion_proof P F w (record { identity_commitment = q; root = none }))
    faults_safe L c empty {v} {w} h more q =
        let begun = Faultily-Inside P F depth c L creation_block (start-Inside L c empty) h in
        let (earlier, from, leaves, here) = Inside-here depth creation_block c v begun in
        let there = Faultily-Inside P F depth c L earlier here more in
        (
          (earlier, from, leaves, Inside-leaves depth earlier c w there),
          inclusion_proof-Answers L w q,
        )
