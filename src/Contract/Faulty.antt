-- ===== src/Contract/Faulty.antt =====
-- The task through any rounds, failing or not, against the contract.
use mathlib.Core.Path.{subst}
use world_tree.Prelude.{ℕ, ◌≤◌, ◌≡◌, ◌≢◌, refl, inl, inr, arith}
use world_tree.Exec.{ok, Outcome-cases}
use world_tree.Merkle.{PoseidonTree, IsMerkle}
use world_tree.Foreign.{Foreign}
use world_tree.Updater.{Round, sync_to_head}
use world_tree.Updater.Mirror.{Mirrors}
use world_tree.WorldTree.{WorldTree, Phase, starting, looping, stopped, first_sync, loop_sync}
use world_tree.WorldTree.Run.{advance}
use world_tree.Contract.{Contract}
use world_tree.Contract.Partial.{Held}
use world_tree.Contract.Faults.{Truthfully}
use world_tree.Contract.Safe.{sync_to_head-Synced}

module _ (P : PoseidonTree) (F : Foreign) (depth : ℕ) (c : Contract F depth) where
  -- The states that the task gets to from `w` in rounds whose providers are truthful.
  pub data Faultily (w : WorldTree P F) : WorldTree P F → Type 0 where
    not_yet : Faultily w w
    round_more :
        {v : WorldTree P F}
        → Faultily w v
        → (round : Round F) (latest : ℕ)
        → Truthfully P F depth c round v.updater.block_scanner latest
        → Faultily w (advance P F v.phase round v)

  -- A task that runs mirrors the contract where its scanner stands, and any task has the leaves of the
  -- contract after some block from `n0` to there.
  pub record Inside (n0 : ℕ) (v : WorldTree P F) : Type 0 where
    pub running :
        v.phase ≢ stopped
        → Mirrors P F depth (c.leaves_at v.updater.block_scanner.last_synced_block) v.state
    pub held : Held P F depth c n0 v.updater.block_scanner.last_synced_block v.state

  module _ (L : IsMerkle P) where
    -- A round keeps the state that `sync_to_head` leaves, and one that does not stop the task has
    -- succeeded.
    record Leaves (round : Round F) (v v' : WorldTree P F) : Type 0 where
      state : (sync_to_head P F round v.state).1 ≡ v'.state
      success : v'.phase ≢ stopped → (sync_to_head P F round v.state).0 ≡ ok tt

    first_sync-Leaves :
        (round : Round F) (v : WorldTree P F) → Leaves round v (first_sync P F round v)
    unfolding first_sync
    first_sync-Leaves round v = elim (Outcome-cases (sync_to_head P F round v.state).0) [
      | inl (a, r) ↦ record { state = ground (arith, r); success = λ h. r }
      | inr (inl (x, r)) ↦ record {
        state = ground (arith, r);
        success = λ h. absurd (ground (arith, r, h));
      }
      | inr (inr (inl r)) ↦ record {
        state = ground (arith, r);
        success = λ h. absurd (ground (arith, r, h));
      }
      | inr (inr (inr r)) ↦ record {
        state = ground (arith, r);
        success = λ h. absurd (ground (arith, r, h));
      }
    ]

    loop_sync-Leaves :
        (round : Round F) (v : WorldTree P F) → Leaves round v (loop_sync P F round v)
    unfolding loop_sync
    loop_sync-Leaves round v = elim (Outcome-cases (sync_to_head P F round v.state).0) [
      | inl (a, r) ↦ record { state = ground (arith, r); success = λ h. r }
      | inr (inl (x, r)) ↦ record {
        state = ground (arith, r);
        success = λ h. absurd (ground (arith, r, h));
      }
      | inr (inr (inl r)) ↦ record {
        state = ground (arith, r);
        success = λ h. absurd (ground (arith, r, h));
      }
      | inr (inr (inr r)) ↦ record {
        state = ground (arith, r);
        success = λ h. absurd (ground (arith, r, h));
      }
    ]

    -- What a round of a running task leaves.
    round-Inside :
        (n0 latest : ℕ) (round : Round F) (v v' : WorldTree P F)
        → v.phase ≢ stopped
        → Leaves round v v'
        → Truthfully P F depth c round v.updater.block_scanner latest
        → Inside n0 v
        → Inside n0 v'
    round-Inside n0 latest round v v' runs left t i =
        let s = sync_to_head-Synced P F L depth c round v.state latest t (i.running runs) in
        let from : n0 ≤ v.updater.block_scanner.last_synced_block =
          omega (arith, i.held.after, i.held.before) in
        record {
          running = λ h.
              subst
                (λ z. Mirrors P F depth (c.leaves_at z.updater.block_scanner.last_synced_block) z)
                left.state (s.succeeded (left.success h));
          held =
              subst (λ z. Held P F depth c n0 z.updater.block_scanner.last_synced_block z)
                left.state
                (record {
                  block = s.held.block;
                  after = omega (arith, from, s.held.after);
                  before = s.held.before;
                  leaves = s.held.leaves;
                });
        }

    advance-Inside :
        (n0 latest : ℕ) (p : Phase) (round : Round F) (v : WorldTree P F)
        → v.phase ≡ p
        → Truthfully P F depth c round v.updater.block_scanner latest
        → Inside n0 v
        → Inside n0 (advance P F p round v)
    unfolding advance
    advance-Inside n0 latest starting round v e t i =
        round-Inside n0 latest round v _ (λ h. cc) (first_sync-Leaves round v) t i
    advance-Inside n0 latest looping round v e t i =
        round-Inside n0 latest round v _ (λ h. cc) (loop_sync-Leaves round v) t i
    advance-Inside n0 latest stopped round v e t i = i

    pub Faultily-Inside : (n0 : ℕ) {w v : WorldTree P F} → Inside n0 w → Faultily w v → Inside n0 v
    Faultily-Inside n0 i not_yet = i
    Faultily-Inside n0 i (round_more {v} r round latest t) =
        advance-Inside n0 latest v.phase round v refl t (Faultily-Inside n0 i r)
