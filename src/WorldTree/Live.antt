-- ===== src/WorldTree/Live.antt =====
-- The task gets to its loop, and stays there, as long as its rounds succeed.
use world_tree.Prelude.{◌≡◌, ◌≢◌, refl, true, ℕ, List, [], ◌∷◌}
use world_tree.Merkle.{Hash, PoseidonTree, IsMerkle}
use world_tree.Foreign.{Foreign}
use world_tree.Updater.{Round}
use world_tree.Updater.Accept.{Accepts}
use world_tree.Updater.Mirror.{Mirrors}
use world_tree.WorldTree.{WorldTree, Phase, starting, looping, stopped}
use world_tree.WorldTree.Invariant.{first_sync-After, loop_sync-After}
use world_tree.WorldTree.Follow.{Brings, InStep, first_sync-InStep, loop_sync-InStep}
use world_tree.WorldTree.Run.{advance, run}

-- A task that has begun and not ended is in its loop.
in_loop : (p : Phase) → p ≢ starting → p ≢ stopped → p ≡ looping
in_loop starting a b = absurd (a refl)
in_loop looping a b = refl
in_loop stopped a b = absurd (b refl)

module _ (P : PoseidonTree) (F : Foreign) (depth : ℕ) where
  -- Each round brings transactions of the contract or no logs to the state that it meets.
  pub data AllBring : List (Round F) → WorldTree P F → List Hash → List Hash → Type 0 where
    none_left : {w : WorldTree P F} {ls : List Hash} → AllBring [] w ls ls
    one_more :
        {r : Round F} {rs : List (Round F)} {w : WorldTree P F} {ls ls' ls'' : List Hash}
        → Brings P F depth r w.updater.block_scanner ls ls'
        → AllBring rs (advance P F w.phase r w) ls' ls''
        → AllBring (r ∷ rs) w ls ls''

  module _ (L : IsMerkle P) (A : Accepts F) where
    -- In step with the contract, and in the loop.
    pub record Looping (v : WorldTree P F) (ls : List Hash) : Type 0 where
      pub in_step : InStep P F depth v ls
      pub phase : v.phase ≡ looping

    pub advance-Looping :
        (p : Phase) (r : Round F) (w : WorldTree P F) (ls ls' : List Hash)
        → w.phase ≡ p
        → Brings P F depth r w.updater.block_scanner ls ls'
        → InStep P F depth w ls
        → Looping (advance P F p r w) ls'
    unfolding advance
    advance-Looping starting r w ls ls' e b i =
        let j = first_sync-InStep P F depth L A r w ls ls' b i in
        record { in_step = j; phase = in_loop _ (first_sync-After P F r w).started j.running }
    advance-Looping looping r w ls ls' e b i =
        let j = loop_sync-InStep P F depth L A r w ls ls' e b i in
        record {
          in_step = j;
          phase = in_loop _ (loop_sync-After P F r w (i.ready e)).started j.running;
        }
    advance-Looping stopped r w ls ls' e b i = absurd (i.running e)

    run-InStep :
        (rs : List (Round F)) (w : WorldTree P F) (ls ls' : List Hash)
        → AllBring rs w ls ls'
        → Looping w ls
        → Looping (run P F rs w) ls'
    unfolding run
    run-InStep [] w ls ls' none_left i = i
    run-InStep (r ∷ rs) w ls ls'' (one_more {ls' = ls'} b bs) i =
        run-InStep rs (advance P F w.phase r w) ls' ls'' bs
          (advance-Looping w.phase r w ls ls' refl b i.in_step)

    -- A task in step with the contract that has not ended, for which one round and every further
    -- one brings transactions of the contract or no logs, over a database that accepts every
    -- statement, gets to its loop and is there after the last round: it is synced, and its tree
    -- mirrors the leaves that the contract has come to.
    pub run_synced :
        (r : Round F) (rs : List (Round F)) (w : WorldTree P F) (ls ls' : List Hash)
        → InStep P F depth w ls
        → AllBring (r ∷ rs) w ls ls'
        → ((run P F (r ∷ rs) w).phase ≡ looping)
          × ((run P F (r ∷ rs) w).synced ≡ true)
          × Mirrors P F depth ls' (run P F (r ∷ rs) w).state
    unfolding run
    run_synced r rs w ls ls'' i (one_more {ls' = ls'} b bs) =
        let j =
          run-InStep rs (advance P F w.phase r w) ls' ls'' bs
            (advance-Looping w.phase r w ls ls' refl b i) in
        (j.phase, j.in_step.ready j.phase, j.in_step.mirrors)
