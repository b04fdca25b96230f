-- ===== src/WorldTree/Full.antt =====
-- Every identity of the tree stays in the map through any number of rounds that succeed.
use mathlib.Core.Path.{subst}
use world_tree.Prelude.{ℕ, ◌≡◌, sym, true, ◌∙◌, List, arith}
use world_tree.Exec.{ok}
use world_tree.Merkle.{Hash, PoseidonTree, IsMerkle}
use world_tree.BlockScanner.{BlockScanner}
use world_tree.Foreign.{Foreign}
use world_tree.TreeData.Full.{IsFull}
use world_tree.Updater.{SyncState, Round, sync_to_head, next_logs, sync_logs}
use world_tree.Updater.Accept.{Accepts}
use world_tree.Updater.Mirror.{Mirrors}
use world_tree.Updater.Full.{NeverRepeated}
use world_tree.Updater.Head.{sync_to_head-IsFull}
use world_tree.WorldTree.{WorldTree, looping, first_sync, loop_sync}
use world_tree.WorldTree.Follow.{
  Brings, delivers, idles, Follows, begins, syncs_first, syncs_again, InStep, sync_to_head-Brings,
  Follows-InStep,
}

module _ (P : PoseidonTree) (F : Foreign) (depth : ℕ) where
  -- No state of the contract's leaves on the way through the round has an identity twice.
  abbrev pub BringsUnrepeated :
      {round : Round F} {start : BlockScanner} {ls ls' : List Hash}
      → Brings P F depth round start ls ls'
      → Type 0
  BringsUnrepeated {round} (delivers scanner c) = NeverRepeated P F round c.effects
  BringsUnrepeated (idles scanner e) = Unit

  abbrev pub FollowsUnrepeated :
      {w : WorldTree P F} {ls0 : List Hash} {v : WorldTree P F} {ls : List Hash}
      → Follows P F depth w ls0 v ls
      → Type 0
  FollowsUnrepeated begins = Unit
  FollowsUnrepeated (syncs_first f round p b) = FollowsUnrepeated f × BringsUnrepeated b
  FollowsUnrepeated (syncs_again f round p b) = FollowsUnrepeated f × BringsUnrepeated b

  module _ (L : IsMerkle P) (A : Accepts F) where
    round-IsFull :
        (round : Round F) (ls ls' : List Hash) (s s' : SyncState P F)
        → (b : Brings P F depth round s.updater.block_scanner ls ls') → Mirrors P F depth ls s
        → BringsUnrepeated b
        → IsFull s.tree_data
        → sync_to_head P F round s ≡ (ok tt, s')
        → IsFull s'.tree_data
    unfolding sync_to_head next_logs sync_logs
    round-IsFull round ls ls' s s' (delivers scanner c) m u f run =
        sync_to_head-IsFull P F round L A depth ls ls' s s' scanner c m u f run
    round-IsFull round ls ls' s s' (idles scanner e) m u f run =
        let after : SyncState P F = record s {
          updater = record s.updater { block_scanner = scanner };
        } in
        let idle : sync_to_head P F round s ≡ (ok tt, after) = ground (arith, e) in
        subst (λ r. IsFull r.1.tree_data) (sym idle ∙ run) f

    first_sync-IsFull :
        (round : Round F) (v : WorldTree P F) (ls ls' : List Hash)
        → (b : Brings P F depth round v.updater.block_scanner ls ls') → BringsUnrepeated b
        → InStep P F depth v ls
        → IsFull v.tree_data
        → IsFull (first_sync P F round v).tree_data
    unfolding first_sync
    first_sync-IsFull round v ls ls' b u i f =
        let (s', run, m) = sync_to_head-Brings P F depth L A round ls ls' v.state b i.mirrors in
        let full = round-IsFull round ls ls' v.state s' b i.mirrors u f run in
        let after : WorldTree P F = record { state = s'; synced = true; phase = looping } in
        let e : first_sync P F round v ≡ after = ground (arith, run) in
        subst (λ w. IsFull w.tree_data) (sym e) full

    loop_sync-IsFull :
        (round : Round F) (v : WorldTree P F) (ls ls' : List Hash)
        → (b : Brings P F depth round v.updater.block_scanner ls ls') → BringsUnrepeated b
        → InStep P F depth v ls
        → IsFull v.tree_data
        → IsFull (loop_sync P F round v).tree_data
    unfolding loop_sync
    loop_sync-IsFull round v ls ls' b u i f =
        let (s', run, m) = sync_to_head-Brings P F depth L A round ls ls' v.state b i.mirrors in
        let full = round-IsFull round ls ls' v.state s' b i.mirrors u f run in
        let after : WorldTree P F = record { state = s'; synced = v.synced; phase = looping } in
        let e : loop_sync P F round v ≡ after = ground (arith, run) in
        subst (λ w. IsFull w.tree_data) (sym e) full

    pub Follows-IsFull :
        {w : WorldTree P F} {ls0 : List Hash} {v : WorldTree P F} {ls : List Hash}
        → InStep P F depth w ls0
        → IsFull w.tree_data
        → (f : Follows P F depth w ls0 v ls) → FollowsUnrepeated f
        → IsFull v.tree_data
    Follows-IsFull i full begins u = full
    Follows-IsFull i full (syncs_first {v} {ls} {ls'} f round p b) u =
        first_sync-IsFull round v ls ls' b u.1 (Follows-InStep P F depth L A i f)
          (Follows-IsFull i full f u.0)
    Follows-IsFull i full (syncs_again {v} {ls} {ls'} f round p b) u =
        loop_sync-IsFull round v ls ls' b u.1 (Follows-InStep P F depth L A i f)
          (Follows-IsFull i full f u.0)
