-- ===== src/WorldTree/Traced.antt =====
-- The tree of the task through rounds that succeed, as a run of batches.
use mathlib.Core.Path.{subst}
use world_tree.Prelude.{ℕ, ◌≡◌, sym, ◌∙◌, List, [], arith}
use world_tree.Exec.{ok}
use world_tree.Merkle.{Hash, PoseidonTree, IsMerkle}
use world_tree.BlockScanner.{BlockScanner}
use world_tree.Foreign.{Foreign}
use world_tree.TreeData.{TreeData}
use world_tree.Updater.{SyncState, Round, Error, sync_to_head, next_logs, sync_logs}
use world_tree.Updater.Accept.{Accepts}
use world_tree.Updater.Mirror.{Mirrors}
use world_tree.Updater.Traced.{Traced, time_after, seen_after, AllMoveOn, sync_to_head-Traced}
use world_tree.WorldTree.{WorldTree, first_sync, loop_sync}
use world_tree.WorldTree.Follow.{
  Brings, delivers, idles, Follows, begins, syncs_first, syncs_again, InStep, sync_to_head-Brings,
  Follows-InStep,
}

module _ (P : PoseidonTree) (F : Foreign) (depth : ℕ) where
  -- The time of the root after a round, the leaves and times seen before its transactions, and
  -- whether the clock moves on through it.
  abbrev pub round_time :
      {round : Round F} {start : BlockScanner} {ls ls' : List Hash}
      → Brings P F depth round start ls ls'
      → ℕ
      → ℕ
  round_time {round} (delivers scanner c) t = time_after P F round c.effects t
  round_time (idles scanner e) t = t

  abbrev pub round_seen :
      {round : Round F} {start : BlockScanner} {ls ls' : List Hash}
      → Brings P F depth round start ls ls'
      → ℕ
      → List (List Hash × ℕ)
      → List (List Hash × ℕ)
  round_seen {round} (delivers scanner c) t seen = seen_after P F round c.effects t seen
  round_seen (idles scanner e) t seen = seen

  abbrev pub RoundMovesOn :
      {round : Round F} {start : BlockScanner} {ls ls' : List Hash}
      → Brings P F depth round start ls ls'
      → ℕ
      → Type 0
  RoundMovesOn {round} (delivers scanner c) t = AllMoveOn P F round c.effects t
  RoundMovesOn (idles scanner e) t = Unit

  -- The same for all rounds, from a root of time 0.
  abbrev pub last_time :
      {w : WorldTree P F} {ls0 : List Hash} {v : WorldTree P F} {ls : List Hash}
      → Follows P F depth w ls0 v ls
      → ℕ
  last_time begins = 0
  last_time (syncs_first f round p b) = round_time b (last_time f)
  last_time (syncs_again f round p b) = round_time b (last_time f)

  -- The leaves and times of the contract before each of its transactions, the last one first.
  abbrev pub states_before :
      {w : WorldTree P F} {ls0 : List Hash} {v : WorldTree P F} {ls : List Hash}
      → Follows P F depth w ls0 v ls
      → List (List Hash × ℕ)
  states_before begins = []
  states_before (syncs_first f round p b) = round_seen b (last_time f) (states_before f)
  states_before (syncs_again f round p b) = round_seen b (last_time f) (states_before f)

  abbrev pub FollowsTimely :
      {w : WorldTree P F} {ls0 : List Hash} {v : WorldTree P F} {ls : List Hash}
      → Follows P F depth w ls0 v ls
      → Type 0
  FollowsTimely begins = Unit
  FollowsTimely (syncs_first f round p b) = FollowsTimely f × RoundMovesOn b (last_time f)
  FollowsTimely (syncs_again f round p b) = FollowsTimely f × RoundMovesOn b (last_time f)

  module _ (L : IsMerkle P) (A : Accepts F) where
    round-Traced :
        (round : Round F) (ls ls' : List Hash) (s s' : SyncState P F)
        → (b : Brings P F depth round s.updater.block_scanner ls ls') → Mirrors P F depth ls s
        → (d0 : TreeData P) (seen : List (List Hash × ℕ)) (t : ℕ) → RoundMovesOn b t
        → Traced P (Error P F) d0 seen t s.tree_data
        → sync_to_head P F round s ≡ (ok tt, s')
        → Traced P (Error P F) d0 (round_seen b t seen) (round_time b t) s'.tree_data
    unfolding sync_to_head next_logs sync_logs
    round-Traced round ls ls' s s' (delivers scanner c) m d0 seen t u k run =
        sync_to_head-Traced P F round L A depth ls ls' s s' scanner c m d0 seen t u k run
    round-Traced round ls ls' s s' (idles scanner e) m d0 seen t u k run =
        let after : SyncState P F = record s {
          updater = record s.updater { block_scanner = scanner };
        } in
        let idle : sync_to_head P F round s ≡ (ok tt, after) = ground (arith, e) in
        subst (λ o. Traced P (Error P F) d0 seen t o.1.tree_data) (sym idle ∙ run) k

    -- The states of the first sync and of the loop's rounds are those of `sync_to_head`.
    first_sync-tree :
        (round : Round F) (v : WorldTree P F) (s' : SyncState P F)
        → sync_to_head P F round v.state ≡ (ok tt, s')
        → s'.tree_data ≡ (first_sync P F round v).tree_data
    unfolding first_sync
    first_sync-tree round v s' run = ground (arith, run)

    loop_sync-tree :
        (round : Round F) (v : WorldTree P F) (s' : SyncState P F)
        → sync_to_head P F round v.state ≡ (ok tt, s')
        → s'.tree_data ≡ (loop_sync P F round v).tree_data
    unfolding loop_sync
    loop_sync-tree round v s' run = ground (arith, run)

    pub Follows-Traced :
        {w : WorldTree P F} {ls0 : List Hash} {v : WorldTree P F} {ls : List Hash}
        → InStep P F depth w ls0
        → Traced P (Error P F) w.tree_data [] 0 w.tree_data
        → (f : Follows P F depth w ls0 v ls) → FollowsTimely f
        → Traced P (Error P F) w.tree_data (states_before f) (last_time f) v.tree_data
    Follows-Traced i k begins u = k
    Follows-Traced {w} i k (syncs_first {v} {ls} {ls'} f round p b) u =
        let j = Follows-InStep P F depth L A i f in
        let (s', run, m) = sync_to_head-Brings P F depth L A round ls ls' v.state b j.mirrors in
        subst (Traced P (Error P F) w.tree_data _ _) (first_sync-tree round v s' run) (
          round-Traced round ls ls' v.state s' b j.mirrors w.tree_data (states_before f)
            (last_time f) u.1 (Follows-Traced i k f u.0) run)
    Follows-Traced {w} i k (syncs_again {v} {ls} {ls'} f round p b) u =
        let j = Follows-InStep P F depth L A i f in
        let (s', run, m) = sync_to_head-Brings P F depth L A round ls ls' v.state b j.mirrors in
        subst (Traced P (Error P F) w.tree_data _ _) (loop_sync-tree round v s' run) (
          round-Traced round ls ls' v.state s' b j.mirrors w.tree_data (states_before f)
            (last_time f) u.1 (Follows-Traced i k f u.0) run)
