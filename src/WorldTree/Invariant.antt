-- ===== src/WorldTree/Invariant.antt =====
-- What holds in every state that the task of a `WorldTree` reaches.
use mathlib.Core.Path.{subst}
use world_tree.Prelude.{sym, ◌≡◌, ◌≢◌, refl, inl, inr, true, arith}
use world_tree.Exec.{Outcome-cases}
use world_tree.Merkle.{PoseidonTree}
use world_tree.Foreign.{Foreign}
use world_tree.TreeData.History.{IsBounded}
use world_tree.Updater.{Round, sync_to_head}
use world_tree.Updater.Frame.{Stays, Stays-refl, Stays-trans, sync_to_head-Stays}
use world_tree.WorldTree.{
  WorldTree, starting, looping, first_sync, loop_sync, Step, Reach, first, again, here, next,
}

-- Seen from the start `w`: the history fits its configured size, the depth, the size and
-- `latest_synced_block` are those of the start, and a task in its loop has set `synced`.
pub record Sound {P : PoseidonTree} {F : Foreign} (w v : WorldTree P F) : Type 0 where
  pub stays : Stays w.state v.state
  pub looping_synced : v.phase ≡ looping → v.synced ≡ true
  pub unsynced : v.phase ≡ starting → v.synced ≡ w.synced

module _ (P : PoseidonTree) (F : Foreign) where
  -- What a round makes of the state, whatever its outcome.
  pub record After (round : Round F) (v v' : WorldTree P F) : Type 0 where
    pub state : v'.state ≡ (sync_to_head P F round v.state).1
    pub looping_synced : v'.phase ≡ looping → v'.synced ≡ true
    pub kept : v.synced ≡ true → v'.synced ≡ true
    pub started : v'.phase ≢ starting

  pub first_sync-After :
      (round : Round F) (v : WorldTree P F) → After round v (first_sync P F round v)
  unfolding first_sync
  first_sync-After round v = elim (Outcome-cases (sync_to_head P F round v.state).0) [
    | inl (a, r) ↦ ground (arith, r)
    | inr (inl (x, r)) ↦ ground (arith, r)
    | inr (inr (inl r)) ↦ ground (arith, r)
    | inr (inr (inr r)) ↦ ground (arith, r)
  ]

  pub loop_sync-After :
      (round : Round F) (v : WorldTree P F)
      → v.synced ≡ true
      → After round v (loop_sync P F round v)
  unfolding loop_sync
  loop_sync-After round v e = elim (Outcome-cases (sync_to_head P F round v.state).0) [
    | inl (a, r) ↦ ground (arith, r)
    | inr (inl (x, r)) ↦ ground (arith, r)
    | inr (inr (inl r)) ↦ ground (arith, r)
    | inr (inr (inr r)) ↦ ground (arith, r)
  ]

  After-Sound :
      {w v v' : WorldTree P F} (round : Round F) → After round v v' → Sound w v → Sound w v'
  After-Sound {w} {v} {v'} round a s = record {
    stays =
        Stays-trans P F s.stays (rw a.state (sync_to_head-Stays P F round v.state s.stays.bounded));
    looping_synced = a.looping_synced;
    unsynced = λ e. absurd (a.started e);
  }

  Step-Sound : {w v v' : WorldTree P F} → Step P F v v' → Sound w v → Sound w v'
  Step-Sound {w} {v} {v'} (first round e f) s =
      subst (Sound w) (sym f) (After-Sound round (first_sync-After round v) s)
  Step-Sound {w} {v} {v'} (again round e f) s =
      subst (Sound w) (sym f) (After-Sound round (loop_sync-After round v (s.looping_synced e)) s)

  -- From a bounded state before the first sync, every reachable state is bounded by the configured
  -- size, with the configured depth and the `latest_synced_block` of the start; it is in the loop
  -- only if `synced` is set, and waits for the first sync only if `synced` is as at the start.
  pub Reach-Sound :
      {w v : WorldTree P F} → IsBounded w.tree_data → w.phase ≡ starting → Reach P F w v → Sound w v
  Reach-Sound {w} b p here = record {
    stays = Stays-refl P F w.state b;
    looping_synced = λ e. absurd (ground (arith, p, e));
    unsynced = λ e. refl;
  }
  Reach-Sound b p (next r st) = Step-Sound st (Reach-Sound b p r)

  Step-kept : {v v' : WorldTree P F} → Step P F v v' → v.synced ≡ true → v'.synced ≡ true
  Step-kept {v} {v'} (first round e f) s = rw f ((first_sync-After round v).kept s)
  Step-kept {v} {v'} (again round e f) s = rw f ((loop_sync-After round v s).kept s)

  -- Once `synced` is set it stays set.
  pub Reach-synced : {w v : WorldTree P F} → Reach P F w v → w.synced ≡ true → v.synced ≡ true
  Reach-synced here s = s
  Reach-synced (next r st) s = Step-kept st (Reach-synced r s)
