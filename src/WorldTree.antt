-- ===== src/WorldTree.antt =====
-- src/tree/mod.rs: the `WorldTree` and the task that `spawn` starts, as steps between the states
-- that requests can see. The write lock makes the changes of one `sync_to_head` one step for them.
pub mod Invariant
pub mod Follow
pub mod Full
pub mod Run
pub mod Live
pub mod Traced
pub mod Written
pub mod Scanned
use world_tree.Prelude.{ℕ, ◌≡◌, Bool, true, false}
use world_tree.Exec.{ok, err, panic, out_of_fuel}
use world_tree.Merkle.{PoseidonTree}
use world_tree.Foreign.{Foreign}
use world_tree.TreeData
use world_tree.TreeData.{TreeData}
use world_tree.Updater
use world_tree.Updater.{SyncState, Round, sync_to_head}

-- Where the task stands: before its first sync, in its loop, or ended by an error or a panic (or in
-- a sync that does not end).
pub data Phase : Type 0 where
  starting looping stopped : Phase

pub record WorldTree (P : PoseidonTree) (F : Foreign) : Type 0 where
  pub state : SyncState P F
  pub open state use *
  pub synced : Bool
  pub phase : Phase

module _ (P : PoseidonTree) (F : Foreign) where
  -- `db` is the connection that the task opens before its first sync.
  unfoldable pub new : F.Db → ℕ → P.Canonical → ℕ → ℕ → ℕ → ℕ → WorldTree P F
  new db tree_changed_signature tree tree_history_size address creation_block window_size = record {
    state = record {
      updater = Updater.new tree_changed_signature address creation_block window_size;
      tree_data = TreeData.new P tree tree_history_size;
      db = db;
    };
    synced = false;
    phase = starting;
  }

  -- The first sync of the task: only its success sets `synced`.
  unfoldable pub first_sync : Round F → WorldTree P F → WorldTree P F
  first_sync round w =
      let (r, s) = sync_to_head P F round w.state in
      elim r [
        | ok _ ↦ record { state = s; synced = true; phase = looping }
        | err _ ↦ record { state = s; synced = w.synced; phase = stopped }
        | panic ↦ record { state = s; synced = w.synced; phase = stopped }
        | out_of_fuel ↦ record { state = s; synced = w.synced; phase = stopped }
      ]

  -- A round of the loop.
  unfoldable pub loop_sync : Round F → WorldTree P F → WorldTree P F
  loop_sync round w =
      let (r, s) = sync_to_head P F round w.state in
      elim r [
        | ok _ ↦ record { state = s; synced = w.synced; phase = looping }
        | err _ ↦ record { state = s; synced = w.synced; phase = stopped }
        | panic ↦ record { state = s; synced = w.synced; phase = stopped }
        | out_of_fuel ↦ record { state = s; synced = w.synced; phase = stopped }
      ]

  pub data Step (w : WorldTree P F) (w' : WorldTree P F) : Type 0 where
    first : (round : Round F) → w.phase ≡ starting → w' ≡ first_sync round w → Step w w'
    again : (round : Round F) → w.phase ≡ looping → w' ≡ loop_sync round w → Step w w'

  pub data Reach (w : WorldTree P F) : WorldTree P F → Type 0 where
    here : Reach w w
    next : {v v' : WorldTree P F} → Reach w v → Step v v' → Reach w v'
