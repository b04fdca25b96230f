-- ===== src/BlockMap.antt =====
-- `BTreeMap<U64, Transaction>`, the `sorted_transactions` of `sync_to_head`
-- (src/tree/tree_updater.rs), as an association list in the order of its keys.
pub mod Sorted
use world_tree.Prelude.{ℕ, List, [], ◌∷◌, map, ltb, ◌==◌, if◌then◌else◌}
use world_tree.Chain.{Transaction}

abbrev pub BlockMap : Type 0
BlockMap = List (ℕ × Transaction)

-- An entry with the key is replaced.
unfoldable pub insert : ℕ → Transaction → BlockMap → BlockMap
insert k v [] = (k, v) ∷ []
insert k v ((j, w) ∷ m) =
    if ltb k j then (k, v) ∷ (j, w) ∷ m else if k == j then (k, v) ∷ m else (j, w) ∷ insert k v m

unfoldable pub values : BlockMap → List Transaction
values = map (λ e. e.1)
