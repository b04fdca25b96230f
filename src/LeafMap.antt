-- ===== src/LeafMap.antt =====
-- `HashMap<Hash, u64>`, the field `leaves` of `TreeData` (src/tree/tree_data.rs), as an association
-- list that holds each key once.
use world_tree.Prelude.{ℕ, ◌≡◌, refl, Option, none, some, List, [], ◌∷◌, arith, ◌==◌, if◌then◌else◌}

abbrev pub LeafMap : Type 0
LeafMap = List (ℕ × ℕ)

unfoldable pub get : ℕ → LeafMap → Option ℕ
get k [] = none
get k ((j, v) ∷ m) = if j == k then some v else get k m

unfoldable pub remove : ℕ → LeafMap → LeafMap
remove k [] = []
remove k ((j, v) ∷ m) = let rest = remove k m in if j == k then rest else (j, v) ∷ rest

unfoldable pub insert : ℕ → ℕ → LeafMap → LeafMap
insert k v m = (k, v) ∷ remove k m

pub get-remove : (k q : ℕ) (m : LeafMap) → get q (remove k m) ≡ (if k == q then none else get q m)
unfolding get remove
get-remove k q [] = ground arith
get-remove k q ((j, v) ∷ m) = ground (arith, get-remove k q m)

pub get-insert :
    (k q v : ℕ) (m : LeafMap) → get q (insert k v m) ≡ (if k == q then some v else get q m)
unfolding get insert
get-insert k q v m = ground (arith, get-remove k q m)

pub get-nil : (q : ℕ) → get q [] ≡ none
unfolding get
get-nil q = refl

pub ruleset map_laws = (get-remove, get-insert, get-nil)
