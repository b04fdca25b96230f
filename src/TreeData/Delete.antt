-- ===== src/TreeData/Delete.antt =====
-- `delete_many` of `TreeData` against what a batch of deletions is to do.
use world_tree.Prelude.{
  ℕ, ◌<◌, ◌≡◌, ◌≢◌, refl, ◌∙◌, inl, inr, Option-cases, Option, Bool, true, false, none, some, List,
  [], ◌∷◌, arith, length, take, set, All, length-set, get_elem?, get_elem?-set_self,
  get_elem?-set_ne, get_elem?-some, contains, ◌==◌, if◌then◌else◌,
}
use world_tree.Exec.{ok, panic}
use world_tree.Merkle.{Hash, hash_zero, PoseidonTree, IsMerkle}
use world_tree.LeafMap
use world_tree.LeafMap.{LeafMap, get-remove}
use world_tree.TreeData.{TreeData, delete_each, delete_many}
use world_tree.TreeData.History.{IsBounded, snapshot, cached, cache_tree_history_lem}

abbrev pub AllBelow : ℕ → List ℕ → Type 0
AllBelow n = All (λ i. i < n)

unfoldable pub clear_all : List ℕ → List Hash → List Hash
clear_all [] ls = ls
clear_all (i ∷ is) ls = clear_all is (set ls i hash_zero)

pub length-clear_all : (is : List ℕ) (ls : List Hash) → length (clear_all is ls) ≡ length ls
unfolding clear_all
length-clear_all [] ls = refl
length-clear_all (i ∷ is) ls = length-clear_all is (set ls i hash_zero) ∙ length-set ls i hash_zero

pub get_elem?-clear_all :
    (is : List ℕ) (ls : List Hash) (j : ℕ)
    → AllBelow (length ls) is
    → get_elem? (clear_all is ls) j ≡ (if contains j is then some hash_zero else get_elem? ls j)
unfolding clear_all
get_elem?-clear_all [] ls j h = refl
get_elem?-clear_all (i ∷ is) ls j h =
    get_elem?-clear_all is (set ls i hash_zero) j (rw (length-set ls i hash_zero) h.1)
    ∙ ground (arith, get_elem?-set_self ls i hash_zero h.0, get_elem?-set_ne ls i j hash_zero)

-- The leaf at one of the indices is `q`.
abbrev pub is_leaf : Hash → List Hash → ℕ → Bool
is_leaf q ls i = elim (get_elem? ls i) [ none ↦ false | some x ↦ x == q ]

abbrev pub holds : Hash → List ℕ → List Hash → Bool
holds q [] ls = false
holds q (i ∷ is) ls = if is_leaf q ls i then true else holds q is ls

-- Clearing a leaf hides no other identity.
holds-set :
    (q : Hash) (is : List ℕ) (ls : List Hash) (i : ℕ)
    → q ≢ hash_zero
    → i < length ls
    → is_leaf q ls i ≡ false
    → holds q is (set ls i hash_zero) ≡ holds q is ls
holds-set q [] ls i z h e = refl
holds-set q (j ∷ is) ls i z h e = ground (
  arith,
  get_elem?-set_self ls i hash_zero h,
  get_elem?-set_ne ls i j hash_zero,
  holds-set q is ls i z h e,
)

abbrev pub forget_at : Option Hash → LeafMap → LeafMap
forget_at none m = m
forget_at (some x) m = LeafMap.remove x m

get-forget_at :
    (q : Hash) (ls : List Hash) (i : ℕ) (m : LeafMap)
    → LeafMap.get q (forget_at (get_elem? ls i) m)
      ≡ (if is_leaf q ls i then none else LeafMap.get q m)
get-forget_at q ls i m = elim (Option-cases (get_elem? ls i)) [
  | inl e ↦ ground (arith, e)
  | inr (x, e) ↦ ground (arith, e, get-remove x q m)
]

-- The map without the identities at the indices, read one after the other.
pub forget_all : List ℕ → List Hash → LeafMap → LeafMap
forget_all [] ls m = m
forget_all (i ∷ is) ls m = forget_all is (set ls i hash_zero) (forget_at (get_elem? ls i) m)

-- What is gone from the map stays gone.
get-forget_all-none :
    (q : Hash) (is : List ℕ) (ls : List Hash) (m : LeafMap)
    → LeafMap.get q m ≡ none
    → LeafMap.get q (forget_all is ls m) ≡ none
unfolding forget_all
get-forget_all-none q [] ls m h = h
get-forget_all-none q (i ∷ is) ls m h =
    get-forget_all-none q is (set ls i hash_zero) (forget_at (get_elem? ls i) m)
      (ground (arith, get-forget_at q ls i m))

pub get-forget_all :
    (q : Hash) (is : List ℕ) (ls : List Hash) (m : LeafMap)
    → q ≢ hash_zero
    → AllBelow (length ls) is
    → LeafMap.get q (forget_all is ls m) ≡ (if holds q is ls then none else LeafMap.get q m)
unfolding forget_all
get-forget_all q [] ls m z h = refl
get-forget_all q (i ∷ is) ls m z h =
    get-forget_all q is (set ls i hash_zero) (forget_at (get_elem? ls i) m) z
      (rw (length-set ls i hash_zero) h.1)
    ∙ ground (arith, get-forget_at q ls i m, holds-set q is ls i z h.0)

-- What a batch of deletions at time `ts` makes of the state `d`.
pub record Deleted {P : PoseidonTree} (ts : ℕ) (is : List ℕ) (d d' : TreeData P) : Type 0 where
  pub written : P.leaves d'.tree ≡ clear_all is (P.leaves d.tree)
  pub cleared :
      (j : ℕ)
      → get_elem? (P.leaves d'.tree) j
        ≡ (if contains j is then some hash_zero else get_elem? (P.leaves d.tree) j)
  pub forgotten :
      (q : Hash)
      → q ≢ hash_zero
      → LeafMap.get q d'.leaves
        ≡ (if holds q is (P.leaves d.tree) then none else LeafMap.get q d.leaves)
  pub gone : (q : Hash) → LeafMap.get q d.leaves ≡ none → LeafMap.get q d'.leaves ≡ none
  pub history : d'.tree_history ≡ take d.tree_history_size (snapshot d ∷ d.tree_history)
  pub size : d'.tree_history_size ≡ d.tree_history_size
  pub timestamp : d'.latest_root_timestamp ≡ ts
  pub depth : d'.depth ≡ d.depth

module _ (P : PoseidonTree) (E : Type 0) (L : IsMerkle P) where
  delete_each_lem :
      (is : List ℕ) (d : TreeData P)
      → AllBelow (length (P.leaves d.tree)) is
      → (t : P.Tree) × (delete_each P E is d
          ≡ (ok tt, record d { tree = t; leaves = forget_all is (P.leaves d.tree) d.leaves }))
        × (P.leaves t ≡ clear_all is (P.leaves d.tree))
  unfolding delete_each clear_all forget_all
  delete_each_lem [] d h = (d.tree, refl, refl)
  delete_each_lem (i ∷ is) d h =
      let (x, here) = get_elem?-some (P.leaves d.tree) i h.0 in
      let (t, updated, written) = L.update_lem d.tree i hash_zero h.0 in
      let d1 : TreeData P = record d { tree = t; leaves = LeafMap.remove x d.leaves } in
      let (t', rest, final) =
        delete_each_lem is d1 (rw (written, length-set (P.leaves d.tree) i hash_zero) h.1) in
      (
        t',
        ground (arith, L.get_leaf_lem d.tree i h.0, here, updated, written, rest),
        rw (← written) final,
      )

  -- A batch of deletions within the tree, from a bounded history, succeeds: the leaves at the
  -- indices are empty and the other leaves stay, the map has lost the identities that were there
  -- and no other one, and the tree before it is in the history.
  pub delete_many-Deleted :
      (ts : ℕ) (is : List ℕ) (d : TreeData P)
      → IsBounded d
      → AllBelow (length (P.leaves d.tree)) is
      → (d' : TreeData P) × (delete_many P E (some ts) is d ≡ (ok tt, d')) × Deleted ts is d d'
  unfolding delete_many
  delete_many-Deleted ts is d b h =
      let (t, done, written) = delete_each_lem is (cached d) h in
      (
        record (cached d) {
          tree = t;
          leaves = forget_all is (P.leaves d.tree) d.leaves;
          latest_root_timestamp = ts;
        },
        rw (cache_tree_history_lem P E d b, done),
        record {
          written = written;
          cleared = λ j. rw written (get_elem?-clear_all is (P.leaves d.tree) j h);
          forgotten = λ q z. get-forget_all q is (P.leaves d.tree) d.leaves z h;
          gone = λ q. get-forget_all-none q is (P.leaves d.tree) d.leaves;
          history = refl;
          size = refl;
          timestamp = refl;
          depth = refl;
        },
      )

  -- With a clock before the epoch the leaves are cleared as well, before the panic.
  pub delete_many-panic :
      (is : List ℕ) (d : TreeData P)
      → IsBounded d
      → AllBelow (length (P.leaves d.tree)) is
      → (d' : TreeData P) × (delete_many P E none is d ≡ (panic, d'))
        × (P.leaves d'.tree ≡ clear_all is (P.leaves d.tree))
  unfolding delete_many
  delete_many-panic is d b h =
      let (t, done, written) = delete_each_lem is (cached d) h in
      (
        record (cached d) { tree = t; leaves = forget_all is (P.leaves d.tree) d.leaves },
        rw (cache_tree_history_lem P E d b, done) refl,
        written,
      )

-- An index that is cleared held what it held.
pub holds_of_contains :
    (q : Hash) (is : List ℕ) (ls : List Hash) (i : ℕ)
    → contains i is ≡ true
    → get_elem? ls i ≡ some q
    → holds q is ls ≡ true
holds_of_contains q [] ls i c e = cc
holds_of_contains q (j ∷ is) ls i c e = ground (arith, holds_of_contains q is ls i)
