-- ===== src/TreeData/Runs.antt =====
-- Batch after batch on `TreeData`, against the list of all the trees that there have been.
use mathlib.Core.Path.{subst}
use world_tree.Prelude.{
  ℕ, zero, suc, ◌+◌, ◌≤◌, ◌≡◌, refl, sym, ap, ◌∙◌, some, List, [], ◌∷◌, ◌++◌, length, take,
  length-take-le, take_of_length-le,
}
use world_tree.Exec.{ok}
use world_tree.Merkle.{Hash, PoseidonTree, IsMerkle}
use world_tree.TreeData.{TreeData, HistoricalTree, insert_many_at, delete_many}
use world_tree.TreeData.History.{IsBounded, snapshot}
use world_tree.TreeData.Insert.{Inserted, insert_many_at-Inserted}
use world_tree.TreeData.Delete.{AllBelow, Deleted, delete_many-Deleted}

-- A list that is kept up to `n` entries and grows at the front, against the list that is kept whole.
pub take-cons_take :
    {A : Type 0} (n : ℕ) (x : A) (xs : List A) → take n (x ∷ take n xs) ≡ take n (x ∷ xs)
take-cons_take zero x xs = refl
take-cons_take (suc n) x xs = ap (◌∷◌ x) (take_twice n xs)
  where
    take_twice : {A : Type 0} (k : ℕ) (ys : List A) → take k (take (suc k) ys) ≡ take k ys
    take_twice zero ys = refl
    take_twice (suc k) [] = refl
    take_twice (suc k) (y ∷ ys) = ap (◌∷◌ y) (take_twice k ys)

module _ (P : PoseidonTree) (E : Type 0) where
  -- The state `d'` that batches within the tree lead to from `d`, each successful, and the trees
  -- before each of them, the last one first.
  pub data Runs (d : TreeData P) : List (HistoricalTree P) → TreeData P → Type 0 where
    begin : Runs d [] d
    inserted :
        {past : List (HistoricalTree P)} {d1 d2 : TreeData P}
        → Runs d past d1
        → (ts start : ℕ) (ids : List Hash) → start + length ids ≤ length (P.leaves d1.tree)
        → insert_many_at P E (some ts) start ids d1 ≡ (ok tt, d2)
        → Runs d (snapshot d1 ∷ past) d2
    deleted :
        {past : List (HistoricalTree P)} {d1 d2 : TreeData P}
        → Runs d past d1
        → (ts : ℕ) (is : List ℕ) → AllBelow (length (P.leaves d1.tree)) is
        → delete_many P E (some ts) is d1 ≡ (ok tt, d2)
        → Runs d (snapshot d1 ∷ past) d2

  -- Whatever is kept of the history, and how much may be kept.
  pub record Kept (d : TreeData P) (past : List (HistoricalTree P)) (d' : TreeData P) : Type 0 where
    pub size : d'.tree_history_size ≡ d.tree_history_size
    pub history : d'.tree_history ≡ take d.tree_history_size (past ++ d.tree_history)
    pub bounded : IsBounded d'

  Kept-step :
      {d d1 d2 : TreeData P} {past : List (HistoricalTree P)}
      → Kept d past d1
      → d2.tree_history_size ≡ d1.tree_history_size
      → d2.tree_history ≡ take d1.tree_history_size (snapshot d1 ∷ d1.tree_history)
      → Kept d (snapshot d1 ∷ past) d2
  Kept-step {d} {d1} {d2} {past} k size history = record {
    size = size ∙ k.size;
    history =
        history
        ∙ rw (k.size, k.history)
            (take-cons_take d.tree_history_size (snapshot d1) (past ++ d.tree_history));
    bounded = rw (history, size) (length-take-le d1.tree_history_size _);
  }

  module _ (L : IsMerkle P) where
    pub Inserted-of_run :
        (ts start : ℕ) (ids : List Hash) (d d' : TreeData P)
        → IsBounded d
        → start + length ids ≤ length (P.leaves d.tree)
        → insert_many_at P E (some ts) start ids d ≡ (ok tt, d')
        → Inserted ts start ids d d'
    Inserted-of_run ts start ids d d' b h run =
        let (c, done, s) = insert_many_at-Inserted P E L ts start ids d b h in
        subst (Inserted ts start ids d) (ap (λ r. r.1) (sym done ∙ run)) s

    pub Deleted-of_run :
        (ts : ℕ) (is : List ℕ) (d d' : TreeData P)
        → IsBounded d
        → AllBelow (length (P.leaves d.tree)) is
        → delete_many P E (some ts) is d ≡ (ok tt, d')
        → Deleted ts is d d'
    Deleted-of_run ts is d d' b h run =
        let (c, done, s) = delete_many-Deleted P E L ts is d b h in
        subst (Deleted ts is d) (ap (λ r. r.1) (sym done ∙ run)) s

    -- After any run of batches from a bounded history, the history is made of the last trees that
    -- there have been, in order, up to the configured size.
    pub Runs-Kept :
        {d : TreeData P} {past : List (HistoricalTree P)} {d' : TreeData P}
        → IsBounded d
        → Runs d past d'
        → Kept d past d'
    Runs-Kept {d} b begin = record {
      size = refl;
      history = sym (take_of_length-le d.tree_history_size d.tree_history b);
      bounded = b;
    }
    Runs-Kept b (inserted {past} {d1} {d2} r ts start ids h run) =
        let k = Runs-Kept b r in
        let s = Inserted-of_run ts start ids d1 d2 k.bounded h run in Kept-step k s.size s.history
    Runs-Kept b (deleted {past} {d1} {d2} r ts is h run) =
        let k = Runs-Kept b r in
        let s = Deleted-of_run ts is d1 d2 k.bounded h run in Kept-step k s.size s.history
