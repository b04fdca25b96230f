-- ===== src/TreeData/Standing.antt =====
-- An identity that has stood in the tree since an older root gets a proof at that root.
use mathlib.Core.Path.{subst}
use mathlib.Core.List.{append-nil}
use world_tree.Prelude.{
  get_elem?-lt, get_elem?-segment_outside, zero, suc, ℕ, ◌+◌, ◌≤◌, ◌<◌, ◌≡◌, ◌≢◌, inl, inr, sym, ap,
  ◌∙◌, some, List, [], ◌∷◌, arith, some_inj, length, get_elem?, take, drop, All, contains, ◌==◌,
  Bool-cases, eq_of_==, ne_of_==, true, get_elem?-segment_inside,
}
use world_tree.Merkle.{Hash, hash_zero, PoseidonTree, IsMerkle}
use world_tree.LeafMap
use world_tree.LeafMap.{get-nil}
use world_tree.TreeData.{TreeData, HistoricalTree, InclusionProof, new, get_inclusion_proof}
use world_tree.TreeData.Insert.{Inserted}
use world_tree.TreeData.Proofs.{find_tree, Verifies, get_inclusion_proof-Verifies}
use world_tree.TreeData.Live.{
  IsVacant, Inserted-IsLive, Deleted-IsLive, nonzero_key, outside, contains-get_elem?,
}
use world_tree.TreeData.Full.{Unrepeated}
use world_tree.TreeData.Runs.{
  Runs, begin, inserted, deleted, Inserted-of_run, Deleted-of_run, Runs-Kept,
}
use world_tree.TreeData.Dated.{IsDue, current, historical, new-IsDated, due-answered}
use world_tree.TreeData.Timely.{Timely, Runs-IsDated}

module _ {P : PoseidonTree} where
  -- The identity is a leaf of the tree.
  abbrev pub Has : Hash → HistoricalTree P → Type 0
  Has q h = (i : ℕ) × (get_elem? (P.leaves h.tree) i ≡ some q)

  -- As far back as the trees have the identity, the last one first, they are no older than `t`.
  abbrev Since : Hash → ℕ → List (HistoricalTree P) → Type 0
  Since q t [] = Unit
  Since q t (h ∷ hs) = Has q h → (t ≤ h.root_timestamp) × Since q t hs

  Since-take :
      (q : Hash) (t n : ℕ) (hs : List (HistoricalTree P)) → Since q t hs → Since q t (take n hs)
  Since-take q t zero hs s = tt
  Since-take q t (suc n) [] s = tt
  Since-take q t (suc n) (h ∷ hs) s =
      λ has. let (le, rest) = s has in (le, Since-take q t n hs rest)

  -- The newest tree with the root is among them.
  find_tree-Since :
      (q : Hash) (t k : ℕ) (h : HistoricalTree P) (hs : List (HistoricalTree P))
      → Since q t hs
      → All (Has q) (take (suc k) hs)
      → get_elem? hs k ≡ some h
      → (x : HistoricalTree P) × (find_tree P (P.root h.tree) hs ≡ some x) × (t ≤ x.root_timestamp)
  unfolding find_tree
  find_tree-Since q t k h [] s a e = cc
  find_tree-Since q t zero h (y ∷ hs) s a e =
      let same : P.root y.tree ≡ P.root h.tree = ap (λ x. P.root x.tree) (some_inj e) in
      (y, ground (arith, same), (s a.0).0)
  find_tree-Since q t (suc k) h (y ∷ hs) s a e =
      elim (Bool-cases (P.root y.tree == P.root h.tree)) [
        | inl same ↦ (y, ground (arith, same), (s a.0).0)
        | inr other ↦
            let (x, found, le) = find_tree-Since q t k h hs ((s a.0).1) a.1 e in
            (x, ground (arith, other, found), le)
      ]

  -- Identities enter the tree by insertions only, so each stays since the time of its own.
  record Stands (d : TreeData P) (past : List (HistoricalTree P)) (q t : ℕ) : Type 0 where
    no_newer : t ≤ d.latest_root_timestamp
    since : Since q t past

  -- An identity of a batch stands nowhere in the tree before, if the tree after has none twice.
  fresh :
      {ts start : ℕ} {ids : List Hash} {d d' : TreeData P}
      → Inserted ts start ids d d'
      → IsVacant start ids (P.leaves d.tree)
      → Unrepeated (P.leaves d'.tree)
      → (q : Hash) → q ≢ hash_zero
      → contains q ids ≡ true
      → (i : ℕ) → get_elem? (P.leaves d.tree) i ≢ some q
  fresh {ts} {start} {ids} {d} {d'} s v u q z c i h =
      let before : List Hash = P.leaves d.tree in
      let out = outside P q i v z h in
      let (k, at_k) = contains-get_elem? q ids c in
      let within : k < length ids = get_elem?-lt ids k q at_k in
      let kept : get_elem? (P.leaves d'.tree) i ≡ some q =
        ap (λ l. get_elem? l i) s.segment
        ∙ get_elem?-segment_outside start ids before i out v.fits
        ∙ h in
      let put : get_elem? (P.leaves d'.tree) (start + k) ≡ some q =
        ap (λ l. get_elem? l (start + k)) s.segment
        ∙ get_elem?-segment_inside start ids (drop (start + length ids) before) before k
            (omega (arith, v.fits)) within
        ∙ at_k in
      let same : i ≡ start + k = u i (start + k) q kept put z in
      elim out [
        | inl lt ↦ absurd (omega (arith, lt, same))
        | inr ge ↦ absurd (omega (arith, ge, same, within))
      ]

module _ (P : PoseidonTree) (E : Type 0) (L : IsMerkle P) where
  abbrev pub AllUnrepeated : List (HistoricalTree P) → Type 0
  AllUnrepeated = All (λ h. Unrepeated (P.leaves h.tree))

  Runs-Stands :
      (tree : P.Canonical) (size : ℕ) {past : List (HistoricalTree P)} {d : TreeData P}
      (r : Runs P E (new P tree size) past d)
      → Timely P E r
      → AllUnrepeated past
      → Unrepeated (P.leaves d.tree)
      → (q t : ℕ) → LeafMap.get q d.leaves ≡ some t
      → Stands d past q t
  unfolding new
  Runs-Stands tree size begin u a b q t h = absurd (ground (arith, get-nil q, h))
  Runs-Stands tree size (inserted {past} {d1} {d2} r ts start ids fits run) u a b q t h =
      let (timely, later, vacant) = u in
      let g1 = Runs-IsDated P E L (new-IsDated P tree size) r timely in
      let s = Inserted-of_run P E L ts start ids d1 d2 g1.live.bounded fits run in
      let z = nonzero_key P (Inserted-IsLive P s vacant g1.live) h in
      elim (Bool-cases (contains q ids)) [
        | inl c ↦ record {
          no_newer = omega (arith, s.timestamp, stamp q t s c h);
          since = λ has. absurd (fresh s vacant b q z c has.0 has.1);
        }
        | inr c ↦
            let old : LeafMap.get q d1.leaves ≡ some t = ground (arith, s.stamped q, c, h) in
            let k = Runs-Stands tree size r timely a.1 a.0 q t old in
            record {
              no_newer = omega (arith, s.timestamp, later, k.no_newer);
              since = λ has. (k.no_newer, k.since);
            }
      ]
    where
      stamp :
          {ts start : ℕ} {ids : List Hash} {d1 d2 : TreeData P} (q t : ℕ)
          → Inserted ts start ids d1 d2
          → contains q ids ≡ true
          → LeafMap.get q d2.leaves ≡ some t
          → t ≡ ts
      stamp q t s c h = ground (arith, s.stamped q, c, h)
  Runs-Stands tree size (deleted {past} {d1} {d2} r ts is fits run) u a b q t h =
      let g1 = Runs-IsDated P E L (new-IsDated P tree size) r u.0 in
      let s = Deleted-of_run P E L ts is d1 d2 g1.live.bounded fits run in
      let z = nonzero_key P (Deleted-IsLive P s g1.live) h in
      let old : LeafMap.get q d1.leaves ≡ some t = ground (arith, s.forgotten q z, h) in
      let k = Runs-Stands tree size r u.0 a.1 a.0 q t old in
      record {
        no_newer = omega (arith, s.timestamp, u.1, k.no_newer);
        since = λ has. (k.no_newer, k.since);
      }

  Runs-history :
      (tree : P.Canonical) (size : ℕ) {past : List (HistoricalTree P)} {d : TreeData P}
      → Runs P E (new P tree size) past d
      → d.tree_history ≡ take size past
  unfolding new
  Runs-history tree size {past} r =
      (Runs-Kept P E L (omega arith) r).history ∙ ap (take size) (append-nil past)

  -- After any run of batches from a new tree, each successful and within the tree, of which the
  -- insertions go to empty leaves at a time after that of the root, and the deletions are not before
  -- it, and through leaves that never have an identity twice: an identity of the map that stands in
  -- each of the last trees of the history, down to one of them, gets a proof at the root of that one,
  -- which verifies.
  pub runs_old_root :
      (tree : P.Canonical) (size : ℕ) {past : List (HistoricalTree P)} {d : TreeData P}
      → (r : Runs P E (new P tree size) past d) → Timely P E r
      → AllUnrepeated past
      → Unrepeated (P.leaves d.tree)
      → (q t : ℕ) → LeafMap.get q d.leaves ≡ some t
      → (k : ℕ) (h : HistoricalTree P) → get_elem? d.tree_history k ≡ some h
      → All (Has q) (take (suc k) d.tree_history)
      → (p : InclusionProof P) × (get_inclusion_proof P d q (some (P.root h.tree)) ≡ some p)
        × Verifies P q p
        × (p.root ≡ P.root h.tree)
  runs_old_root tree size {past} {d} r u a b q t in_map k h at_k has =
      let root : Hash = P.root h.tree in
      let dated = Runs-IsDated P E L (new-IsDated P tree size) r u in
      let stands = Runs-Stands tree size r u a b q t in_map in
      let kept = Runs-history tree size r in
      let since = subst (Since q t) (sym kept) (Since-take q t size past stands.since) in
      let (x, found, le) = find_tree-Since q t k h d.tree_history since has at_k in
      let due : IsDue P d t root = elim (Bool-cases (root == P.root d.tree)) [
        | inl now ↦ current (eq_of_== root (P.root d.tree) now)
        | inr old ↦ historical x (ne_of_== root (P.root d.tree) old) found le
      ] in
      let (p, e) = due-answered P L d q root t dated in_map due in
      let (verified, at_root) = get_inclusion_proof-Verifies P L d q (some root) p e in
      (p, e, verified, at_root)
