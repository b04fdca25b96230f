-- ===== src/Updater/Traced.antt =====
-- The updater's transactions as a run of batches on the tree, with the contract's leaves and times.
use mathlib.Core.Path.{subst}
use world_tree.Prelude.{ℕ, ◌≤◌, ◌<◌, ◌≡◌, sym, ap₂, ◌∙◌, List, [], ◌∷◌, map, arith, length}
use world_tree.Exec.{ok}
use world_tree.Merkle.{Hash, PoseidonTree, IsMerkle}
use world_tree.Chain.{Transaction}
use world_tree.BlockScanner.{BlockScanner}
use world_tree.BlockMap
use world_tree.Foreign.{Foreign}
use world_tree.TreeData.{TreeData, HistoricalTree}
use world_tree.TreeData.History.{snapshot}
use world_tree.TreeData.Delete.{AllBelow}
use world_tree.TreeData.Live.{IsVacant}
use world_tree.TreeData.Runs.{Runs, inserted, deleted}
use world_tree.TreeData.Timely.{Timely}
use world_tree.Updater.{SyncState, Round, Error, sync_from_transaction, sync_each, sync_to_head}
use world_tree.Updater.Padding.{inserted_identities, deleted_indices}
use world_tree.Updater.Accept.{Accepts, register_identities-Registered, delete_identities-Removed}
use world_tree.Updater.Calls.{to_registration, to_deletion}
use world_tree.Updater.Mirror.{
  Effect, registers, deletes, Effects, none_left, first, Mirrors, sync_from_transaction-Mirrors,
}
use world_tree.Updater.Head.{Delivers, moved, moved-Mirrors, to_each}

module _ (P : PoseidonTree) where
  -- The leaves of an older tree and the time of its root.
  abbrev pub view : HistoricalTree P → List Hash × ℕ
  view h = (P.leaves h.tree, h.root_timestamp)

  -- The tree `d` came of batches at times that move on, from `d0`: the trees before the batches had
  -- the leaves and times `seen`, the last one first, and its own root is of time `t`.
  pub record Traced (E : Type 0) (d0 : TreeData P) (seen : List (List Hash × ℕ)) (t : ℕ)
      (d : TreeData P) : Type 0 where
    pub past : List (HistoricalTree P)
    pub runs : Runs P E d0 past d
    pub timely : Timely P E runs
    pub viewed : map view past ≡ seen
    pub now : d.latest_root_timestamp ≡ t

module _ (P : PoseidonTree) (F : Foreign) (round : Round F) {depth : ℕ} where
  -- The clock at a transaction.
  abbrev pub time_of :
      {tx : Transaction} {ls ls' : List Hash} → Effect P F round depth tx ls ls' → ℕ
  time_of (registers call r v e) = r.known.ts
  time_of (deletes packed proof pre post k shallow d b e) = k.ts

  -- The clock has moved on at a registration, and is not behind at a deletion.
  abbrev pub MovesOn :
      {tx : Transaction} {ls ls' : List Hash} → Effect P F round depth tx ls ls' → ℕ → Type 0
  MovesOn (registers call r v e) t = t < r.known.ts
  MovesOn (deletes packed proof pre post k shallow d b e) t = t ≤ k.ts

  -- The time after transactions that begin at time `t`.
  abbrev pub time_after :
      {txs : List Transaction} {ls ls' : List Hash} → Effects P F round depth txs ls ls' → ℕ → ℕ
  time_after none_left t = t
  time_after (first e es) t = time_after es (time_of e)

  -- The leaves and times before each transaction, on top of those seen before.
  abbrev pub seen_after :
      {txs : List Transaction} {ls ls' : List Hash}
      → Effects P F round depth txs ls ls'
      → ℕ
      → List (List Hash × ℕ)
      → List (List Hash × ℕ)
  seen_after none_left t seen = seen
  seen_after (first {ls = ls} e es) t seen = seen_after es (time_of e) ((ls, t) ∷ seen)

  abbrev pub AllMoveOn :
      {txs : List Transaction} {ls ls' : List Hash}
      → Effects P F round depth txs ls ls'
      → ℕ
      → Type 0
  AllMoveOn none_left t = Unit
  AllMoveOn (first e es) t = MovesOn e t × AllMoveOn es (time_of e)

module _ (P : PoseidonTree) (F : Foreign) (round : Round F) (L : IsMerkle P) (A : Accepts F)
    (depth : ℕ) where
  -- A transaction is one more batch.
  sync_from_transaction-Traced :
      (tx : Transaction) (ls ls' : List Hash) (s s' : SyncState P F)
      → (e : Effect P F round depth tx ls ls') → Mirrors P F depth ls s
      → (d0 : TreeData P) (seen : List (List Hash × ℕ)) (t : ℕ) → MovesOn P F round e t
      → Traced P (Error P F) d0 seen t s.tree_data
      → sync_from_transaction P F round tx s ≡ (ok tt, s')
      → Traced P (Error P F) d0 ((ls, t) ∷ seen) (time_of P F round e) s'.tree_data
  sync_from_transaction-Traced tx ls ls' s s' (registers call r v e) m d0 seen t later k run =
      let known = r.known in
      let v' : IsVacant call.start_index (inserted_identities call) (P.leaves s.tree_data.tree) =
        rw m.leaves v in
      let (s2, run2, done) =
        register_identities-Registered P F tx known.number known.at L A known.block known.dated
          known.ts call s m.live.bounded v'.fits in
      let all_run = to_registration P F round tx s known call r.selected r.decoded ∙ run2 in
      subst (λ o. Traced P (Error P F) d0 ((ls, t) ∷ seen) known.ts o.1.tree_data)
        (sym all_run ∙ run)
        (record {
          past = snapshot s.tree_data ∷ k.past;
          runs =
              inserted k.runs known.ts call.start_index (inserted_identities call) v'.fits done.run;
          timely = (k.timely, rw k.now later, v');
          viewed = ap₂ ◌∷◌ (ap₂ (λ l n. (l, n)) m.leaves k.now) k.viewed;
          now = done.tree.timestamp;
        })
  sync_from_transaction-Traced tx ls ls' s s' (deletes packed proof pre post known shallow d b e) m
        d0 seen t later k run =
      let b' : AllBelow (length (P.leaves s.tree_data.tree))
          (deleted_indices s.tree_data.depth packed) =
        rw (m.leaves, m.depth_kept) b in
      let (s2, run2, done) =
        delete_identities-Removed P F tx known.number known.at L A known.block known.dated known.ts
          packed proof pre post s m.live.bounded (rw m.depth_kept shallow) b' in
      let all_run = to_deletion P F round tx s known packed proof pre post d ∙ run2 in
      subst (λ o. Traced P (Error P F) d0 ((ls, t) ∷ seen) known.ts o.1.tree_data)
        (sym all_run ∙ run)
        (record {
          past = snapshot s.tree_data ∷ k.past;
          runs = deleted k.runs known.ts (deleted_indices s.tree_data.depth packed) b' done.run;
          timely = (k.timely, rw k.now later);
          viewed = ap₂ ◌∷◌ (ap₂ (λ l n. (l, n)) m.leaves k.now) k.viewed;
          now = done.tree.timestamp;
        })

  -- So is each of a sequence.
  pub sync_each-Traced :
      (txs : List Transaction) (ls ls' : List Hash) (s s' : SyncState P F)
      → (es : Effects P F round depth txs ls ls') → Mirrors P F depth ls s
      → (d0 : TreeData P) (seen : List (List Hash × ℕ)) (t : ℕ) → AllMoveOn P F round es t
      → Traced P (Error P F) d0 seen t s.tree_data
      → sync_each P F round txs s ≡ (ok tt, s')
      → Traced P
          (Error P F)
          d0
          (seen_after P F round es t seen)
          (time_after P F round es t)
          s'.tree_data
  unfolding sync_each
  sync_each-Traced [] ls ls' s s' none_left m d0 seen t u k run =
      subst (λ o. Traced P (Error P F) d0 seen t o.1.tree_data) run k
  sync_each-Traced (tx ∷ txs) ls ls'' s s' (first {ls' = ls'} e es) m d0 seen t u k run =
      let (s1, run1, m1, same) =
        sync_from_transaction-Mirrors P F round L A depth tx ls ls' s e m in
      let k1 = sync_from_transaction-Traced tx ls ls' s s1 e m d0 seen t u.0 k run1 in
      sync_each-Traced txs ls' ls'' s1 s' es m1 d0 ((ls, t) ∷ seen) (time_of P F round e) u.1 k1
        (ground (arith, run1, run))

  -- And a round that delivers transactions.
  pub sync_to_head-Traced :
      (ls ls' : List Hash) (s s' : SyncState P F) (scanner : BlockScanner)
      → (c : Delivers P F round depth s.updater.block_scanner scanner ls ls')
      → Mirrors P F depth ls s
      → (d0 : TreeData P) (seen : List (List Hash × ℕ)) (t : ℕ) → AllMoveOn P F round c.effects t
      → Traced P (Error P F) d0 seen t s.tree_data
      → sync_to_head P F round s ≡ (ok tt, s')
      → Traced P
          (Error P F)
          d0
          (seen_after P F round c.effects t seen)
          (time_after P F round c.effects t)
          s'.tree_data
  sync_to_head-Traced ls ls' s s' scanner c m d0 seen t u k run =
      sync_each-Traced (BlockMap.values c.entries) ls ls' (moved P F round s scanner) s' c.effects
        (moved-Mirrors P F round depth ls s scanner m) d0 seen t u k
        (sym (to_each P F round s scanner c.fetches) ∙ run)
