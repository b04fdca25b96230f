-- ===== src/Contract/Follow.antt =====
-- The task through rounds with honest providers, against the contract.
use mathlib.Core.Path.{subst}
use world_tree.Prelude.{ℕ, ◌+◌, ◌-◌, ◌≤◌, ◌≡◌, refl, sym, ap, ap₂, ◌∙◌, List, [], ◌++◌, map, arith}
use world_tree.Merkle.{Hash, PoseidonTree, IsMerkle}
use world_tree.Foreign.{Foreign}
use world_tree.TreeData.Full.{Unrepeated}
use world_tree.Updater.{Round}
use world_tree.Updater.Accept.{Accepts}
use world_tree.WorldTree.{WorldTree, Phase, starting, looping, stopped, first_sync, loop_sync}
use world_tree.WorldTree.Follow.{
  Brings, Follows, begins, syncs_first, syncs_again, InStep, Follows-InStep,
}
use world_tree.WorldTree.Full.{FollowsUnrepeated}
use world_tree.WorldTree.Scanned.{scanner_of, round_scanner, first_sync-scanner, loop_sync-scanner}
use world_tree.WorldTree.Run.{advance}
use world_tree.WorldTree.Live.{Looping, advance-Looping}
use world_tree.Contract.{Contract, Honest}
use world_tree.WorldTree.Traced.{
  round_time, round_seen, RoundMovesOn, last_time, states_before, FollowsTimely,
}
use world_tree.Contract.Passage.{Increasing, Before, states, states-join}
use world_tree.WorldTree.Written.{written, round_statements}
use world_tree.Contract.Tables.{tables, tables-join}
use world_tree.Contract.Rounds.{Advances, Honest-Advances}

module _ (P : PoseidonTree) (F : Foreign) (depth : ℕ) (c : Contract F depth)
    (handled_at : ℕ → ℕ) where
  -- The states that the task gets to from `w` in rounds whose providers are honest: the chain's head
  -- was block `n` in the last one, and is `n0` at the start.
  pub data Honestly (w : WorldTree P F) (n0 : ℕ) : WorldTree P F → ℕ → Type 0 where
    not_yet : Honestly w n0 w n0
    round_more :
        {v : WorldTree P F} {n : ℕ}
        → Honestly w n0 v n
        → (round : Round F) (latest : ℕ)
        → Honest F depth P c handled_at v.updater.block_scanner round latest
        → Honestly w n0 (advance P F v.phase round v) latest

  -- The task has followed the contract from block `n0` up to block `n`.
  pub record Tracks (w : WorldTree P F) (n0 : ℕ) (ls0 : List Hash) (v : WorldTree P F) (n : ℕ)
      : Type 0 where
    pub follows : Follows P F depth w ls0 v (c.leaves_at n)
    pub unrepeated : FollowsUnrepeated P F depth follows
    pub at : v.updater.block_scanner.last_synced_block ≡ n
    pub from : n0 ≤ n
    pub on_time :
        Increasing handled_at
        → Before handled_at 0 n0
        → FollowsTimely P F depth follows × Before handled_at (last_time P F depth follows) n
    pub seen : map (λ s. s.0) (states_before P F depth follows) ≡ states F depth c n0 (n - n0) []
    pub sent : written P F depth follows ≡ tables P F depth c n0 (n - n0)

  module _ (L : IsMerkle P) (A : Accepts F) where
    -- A round brings the scanner to the chain's head.
    first_sync-at :
        (round : Round F) (v : WorldTree P F) (latest : ℕ) (ls ls' : List Hash)
        → InStep P F depth v ls
        → (b : Brings P F depth round v.updater.block_scanner ls ls')
        → scanner_of P F depth b ≡ record v.updater.block_scanner { last_synced_block = latest }
        → (first_sync P F round v).updater.block_scanner.last_synced_block ≡ latest
    first_sync-at round v latest ls ls' i b e =
        let (s', run, same) = round_scanner P F depth L A round ls ls' v.state b i.mirrors in
        ap (λ s. s.last_synced_block)
          (sym (first_sync-scanner P F depth L A round v s' run) ∙ same ∙ e)

    loop_sync-at :
        (round : Round F) (v : WorldTree P F) (latest : ℕ) (ls ls' : List Hash)
        → InStep P F depth v ls
        → (b : Brings P F depth round v.updater.block_scanner ls ls')
        → scanner_of P F depth b ≡ record v.updater.block_scanner { last_synced_block = latest }
        → (loop_sync P F round v).updater.block_scanner.last_synced_block ≡ latest
    loop_sync-at round v latest ls ls' i b e =
        let (s', run, same) = round_scanner P F depth L A round ls ls' v.state b i.mirrors in
        ap (λ s. s.last_synced_block)
          (sym (loop_sync-scanner P F depth L A round v s' run) ∙ same ∙ e)

    on_time_more :
        {w v : WorldTree P F} {n0 n latest : ℕ} {ls0 : List Hash} (round : Round F)
        → (a : Advances P F depth c handled_at round v.updater.block_scanner n latest
            (c.leaves_at n)
            (c.leaves_at latest))
        → (t : Tracks w n0 ls0 v n) → Increasing handled_at
        → Before handled_at 0 n0
        → (FollowsTimely P F depth t.follows
            × RoundMovesOn P F depth a.brings (last_time P F depth t.follows))
          × Before handled_at (round_time P F depth a.brings (last_time P F depth t.follows)) latest
    on_time_more round a t mono b =
        let (timely, last) = t.on_time mono b in
        let (moves, later) = a.on_time mono _ last in ((timely, moves), later)

    seen_more :
        {w v : WorldTree P F} {n0 n latest : ℕ} {ls0 : List Hash} (round : Round F)
        → (a : Advances P F depth c handled_at round v.updater.block_scanner n latest
            (c.leaves_at n)
            (c.leaves_at latest))
        → (t : Tracks w n0 ls0 v n)
        → map
            (λ s. s.0)
            (round_seen P F depth a.brings
              (last_time P F depth t.follows)
              (states_before P F depth t.follows))
          ≡ states F depth c n0 (latest - n0) []
    seen_more {n0 = n0} {n = n} {latest = latest} round a t =
        let e : n0 + (n - n0) ≡ n = omega (arith, t.from) in
        let f : n - n0 + (latest - n) ≡ latest - n0 = omega (arith, t.from, a.ahead) in
        a.seen _ _
        ∙ ap (states F depth c n (latest - n)) t.seen
        ∙ rw (e, f) at (states-join F depth c n0 (n - n0) (latest - n) [])

    sent_more :
        {w v : WorldTree P F} {n0 n latest : ℕ} {ls0 : List Hash} (round : Round F)
        → (a : Advances P F depth c handled_at round v.updater.block_scanner n latest
            (c.leaves_at n)
            (c.leaves_at latest))
        → (t : Tracks w n0 ls0 v n)
        → written P F depth t.follows ++ round_statements P F depth a.brings
          ≡ tables P F depth c n0 (latest - n0)
    sent_more {n0 = n0} {n = n} {latest = latest} round a t =
        let e : n0 + (n - n0) ≡ n = omega (arith, t.from) in
        let f : n - n0 + (latest - n) ≡ latest - n0 = omega (arith, t.from, a.ahead) in
        ap₂ ◌++◌ t.sent a.written ∙ rw (e, f) at (tables-join P F depth c n0 (n - n0) (latest - n))

    nothing_sent : (n : ℕ) → [] ≡ tables P F depth c n (n - n)
    unfolding tables
    nothing_sent n = let e : n - n ≡ 0 = omega arith in rw e refl

    nothing_yet : (n : ℕ) → [] ≡ states F depth c n (n - n) []
    unfolding states
    nothing_yet n = let e : n - n ≡ 0 = omega arith in rw e refl

    advance-Tracks :
        {w : WorldTree P F} {n0 : ℕ} {ls0 : List Hash} (p : Phase) (v : WorldTree P F)
        (n latest : ℕ) (round : Round F)
        → v.phase ≡ p
        → InStep P F depth v (c.leaves_at n)
        → Advances P F depth c handled_at round v.updater.block_scanner n latest
            (c.leaves_at n)
            (c.leaves_at latest)
        → Tracks w n0 ls0 v n
        → Tracks w n0 ls0 (advance P F p round v) latest
    unfolding advance
    advance-Tracks starting v n latest round e i a t = record {
      follows = syncs_first t.follows round e a.brings;
      unrepeated = (t.unrepeated, a.unrepeated);
      at = first_sync-at round v latest _ _ i a.brings a.scanned;
      from = omega (arith, t.from, a.ahead);
      on_time = λ mono b. on_time_more round a t mono b;
      seen = seen_more round a t;
      sent = sent_more round a t;
    }
    advance-Tracks looping v n latest round e i a t = record {
      follows = syncs_again t.follows round e a.brings;
      unrepeated = (t.unrepeated, a.unrepeated);
      at = loop_sync-at round v latest _ _ i a.brings a.scanned;
      from = omega (arith, t.from, a.ahead);
      on_time = λ mono b. on_time_more round a t mono b;
      seen = seen_more round a t;
      sent = sent_more round a t;
    }
    advance-Tracks stopped v n latest round e i a t = absurd (i.running e)

    module _ (apart : (n : ℕ) → Unrepeated (c.leaves_at n)) {w : WorldTree P F} (n0 : ℕ)
        (begun : InStep P F depth w (c.leaves_at n0))
        (at : w.updater.block_scanner.last_synced_block ≡ n0) where
      abbrev Behind : WorldTree P F → ℕ → Type 0
      Behind v n = Tracks w n0 (c.leaves_at n0) v n

      -- What a round brings, from where the task stands.
      advances :
          {v : WorldTree P F} {n : ℕ} (round : Round F) (latest : ℕ)
          → Behind v n
          → Honest F depth P c handled_at v.updater.block_scanner round latest
          → Advances P F depth c handled_at round v.updater.block_scanner n latest
              (c.leaves_at n)
              (c.leaves_at latest)
      advances {v} round latest t h =
          subst
            (λ n.
              Advances P F depth c handled_at round v.updater.block_scanner n latest (c.leaves_at n)
                (c.leaves_at latest))
            t.at
            (Honest-Advances P F depth c handled_at round v.updater.block_scanner latest h apart)

      -- The task has followed the contract up to the chain's head of the last round.
      pub Honestly-Tracks : {v : WorldTree P F} {n : ℕ} → Honestly w n0 v n → Behind v n
      Honestly-Tracks not_yet = record {
        follows = begins;
        unrepeated = tt;
        at = at;
        from = omega arith;
        on_time = λ mono b. (tt, b);
        seen = nothing_yet n0;
        sent = nothing_sent n0;
      }
      Honestly-Tracks (round_more {v} {n} r round latest h) =
          let t = Honestly-Tracks r in
          advance-Tracks v.phase v n latest round refl
            (Follows-InStep P F depth L A begun t.follows) (advances round latest t h) t

      -- It is in its loop after each round.
      pub Honestly-Looping :
          {v : WorldTree P F} {n : ℕ}
          → Honestly w n0 v n
          → (round : Round F) (latest : ℕ)
          → Honest F depth P c handled_at v.updater.block_scanner round latest
          → Looping P F depth L A (advance P F v.phase round v) (c.leaves_at latest)
      Honestly-Looping {v} {n} r round latest h =
          let t = Honestly-Tracks r in
          advance-Looping P F depth L A v.phase round v (c.leaves_at n) (c.leaves_at latest) refl
            (advances round latest t h).brings (Follows-InStep P F depth L A begun t.follows)
