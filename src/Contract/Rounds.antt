-- ===== src/Contract/Rounds.antt =====
-- A round of `sync_to_head` whose provider is honest brings what the contract did.
use world_tree.Prelude.{
  ℕ, suc, ◌+◌, ◌-◌, ◌≤◌, ◌≡◌, refl, sym, ap, ◌∙◌, some, List, [], ◌∷◌, map, arith,
}
use mathlib.Core.Path.{subst}
use mathlib.Core.List.{Permᴰ}
use world_tree.Exec.{ok}
use world_tree.Merkle.{Hash, PoseidonTree}
use world_tree.Chain.{Log, Transaction}
use world_tree.BlockScanner
use world_tree.BlockScanner.{BlockScanner}
use world_tree.BlockScanner.Complete.{span, next_complete}
use world_tree.BlockMap
use world_tree.BlockMap.{BlockMap}
use world_tree.Foreign.{Foreign}
use world_tree.TreeData.Full.{Unrepeated}
use world_tree.Updater.{Round}
use world_tree.Updater.Mirror.{Effects, none_left, first}
use world_tree.Updater.Head.{Fetches}
use world_tree.WorldTree.Follow.{Brings, delivers, idles}
use world_tree.WorldTree.Full.{BringsUnrepeated}
use world_tree.WorldTree.Scanned.{scanner_of}
use world_tree.Contract.{Contract, logs_at, Honest}
use world_tree.WorldTree.Traced.{round_time, round_seen, RoundMovesOn}
use world_tree.Updater.Traced.{seen_after}
use world_tree.Contract.Passage.{Increasing, Before, states, Passage, entries-Passage}
use world_tree.Updater.Written.{all_statements}
use world_tree.WorldTree.Written.{round_statements}
use world_tree.Contract.Tables.{tables}
use world_tree.Contract.Blocks.{
  entries, hashes, entries-asked, entries-IsSorted, entries-AllMined, entries-replies,
}

pub no_hashes : (m : BlockMap) → [] ≡ map some (map (λ e. e.1.hash) m) → m ≡ []
no_hashes [] h = refl
no_hashes (e ∷ m) h = cc

module _ (P : PoseidonTree) (F : Foreign) (depth : ℕ) (c : Contract F depth) (handled_at : ℕ → ℕ)
    (round : Round F) where
  no-Effects :
      {txs : List Transaction} {ls ls' : List Hash}
      → txs ≡ []
      → Effects P F round depth txs ls ls'
      → ls ≡ ls'
  no-Effects h none_left = refl
  no-Effects h (first e es) = cc

  nothing_seen :
      {txs : List Transaction} {ls ls' : List Hash} (t : ℕ) (before : List (List Hash × ℕ))
      → txs ≡ []
      → (es : Effects P F round depth txs ls ls') → before ≡ seen_after P F round es t before
  nothing_seen t before h none_left = refl
  nothing_seen t before h (first e es) = cc

  -- The round brings what the contract did from its leaves `ls` after block `n` to `ls'` after block
  -- `latest`, where the scanner is then.
  pub record Advances (scanner : BlockScanner) (n latest : ℕ) (ls ls' : List Hash) : Type 0 where
    pub brings : Brings P F depth round scanner ls ls'
    pub scanned : scanner_of P F depth brings ≡ record scanner { last_synced_block = latest }
    pub unrepeated : BringsUnrepeated P F depth brings
    pub ahead : n ≤ latest
    pub on_time :
        Increasing handled_at
        → (t : ℕ) → Before handled_at t n
        → RoundMovesOn P F depth brings t × Before handled_at (round_time P F depth brings t) latest
    pub seen :
        (t : ℕ) (before : List (List Hash × ℕ))
        → map (λ s. s.0) (round_seen P F depth brings t before)
          ≡ states F depth c n (latest - n) (map (λ s. s.0) before)
    pub written : round_statements P F depth brings ≡ tables P F depth c n (latest - n)

  nothing_written :
      {txs : List Transaction} {ls ls' : List Hash}
      → txs ≡ []
      → (es : Effects P F round depth txs ls ls') → [] ≡ all_statements P F round es
  nothing_written h none_left = refl
  nothing_written h (first e es) = cc

  module _ (scanner : BlockScanner) (latest : ℕ)
      (h : Honest F depth P c handled_at scanner round latest) where
    abbrev start : ℕ
    start = scanner.last_synced_block

    abbrev count : ℕ
    count = latest - scanner.last_synced_block

    abbrev found : BlockMap
    found = entries F depth c (suc start) count

    abbrev after : BlockScanner
    after = record scanner { last_synced_block = latest }

    next_block : scanner.last_synced_block + 1 ≡ suc start
    next_block = omega arith

    next_found :
        BlockScanner.next round.scan_fuel round.middleware scanner
        ≡ (ok (span (logs_at F depth c) (suc start) count), after)
    next_found =
        next_complete (logs_at F depth c) scanner round.middleware round.scan_fuel latest
          h.head.answers h.head.head h.head.behind h.head.fits h.head.enough
        ∙ ap (λ n. (ok (span (logs_at F depth c) n count), after)) next_block

    passage :
        ((i : ℕ) → Unrepeated (c.leaves_at i))
        → Passage F depth c P round handled_at start count
            (BlockMap.values found)
            (c.leaves_at start)
            (c.leaves_at latest)
    passage u =
        entries-Passage F depth c P round handled_at start count latest
          (omega (arith, h.head.behind)) u h.known

    fetched :
        (log : Log) (logs : List Log)
        → span (logs_at F depth c) (suc start) count ≡ log ∷ logs
        → Fetches P F round scanner after
    fetched log logs e = record {
      log = log;
      logs = logs;
      hashes = hashes F depth c found;
      entries = found;
      scanned = next_found ∙ ap (λ l. (ok l, after)) e;
      asked =
          ap (map (λ l. l.transaction_hash)) (sym e) ∙ entries-asked F depth c (suc start) count;
      arrived =
          subst
            (λ rs.
              Permᴰ rs
                (round.arrivals (map round.middleware.get_transaction (hashes F depth c found))))
            (entries-replies F depth c P round (suc start) count latest
              (omega (arith, h.head.behind)) h.transactions)
            (h.arrives _);
      sorted = entries-IsSorted F depth c (suc start) count;
      mined = entries-AllMined F depth c P round (suc start) count;
    }

    Advances-by_logs :
        (u : (i : ℕ) → Unrepeated (c.leaves_at i)) (logs : List Log)
        → span (logs_at F depth c) (suc start) count ≡ logs
        → Advances scanner start latest (c.leaves_at start) (c.leaves_at latest)
    unfolding BlockMap.values fetched
    Advances-by_logs u [] e =
        let none_found = no_hashes found (
          ap (map (λ l. l.transaction_hash)) (sym e) ∙ entries-asked F depth c (suc start) count) in
        let same = no-Effects (ap BlockMap.values none_found) (passage u).effects in
        subst (Advances scanner start latest (c.leaves_at start)) same (record {
          brings = idles after (next_found ∙ ap (λ l. (ok l, after)) e);
          scanned = refl;
          unrepeated = tt;
          ahead = h.head.behind;
          on_time = λ mono t b. (tt, λ m l. b m (omega (arith, l, h.head.behind)));
          seen = λ t before.
              ap (map (λ s. s.0))
                (nothing_seen t before (ap BlockMap.values none_found) (passage u).effects)
              ∙ (passage u).seen t before;
          written =
              nothing_written (ap BlockMap.values none_found) (passage u).effects
              ∙ (passage u).written;
        })
    Advances-by_logs u (log ∷ logs) e = record {
      brings =
          delivers after (record { fetches = fetched log logs e; effects = (passage u).effects });
      scanned = refl;
      unrepeated = (passage u).unrepeated;
      ahead = h.head.behind;
      on_time = λ mono t b.
          let (moves, later) = (passage u).on_time mono t b in
          (moves, λ m l. later m (omega (arith, l, h.head.behind)));
      seen = (passage u).seen;
      written = (passage u).written;
    }

    -- A round with an honest provider brings what the contract did in the blocks behind the scanner.
    pub Honest-Advances :
        ((i : ℕ) → Unrepeated (c.leaves_at i))
        → Advances scanner start latest (c.leaves_at start) (c.leaves_at latest)
    Honest-Advances u = Advances-by_logs u _ refl
