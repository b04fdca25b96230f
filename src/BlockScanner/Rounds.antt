-- ===== src/BlockScanner/Rounds.antt =====
-- `next` of the scanner again and again, through rounds that fail as well.
use mathlib.Core.Path.{subst}
use world_tree.Prelude.{
  ℕ, ◌+◌, ◌-◌, ◌^◌, ◌≤◌, ◌<◌, ◌≡◌, ◌≢◌, refl, sym, ap, ◌∙◌, inr, List, [], ◌++◌, arith,
}
use world_tree.Exec.{Outcome, ok}
use world_tree.Chain.{Log, Middleware}
use world_tree.BlockScanner.{BlockScanner, next}
use world_tree.BlockScanner.Complete.{span, Answers, next_complete, span-from_zero, span-join}
use world_tree.BlockScanner.Failure.{next-unchanged}

-- The chain's head at a call that returns logs, against a scanner whose sums fit.
pub record Head {X : Type 0} (logs_of : ℕ → List Log) (s : BlockScanner) (m : Middleware X)
    (fuel latest : ℕ) : Type 0 where
  pub answers : Answers logs_of s m latest
  pub head : m.get_block_number ≡ inr latest
  pub behind : s.last_synced_block ≤ latest
  pub fits : latest + s.window_size < 2 ^ 64
  pub enough : latest - s.last_synced_block < fuel

-- The calls of `next` from the scanner `s` on: the scanner that they lead to, and all the logs that
-- they returned, in order. A call may fail in any way.
pub data Scans (X : Type 0) (logs_of : ℕ → List Log) (s : BlockScanner)
    : BlockScanner → List Log → Type 0 where
  idle : Scans X logs_of s s []
  scanned :
      {s1 : BlockScanner} {logs : List Log}
      → Scans X logs_of s s1 logs
      → (m : Middleware X) (fuel latest : ℕ) → Head logs_of s1 m fuel latest
      → (found : List Log) (s2 : BlockScanner) → next fuel m s1 ≡ (ok found, s2)
      → Scans X logs_of s s2 (logs ++ found)
  failed :
      {s1 : BlockScanner} {logs : List Log}
      → Scans X logs_of s s1 logs
      → (m : Middleware X) (fuel : ℕ) (r : Outcome X (List Log)) (s2 : BlockScanner)
      → next fuel m s1 ≡ (r, s2)
      → ((found : List Log) → r ≢ ok found)
      → Scans X logs_of s s2 logs

-- Where the scanner stands, and what it has returned.
pub record UpTo (logs_of : ℕ → List Log) (s s' : BlockScanner) (logs : List Log) : Type 0 where
  pub moved : s.last_synced_block ≤ s'.last_synced_block
  pub window : s'.window_size ≡ s.window_size
  pub all :
      logs ≡ span logs_of (s.last_synced_block + 1) (s'.last_synced_block - s.last_synced_block)

module _ (X : Type 0) (logs_of : ℕ → List Log) where
  -- Through any calls that fail and calls that succeed against a provider that knows the chain up
  -- to its head, the scanner has returned the logs of every block from behind its start up to where
  -- it stands, each once and in order.
  pub Scans-UpTo :
      {s : BlockScanner} {s' : BlockScanner} {logs : List Log}
      → Scans X logs_of s s' logs
      → UpTo logs_of s s' logs
  Scans-UpTo {s} idle = record {
    moved = omega arith;
    window = refl;
    all = sym (span-from_zero logs_of (s.last_synced_block + 1) s.last_synced_block);
  }
  Scans-UpTo {s} (scanned {s1} {logs} r m fuel latest h found s2 run) =
      let u = Scans-UpTo r in
      let done =
        sym (next_complete logs_of s1 m fuel latest h.answers h.head h.behind h.fits h.enough)
        ∙ run in
      let (f, e) = answer done in
      record {
        moved = rw (← e) (omega (arith, u.moved, h.behind));
        window = rw (← e) u.window;
        all =
            rw (← e, ← f)
              (ap
                  (λ l.
                    l ++ span logs_of (s1.last_synced_block + 1) (latest - s1.last_synced_block))
                  u.all
                ∙ span-join logs_of s.last_synced_block s1.last_synced_block latest u.moved
                    h.behind);
      }
    where
      answer :
          {a b : List Log} {c d : BlockScanner}
          → ◌≡◌ {A = Outcome X (List Log) × BlockScanner} (ok a, c) (ok b, d)
          → (a ≡ b) × (c ≡ d)
      answer e = (cc, cc)
  Scans-UpTo {s} (failed {s1} {logs} r m fuel o s2 run refused) =
      let u = Scans-UpTo r in
      let kept =
        next-unchanged s1 m fuel (λ found e. refused found (sym (ap (λ p. p.0) run) ∙ e)) in
      let same : s1 ≡ s2 = sym kept ∙ ap (λ p. p.1) run in subst (λ t. UpTo logs_of s t logs) same u
