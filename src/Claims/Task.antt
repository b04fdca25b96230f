-- ===== src/Claims/Task.antt =====
-- src/claims/mod.rs, `ClaimStorage::spawn`: the task that prints claims, round after round.
use mathlib.Core.List.{append-nil, append_assoc, map-append}
use mathlib.Core.Path.{subst}
use world_tree.Prelude.{
  ℕ, zero, suc, ◌+◌, ◌-◌, ◌≤◌, ◌≡◌, ◌≢◌, refl, sym, ap, ap₂, ◌∙◌, Option, some, List, ◌++◌, map,
  arith,
}
use world_tree.Exec.{ok, err, panic, out_of_fuel}
use world_tree.Chain.{Log, Middleware}
use world_tree.BlockScanner.{BlockScanner}
use world_tree.BlockScanner.Complete.{span, span-from_zero, span-join}
use world_tree.BlockScanner.Rounds.{Head}
use world_tree.Claims.{ClaimState, claim_of, sync_to_head}
use world_tree.Claims.Printed.{sync_to_head-printed}
use world_tree.WorldTree.{Phase, starting, looping, stopped}

-- The task with its state; its phases are those of the task of the tree.
pub record ClaimTask : Type 0 where
  pub state : ClaimState
  pub phase : Phase

module _ (X : Type 0) (decode_u256 : List ℕ → Option ℕ) where
  -- The first sync and every round of the loop after it are the same call.
  unfoldable pub sync_round : ℕ → Middleware X → ClaimTask → ClaimTask
  sync_round fuel m t =
      let (r, s) = sync_to_head X decode_u256 fuel m t.state in
      elim r [
        | ok _ ↦ record { state = s; phase = looping }
        | err _ ↦ record { state = s; phase = stopped }
        | panic ↦ record { state = s; phase = stopped }
        | out_of_fuel ↦ record { state = s; phase = stopped }
      ]

  unfoldable pub advance : Phase → ℕ → Middleware X → ClaimTask → ClaimTask
  unfolding sync_round
  advance starting fuel m t = sync_round fuel m t
  advance looping fuel m t = sync_round fuel m t
  advance stopped fuel m t = t

  advance_round :
      (p : Phase) (fuel : ℕ) (m : Middleware X) (t : ClaimTask)
      → p ≢ stopped
      → advance p fuel m t ≡ sync_round fuel m t
  unfolding advance
  advance_round starting fuel m t r = refl
  advance_round looping fuel m t r = refl
  advance_round stopped fuel m t r = absurd (r refl)

  module _ (logs_of : ℕ → List Log) where
    -- Rounds of the task in which the provider knows the chain.
    pub data Rounds (t : ClaimTask) : ClaimTask → Type 0 where
      begin : Rounds t t
      then :
          {t1 : ClaimTask}
          → Rounds t t1
          → (m : Middleware X) (fuel latest : ℕ)
          → Head logs_of t1.state.updater.block_scanner m fuel latest
          → Rounds t (advance t1.phase fuel m t1)

    -- What the task has printed since `t`, if each block of the chain has the lines `lines_of`.
    pub record Printed (lines_of : ℕ → List (ℕ × ℕ)) (t t' : ClaimTask) : Type 0 where
      pub running : t'.phase ≢ stopped
      pub moved :
          t.state.updater.block_scanner.last_synced_block
          ≤ t'.state.updater.block_scanner.last_synced_block
      pub lines :
          t'.state.printed
          ≡ t.state.printed
            ++ span lines_of (t.state.updater.block_scanner.last_synced_block + 1) (
                t'.state.updater.block_scanner.last_synced_block
                - t.state.updater.block_scanner.last_synced_block)

    span-decode :
        (lines_of : ℕ → List (ℕ × ℕ)) (a n : ℕ)
        → ((k : ℕ) → map (claim_of decode_u256) (logs_of k) ≡ map some (lines_of k))
        → map (claim_of decode_u256) (span logs_of a n) ≡ map some (span lines_of a n)
    unfolding span
    span-decode lines_of a zero h = refl
    span-decode lines_of a (suc n) h =
        map-append (claim_of decode_u256) (logs_of a) (span logs_of (suc a) n)
        ∙ ap₂ ◌++◌ (h a) (span-decode lines_of (suc a) n h)
        ∙ sym (map-append some (lines_of a) (span lines_of (suc a) n))

    round_lem :
        (lines_of : ℕ → List (ℕ × ℕ)) (p : Phase) (t : ClaimTask) (m : Middleware X)
        (fuel latest : ℕ)
        → ((k : ℕ) → map (claim_of decode_u256) (logs_of k) ≡ map some (lines_of k))
        → p ≢ stopped
        → Head logs_of t.state.updater.block_scanner m fuel latest
        → Printed lines_of t (advance p fuel m t)
    unfolding sync_round
    round_lem lines_of p t m fuel latest h r k =
        let scanner : BlockScanner = t.state.updater.block_scanner in
        let found : List (ℕ × ℕ) =
          span lines_of (scanner.last_synced_block + 1) (latest - scanner.last_synced_block) in
        let done =
          sync_to_head-printed decode_u256 logs_of m t.state found fuel latest k.answers k.head
            k.behind k.fits k.enough (span-decode lines_of _ _ h) in
        let after : ClaimTask = record {
          state = record {
            updater = record t.state.updater {
              block_scanner = record scanner { last_synced_block = latest };
            };
            printed = t.state.printed ++ found;
          };
          phase = looping;
        } in
        let e : sync_round fuel m t ≡ after = ground (arith, done) in
        subst (Printed lines_of t) (sym (advance_round p fuel m t r ∙ e))
          (record { running = λ x. cc; moved = k.behind; lines = refl })

    -- As long as the provider in every round knows the chain up to its head and every log decodes,
    -- a task that has not ended prints a line for each log of each block that it passes, once and
    -- in order, and does not end.
    pub Rounds-Printed :
        (lines_of : ℕ → List (ℕ × ℕ)) {t : ClaimTask} {t' : ClaimTask}
        → ((k : ℕ) → map (claim_of decode_u256) (logs_of k) ≡ map some (lines_of k))
        → t.phase ≢ stopped
        → Rounds t t'
        → Printed lines_of t t'
    Rounds-Printed lines_of {t} h r begin = record {
      running = r;
      moved = omega arith;
      lines = sym (
          ap (λ l. t.state.printed ++ l) (span-from_zero lines_of _ _)
          ∙ append-nil t.state.printed);
    }
    Rounds-Printed lines_of {t} h r (then {t1} b m fuel latest k) =
        let u = Rounds-Printed lines_of h r b in
        let v = round_lem lines_of t1.phase t1 m fuel latest h u.running k in
        let start : ℕ = t.state.updater.block_scanner.last_synced_block in
        let mid : ℕ = t1.state.updater.block_scanner.last_synced_block in
        let end : ℕ = (advance t1.phase fuel m t1).state.updater.block_scanner.last_synced_block in
        record {
          running = v.running;
          moved = omega (arith, u.moved, v.moved);
          lines =
              v.lines
              ∙ ap (λ l. l ++ span lines_of (mid + 1) (end - mid)) u.lines
              ∙ append_assoc t.state.printed (span lines_of (start + 1) (mid - start))
                  (span lines_of (mid + 1) (end - mid))
              ∙ ap (λ l. t.state.printed ++ l) (span-join lines_of start mid end u.moved v.moved);
        }
