-- ===== src/WorldTree/Run.antt =====
-- The task of a `WorldTree` run on a list of rounds, against its step relation.
use mathlib.Core.Path.{subst}
use world_tree.Prelude.{◌≡◌, ◌↔◌, refl, sym, ap, ◌∙◌, List, [], ◌∷◌, ◌++◌}
use world_tree.Merkle.{PoseidonTree}
use world_tree.Foreign.{Foreign}
use world_tree.Updater.{Round}
use world_tree.WorldTree.{
  WorldTree, Phase, starting, looping, stopped, first_sync, loop_sync, Reach, first, again, here,
  next,
}

module _ (P : PoseidonTree) (F : Foreign) where
  -- What the task does next: its first sync, a round of its loop, or nothing once it has ended.
  unfoldable pub advance : Phase → Round F → WorldTree P F → WorldTree P F
  unfolding first_sync loop_sync
  advance starting round w = first_sync P F round w
  advance looping round w = loop_sync P F round w
  advance stopped round w = w

  unfoldable pub run : List (Round F) → WorldTree P F → WorldTree P F
  unfolding advance
  run [] w = w
  run (round ∷ rounds) w = run rounds (advance w.phase round w)

  run-append :
      (rs rs' : List (Round F)) (w : WorldTree P F) → run (rs ++ rs') w ≡ run rs' (run rs w)
  unfolding run
  run-append [] rs' w = refl
  run-append (r ∷ rs) rs' w = run-append rs rs' (advance w.phase r w)

  advance-first :
      (r : Round F) (w : WorldTree P F)
      → w.phase ≡ starting
      → advance w.phase r w ≡ first_sync P F r w
  unfolding advance
  advance-first r w p = rw p refl

  advance-again :
      (r : Round F) (w : WorldTree P F)
      → w.phase ≡ looping
      → advance w.phase r w ≡ loop_sync P F r w
  unfolding advance
  advance-again r w p = rw p refl

  advance-Reach :
      {w v : WorldTree P F} (p : Phase) (r : Round F)
      → v.phase ≡ p
      → Reach P F w v
      → Reach P F w (advance p r v)
  unfolding advance
  advance-Reach starting r e h = next h (first r e refl)
  advance-Reach looping r e h = next h (again r e refl)
  advance-Reach stopped r e h = h

  run-Reach :
      {w : WorldTree P F} (rs : List (Round F)) (v : WorldTree P F)
      → Reach P F w v
      → Reach P F w (run rs v)
  unfolding run
  run-Reach [] v h = h
  run-Reach (r ∷ rs) v h = run-Reach rs (advance v.phase r v) (advance-Reach v.phase r refl h)

  run-last :
      (w : WorldTree P F) (rs : List (Round F)) (r : Round F)
      → run (rs ++ (r ∷ [])) w ≡ advance (run rs w).phase r (run rs w)
  unfolding run
  run-last w rs r = run-append rs (r ∷ []) w

  Reach-run : {w v : WorldTree P F} → Reach P F w v → (rs : List (Round F)) × (run rs w ≡ v)
  unfolding run
  Reach-run here = ([], refl)
  Reach-run {w} (next {v} {v'} h (first r p e)) =
      let (rs, f) = Reach-run h in
      (
        rs ++ (r ∷ []),
        run-last w rs r ∙ ap (λ u. advance u.phase r u) f ∙ advance-first r v p ∙ sym e,
      )
  Reach-run {w} (next {v} {v'} h (again r p e)) =
      let (rs, f) = Reach-run h in
      (
        rs ++ (r ∷ []),
        run-last w rs r ∙ ap (λ u. advance u.phase r u) f ∙ advance-again r v p ∙ sym e,
      )

  -- A state can be reached exactly if some list of rounds leads to it: the task has no other choice.
  pub Reach_iff : (w v : WorldTree P F) → Reach P F w v ↔ ((rs : List (Round F)) × (run rs w ≡ v))
  Reach_iff w v = ((λ h. Reach-run h), (λ (rs, e). subst (Reach P F w) e (run-Reach rs w here)))

  advance-stopped : (p : Phase) (r : Round F) (w : WorldTree P F) → p ≡ stopped → advance p r w ≡ w
  unfolding advance
  advance-stopped starting r w e = cc
  advance-stopped looping r w e = cc
  advance-stopped stopped r w e = refl

  -- A task that has ended stays as it is, whatever the provider answers from then on.
  pub stopped-run : (rs : List (Round F)) (w : WorldTree P F) → w.phase ≡ stopped → run rs w ≡ w
  unfolding run
  stopped-run [] w p = refl
  stopped-run (r ∷ rs) w p = ap (run rs) (advance-stopped w.phase r w p) ∙ stopped-run rs w p
