-- ===== src/Exec/Errors.antt =====
-- Code that returns no error, and code whose errors come before any write.
use world_tree.Prelude.{Bool, true, false, if◌then◌else◌, ◌≡◌, ◌≢◌, refl, inl, inr, arith}
use world_tree.Exec.{Outcome, Outcome-cases, ok, err, panic, out_of_fuel, Exec, pure, lift, ◌>>=◌}

module _ {E S A : Type 0} where
  -- It may panic, and it returns no error.
  pub record NoErr (m : Exec E S A) : Type 0 where
    pub at : (s : S) (e : E) → (m s).0 ≢ err e

  -- Where it returns an error it has written nothing.
  pub record ErrKeeps (m : Exec E S A) : Type 0 where
    pub at : (s : S) (e : E) → (m s).0 ≡ err e → (m s).1 ≡ s

  pub ErrKeeps-of_NoErr : (m : Exec E S A) → NoErr m → ErrKeeps m
  ErrKeeps-of_NoErr m h = record { at = λ s e k. absurd (h.at s e k) }

  pub ErrKeeps-lift : (r : Outcome E A) → ErrKeeps (lift r)
  ErrKeeps-lift r = record { at = λ s e k. refl }

  pub NoErr-pure : (a : A) → NoErr (pure a)
  NoErr-pure a = record { at = λ s e k. cc }

module _ {E S A B : Type 0} where
  pub NoErr-bind :
      (m : Exec E S A) (f : A → Exec E S B) → NoErr m → ((a : A) → NoErr (f a)) → NoErr (m >>= f)
  NoErr-bind m f hm hf = record {
    at = λ s e k. elim (Outcome-cases (m s).0) [
      | inl (a, r) ↦ absurd ((hf a).at (m s).1 e (ground (arith, r, k)))
      | inr (inl (x, r)) ↦ absurd (hm.at s x r)
      | inr (inr (inl r)) ↦ absurd (ground (arith, r, k))
      | inr (inr (inr r)) ↦ absurd (ground (arith, r, k))
    ];
  }

  pub ErrKeeps-bind_lift :
      (r : Outcome E A) (f : A → Exec E S B) → ((a : A) → ErrKeeps (f a)) → ErrKeeps (lift r >>= f)
  ErrKeeps-bind_lift (ok a) f h = record { at = (h a).at }
  ErrKeeps-bind_lift (err x) f h = record { at = λ s e k. refl }
  ErrKeeps-bind_lift panic f h = record { at = λ s e k. refl }
  ErrKeeps-bind_lift out_of_fuel f h = record { at = λ s e k. refl }

module _ {E S A : Type 0} where
  pub ErrKeeps-if :
      (b : Bool) (m n : Exec E S A) → ErrKeeps m → ErrKeeps n → ErrKeeps (if b then m else n)
  ErrKeeps-if true m n hm hn = hm
  ErrKeeps-if false m n hm hn = hn
