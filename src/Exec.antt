-- ===== src/Exec.antt =====
-- Code that may fail, and its monad over a state: the `Result`s, panics and mutable structures of
-- the Rust sources.
pub mod Errors
use mathlib.Core.Path.{◌≡◌, refl}
use mathlib.Core.Logic.{◌⊎◌, inl, inr}
use mathlib.Core.Option.{Option, none, some}

-- `panic` is an `unwrap`, `expect`, index or conversion that panics, `out_of_fuel` a loop that did
-- not end within the fuel it was given.
pub data Outcome (E A : Type 0) : Type 0 where
  ok : A → Outcome E A
  err : E → Outcome E A
  panic : Outcome E A
  out_of_fuel : Outcome E A

-- What was written before an error or a panic stays written, so the state comes back on each.
abbrev pub Exec : Type 0 → Type 0 → Type 0 → Type 0
Exec E S A = S → Outcome E A × S

module _ {E A : Type 0} where
  -- `expect` and `unwrap`.
  abbrev pub expect : Option A → Outcome E A
  expect none = panic
  expect (some a) = ok a

  abbrev pub ok_or : E → Option A → Outcome E A
  ok_or e none = err e
  ok_or e (some a) = ok a

module _ {E A : Type 0} where
  pub Outcome-cases :
      (o : Outcome E A)
      → ((a : A) × (o ≡ ok a)) ⊎ ((e : E) × (o ≡ err e)) ⊎ (o ≡ panic) ⊎ (o ≡ out_of_fuel)
  Outcome-cases (ok a) = inl (a, refl)
  Outcome-cases (err e) = inr (inl (e, refl))
  Outcome-cases panic = inr (inr (inl refl))
  Outcome-cases out_of_fuel = inr (inr (inr refl))

module _ {E S A : Type 0} where
  abbrev pub pure : A → Exec E S A
  pure a s = (ok a, s)

  abbrev pub fail : E → Exec E S A
  fail e s = (err e, s)

  abbrev pub lift : Outcome E A → Exec E S A
  lift r s = (r, s)

module _ {E S A B : Type 0} where
  abbrev pub continue : Outcome E A → (A → Exec E S B) → Exec E S B
  continue (ok a) f s = f a s
  continue (err e) f s = (err e, s)
  continue panic f s = (panic, s)
  continue out_of_fuel f s = (out_of_fuel, s)

  infixl 10 ◌>>=◌ ◌>>◌
  abbrev pub ◌>>=◌ : Exec E S A → (A → Exec E S B) → Exec E S B
  ◌>>=◌ m f s = continue (m s).0 f (m s).1

  abbrev pub ◌>>◌ : Exec E S A → Exec E S B → Exec E S B
  m >> n = m >>= λ _. n
