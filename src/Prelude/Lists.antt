-- ===== src/Prelude/Lists.antt =====
-- Lists measured and indexed by native numbers, under the library's names.
use Prim.Native.Nat.{ℕ, zero, suc, ◌+◌, ◌≤◌, ◌<◌}
use mathlib.Core.Path.{◌≡◌, refl, ap}
use mathlib.Core.Logic.{◌≢◌, ◌⊎◌}
use mathlib.Core.Bool.{Bool, true, false}
use mathlib.Core.List.{List, [], ◌∷◌, ◌++◌, map}
use mathlib.Core.Option.{Option, none, some}
use native.Mathlib.Omega.{arith}
use world_tree.Prelude.Tests.{if◌then◌else◌, ◌==◌}

module _ {ℓ} {A : Type ℓ} where
  abbrev pub length : List A → ℕ
  length [] = 0
  length (x ∷ xs) = suc (length xs)

  abbrev pub get_elem? : List A → ℕ → Option A
  get_elem? [] i = none
  get_elem? (x ∷ xs) zero = some x
  get_elem? (x ∷ xs) (suc i) = get_elem? xs i

  -- A write out of bounds changes nothing.
  abbrev pub set : List A → ℕ → A → List A
  set [] i v = []
  set (x ∷ xs) zero v = v ∷ xs
  set (x ∷ xs) (suc i) v = x ∷ set xs i v

  abbrev pub take : ℕ → List A → List A
  take zero xs = []
  take (suc n) [] = []
  take (suc n) (x ∷ xs) = x ∷ take n xs

  abbrev pub drop : ℕ → List A → List A
  drop zero xs = xs
  drop (suc n) [] = []
  drop (suc n) (x ∷ xs) = drop n xs

  abbrev pub replicate : ℕ → A → List A
  replicate zero a = []
  replicate (suc n) a = a ∷ replicate n a

  abbrev pub take_while : (A → Bool) → List A → List A
  take_while p [] = []
  take_while p (x ∷ xs) = if p x then x ∷ take_while p xs else []

  -- A predicate of every entry.
  abbrev pub All {κ} : (A → Type κ) → List A → Type κ
  All P [] = Unit
  All P (x ∷ xs) = P x × All P xs

module _ {ℓ} {A : Type ℓ} where
  pub length-append : (xs ys : List A) → length (xs ++ ys) ≡ length xs + length ys
  length-append [] ys = omega arith
  length-append (x ∷ xs) ys = omega (arith, length-append xs ys)

  pub length-set : (xs : List A) (i : ℕ) (v : A) → length (set xs i v) ≡ length xs
  length-set [] i v = refl
  length-set (x ∷ xs) zero v = refl
  length-set (x ∷ xs) (suc i) v = ap suc (length-set xs i v)

  pub get_elem?-set_self :
      (xs : List A) (i : ℕ) (v : A) → i < length xs → get_elem? (set xs i v) i ≡ some v
  get_elem?-set_self [] i v h = elim h [ ]
  get_elem?-set_self (x ∷ xs) zero v h = refl
  get_elem?-set_self (x ∷ xs) (suc i) v h = get_elem?-set_self xs i v (omega arith)

  pub get_elem?-set_ne :
      (xs : List A) (i j : ℕ) (v : A) → i ≢ j → get_elem? (set xs i v) j ≡ get_elem? xs j
  get_elem?-set_ne [] i j v h = refl
  get_elem?-set_ne (x ∷ xs) zero zero v h = absurd (h refl)
  get_elem?-set_ne (x ∷ xs) zero (suc j) v h = refl
  get_elem?-set_ne (x ∷ xs) (suc i) zero v h = refl
  get_elem?-set_ne (x ∷ xs) (suc i) (suc j) v h = get_elem?-set_ne xs i j v (λ e. h (ap suc e))

  pub get_elem?-some : (xs : List A) (i : ℕ) → i < length xs → (a : A) × (get_elem? xs i ≡ some a)
  get_elem?-some [] i h = elim h [ ]
  get_elem?-some (x ∷ xs) zero h = (x, refl)
  get_elem?-some (x ∷ xs) (suc i) h = get_elem?-some xs i (omega arith)

  pub get_elem?-lt : (xs : List A) (i : ℕ) (a : A) → get_elem? xs i ≡ some a → i < length xs
  get_elem?-lt [] i a h = cc
  get_elem?-lt (x ∷ xs) zero a h = omega arith
  get_elem?-lt (x ∷ xs) (suc i) a h = omega (arith, get_elem?-lt xs i a h)

  take-nil : (n : ℕ) → take {A = A} n [] ≡ []
  take-nil zero = refl
  take-nil (suc n) = refl

  pub length-take-le : (n : ℕ) (xs : List A) → length (take n xs) ≤ n
  length-take-le zero xs = omega arith
  length-take-le (suc n) [] = omega arith
  length-take-le (suc n) (x ∷ xs) = omega (arith, length-take-le n xs)

  -- Taking at least as much as there is takes everything.
  pub take_of_length-le : (n : ℕ) (xs : List A) → length xs ≤ n → take n xs ≡ xs
  take_of_length-le n [] fits = take-nil n
  take_of_length-le zero (x ∷ xs) fits = absurd (omega arith)
  take_of_length-le (suc n) (x ∷ xs) fits = cc (take_of_length-le n xs (omega arith))

  pub length-take_while-le : (p : A → Bool) (xs : List A) → length (take_while p xs) ≤ length xs
  length-take_while-le p [] = omega arith
  length-take_while-le p (x ∷ xs) = ground (arith, length-take_while-le p xs)

  pub take_while-All : (p : A → Bool) (xs : List A) → All (λ x. p x ≡ true) (take_while p xs)
  take_while-All p [] = tt
  take_while-All p (x ∷ xs) = go (p x) refl (take_while-All p xs)
    where
      go :
          (b : Bool)
          → p x ≡ b
          → All (λ y. p y ≡ true) (take_while p xs)
          → All (λ y. p y ≡ true) (if b then x ∷ take_while p xs else [])
      go true e r = (e, r)
      go false e r = tt

-- Inside a list that is put in place of a segment, and outside it.
module _ {ℓ} {A : Type ℓ} where
  pub get_elem?-append_left :
      (xs ys : List A) (k : ℕ) → k < length xs → get_elem? (xs ++ ys) k ≡ get_elem? xs k
  get_elem?-append_left [] ys k h = elim h [ ]
  get_elem?-append_left (x ∷ xs) ys zero h = refl
  get_elem?-append_left (x ∷ xs) ys (suc k) h = get_elem?-append_left xs ys k (omega arith)

  pub get_elem?-segment_inside :
      (start : ℕ) (xs ys ls : List A) (k : ℕ)
      → start ≤ length ls
      → k < length xs
      → get_elem? (take start ls ++ (xs ++ ys)) (start + k) ≡ get_elem? xs k
  get_elem?-segment_inside zero xs ys ls k b h =
      let e : 0 + k ≡ k = omega arith in rw e (get_elem?-append_left xs ys k h)
  get_elem?-segment_inside (suc s) xs ys [] k b h = absurd (omega arith)
  get_elem?-segment_inside (suc s) xs ys (l ∷ ls) k b h =
      let e : suc s + k ≡ suc (s + k) = omega arith in
      rw e (get_elem?-segment_inside s xs ys ls k (omega arith) h)

  drop-nil : (n : ℕ) → drop {A = A} n [] ≡ []
  drop-nil zero = refl
  drop-nil (suc n) = refl

  pub get_elem?-append_drop :
      (xs ls : List A) (j : ℕ)
      → length xs ≤ j
      → get_elem? (xs ++ drop (length xs) ls) j ≡ get_elem? ls j
  get_elem?-append_drop [] ls j h = refl
  get_elem?-append_drop (x ∷ xs) ls zero h = absurd (omega arith)
  get_elem?-append_drop (x ∷ xs) [] (suc j) h =
      rw (drop-nil (length xs)) at (get_elem?-append_drop xs [] j (omega arith))
  get_elem?-append_drop (x ∷ xs) (l ∷ ls) (suc j) h = get_elem?-append_drop xs ls j (omega arith)

  pub get_elem?-segment_outside :
      (start : ℕ) (xs ls : List A) (j : ℕ)
      → (j < start) ⊎ (start + length xs ≤ j)
      → start + length xs ≤ length ls
      → get_elem? (take start ls ++ (xs ++ drop (start + length xs) ls)) j ≡ get_elem? ls j
  get_elem?-segment_outside zero xs ls j h b =
      let e : 0 + length xs ≡ length xs = omega arith in
      rw e (get_elem?-append_drop xs ls j (omega arith))
  get_elem?-segment_outside (suc s) xs [] j h b = absurd (omega arith)
  get_elem?-segment_outside (suc s) xs (l ∷ ls) zero h b = refl
  get_elem?-segment_outside (suc s) xs (l ∷ ls) (suc j) h b =
      let e : suc s + length xs ≡ suc (s + length xs) = omega arith in
      rw e (get_elem?-segment_outside s xs ls j (omega arith) (omega arith))

abbrev pub contains : ℕ → List ℕ → Bool
contains a [] = false
contains a (x ∷ xs) = if x == a then true else contains a xs

-- Views of the entries of a list.
pub map-take :
    {A B : Type 0} (f : A → B) (n : ℕ) (xs : List A) → map f (take n xs) ≡ take n (map f xs)
map-take f zero xs = refl
map-take f (suc n) [] = refl
map-take f (suc n) (x ∷ xs) = ap (◌∷◌ (f x)) (map-take f n xs)

pub map-map :
    {A B C : Type 0} (f : B → C) (g : A → B) (xs : List A)
    → map f (map g xs) ≡ map (λ x. f (g x)) xs
map-map f g [] = refl
map-map f g (x ∷ xs) = ap (◌∷◌ (f (g x))) (map-map f g xs)

pub All-of_map :
    {A B : Type 0} (Q : B → Type 0) (f : A → B) (xs : List A)
    → All Q (map f xs)
    → All (λ x. Q (f x)) xs
All-of_map Q f [] a = tt
All-of_map Q f (x ∷ xs) a = (a.0, All-of_map Q f xs a.1)

pub All-take_twice :
    {A : Type 0} (Q : A → Type 0) (n m : ℕ) (xs : List A)
    → All Q (take n xs)
    → All Q (take n (take m xs))
All-take_twice Q zero m xs a = tt
All-take_twice Q (suc n) zero xs a = tt
All-take_twice Q (suc n) (suc m) [] a = tt
All-take_twice Q (suc n) (suc m) (x ∷ xs) a = (a.0, All-take_twice Q n m xs a.1)

pub some_inj : {A : Type 0} {x y : A} → some x ≡ some y → x ≡ y
some_inj e = cc
