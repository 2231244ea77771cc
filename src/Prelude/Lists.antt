-- ===== src/Prelude/Lists.antt =====
-- Lists measured by native numbers, sums over lists, predicates on all members.
use Prim.Native.Nat.{ℕ, zero, suc, ◌+◌, ◌≤◌}
use mathlib.Core.Path.{◌≡◌, refl, ap}
use mathlib.Core.Bool.{Bool, false, ◌||◌}
use mathlib.Core.List.{List, [], ◌∷◌, ◌++◌}
use mathlib.Core.Option.{Option, none, some}
use native.Mathlib.Omega.{arith}

module _ {ℓ} {A : Type ℓ} where
  abbrev pub length : List A → ℕ
  length [] = 0
  length (x ∷ xs) = suc (length xs)

  pub length-append : (xs ys : List A) → length (xs ++ ys) ≡ length xs + length ys
  length-append [] ys = omega arith
  length-append (x ∷ xs) ys = omega (arith, length-append xs ys)

  abbrev pub any : (A → Bool) → List A → Bool
  any p [] = false
  any p (x ∷ xs) = p x || any p xs

  abbrev pub total : (A → ℕ) → List A → ℕ
  total f [] = 0
  total f (x ∷ xs) = f x + total f xs

  pub total-append : (f : A → ℕ) (xs ys : List A) → total f (xs ++ ys) ≡ total f xs + total f ys
  total-append f [] ys = omega arith
  total-append f (x ∷ xs) ys = omega (arith, total-append f xs ys)

  unfoldable pub take : ℕ → List A → List A
  take zero l = []
  take (suc n) [] = []
  take (suc n) (x ∷ l) = x ∷ take n l

  pub take_all : (n : ℕ) (l : List A) → length l ≤ n → take n l ≡ l
  unfolding take
  take_all zero [] h = refl
  take_all zero (x ∷ l) h = absurd (omega (arith, h))
  take_all (suc n) [] h = refl
  take_all (suc n) (x ∷ l) h = ap (λ t. x ∷ t) (take_all n l (omega (arith, h)))

  pub length-take : (n : ℕ) (l : List A) → n ≤ length l → length (take n l) ≡ n
  unfolding take
  length-take zero l h = refl
  length-take (suc n) [] h = absurd (omega (arith, h))
  length-take (suc n) (x ∷ l) h = ap suc (length-take n l (omega (arith, h)))

  -- The list without its last element, and that element.
  pub cons_init : A → Option (List A × A) → Option (List A × A)
  cons_init x none = some ([], x)
  cons_init x (some (ys, y)) = some (x ∷ ys, y)

  unfoldable pub pop_back : List A → Option (List A × A)
  unfolding cons_init
  pop_back [] = none
  pop_back (x ∷ xs) = cons_init x (pop_back xs)

  pop_back_cons :
      (x : A) (xs : List A) (o : Option (List A × A)) (ys : List A) (y : A)
      → (o ≡ none → xs ≡ [])
      → ((zs : List A) (z : A) → o ≡ some (zs, z) → xs ≡ zs ++ z ∷ [])
      → cons_init x o ≡ some (ys, y)
      → x ∷ xs ≡ ys ++ y ∷ []
  unfolding cons_init
  pop_back_cons x xs none ys y a b e = ground (arith, a refl)
  pop_back_cons x xs (some (zs, z)) ys y a b e = ground (arith, b zs z refl)

  pub pop_back-none : (xs : List A) → pop_back xs ≡ none → xs ≡ []
  unfolding pop_back
  pop_back-none [] e = refl
  pop_back-none (x ∷ xs) e = ground arith

  pub pop_back_lem : (xs ys : List A) (y : A) → pop_back xs ≡ some (ys, y) → xs ≡ ys ++ y ∷ []
  unfolding pop_back
  pop_back_lem [] ys y e = ground arith
  pop_back_lem (x ∷ xs) ys y e =
      pop_back_cons x xs (pop_back xs) ys y (pop_back-none xs) (pop_back_lem xs) e

  abbrev pub All {κ} : (A → Type κ) → List A → Type κ
  All P [] = Unit
  All P (x ∷ xs) = P x × All P xs

  pub All-append {κ} : (P : A → Type κ) (xs ys : List A) → All P xs → All P ys → All P (xs ++ ys)
  All-append P [] ys h k = k
  All-append P (x ∷ xs) ys (p, h) k = (p, All-append P xs ys h k)

module _ {ℓ κ} {A : Type ℓ} (P Q : A → Type κ) where
  pub All-map : ((a : A) → P a → Q a) → (l : List A) → All P l → All Q l
  All-map f [] h = tt
  All-map f (x ∷ l) (p, h) = (f x p, All-map f l h)

module _ {ℓ κ} {A : Type ℓ} (P : A → Type κ) where
  pub All-split : (l r : List A) (x : A) → All P (l ++ x ∷ r) → All P (l ++ r) × P x
  All-split [] r x (p, h) = (h, p)
  All-split (y ∷ l) r x (q, h) = let (a, p) = All-split l r x h in ((q, a), p)
