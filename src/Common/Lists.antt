-- ===== src/Common/Lists.antt =====
-- Lists measured by the native numbers, and a predicate that holds of every member.
use Prim.Native.Nat.{ℕ, zero, suc, ◌+◌, ◌-◌, ◌≤◌, min}
use mathlib.Core.Path.{◌≡◌, refl, sym, ap, ◌∙◌}
use mathlib.Core.Option.{Option, none, some}
use mathlib.Core.List.{List, [], ◌∷◌, ◌++◌, reverse, reverse-cons}
use native.Mathlib.Omega.{arith}

module _ {ℓ} {A : Type ℓ} where
  abbrev pub length : List A → ℕ
  length [] = 0
  length (x ∷ xs) = suc (length xs)

  abbrev pub take : ℕ → List A → List A
  take zero xs = []
  take (suc n) [] = []
  take (suc n) (x ∷ xs) = x ∷ take n xs

  abbrev pub drop : ℕ → List A → List A
  drop zero xs = xs
  drop (suc n) [] = []
  drop (suc n) (x ∷ xs) = drop n xs

  -- The member in a place, the first one in place 0.
  abbrev pub at : ℕ → List A → Option A
  at i [] = none
  at zero (x ∷ xs) = some x
  at (suc i) (x ∷ xs) = at i xs

  pub at-end : (xs : List A) (x : A) → at (length xs) (xs ++ x ∷ []) ≡ some x
  at-end [] x = refl
  at-end (y ∷ xs) x = at-end xs x

  pub at-append : (i : ℕ) (xs ys : List A) (x : A) → at i xs ≡ some x → at i (xs ++ ys) ≡ some x
  at-append i [] ys x h = cc
  at-append zero (y ∷ xs) ys x h = h
  at-append (suc i) (y ∷ xs) ys x h = at-append i xs ys x h

  pub length-append : (xs ys : List A) → length (xs ++ ys) ≡ length xs + length ys
  length-append [] ys = omega arith
  length-append (x ∷ xs) ys = omega (arith, length-append xs ys)

  pub length-take : (n : ℕ) (xs : List A) → length (take n xs) ≡ min n (length xs)
  length-take zero xs = omega arith
  length-take (suc n) [] = omega arith
  length-take (suc n) (x ∷ xs) = omega (arith, length-take n xs)

  pub take-drop : (n : ℕ) (xs : List A) → take n xs ++ drop n xs ≡ xs
  take-drop zero xs = refl
  take-drop (suc n) [] = refl
  take-drop (suc n) (x ∷ xs) = ap (λ ys. x ∷ ys) (take-drop n xs)

  drop-nil : (n : ℕ) → drop n [] ≡ []
  drop-nil zero = refl
  drop-nil (suc n) = refl

  pub drop-drop : (m n : ℕ) (xs : List A) → drop m (drop n xs) ≡ drop (n + m) xs
  drop-drop m zero xs = ap (λ k. drop k xs) (omega arith)
  drop-drop m (suc n) [] = drop-nil m ∙ sym (drop-nil (suc n + m))
  drop-drop m (suc n) (x ∷ xs) =
      let next : suc (n + m) ≡ suc n + m = omega arith in
      drop-drop m n xs ∙ ap (λ k. drop k (x ∷ xs)) next

  pub length-drop : (n : ℕ) (xs : List A) → length (drop n xs) ≡ length xs - n
  length-drop zero xs = omega arith
  length-drop (suc n) [] = omega arith
  length-drop (suc n) (x ∷ xs) = omega (arith, length-drop n xs)

  pub take-all : (n : ℕ) (xs : List A) → length xs ≤ n → take n xs ≡ xs
  take-all zero [] h = refl
  take-all (suc n) [] h = refl
  take-all zero (x ∷ xs) h = ground arith
  take-all (suc n) (x ∷ xs) h = ap (λ ys. x ∷ ys) (take-all n xs (omega arith))

module _ {ℓ κ} {A : Type ℓ} (P : A → Type κ) where
  abbrev pub All : List A → Type κ
  All [] = Unit
  All (x ∷ xs) = P x × All xs

  -- If there is a value, it has `P`.
  abbrev pub IfSome : Option A → Type κ
  IfSome none = Unit
  IfSome (some x) = P x

  pub at-IfSome : (i : ℕ) (xs : List A) → All xs → IfSome (at i xs)
  at-IfSome i [] h = tt
  at-IfSome zero (x ∷ xs) (p, h) = p
  at-IfSome (suc i) (x ∷ xs) (p, h) = at-IfSome i xs h

  pub All-append : (xs ys : List A) → All xs → All ys → All (xs ++ ys)
  All-append [] ys hx hy = hy
  All-append (x ∷ xs) ys (p, hx) hy = (p, All-append xs ys hx hy)

  pub All-reverse : (xs : List A) → All xs → All (reverse xs)
  All-reverse [] h = tt
  All-reverse (x ∷ xs) (p, h) =
      rw (reverse-cons x xs) (All-append (reverse xs) (x ∷ []) (All-reverse xs h) (p, tt))

  pub All-append_left : (xs ys : List A) → All (xs ++ ys) → All xs
  All-append_left [] ys h = tt
  All-append_left (x ∷ xs) ys (p, h) = (p, All-append_left xs ys h)

  All-append_right : (xs ys : List A) → All (xs ++ ys) → All ys
  All-append_right [] ys h = h
  All-append_right (x ∷ xs) ys (p, h) = All-append_right xs ys h

module _ {ℓ κ μ} {A : Type ℓ} (P : A → Type κ) (Q : A → Type μ) (f : (a : A) → P a → Q a) where
  pub All-map : (xs : List A) → All P xs → All Q xs
  All-map [] h = tt
  All-map (x ∷ xs) (p, h) = (f x p, All-map xs h)
