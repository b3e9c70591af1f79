-- ===== src/Base/Lists.antt =====
-- Lists counted and searched by Boolean tests, over the native numbers.
use Prim.Native.Nat.{ℕ, suc, ◌+◌, ◌≤◌}
use mathlib.Core.Path.{◌≡◌, refl}
use mathlib.Core.Bool.{Bool, true, false, not, ◌||◌, ◌&&◌}
use mathlib.Core.List.{List, [], ◌∷◌, ◌++◌}
use native.Mathlib.Omega.{arith}
use open_v_center_agent_hype.Base.Tests.{if◌then◌else◌}

module _ {ℓ} {A : Type ℓ} where
  abbrev pub length : List A → ℕ
  length [] = 0
  length (x ∷ xs) = suc (length xs)

  -- The elements that pass a test, in their order.
  abbrev pub select : (A → Bool) → List A → List A
  select p [] = []
  select p (x ∷ xs) = let rest = select p xs in if p x then x ∷ rest else rest

  abbrev pub any : (A → Bool) → List A → Bool
  any p [] = false
  any p (x ∷ xs) = p x || any p xs

  -- How many elements pass a test.
  abbrev pub tally : (A → Bool) → List A → ℕ
  tally p [] = 0
  tally p (x ∷ xs) = let rest = tally p xs in if p x then suc rest else rest

  abbrev pub All {κ} : (A → Type κ) → List A → Type κ
  All P [] = Unit
  All P (x ∷ xs) = P x × All P xs

  pub tally-select-le : (p q : A → Bool) (xs : List A) → tally p (select q xs) ≤ tally p xs
  tally-select-le p q [] = omega arith
  tally-select-le p q (x ∷ xs) = ground (arith, tally-select-le p q xs)

  pub length-select-le : (q : A → Bool) (xs : List A) → length (select q xs) ≤ length xs
  length-select-le q [] = omega arith
  length-select-le q (x ∷ xs) = ground (arith, length-select-le q xs)

  -- A search that fails counts nothing.
  pub tally-any : (p : A → Bool) (xs : List A) → any p xs ≡ false → tally p xs ≡ 0
  tally-any p [] h = refl
  tally-any p (x ∷ xs) h = ground (arith, tally-any p xs)

  pub tally-any-true : (p : A → Bool) (xs : List A) → any p xs ≡ true → 1 ≤ tally p xs
  tally-any-true p [] h = ground arith
  tally-any-true p (x ∷ xs) h = ground (arith, tally-any-true p xs)

  pub tally-append : (p : A → Bool) (xs ys : List A) → tally p (xs ++ ys) ≡ tally p xs + tally p ys
  tally-append p [] ys = omega arith
  tally-append p (x ∷ xs) ys = ground (arith, tally-append p xs ys)

  pub tally-select :
      (p q : A → Bool) (xs : List A) → tally p (select q xs) ≡ tally (λ x. q x && p x) xs
  tally-select p q [] = refl
  tally-select p q (x ∷ xs) = ground (arith, tally-select p q xs)

  -- What the test admits and what it refuses make up the list.
  pub length-select-tally :
      (q : A → Bool) (xs : List A) → length (select (λ x. not (q x)) xs) + tally q xs ≡ length xs
  length-select-tally q [] = omega arith
  length-select-tally q (x ∷ xs) = ground (arith, length-select-tally q xs)

  pub tally-select_keep :
      (p q : A → Bool)
      → ((x : A) → p x ≡ true → q x ≡ true)
      → (xs : List A) → tally p (select q xs) ≡ tally p xs
  tally-select_keep p q h [] = refl
  tally-select_keep p q h (x ∷ xs) = ground (arith, h x, tally-select_keep p q h xs)

  pub length-append : (xs ys : List A) → length (xs ++ ys) ≡ length xs + length ys
  length-append [] ys = omega arith
  length-append (x ∷ xs) ys = omega (arith, length-append xs ys)

  pub tally-single_false : (p : A → Bool) (x : A) → p x ≡ false → tally p (x ∷ []) ≡ 0
  tally-single_false p x h = ground arith

  pub tally-single-le : (p : A → Bool) (x : A) → tally p (x ∷ []) ≤ 1
  tally-single-le p x = ground arith

  pub All-select {κ} :
      (P : A → Type κ) (p : A → Bool) (xs : List A) → All P xs → All P (select p xs)
  All-select P p [] h = tt
  All-select P p (x ∷ xs) h = ground (arith, All-select P p xs)
