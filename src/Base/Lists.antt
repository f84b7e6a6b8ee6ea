-- ===== src/Base/Lists.antt =====
-- Lists measured by native numbers, under the library's names, and tests on all elements.
use Prim.Native.Nat.{ℕ, zero, suc, ◌+◌, ◌-◌, ◌≤◌}
use mathlib.Core.Path.{◌≡◌, refl}
use mathlib.Core.Bool.{Bool, true, ◌&&◌}
use mathlib.Core.List.{List, [], ◌∷◌, ◌++◌}
use native.Mathlib.Omega.{arith}
use walkie_talk_server.Base.Tests.{if◌then◌else◌}

module _ {ℓ} {A : Type ℓ} where
  abbrev pub drop : ℕ → List A → List A
  drop zero rest = rest
  drop (suc n) [] = []
  drop (suc n) (_ ∷ rest) = drop n rest

  abbrev pub length : List A → ℕ
  length [] = 0
  length (_ ∷ rest) = suc (length rest)

  pub length-append : (xs ys : List A) → length (xs ++ ys) ≡ length xs + length ys
  length-append [] ys = omega arith
  length-append (x ∷ xs) ys = omega (arith, length-append xs ys)

  abbrev pub take : ℕ → List A → List A
  take (suc n) (x ∷ rest) = x ∷ take n rest
  take (suc n) [] = []
  take zero rest = []

  pub length-take-le : (n : ℕ) (xs : List A) → length (take n xs) ≤ n
  length-take-le (suc n) (x ∷ rest) = omega (arith, length-take-le n rest)
  length-take-le (suc n) [] = omega arith
  length-take-le zero rest = omega arith

  pub take_of_length-le : (n : ℕ) (xs : List A) → length xs ≤ n → take n xs ≡ xs
  take_of_length-le (suc n) (x ∷ rest) few = ground (arith, take_of_length-le n rest)
  take_of_length-le (suc n) [] few = refl
  take_of_length-le zero [] few = refl
  take_of_length-le zero (x ∷ rest) few = absurd (omega arith)

  pub length-drop : (n : ℕ) (xs : List A) → length (drop n xs) ≡ length xs - n
  length-drop zero xs = omega arith
  length-drop (suc n) [] = omega arith
  length-drop (suc n) (x ∷ xs) = omega (arith, length-drop n xs)

-- `keep p xs`: the elements that pass a Boolean test, in order.
module _ {ℓ} {A : Type ℓ} (p : A → Bool) where
  abbrev pub keep : List A → List A
  keep [] = []
  keep (x ∷ xs) = if p x then x ∷ keep xs else keep xs

  abbrev pub all : List A → Bool
  all [] = true
  all (x ∷ xs) = p x && all xs

  pub all-keep : (xs : List A) → all (keep xs) ≡ true
  all-keep [] = refl
  all-keep (x ∷ xs) = ground (arith, all-keep xs)

  pub keep_of_all : (xs : List A) → all xs ≡ true → keep xs ≡ xs
  keep_of_all [] h = refl
  keep_of_all (x ∷ xs) h = ground (arith, keep_of_all xs)

  pub length-keep-le : (xs : List A) → length (keep xs) ≤ length xs
  length-keep-le [] = omega arith
  length-keep-le (x ∷ xs) = ground (arith, length-keep-le xs)

  pub all-take : (n : ℕ) (xs : List A) → all xs ≡ true → all (take n xs) ≡ true
  all-take zero xs h = refl
  all-take (suc n) [] h = refl
  all-take (suc n) (x ∷ xs) h = ground (arith, all-take n xs)

  pub all-drop : (n : ℕ) (xs : List A) → all xs ≡ true → all (drop n xs) ≡ true
  all-drop zero xs h = h
  all-drop (suc n) [] h = refl
  all-drop (suc n) (x ∷ xs) h = ground (arith, all-drop n xs)

  pub keep-append : (xs ys : List A) → keep (xs ++ ys) ≡ keep xs ++ keep ys
  keep-append [] ys = refl
  keep-append (x ∷ xs) ys = ground (arith, keep-append xs ys)

  pub all-append : (xs ys : List A) → all xs ≡ true → all ys ≡ true → all (xs ++ ys) ≡ true
  all-append [] ys h k = k
  all-append (x ∷ xs) ys h k = ground (arith, all-append xs ys)
