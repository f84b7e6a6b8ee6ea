-- ===== src/Base/KeySet.antt =====
-- Go maps from string to bool, used as sets, as lists of keys without repetition.
use mathlib.Core.Path.{◌≡◌, refl}
use mathlib.Core.Logic.{ite}
use mathlib.Core.Bool.{Bool, true, false, not, ◌&&◌, ◌||◌}
use mathlib.Core.List.{List, [], ◌∷◌, ◌++◌}
use Prim.Native.Nat.{◌+◌, ◌≤◌, ◌<◌}
use native.Mathlib.Omega.{arith}
use walkie_talk_server.Base.Tests.{if◌then◌else◌}
use walkie_talk_server.Base.Lists.{length, length-append}
use walkie_talk_server.Base.Strings.{Text, text_dec}

abbrev pub same : Text → Text → Bool
same a b = ite (text_dec a b) true false

unfoldable pub has : Text → List Text → Bool
has k [] = false
has k (x ∷ xs) = same x k || has k xs

-- `m[k] = true`
unfoldable pub add : Text → List Text → List Text
add k xs = if has k xs then xs else xs ++ k ∷ []

-- `delete(m, k)`
unfoldable pub del : Text → List Text → List Text
del k [] = []
del k (x ∷ xs) = ite (text_dec x k) (del k xs) (x ∷ del k xs)

abbrev pub Distinct : List Text → Type 0
Distinct [] = Unit {0}
Distinct (x ∷ xs) = (has x xs ≡ false) × Distinct xs

abbrev pub is_nil {ℓ} : {A : Type ℓ} → List A → Bool
is_nil [] = true
is_nil (x ∷ xs) = false

pub has-append : (j : Text) (xs ys : List Text) → has j (xs ++ ys) ≡ (has j xs || has j ys)
unfolding has
has-append j [] ys = refl
has-append j (x ∷ xs) ys = ground (arith, has-append j xs ys)

pub has-add : (k j : Text) (xs : List Text) → has j (add k xs) ≡ (same k j || has j xs)
unfolding add has
has-add k j xs = ground (arith, has-append j xs (k ∷ []))

pub has-del : (k j : Text) (xs : List Text) → has j (del k xs) ≡ (not (same k j) && has j xs)
unfolding has del
has-del k j [] = ground arith
has-del k j (x ∷ xs) = ground (arith, has-del k j xs)

pub length-add-le : (k : Text) (xs : List Text) → length (add k xs) ≤ length xs + 1
unfolding add
length-add-le k xs = ground (arith, length-append xs (k ∷ []))

pub length-del-le : (k : Text) (xs : List Text) → length (del k xs) ≤ length xs
unfolding del
length-del-le k [] = omega arith
length-del-le k (x ∷ xs) = ground (arith, length-del-le k xs)

pub length-del-lt : (k : Text) (xs : List Text) → has k xs ≡ true → length (del k xs) < length xs
unfolding del has
length-del-lt k [] h = absurd (ground arith)
length-del-lt k (x ∷ xs) h = ground (arith, length-del-lt k xs, length-del-le k xs)

Distinct-snoc :
    (k : Text) (xs : List Text) → has k xs ≡ false → Distinct xs → Distinct (xs ++ k ∷ [])
unfolding has
Distinct-snoc k [] h d = (refl, tt)
Distinct-snoc k (x ∷ xs) h d = ground (arith, has-append x xs (k ∷ []), Distinct-snoc k xs)

pub add-Distinct : (k : Text) (xs : List Text) → Distinct xs → Distinct (add k xs)
unfolding add
add-Distinct k xs d = ground (arith, Distinct-snoc k xs)

pub del-Distinct : (k : Text) (xs : List Text) → Distinct xs → Distinct (del k xs)
unfolding del
del-Distinct k [] d = tt
del-Distinct k (x ∷ xs) d = ground (arith, has-del k x xs, del-Distinct k xs)

pub has_of_is_nil : (k : Text) (xs : List Text) → is_nil xs ≡ true → has k xs ≡ false
unfolding has
has_of_is_nil k [] h = refl
has_of_is_nil k (x ∷ xs) h = absurd (ground arith)

pub is_nil-add : (k : Text) (xs : List Text) → is_nil (add k xs) ≡ false
unfolding add has
is_nil-add k [] = refl
is_nil-add k (x ∷ xs) = ground arith
