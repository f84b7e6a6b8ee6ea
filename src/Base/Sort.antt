-- ===== src/Base/Sort.antt =====
-- sort.Slice and sort.Strings by a Boolean order: insertion sort, and the order of texts.
use mathlib.Core.Path.{◌≡◌, refl}
use mathlib.Core.Bool.{Bool, true, false, ◌&&◌, ◌||◌}
use mathlib.Core.List.{List, [], ◌∷◌, Perm}
use mathlib.Core.List.Perm
use mathlib.Core.Logic.{inl, inr}
use walkie_talk_server.Base.Tests.{if◌then◌else◌, ltb, ◌==◌, Bool-cases}
use walkie_talk_server.Base.Lists.{all}
use walkie_talk_server.Base.Strings.{Text}
use native.Mathlib.Omega.{arith}

-- `a < b` of Go strings; the order of UTF-8 bytes is that of the code points.
unfoldable pub text_lt : Text → Text → Bool
text_lt s [] = false
text_lt [] (d ∷ t) = true
text_lt (c ∷ s) (d ∷ t) = ltb c d || (c == d && text_lt s t)

module _ {ℓ} {A : Type ℓ} (less : A → A → Bool) where
  unfoldable pub insert_sorted : A → List A → List A
  insert_sorted a [] = a ∷ []
  insert_sorted a (x ∷ xs) = if less x a then x ∷ insert_sorted a xs else a ∷ x ∷ xs

  unfoldable pub sort : List A → List A
  unfolding insert_sorted
  sort [] = []
  sort (x ∷ xs) = insert_sorted x (sort xs)

  -- No element stands after one that it is less than.
  abbrev pub Sorted : List A → Type 0
  Sorted [] = Unit {0}
  Sorted (x ∷ []) = Unit {0}
  Sorted (x ∷ y ∷ xs) = (less y x ≡ false) × Sorted (y ∷ xs)

  pub insert_sorted-perm : (a : A) (xs : List A) → Perm (insert_sorted a xs) (a ∷ xs)
  unfolding insert_sorted
  insert_sorted-perm a [] = Perm.refl (a ∷ [])
  insert_sorted-perm a (x ∷ xs) = elim (Bool-cases (less x a)) [
    | inl e ↦ rw e (Perm.trans (Perm.cons x (insert_sorted-perm a xs)) (Perm.swap a x xs))
    | inr e ↦ rw e (Perm.refl (a ∷ x ∷ xs))
  ]

  pub sort-perm : (xs : List A) → Perm (sort xs) xs
  unfolding sort
  sort-perm [] = Perm.nil
  sort-perm (x ∷ xs) = Perm.trans (insert_sorted-perm x (sort xs)) (Perm.cons x (sort-perm xs))

  -- Where the order is asymmetric, sorting gives a sorted list.
  module _ (asym : (a b : A) → less a b ≡ true → less b a ≡ false) where
    insert_sorted-Sorted : (a : A) (xs : List A) → Sorted xs → Sorted (insert_sorted a xs)
    unfolding insert_sorted
    insert_sorted-Sorted a [] h = tt
    insert_sorted-Sorted a (x ∷ []) h = elim (Bool-cases (less x a)) [
      | inl e ↦ rw e (asym x a e, tt)
      | inr e ↦ rw e (e, tt)
    ]
    insert_sorted-Sorted a (x ∷ y ∷ xs) h = elim (Bool-cases (less x a)) [
      | inl e ↦ elim (Bool-cases (less y a)) [
        | inl k ↦ let rest = insert_sorted-Sorted a (y ∷ xs) h.1 in rw (e, k) (h.0, rw k at rest)
        | inr k ↦ rw (e, k) (asym x a e, (k, h.1))
      ]
      | inr e ↦ rw e (e, h)
    ]

    pub sort-Sorted : (xs : List A) → Sorted (sort xs)
    unfolding sort
    sort-Sorted [] = tt
    sort-Sorted (x ∷ xs) = insert_sorted-Sorted x (sort xs) (sort-Sorted xs)

  -- What holds of all elements holds of all after sorting.
  module _ (p : A → Bool) where
    all-insert_sorted : (a : A) (xs : List A) → all p (insert_sorted a xs) ≡ (p a && all p xs)
    unfolding insert_sorted
    all-insert_sorted a [] = refl
    all-insert_sorted a (x ∷ xs) = ground (arith, all-insert_sorted a xs)

    pub all-sort : (xs : List A) → all p (sort xs) ≡ all p xs
    unfolding sort
    all-sort [] = refl
    all-sort (x ∷ xs) = ground (arith, all-insert_sorted x (sort xs), all-sort xs)

pub text_lt_asymm : (s t : Text) → text_lt s t ≡ true → text_lt t s ≡ false
unfolding text_lt
text_lt_asymm [] [] h = refl
text_lt_asymm [] (d ∷ t) h = refl
text_lt_asymm (c ∷ s) [] h = ground arith
text_lt_asymm (c ∷ s) (d ∷ t) h = ground (arith, text_lt_asymm s t)
