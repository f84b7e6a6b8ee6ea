-- ===== src/Util/Pieces.antt =====
-- Strings taken apart and put together, as the packages strings and regexp do for the rest of the
-- program: Contains, Split, Join, ReplaceAll, and runs of code points that pass a test.
use walkie_talk_server.Util.Runes.{has_prefix}
use walkie_talk_server.Base.{
  ℕ, zero, suc, ◌-◌, ◌≡◌, refl, Bool, true, not, ◌||◌, List, [], ◌∷◌, ◌++◌, Text, arith, ◌==◌,
  if◌then◌else◌, is_empty, length, all, all-append, Bool-cases, inl, inr,
}

-- strings.Contains
unfoldable pub contains : Text → Text → Bool
contains [] part = is_empty part
contains (c ∷ s) part = has_prefix part (c ∷ s) || contains s part

unfoldable pub to_first : ℕ → List Text → List Text
to_first c [] = (c ∷ []) ∷ []
to_first c (p ∷ ps) = (c ∷ p) ∷ ps

-- strings.Split(s, d) for one code point
unfoldable pub split : ℕ → Text → List Text
unfolding to_first
split d [] = [] ∷ []
split d (c ∷ s) = let rest = split d s in if c == d then [] ∷ rest else to_first c rest

-- strings.Join
unfoldable pub join : Text → List Text → Text
join sep [] = []
join sep (p ∷ []) = p
join sep (p ∷ q ∷ ps) = p ++ (sep ++ join sep (q ∷ ps))

-- strings.ReplaceAll(s, old, new) where `old` is not empty; the first argument counts the code points
-- of a match that are still to be passed over.
unfoldable pub replace_from : ℕ → Text → Text → Text → Text
replace_from k old new [] = []
replace_from (suc k) old new (c ∷ s) = replace_from k old new s
replace_from zero old new (c ∷ s) =
    let matched = new ++ replace_from (length old - 1) old new s in
    let kept = c ∷ replace_from zero old new s in if has_prefix old (c ∷ s) then matched else kept

unfoldable pub replace_all : Text → Text → Text → Text
unfolding replace_from
replace_all old new s = replace_from 0 old new s

-- The longest start of a text that passes, and what follows it.
unfoldable pub take_while : (ℕ → Bool) → Text → Text
take_while p [] = []
take_while p (c ∷ s) = if p c then c ∷ take_while p s else []

unfoldable pub drop_while : (ℕ → Bool) → Text → Text
drop_while p [] = []
drop_while p (c ∷ s) = if p c then drop_while p s else c ∷ s

-- A list of texts in which every code point passes.
abbrev pub all_all : (ℕ → Bool) → List Text → Bool
all_all p ts = all (λ t. all p t) ts

module _ (p : ℕ → Bool) where
  pub all-take_while : (q : ℕ → Bool) (s : Text) → all p s ≡ true → all p (take_while q s) ≡ true
  unfolding take_while
  all-take_while q [] h = refl
  all-take_while q (c ∷ s) h = ground (arith, all-take_while q s)

  pub all-drop_while : (q : ℕ → Bool) (s : Text) → all p s ≡ true → all p (drop_while q s) ≡ true
  unfolding drop_while
  all-drop_while q [] h = refl
  all-drop_while q (c ∷ s) h = ground (arith, all-drop_while q s)

  all-to_first :
      (c : ℕ) (ps : List Text) → p c ≡ true → all_all p ps ≡ true → all_all p (to_first c ps) ≡ true
  unfolding to_first
  all-to_first c [] h k = ground arith
  all-to_first c (t ∷ ts) h k = ground arith

  pub all-split : (d : ℕ) (s : Text) → all p s ≡ true → all_all p (split d s) ≡ true
  unfolding split
  all-split d [] h = refl
  all-split d (c ∷ s) h = ground (arith, all-split d s, all-to_first c (split d s))

-- No piece of a split holds the separator.
abbrev pub lacks : ℕ → Text → Bool
lacks d s = all (λ c. not (c == d)) s

pub split-lacks : (d : ℕ) (s : Text) → all (lacks d) (split d s) ≡ true
unfolding split
split-lacks d [] = refl
split-lacks d (c ∷ s) = elim (Bool-cases (c == d)) [
  | inl e ↦ rw e (split-lacks d s)
  | inr e ↦ rw e (all-to_first (λ x. not (x == d)) c (split d s) (rw e refl) (split-lacks d s))
]

-- A replaced code point is gone, if what comes in its place does not hold it.
pub lacks-replace_all :
    (c : ℕ) (new s : Text) → lacks c new ≡ true → lacks c (replace_all (c ∷ []) new s) ≡ true
unfolding replace_all has_prefix
lacks-replace_all c new [] h = refl
lacks-replace_all c new (d ∷ s) h =
    let ih = lacks-replace_all c new s h in
    ground (arith, ih, all-append (λ x. not (x == c)) new (replace_from 0 (c ∷ []) new s))

-- Splitting at a separator gives back lines that lack it, each put before a separator.
pub split-line :
    (d : ℕ) (t rest : Text) → lacks d t ≡ true → split d (t ++ d ∷ rest) ≡ t ∷ split d rest
unfolding split
split-line d [] rest h = ground arith
split-line d (c ∷ t) rest h = ground (arith, split-line d t rest)
