-- ===== src/Screen/Fine.antt =====
-- The lines that cleanSDP of internal/realtime/screen.go keeps, and what reading them again gives.
use mathlib.Core.List.{append_assoc}
use walkie_talk_server.Util.Sanitize.{is_control}
use walkie_talk_server.Util.Bounds.{all-trim_space}
use walkie_talk_server.Util.Pieces.{
  split, join, take_while, drop_while, all_all, lacks, all-take_while, all-drop_while,
}
use walkie_talk_server.Screen.Sdp.{
  is_re_space, is_re_digit, ssrc_line, ssrc_msid, bare_line, normal_line, is_sdp_line, sdp_lines,
  from_version, crlf,
}
use walkie_talk_server.Base.{
  ℕ, ◌≡◌, ◌⊎◌, refl, ap, Bool, true, not, ◌&&◌, List, [], ◌∷◌, ◌++◌, map, Text, lit, ◌==◌, text_dec,
  keep, drop, all, all-append, all-drop, arith, inl, inr,
}

-- A code point that may stand in a line: no control character and no line end.
abbrev pub is_fine : ℕ → Bool
is_fine c = not (is_control c) && (not (c == 10) && not (c == 13))

ssrc_line-fine :
    (d i t : Text)
    → all is_fine d ≡ true
    → all is_fine i ≡ true
    → all is_fine t ≡ true
    → all is_fine (ssrc_line d i t) ≡ true
unfolding ssrc_line is_control
ssrc_line-fine d i t h k m =
    let tail = all-append is_fine i (32 ∷ t) k m in
    all-append is_fine d (lit " msid:" ++ (i ++ (lit " " ++ t))) h tail

normal_line-fine : (l : Text) → all is_fine l ≡ true → all is_fine (normal_line l) ≡ true
unfolding normal_line ssrc_msid
normal_line-fine l h =
    let word : ℕ → Bool = λ c. not (is_re_space c) in
    let body = drop 7 l in
    let h1 = all-drop is_fine 7 l h in
    let gap = drop_while is_re_digit body in
    let h2 = all-drop_while is_fine is_re_digit body h1 in
    let tag = drop_while is_re_space gap in
    let h3 = all-drop_while is_fine is_re_space gap h2 in
    let stream = drop_while is_re_space (drop 5 tag) in
    let h4 = all-drop_while is_fine is_re_space (drop 5 tag) (all-drop is_fine 5 tag h3) in
    let behind = drop_while word stream in
    let h5 = all-drop_while is_fine word stream h4 in
    let last = drop_while is_re_space behind in
    let h6 = all-drop_while is_fine is_re_space behind h5 in
    ground (
      arith,
      ssrc_line-fine (take_while is_re_digit body) (take_while word stream) (take_while word last)
          (all-take_while is_fine is_re_digit body h1) (all-take_while is_fine word stream h4)
          (all-take_while is_fine word last h6),
    )

keep-fine :
    (l : Text)
    → lacks 10 l ≡ true
    → lacks 13 l ≡ true
    → all is_fine (keep (λ c. not (is_control c)) l) ≡ true
keep-fine [] h k = refl
keep-fine (c ∷ l) h k = ground (arith, keep-fine l)

bare_line-fine :
    (l : Text) → lacks 10 l ≡ true → lacks 13 l ≡ true → all is_fine (bare_line l) ≡ true
unfolding bare_line
bare_line-fine l h k = all-trim_space is_fine (keep (λ c. not (is_control c)) l) (keep-fine l h k)

pub sdp_lines-fine :
    (ls : List Text)
    → all (lacks 10) ls ≡ true
    → all (lacks 13) ls ≡ true
    → all_all is_fine (sdp_lines ls) ≡ true
unfolding sdp_lines
sdp_lines-fine [] h k = refl
sdp_lines-fine (l ∷ ls) h k =
    ground (arith, sdp_lines-fine ls, normal_line-fine (bare_line l), bare_line-fine l)

pub sdp_lines-are_lines : (ls : List Text) → all is_sdp_line (sdp_lines ls) ≡ true
unfolding sdp_lines
sdp_lines-are_lines [] = refl
sdp_lines-are_lines (l ∷ ls) = ground (arith, sdp_lines-are_lines ls)

pub from_version-all :
    (p : Text → Bool) (ls : List Text) → all p ls ≡ true → all p (from_version ls) ≡ true
unfolding from_version
from_version-all p [] h = refl
from_version-all p (l ∷ ls) h = ground (arith, from_version-all p ls)

pub from_version-first :
    (ls : List Text)
    → (from_version ls ≡ []) ⊎ ((rest : List Text) × (from_version ls ≡ lit "v=0" ∷ rest))
unfolding from_version
from_version-first [] = inl refl
from_version-first (l ∷ ls) = elim (text_dec l (lit "v=0")) [
  | yes e ↦ inr (ls, ground arith)
  | no e ↦ elim (from_version-first ls) [
    | inl k ↦ inl (ground arith)
    | inr (rest, k) ↦ inr (rest, ground arith)
  ]
]

split-crlf_line :
    (l rest : Text)
    → lacks 10 l ≡ true
    → split 10 (l ++ 13 ∷ 10 ∷ rest) ≡ (l ++ 13 ∷ []) ∷ split 10 rest
unfolding split
split-crlf_line [] rest h = refl
split-crlf_line (c ∷ l) rest h = ground (arith, split-crlf_line l rest)

-- Reading lines that were joined and ended by CR LF, at each LF, gives each with its CR.
pub split-crlf :
    (l : Text) (ls : List Text)
    → all (lacks 10) (l ∷ ls) ≡ true
    → split 10 (join crlf (l ∷ ls) ++ crlf) ≡ map (λ t. t ++ 13 ∷ []) (l ∷ ls) ++ [] ∷ []
unfolding join
split-crlf l [] h = rw (split-crlf_line l [] (ground arith)) (unfold split in refl)
split-crlf l (q ∷ ls) h =
    rw (append_assoc, split-crlf_line l (join crlf (q ∷ ls) ++ crlf) (ground arith))
      (ap (◌∷◌ (l ++ 13 ∷ [])) (split-crlf q ls (ground arith)))

fine-lacks : (t : Text) → all is_fine t ≡ true → lacks 10 t ≡ true
fine-lacks [] h = refl
fine-lacks (c ∷ t) h = ground (arith, fine-lacks t)

pub all_fine-lacks : (ts : List Text) → all_all is_fine ts ≡ true → all (lacks 10) ts ≡ true
all_fine-lacks [] h = refl
all_fine-lacks (t ∷ ts) h = ground (arith, all_fine-lacks ts, fine-lacks t)
