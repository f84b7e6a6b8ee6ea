-- ===== src/Screen/Lines.antt =====
-- What cleanSDP of internal/realtime/screen.go lets through.
use walkie_talk_server.Util.Runes.{trim_space}
use walkie_talk_server.Util.Pieces.{
  split, replace_all, all_all, lacks, all-split, split-lacks, lacks-replace_all,
}
use walkie_talk_server.Screen.Sdp.{
  is_sdp_line, sdp_lines, line_feeds, kept_lines, clean_sdp_text, clean_sdp, clean_sdp_at,
}
use walkie_talk_server.Screen.Clean.{first_sdp, sdp_from_data}
use walkie_talk_server.Json.{
  Runtime, Value, string, number, boolean, object, array, null, Fields, no_fields, field,
  any_string, get,
}
use walkie_talk_server.Base.{
  ◌≡◌, ◌⊎◌, refl, true, not, List, [], ◌∷◌, ◌++◌, map, Text, lit, ◌==◌, if◌then◌else◌, text_dec,
  is_empty, all, arith, Bool-cases, inl, inr, if_pos, if_neg,
}
use walkie_talk_server.Screen.Fine.{
  is_fine, sdp_lines-fine, sdp_lines-are_lines, from_version-all, from_version-first, split-crlf,
  all_fine-lacks,
}

-- A text that reads, at each LF, as lines that end with CR: first "v=0", then any number of lines
-- that are a letter of SDP and an equals sign with what follows, without control characters of ASCII but TAB.
abbrev pub IsDescription : Text → Type 0
IsDescription t =
    (ls : List Text) × (split 10 t ≡ map (λ l. l ++ 13 ∷ []) (lit "v=0" ∷ ls) ++ [] ∷ [])
    × (all is_sdp_line ls ≡ true)
    × (all_all is_fine ls ≡ true)

line_feeds-lacks : (s : Text) → lacks 13 (line_feeds s) ≡ true
unfolding line_feeds
line_feeds-lacks s =
    lacks-replace_all 13 (10 ∷ [])
      (replace_all (13 ∷ 10 ∷ []) (10 ∷ []) (
        replace_all (92 ∷ b'r' ∷ []) (10 ∷ []) (
          replace_all (92 ∷ b'n' ∷ []) (10 ∷ [])
            (replace_all (92 ∷ b'r' ∷ 92 ∷ b'n' ∷ []) (10 ∷ []) s))))
      refl

kept_lines-fine :
    (raw : Text)
    → (all is_sdp_line (kept_lines raw) ≡ true) × (all_all is_fine (kept_lines raw) ≡ true)
unfolding kept_lines
kept_lines-fine raw =
    let s = line_feeds raw in
    let ls = split 10 s in
    (
      from_version-all is_sdp_line (sdp_lines ls) (sdp_lines-are_lines ls),
      from_version-all (λ t. all is_fine t) (sdp_lines ls)
          (sdp_lines-fine ls (split-lacks 10 s)
            (all-split (λ c. not (c == 13)) 10 s (line_feeds-lacks raw))),
    )

kept_lines-first :
    (raw : Text)
    → (kept_lines raw ≡ []) ⊎ ((rest : List Text) × (kept_lines raw ≡ lit "v=0" ∷ rest))
unfolding kept_lines
kept_lines-first raw = from_version-first (sdp_lines (split 10 (line_feeds raw)))

clean_sdp_text-IsDescription :
    (s : Text) → (clean_sdp_text s ≡ []) ⊎ IsDescription (clean_sdp_text s)
unfolding clean_sdp_text
clean_sdp_text-IsDescription s = elim (kept_lines-first (trim_space s)) [
  | inl e ↦ inl (ground arith)
  | inr (ls, e) ↦ elim (Bool-cases (is_empty (trim_space s))) [
    | inl k ↦ inl (ground arith)
    | inr k ↦
        let f = kept_lines-fine (trim_space s) in
        let fine : all_all is_fine (lit "v=0" ∷ ls) ≡ true = rw e at f.1 in
        let lines : all is_sdp_line (lit "v=0" ∷ ls) ≡ true = rw e at f.0 in
        inr (
          ls,
          rw (k, e) (split-crlf (lit "v=0") ls (all_fine-lacks (lit "v=0" ∷ ls) fine)),
          ground arith,
          ground arith,
        )
  ]
]

-- Empty, or a description.
abbrev pub IsClean : Text → Type 0
IsClean t = (t ≡ []) ⊎ IsDescription t

IsClean-first : (a b : Text) → IsClean a → IsClean b → IsClean (if is_empty a then b else a)
IsClean-first [] b h k = k
IsClean-first (c ∷ a) b h k = h

module _ (g : Runtime) where
  mutual
    unfolding clean_sdp

    clean_sdp-IsClean : (v : Value) → IsClean (clean_sdp g v)
    clean_sdp-IsClean (object fs) =
        IsClean-first (clean_sdp_at g (lit "sdp") fs) (clean_sdp_at g (lit "value") fs)
          (clean_sdp_at-IsClean (lit "sdp") fs) (clean_sdp_at-IsClean (lit "value") fs)
    clean_sdp-IsClean (string s) = clean_sdp_text-IsDescription s
    clean_sdp-IsClean (number n) = clean_sdp_text-IsDescription (any_string g (number n))
    clean_sdp-IsClean (boolean b) = clean_sdp_text-IsDescription (any_string g (boolean b))
    clean_sdp-IsClean (array xs) = clean_sdp_text-IsDescription (any_string g (array xs))
    clean_sdp-IsClean null = inl refl

    clean_sdp_at-IsClean : (k : Text) (fs : Fields) → IsClean (clean_sdp_at g k fs)
    clean_sdp_at-IsClean k no_fields = inl refl
    clean_sdp_at-IsClean k (field j v fs) = elim (text_dec j k) [
      | yes e ↦ rw (if_pos _ e) (clean_sdp-IsClean v)
      | no e ↦ rw (if_neg _ e) (clean_sdp_at-IsClean k fs)
    ]

  first_sdp-IsClean : (fs : Fields) (ks : List Text) → IsClean (first_sdp g fs ks)
  unfolding first_sdp
  first_sdp-IsClean fs [] = inl refl
  first_sdp-IsClean fs (k ∷ ks) =
      IsClean-first (clean_sdp g (get k fs)) (first_sdp g fs ks) (clean_sdp-IsClean (get k fs))
        (first_sdp-IsClean fs ks)

  -- What an offer or an answer carries is empty, in which case it is not sent, or reads at each LF as
  -- lines that end with CR: "v=0", then lines of a letter of SDP, an equals sign and what follows,
  -- without line ends and the control characters of ASCII but TAB.
  pub sdp_from_data-IsClean : (fs : Fields) → IsClean (sdp_from_data g fs)
  unfolding sdp_from_data
  sdp_from_data-IsClean fs =
      first_sdp-IsClean fs
        (lit "sdp" ∷ lit "description" ∷ lit "desc" ∷ lit "offer" ∷ lit "answer" ∷ [])
