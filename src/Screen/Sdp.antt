-- ===== src/Screen/Sdp.antt =====
-- cleanSDP of internal/realtime/screen.go: a session description, line by line.
use walkie_talk_server.Util.Runes.{between, trim_space, has_prefix}
use walkie_talk_server.Util.Sanitize.{is_control}
use walkie_talk_server.Util.Pieces.{contains, split, join, replace_all, take_while, drop_while}
use walkie_talk_server.Json.{
  Runtime, Value, string, number, boolean, object, array, null, Fields, no_fields, field,
  any_string,
}
use walkie_talk_server.Base.{
  ℕ, Bool, false, not, ◌&&◌, ◌||◌, List, [], ◌∷◌, ◌++◌, Option, none, some, Text, lit, ◌==◌,
  if◌then◌else◌, ite, text_dec, is_empty, keep, drop,
}
use walkie_talk_server.Base.KeySet.{same}

-- `\s` of a regular expression: tab, line feed, form feed, carriage return, space.
unfoldable pub is_re_space : ℕ → Bool
is_re_space c = c == 9 || c == 10 || c == 12 || c == 13 || c == 32

unfoldable pub is_re_digit : ℕ → Bool
is_re_digit c = between b'0' b'9' c

abbrev pub starts_with : (ℕ → Bool) → Text → Bool
starts_with p [] = false
starts_with p (c ∷ s) = p c

-- sdpSSRCMsidRe, `^(a=ssrc:\d+)\s+msid:\s*([^\s]+)\s+([^\s]+).*$`, and the line made of its three
-- groups. Each repetition takes all it can, since what follows it cannot begin with the same.
unfoldable pub ssrc_line : Text → Text → Text → Text
ssrc_line digits id track =
    lit "a=ssrc:" ++ (digits ++ (lit " msid:" ++ (id ++ (lit " " ++ track))))

unfoldable pub ssrc_msid : Text → Option Text
unfolding is_re_space is_re_digit ssrc_line
ssrc_msid line =
    let body = drop 7 line in
    let digits = take_while is_re_digit body in
    let gap = drop_while is_re_digit body in
    let tag = drop_while is_re_space gap in
    let stream = drop_while is_re_space (drop 5 tag) in
    let id = take_while (λ c. not (is_re_space c)) stream in
    let behind = drop_while (λ c. not (is_re_space c)) stream in
    let track = take_while (λ c. not (is_re_space c)) (drop_while is_re_space behind) in
    if has_prefix (lit "a=ssrc:") line
      && (not (is_empty digits)
          && (starts_with is_re_space gap
              && (has_prefix (lit "msid:") tag && (not (is_empty id) && not (is_empty track)))))
    then some (ssrc_line digits id track)
    else none

-- A line without control characters and outer white space.
unfoldable pub bare_line : Text → Text
unfolding trim_space is_control
bare_line line = trim_space (keep (λ c. not (is_control c)) line)

unfoldable pub normal_line : Text → Text
normal_line line =
    if has_prefix (lit "a=ssrc:") line && contains line (lit " msid")
    then elim (ssrc_msid line) [ none ↦ line | some l ↦ l ]
    else line

-- A letter of the allowed ones and an equals sign. A line whose first code point is not ASCII has a
-- first byte that is no letter.
unfoldable pub is_sdp_line : Text → Bool
is_sdp_line [] = false
is_sdp_line (c ∷ []) = false
is_sdp_line (c ∷ d ∷ s) = d == b'=' && not (is_empty (keep (λ x. x == c) (lit "vosiuepcbtrzkam")))

unfoldable pub sdp_lines : List Text → List Text
sdp_lines [] = []
sdp_lines (l ∷ ls) =
    let line = bare_line l in
    if not (is_empty line) && is_sdp_line (normal_line line)
    then normal_line line ∷ sdp_lines ls
    else sdp_lines ls

-- The lines from the first "v=0" on; none if there is no such line.
unfoldable pub from_version : List Text → List Text
from_version [] = []
from_version (l ∷ ls) = if same l (lit "v=0") then l ∷ ls else from_version ls

-- The five calls of ReplaceAll: written-out and real line ends become line feeds.
unfoldable pub line_feeds : Text → Text
unfolding replace_all
line_feeds s =
    let r1 = replace_all (92 ∷ b'r' ∷ 92 ∷ b'n' ∷ []) (10 ∷ []) s in
    let r2 = replace_all (92 ∷ b'n' ∷ []) (10 ∷ []) r1 in
    let r3 = replace_all (92 ∷ b'r' ∷ []) (10 ∷ []) r2 in
    let r4 = replace_all (13 ∷ 10 ∷ []) (10 ∷ []) r3 in replace_all (13 ∷ []) (10 ∷ []) r4

-- The lines that are kept of a text.
unfoldable pub kept_lines : Text → List Text
unfolding from_version
kept_lines raw = from_version (sdp_lines (split 10 (line_feeds raw)))

abbrev pub crlf : Text
crlf = 13 ∷ 10 ∷ []

unfoldable pub clean_sdp_text : Text → Text
unfolding join
clean_sdp_text s =
    let raw = trim_space s in
    if is_empty raw
    then []
    else elim (kept_lines raw) [ [] ↦ [] | l ∷ ls ↦ join crlf (l ∷ ls) ++ crlf ]

-- An object is searched for "sdp" and then for "value"; `clean_sdp_at k fs` is clean_sdp of `fs[k]`.
unfoldable mutual
  pub clean_sdp : Runtime → Value → Text
  clean_sdp g (object fs) =
      let first = clean_sdp_at g (lit "sdp") fs in
      if is_empty first then clean_sdp_at g (lit "value") fs else first
  clean_sdp g (string s) = clean_sdp_text s
  clean_sdp g (number n) = clean_sdp_text (any_string g (number n))
  clean_sdp g (boolean b) = clean_sdp_text (any_string g (boolean b))
  clean_sdp g (array xs) = clean_sdp_text (any_string g (array xs))
  clean_sdp g null = []

  pub clean_sdp_at : Runtime → Text → Fields → Text
  clean_sdp_at g k no_fields = []
  clean_sdp_at g k (field j v fs) =
      let here = clean_sdp g v in let there = clean_sdp_at g k fs in ite (text_dec j k) here there
