-- ===== src/Util/DataUrl.antt =====
-- StripDataURLBase64 of internal/util/sanitize.go on data URLs and on plain base64 texts.
use walkie_talk_server.Util.Runes.{Unicode, to_lower, trim_space, has_prefix, after_first}
use walkie_talk_server.Util.Sanitize.{strip_data_url}
use walkie_talk_server.Base.{
  ℕ, ◌≡◌, refl, true, false, not, [], ◌∷◌, ◌++◌, map, some, Text, lit, arith, ◌==◌, all,
}

after_first-append :
    (d : ℕ) (s rest : Text)
    → all (λ c. not (c == d)) s ≡ true
    → after_first d (s ++ d ∷ rest) ≡ some rest
unfolding after_first
after_first-append d [] rest h = ground arith
after_first-append d (c ∷ s) rest h = ground (arith, after_first-append d s rest)

has_prefix-append : (p s t : Text) → has_prefix p s ≡ true → has_prefix p (s ++ t) ≡ true
unfolding has_prefix
has_prefix-append [] s t h = refl
has_prefix-append (c ∷ p) [] t h = absurd (ground arith)
has_prefix-append (c ∷ p) (d ∷ s) t h = ground (arith, has_prefix-append p s t)

map-to_lower-append :
    (u : Unicode) (s t : Text)
    → map (to_lower u) (s ++ t) ≡ map (to_lower u) s ++ map (to_lower u) t
map-to_lower-append u [] t = refl
map-to_lower-append u (c ∷ s) t = ground (arith, map-to_lower-append u s t)

-- Of a data URL, a header that starts with `data:` in any letter case and has no comma, the comma,
-- and a payload, what is left is the trimmed payload. The URL has no white space around it.
pub strip_data_url-header :
    (u : Unicode) (header payload : Text)
    → has_prefix (lit "data:") (map (to_lower u) header) ≡ true
    → all (λ c. not (c == b',')) header ≡ true
    → trim_space (header ++ b',' ∷ payload) ≡ header ++ b',' ∷ payload
    → strip_data_url u (header ++ b',' ∷ payload) ≡ trim_space payload
unfolding strip_data_url
strip_data_url-header u header payload d c t =
    rw
      (
        t,
        map-to_lower-append u header (b',' ∷ payload),
        has_prefix-append (lit "data:") (map (to_lower u) header)
            (map (to_lower u) (b',' ∷ payload)) d,
        after_first-append b',' header payload c,
      )
      refl

-- A text that does not start with `data:` is only trimmed.
pub strip_data_url_plain :
    (u : Unicode) (value : Text)
    → has_prefix (lit "data:") (map (to_lower u) (trim_space value)) ≡ false
    → strip_data_url u value ≡ trim_space value
unfolding strip_data_url
strip_data_url_plain u value h = rw h
