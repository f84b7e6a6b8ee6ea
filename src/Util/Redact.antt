-- ===== src/Util/Redact.antt =====
-- RedactURL of internal/util/sanitize.go.
use walkie_talk_server.Util.Runes.{between, has_prefix}
use walkie_talk_server.Util.Pieces.{take_while, drop_while}
use mathlib.Core.List.{append_assoc}
use walkie_talk_server.Base.{
  ℕ, ◌≡◌, refl, ap, ◌∙◌, Bool, true, false, not, ◌||◌, [], ◌∷◌, ◌++◌, Text, lit, ◌==◌,
  if◌then◌else◌, is_empty, all, drop, arith,
}

unfoldable pub is_ascii_letter : ℕ → Bool
is_ascii_letter c = between b'a' b'z' c || between b'A' b'Z' c

unfoldable pub is_scheme_char : ℕ → Bool
unfolding is_ascii_letter
is_scheme_char c = is_ascii_letter c || between b'0' b'9' c || c == b'+' || c == b'.' || c == b'-'

-- The complements of `[^:/@]` and `[^@]`.
unfoldable pub is_user_char : ℕ → Bool
is_user_char c = not (c == b':' || c == b'/' || c == b'@')

unfoldable pub is_password_char : ℕ → Bool
is_password_char c = not (c == b'@')

-- A scheme, `://`, a user and a colon, with which the expression starts; each part ends where its
-- characters do, since the next one is none of them.
unfoldable pub starts_with_letter : Text → Bool
starts_with_letter [] = false
starts_with_letter (c ∷ s) = is_ascii_letter c

-- The password and the `@` after it give way to asterisks and `@`; what comes before stays.
unfoldable pub hide_password : Text → Text → Text
unfolding is_password_char
hide_password before s =
    let rest = drop_while is_password_char s in
    if is_empty (take_while is_password_char s) || is_empty rest
    then before ++ s
    else before ++ (lit "***" ++ rest)

unfoldable pub redact_url : Text → Text
unfolding is_scheme_char is_user_char starts_with_letter hide_password
redact_url url =
    let scheme = take_while is_scheme_char url in
    let s = drop_while is_scheme_char url in
    let t = drop 3 s in
    let user = take_while is_user_char t in
    let u = drop_while is_user_char t in
    if not (starts_with_letter url)
      || not (has_prefix (lit "://") s)
      || is_empty user
      || not (has_prefix (lit ":") u)
    then url
    else hide_password (scheme ++ (lit "://" ++ (user ++ lit ":"))) (drop 1 u)

runs :
    (p : ℕ → Bool) (xs : Text) (c : ℕ) (ys : Text)
    → all p xs ≡ true
    → p c ≡ false
    → (take_while p (xs ++ c ∷ ys) ≡ xs) × (drop_while p (xs ++ c ∷ ys) ≡ c ∷ ys)
unfolding take_while drop_while
runs p [] c ys h k = ground arith
runs p (x ∷ xs) c ys h k = let (a, b) = runs p xs c ys (ground arith) k in ground arith

hidden :
    (before password rest : Text)
    → all is_password_char password ≡ true
    → is_empty password ≡ false
    → hide_password before (password ++ b'@' ∷ rest) ≡ before ++ (lit "***@" ++ rest)
unfolding hide_password
hidden before password rest h k =
    let (a, b) = runs is_password_char password b'@' rest h refl in ground arith

starts-append : (s t : Text) → starts_with_letter s ≡ true → starts_with_letter (s ++ t) ≡ true
unfolding starts_with_letter
starts-append [] t h = ground arith
starts-append (c ∷ s) t h = h

-- Of an address with a user and a password, the password is shown as three asterisks, whatever it
-- is, and all else stays. A scheme starts with a letter, the user has no colon, slash or @, and the
-- password, which is not empty, has no @.
pub redact_url-hides :
    (scheme user password rest : Text)
    → starts_with_letter scheme ≡ true
    → all is_scheme_char scheme ≡ true
    → all is_user_char user ≡ true
    → is_empty user ≡ false
    → all is_password_char password ≡ true
    → is_empty password ≡ false
    → redact_url (scheme ++ (lit "://" ++ (user ++ (lit ":" ++ (password ++ (lit "@" ++ rest))))))
      ≡ scheme ++ (lit "://" ++ (user ++ (lit ":***@" ++ rest)))
unfolding redact_url has_prefix is_scheme_char is_user_char
redact_url-hides scheme user password rest l s u i p j =
    let tail = password ++ (lit "@" ++ rest) in
    let (a, b) = runs is_scheme_char scheme b':' (lit "//" ++ (user ++ (lit ":" ++ tail))) s refl in
    let (c, d) = runs is_user_char user b':' tail u refl in
    rw
      (redact_url, a, b, c, d, starts-append scheme (lit "://" ++ (user ++ (lit ":" ++ tail))) l, i)
      (hidden (scheme ++ (lit "://" ++ (user ++ lit ":"))) password rest p j
        ∙ append_assoc scheme (lit "://" ++ (user ++ lit ":")) (lit "***@" ++ rest)
        ∙ ap (λ x. scheme ++ (lit "://" ++ x)) (append_assoc user (lit ":") (lit "***@" ++ rest)))
