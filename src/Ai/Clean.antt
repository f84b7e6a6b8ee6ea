-- ===== src/Ai/Clean.antt =====
-- internal/ai/client.go: cleanAIText, cleanHistory, extractReply and their helpers.
use walkie_talk_server.Base.{
  ℕ, ◌-◌, not, ◌||◌, List, [], ◌∷◌, map, Option, none, some, Text, lit, ltb, leb, if◌then◌else◌,
  is_empty, length, drop,
}
use walkie_talk_server.Base.KeySet.{has}
use walkie_talk_server.Util.Runes.{Unicode, trim_space, to_lower}
use walkie_talk_server.Util.Sanitize.{cut_runes, clean_small_text}
use walkie_talk_server.Json.{
  Value, string, null, object, array, Fields, get, Elements, no_elements, element,
}

-- What the client uses of Go: the tables of unicode, fmt.Sprint of a value that is no text, the
-- decoding of a body into a map (`none` is an error), and the text of the error for a status.
pub record Library : Type 0 where
  pub unicode : Unicode
  pub sprint : Value → Text
  pub decode : Text → Option Fields
  pub http_error : ℕ → Text → Text

unfoldable pub any_string : Library → Value → Text
any_string g (string s) = s
any_string g null = []
any_string g v = g.sprint v

unfoldable pub first_non_empty : List Text → Text
first_non_empty [] = []
first_non_empty (v ∷ vs) = if is_empty (trim_space v) then first_non_empty vs else v

unfoldable pub clean_ai_text : Text → ℕ → Text
unfolding clean_small_text cut_runes
clean_ai_text text limit = cut_runes limit (clean_small_text text limit)

pub record ChatMessage : Type 0 where
  pub role : Text
  pub text : Text

abbrev pub elements_of : Elements → List Value
elements_of no_elements = []
elements_of (element v vs) = v ∷ elements_of vs

-- One turn of the loop of cleanHistory.
unfoldable pub clean_message : Library → Value → Option ChatMessage
unfolding any_string first_non_empty
clean_message g (object m) =
    let role = map (to_lower g.unicode) (any_string g (get (lit "role") m)) in
    let text =
      clean_ai_text
        (first_non_empty
          (any_string g (get (lit "text") m) ∷ any_string g (get (lit "content") m) ∷ []))
        800 in
    if not (has role (lit "user" ∷ lit "assistant" ∷ [])) || is_empty text
    then none
    else some (record { role = role; text = text })
clean_message g v = none

unfoldable pub clean_messages : Library → List Value → List ChatMessage
clean_messages g [] = []
clean_messages g (v ∷ vs) = elim (clean_message g v) [
  | none ↦ clean_messages g vs
  | some m ↦ m ∷ clean_messages g vs
]

-- `most` is not negative: MAX_AI_HISTORY lies between 0 and 40.
unfoldable pub clean_history : Library → Value → ℕ → List ChatMessage
clean_history g (array vs) most =
    let items = elements_of vs in
    if leb most 0
    then []
    else clean_messages g
        (if ltb most (length items) then drop (length items - most) items else items)
clean_history g v most = []

abbrev text_of : Value → Option Text
text_of (string s) = some s
text_of v = none

-- The first of these keys that holds a text that is not blank.
unfoldable pub first_text : List Text → Fields → Option Text
first_text [] m = none
first_text (k ∷ ks) m = elim (get k m) [
  | string s ↦ if is_empty (trim_space s) then first_text ks m else some s
  | v ↦ first_text ks m
]

-- The content of the message of a choice, or its text.
unfoldable pub choice_text : Value → Option Text
choice_text (object first) = elim (get (lit "message") first) [
  | object msg ↦ elim (get (lit "content") msg) [
    | string s ↦ some s
    | v ↦ text_of (get (lit "text") first)
  ]
  | v ↦ text_of (get (lit "text") first)
]
choice_text v = none

unfoldable pub choices_text : Value → Option Text
unfolding choice_text
choices_text (array (element v vs)) = choice_text v
choices_text v = none

abbrev pub reply_keys : List Text
reply_keys =
    lit "text" ∷ lit "reply" ∷ lit "response" ∷ lit "answer" ∷ lit "message" ∷ lit "content" ∷ []

unfoldable pub extract_reply : Library → Text → Text
unfolding first_text choices_text
extract_reply g body = elim (g.decode body) [
  | none ↦ clean_ai_text body 6000
  | some m ↦ elim (first_text reply_keys m) [
    | some s ↦ clean_ai_text s 6000
    | none ↦ elim (choices_text (get (lit "choices") m)) [
      | some s ↦ clean_ai_text s 6000
      | none ↦ []
    ]
  ]
]
