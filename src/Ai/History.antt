-- ===== src/Ai/History.antt =====
-- What cleanHistory and cleanAIText of internal/ai/client.go let through.
use mathlib.Core.Option.{some-injective}
use walkie_talk_server.Base.{
  subst, length-drop, ℕ, ◌-◌, ◌≤◌, ◌≡◌, inl, inr, true, false, not, ◌||◌, List, [], ◌∷◌, some, Text,
  lit, ltb, leb, is_empty, length, drop, all, arith, map, Bool-cases, Option-cases,
}
use walkie_talk_server.Base.KeySet.{has}
use walkie_talk_server.Util.Runes.{to_lower}
use walkie_talk_server.Util.Sanitize.{clean_small_text, is_control}
use walkie_talk_server.Util.Bounds.{length-cut_runes, all-cut_runes, clean_small_text_bounds}
use walkie_talk_server.Json.{Value, string, number, boolean, null, object, array, get}
use walkie_talk_server.Ai.Clean.{
  Library, any_string, first_non_empty, clean_ai_text, ChatMessage, elements_of, clean_message,
  clean_messages, clean_history,
}

pub clean_ai_text_bounds :
    (s : Text) (limit : ℕ)
    → (length (clean_ai_text s limit) ≤ limit)
      × (all (λ c. not (is_control c)) (clean_ai_text s limit) ≡ true)
unfolding clean_ai_text
clean_ai_text_bounds s limit = (
  length-cut_runes limit (clean_small_text s limit),
  all-cut_runes (λ c. not (is_control c)) limit (clean_small_text s limit)
      (clean_small_text_bounds s limit).1,
)

-- A message that may be sent to the backend.
pub record IsMessage (m : ChatMessage) : Type 0 where
  pub with_role : has m.role (lit "user" ∷ lit "assistant" ∷ []) ≡ true
  pub with_text : is_empty m.text ≡ false
  pub short : length m.text ≤ 800
  pub plain : all (λ c. not (is_control c)) m.text ≡ true

abbrev pub AllMessages : List ChatMessage → Type 0
AllMessages [] = Unit
AllMessages (m ∷ ms) = IsMessage m × AllMessages ms

clean_message-IsMessage :
    (g : Library) (v : Value) (m : ChatMessage) → clean_message g v ≡ some m → IsMessage m
unfolding clean_message
clean_message-IsMessage g (object fs) m h =
    let role = map (to_lower g.unicode) (any_string g (get (lit "role") fs)) in
    let raw =
      first_non_empty
        (any_string g (get (lit "text") fs) ∷ any_string g (get (lit "content") fs) ∷ []) in
    let found : ChatMessage = record { role = role; text = clean_ai_text raw 800 } in
    let bounds = clean_ai_text_bounds raw 800 in
    elim (Bool-cases (not (has role (lit "user" ∷ lit "assistant" ∷ [])) || is_empty found.text)) [
      | inl e ↦ ground arith
      | inr e ↦ subst IsMessage (some-injective found m (rw e at h)) (record {
        with_role = ground arith;
        with_text = ground arith;
        short = bounds.0;
        plain = bounds.1;
      })
    ]
clean_message-IsMessage g (string s) m h = ground arith
clean_message-IsMessage g (number s) m h = ground arith
clean_message-IsMessage g (boolean s) m h = ground arith
clean_message-IsMessage g (array s) m h = ground arith
clean_message-IsMessage g null m h = ground arith

clean_messages_fine :
    (g : Library) (vs : List Value)
    → AllMessages (clean_messages g vs) × (length (clean_messages g vs) ≤ length vs)
unfolding clean_messages
clean_messages_fine g [] = (tt, omega arith)
clean_messages_fine g (v ∷ vs) =
    let (a, b) = clean_messages_fine g vs in
    elim (Option-cases (clean_message g v)) [
      | inl e ↦ rw (e, AllMessages, clean_messages) (a, omega arith)
      | inr (m, e) ↦
          rw (e, AllMessages, clean_messages) ((clean_message-IsMessage g v m e, a), omega arith)
    ]

-- Of a history at most the limit of messages is kept, each by the user or the assistant, with a text
-- that is not empty, has at most 800 runes and no code point that `is_control` names.
pub clean_history_bounds :
    (g : Library) (v : Value) (most : ℕ)
    → AllMessages (clean_history g v most) × (length (clean_history g v most) ≤ most)
unfolding clean_history
clean_history_bounds g (array vs) most =
    let items = elements_of vs in
    elim (Bool-cases (leb most 0)) [
      | inl e ↦ rw e (tt, omega arith)
      | inr e ↦ elim (Bool-cases (ltb most (length items))) [
        | inl f ↦
            let (a, b) = clean_messages_fine g (drop (length items - most) items) in
            rw (e, f) (a, ground (arith, length-drop (length items - most) items))
        | inr f ↦ let (a, b) = clean_messages_fine g items in rw (e, f) (a, ground arith)
      ]
    ]
clean_history_bounds g (string s) most = (tt, omega arith)
clean_history_bounds g (number s) most = (tt, omega arith)
clean_history_bounds g (boolean s) most = (tt, omega arith)
clean_history_bounds g (object s) most = (tt, omega arith)
clean_history_bounds g null most = (tt, omega arith)
