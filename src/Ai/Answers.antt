-- ===== src/Ai/Answers.antt =====
-- What a chat request comes to, in internal/ai/client.go, and what the session gets, in
-- internal/realtime/events.go.
use mathlib.Core.List.{append-nil}
use walkie_talk_server.Base.{
  subst, ap, ◌∙◌, ℕ, ◌≡◌, refl, inl, inr, true, false, [], ◌∷◌, ◌++◌, Text, lit, is_empty, arith,
  Bool-cases,
}
use walkie_talk_server.Util.Runes.{trim_space, trim_left, trim_right, is_space}
use walkie_talk_server.Config.Load.{Config}
use walkie_talk_server.Json.{Fields, trim}
use walkie_talk_server.Ai.Clean.{Library}
use walkie_talk_server.Ai.Request.{Reply, reply, failure}
use walkie_talk_server.Ai.Chat.{
  ChatRequest, ChatResponse, answered, refused, setup, judge, call_chat, chat_text, chat_request,
  build_chat,
}

-- A text that starts with a character that is no space is not blank.
trim_space_start : (c : ℕ) (s : Text) → is_space c ≡ false → is_empty (trim_space (c ∷ s)) ≡ false
unfolding trim_space trim_left trim_right
trim_space_start c s h = ground arith

setup-not_blank : (s : Text) → is_empty (trim_space (setup ++ s)) ≡ false
unfolding is_space
setup-not_blank s = trim_space_start 65 _ refl

abbrev content : Reply → Text
content (reply s) = s
content (failure e) = e

abbrev IsAnswer : Config → Reply → Text → Type 0
IsAnswer c r s = (is_empty (trim_space s) ≡ false) × (is_empty c.ai_chat_url ≡ false → r ≡ reply s)

from_setup :
    (c : Config) (r : Reply) (x s : Text)
    → is_empty c.ai_chat_url ≡ true
    → reply (setup ++ x) ≡ reply s
    → IsAnswer c r s
from_setup c r x s u h = (
  subst (λ t. is_empty (trim_space t) ≡ false) (ap content h) (setup-not_blank x),
  λ v. ground arith,
)

no_reply : (e s : Text) → failure e ≡ reply s → ⊥
no_reply e s h = ground arith

judge-IsAnswer : (c : Config) (r : Reply) (s : Text) → judge c r ≡ reply s → IsAnswer c r s
unfolding judge
judge-IsAnswer c (reply t) s h = elim (Bool-cases (is_empty (trim_space t))) [
  | inr e ↦
      let p = rw e at h in (subst (λ x. is_empty (trim_space x) ≡ false) (ap content p) e, λ u. p)
  | inl e ↦ elim (Bool-cases (is_empty c.ai_chat_url)) [
    | inl u ↦
        from_setup c (reply t) (lit " Last error: " ++ trim (lit "AI backend returned no text") 180)
          s u (rw (e, u) at h)
    | inr u ↦ absurd (no_reply (lit "AI backend returned no text") s (rw (e, u) at h))
  ]
]
judge-IsAnswer c (failure e) s h = elim (Bool-cases (is_empty c.ai_chat_url)) [
  | inr u ↦ absurd (no_reply e s (rw u at h))
  | inl u ↦ elim (Bool-cases (is_empty e)) [
    | inl f ↦
        from_setup c (failure e) [] s u (ap (λ x. reply x) (append-nil setup) ∙ (rw (u, f) at h))
    | inr f ↦ from_setup c (failure e) (lit " Last error: " ++ trim e 180) s u (rw (u, f) at h)
  ]
]

call_chat-answer :
    (c : Config) (post : Text → ChatRequest → Reply) (q : ChatRequest) (s : Text)
    → call_chat c post q ≡ reply s
    → (is_empty (trim_space s) ≡ false)
      × (is_empty c.ai_chat_url ≡ false → post c.ai_chat_url q ≡ reply s)
unfolding call_chat is_space
call_chat-answer c post q s h = elim (Bool-cases (is_empty c.ai_chat_url)) [
  | inr u ↦ elim (Bool-cases (is_empty c.ai_assistant_api_key)) [
    | inl k ↦
        let (a, b) = judge-IsAnswer c (post c.ai_chat_url q) s (rw (u, k) at h) in (a, λ v. b u)
    | inr k ↦
        let (a, b) = judge-IsAnswer c (post c.ai_chat_url q) s (rw (u, k) at h) in (a, λ v. b u)
  ]
  | inl u ↦ elim (Bool-cases (is_empty c.ai_assistant_url)) [
    | inl v ↦
        let p = rw (u, v) at h in
        (
          subst (λ t. is_empty (trim_space t) ≡ false) (ap content p) (trim_space_start 65 _ refl),
          λ w. ground arith,
        )
    | inr v ↦ elim (Bool-cases (is_empty c.ai_assistant_api_key)) [
      | inl w ↦
          let p = rw (u, v, w) at h in
          (
            subst (λ t. is_empty (trim_space t) ≡ false) (ap content p)
                (trim_space_start 65 _ refl),
            λ w. ground arith,
          )
      | inr w ↦
          let (a, b) = judge-IsAnswer c (post c.ai_assistant_url q) s (rw (u, v, w) at h) in
          (a, λ x. ground arith)
    ]
  ]
]

no_answer : (e s : Text) → refused e ≡ answered s → ⊥
no_answer e s h = ground arith

abbrev answer_text : ChatResponse → Text
answer_text (answered s) = s
answer_text (refused e) = e

response_of : Reply → ChatResponse
response_of r = elim r [ reply s ↦ answered s | failure e ↦ refused e ]

answered_reply : (r : Reply) (s : Text) → response_of r ≡ answered s → r ≡ reply s
unfolding response_of
answered_reply (reply t) s h = ap (λ x. reply x) (ap answer_text h)
answered_reply (failure e) s h = absurd (no_answer e s h)

-- An answer is given only to a message that is not empty, and is never blank; where the address of
-- a text endpoint is set, it is the reply of that endpoint to the cleaned request. A message that is
-- empty is refused, whatever the endpoint would answer.
pub build_chat-answered :
    (c : Config) (post : Text → ChatRequest → Reply) (g : Library) (raw : Fields)
    → (is_empty (chat_text c g raw) ≡ true
        → build_chat c post g raw ≡ refused (lit "Message is empty"))
      × ((s : Text)
          → build_chat c post g raw ≡ answered s
          → (is_empty (chat_text c g raw) ≡ false)
            × (is_empty (trim_space s) ≡ false)
            × (is_empty c.ai_chat_url ≡ false
                → post c.ai_chat_url (chat_request c g raw) ≡ reply s))
unfolding build_chat response_of
build_chat-answered c post g raw = (
  λ e. rw e,
  λ s h. elim (Bool-cases (is_empty (chat_text c g raw))) [
    | inl e ↦ absurd (no_answer (lit "Message is empty") s (rw e at h))
    | inr e ↦
        let (a, b) =
          call_chat-answer c post (chat_request c g raw) s
            (answered_reply (call_chat c post (chat_request c g raw)) s (rw e at h)) in
        (e, a, b)
  ],
)
