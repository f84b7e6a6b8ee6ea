-- ===== src/Ai/Chat.antt =====
-- internal/ai/client.go: BuildChat and CallChat; and the handlers that call them, handleAIChat of
-- internal/realtime/events.go and handleAIChat of internal/api/server.go.
use walkie_talk_server.Base.{
  ℕ, true, false, not, ◌&&◌, ◌||◌, List, ◌++◌, Option, none, some, Text, lit, if◌then◌else◌,
  is_empty,
}
use walkie_talk_server.Base.KeySet.{same}
use walkie_talk_server.Util.Runes.{trim_space}
use walkie_talk_server.Util.Sanitize.{clean_name, clean_room}
use walkie_talk_server.Store.{RateStore, Outside, check}
use walkie_talk_server.Config.Load.{Config}
use walkie_talk_server.Json
use walkie_talk_server.Json.{Runtime, Value, string, Fields, no_fields, field, get, trim}
use walkie_talk_server.Realtime.State.{Limits, Hub, ai_chat_typing, ai_chat_error, ai_chat_response}
use walkie_talk_server.Realtime.Send.{send}
use walkie_talk_server.Realtime.Join.{room_name, sid_prefix}
use walkie_talk_server.Api.Access.{Request, authorized, client_ip}
use walkie_talk_server.Ai.Clean.{Library, any_string, clean_ai_text, ChatMessage, clean_history}
use walkie_talk_server.Ai.Request.{Reply, reply, failure}

-- The fields of ChatRequest; `text` is also sent as `message` and `prompt`.
pub record ChatRequest : Type 0 where
  pub text : Text
  pub username : Text
  pub room : Text
  pub history : List ChatMessage

pub data ChatResponse : Type 0 where
  answered : Text → ChatResponse
  refused : Text → ChatResponse

abbrev pub not_configured : Text
not_configured = lit "AI chat backend is not configured yet. Set AI_CHAT_URL or AI_ASSISTANT_URL."

abbrev pub key_missing : Text
key_missing =
    lit
      "AI assistant API key is missing. Set AI_ASSISTANT_API_KEY to the same value as AI_API_KEY on the bot-voice server, or set AI_CHAT_URL to a text endpoint that does not require that key."

abbrev pub setup : Text
setup =
    lit
      "AI assistant endpoint did not return a text chat reply. Set AI_ASSISTANT_API_KEY to the same value as AI_API_KEY on the bot-voice server, or set AI_CHAT_URL to a dedicated text chat endpoint."

-- The outcome of CallChat for what the one configured address gave.
unfoldable pub judge : Config → Reply → Reply
judge c (reply s) =
    if not (is_empty (trim_space s))
    then reply s
    else if not (is_empty c.ai_chat_url)
    then failure (lit "AI backend returned no text")
    else reply (setup ++ (lit " Last error: " ++ trim (lit "AI backend returned no text") 180))
judge c (failure e) =
    if not (is_empty c.ai_chat_url)
    then failure e
    else if not (is_empty e)
    then reply (setup ++ (lit " Last error: " ++ trim e 180))
    else reply setup

module _ (c : Config) where
  -- The message of a chat: the first of three entries that is not empty when it is cleaned.
  unfoldable pub chat_text : Library → Fields → Text
  chat_text g raw =
      let entry = λ (k : Text). clean_ai_text (any_string g (get k raw)) c.max_ai_text_len in
      if not (is_empty (entry (lit "text")))
      then entry (lit "text")
      else if not (is_empty (entry (lit "message")))
      then entry (lit "message")
      else entry (lit "prompt")

  unfoldable pub chat_room : Library → Fields → Text
  chat_room g raw =
      let room = clean_room g.unicode (any_string g (get (lit "room") raw)) c.max_room_len in
      if is_empty room then lit "AI-CHAT" else room

  unfoldable pub chat_request : Library → Fields → ChatRequest
  unfolding chat_text chat_room
  chat_request g raw = record {
    text = chat_text g raw;
    username =
        clean_name g.unicode (any_string g (get (lit "username") raw)) (lit "guest") c.max_name_len;
    room = chat_room g raw;
    history = clean_history g (get (lit "history") raw) c.max_ai_history;
  }

-- What postJSONWithRetry gives for an address and a request is an argument of the rest.
module _ (c : Config) (post : Text → ChatRequest → Reply) where
  unfoldable pub call_chat : ChatRequest → Reply
  unfolding judge
  call_chat q =
      if is_empty c.ai_chat_url && is_empty c.ai_assistant_url
      then reply not_configured
      else if is_empty c.ai_assistant_api_key
          && is_empty c.ai_chat_url
          && not (is_empty c.ai_assistant_url)
      then reply key_missing
      else judge c (post (if is_empty c.ai_chat_url then c.ai_assistant_url else c.ai_chat_url) q)

  unfoldable pub build_chat : Library → Fields → ChatResponse
  unfolding call_chat chat_request
  build_chat g raw =
      if is_empty (chat_text c g raw)
      then refused (lit "Message is empty")
      else elim (call_chat (chat_request c g raw)) [ reply s ↦ answered s | failure e ↦ refused e ]

  -- The handler of internal/api/server.go: the status and the response. A body that is no JSON
  -- object leaves the map empty.
  unfoldable pub handle_http_ai_chat :
      Library
      → Outside
      → ℕ
      → Request
      → Option Fields
      → RateStore
      → (ℕ × Option ChatResponse) × RateStore
  handle_http_ai_chat g o msg_rate_window r body rate =
      let k = check o (lit "http_ai:" ++ client_ip r) c.max_ai_chat_rate msg_rate_window rate in
      let res = build_chat g (elim body [ none ↦ no_fields | some fs ↦ fs ]) in
      if not (same r.method (lit "POST"))
      then ((405, none), rate)
      else if not (is_empty c.public_api_key) && not (authorized c.public_api_key r)
      then ((401, none), rate)
      else if not k.1
      then ((429, none), k.0)
      else ((elim res [ answered s ↦ 200 | refused e ↦ 502 ], some res), k.0)

-- The room and the name that handleAIChat of the hub puts into the data.
unfoldable pub ai_room : Limits → Runtime → Text → Fields → Hub → Text
ai_room l g sid fs h =
    let room = (room_name sid h.core).0 in
    let asked = clean_room g.unicode (Json.any_string g (get (lit "room") fs)) l.max_room_len in
    if not (is_empty room) then room else if is_empty asked then lit "AI-CHAT" else asked

unfoldable pub ai_name : Limits → Runtime → Text → Fields → Hub → Text
ai_name l g sid fs h =
    let name = (room_name sid h.core).1 in
    if is_empty name || same name (sid_prefix sid)
    then clean_name g.unicode (Json.any_string g (get (lit "username") fs)) (lit "guest")
        l.max_name_len
    else name

unfoldable pub msg_id_of : Runtime → Fields → Text
msg_id_of g fs = trim (Json.any_string g (get (lit "msg_id") fs)) 80

-- handleAIChat of the hub up to the start of its goroutine, and the data that the goroutine gets,
-- if it is started.
unfoldable pub handle_ai_chat :
    Limits → Runtime → Outside → Text → Fields → Hub → Hub × Option Fields
unfolding ai_room ai_name msg_id_of
handle_ai_chat l g o sid fs h =
    let r = check o (sid ++ lit ":ai") l.max_ai_chat_rate l.msg_rate_window h.rate in
    let msg_id = msg_id_of g fs in
    let slow = lit "Slow down — too many AI messages" in
    if not r.1
    then (record h { rate = r.0; net = send sid (ai_chat_error msg_id slow) h.net }, none)
    else (
      record h { rate = r.0; net = send sid (ai_chat_typing msg_id true) h.net },
      some (
          field (lit "room") (string (ai_room l g sid fs h))
            (field (lit "username") (string (ai_name l g sid fs h)) fs)),
    )

-- The goroutine after the response has come.
unfoldable pub answer_ai_chat : Text → Text → ChatResponse → Hub → Hub
answer_ai_chat sid msg_id res h =
    let n = send sid (ai_chat_typing msg_id false) h.net in
    record h {
      net = elim res [
        | refused e ↦ send sid (ai_chat_error msg_id e) n
        | answered s ↦ send sid (ai_chat_response msg_id s) n
      ];
    }
