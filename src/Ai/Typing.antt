-- ===== src/Ai/Typing.antt =====
-- What a session gets of a chat, by handleAIChat of internal/realtime/events.go.
use walkie_talk_server.Base.{
  ◌↔◌, ◌≡◌, refl, Bool, true, false, ◌&&◌, ◌++◌, none, Text, lit, if◌then◌else◌, arith,
}
use walkie_talk_server.Base.Dict.{lookup}
use walkie_talk_server.Base.KeySet.{has, same}
use walkie_talk_server.Store.{Outside, check}
use walkie_talk_server.Json.{Runtime, Fields}
use walkie_talk_server.Realtime.State.{
  Limits, Hub, Net, Message, ai_chat_typing, ai_chat_error, ai_chat_response,
}
use walkie_talk_server.Realtime.Delivery.{queued}
use walkie_talk_server.Realtime.Send.{send}
use walkie_talk_server.Realtime.Relay.{send-queues, send-clients}
use walkie_talk_server.Ai.Chat.{
  ChatResponse, answered, refused, msg_id_of, handle_ai_chat, answer_ai_chat,
}

-- Rate.Check for the chats of a session.
abbrev pub may_chat : Limits → Outside → Text → Hub → Bool
may_chat l o sid h = (check o (sid ++ lit ":ai") l.max_ai_chat_rate l.msg_rate_window h.rate).1

abbrev pub outcome : Text → ChatResponse → Message
outcome msg_id (refused e) = ai_chat_error msg_id e
outcome msg_id (answered s) = ai_chat_response msg_id s

twice_sent :
    (sid s : Text) (m m' : Message) (n : Net)
    → lookup s (send sid m' (send sid m n)).queues ≡ (
        if same sid s && has sid n.clients
        then queued m' (queued m (lookup s n.queues))
        else lookup s n.queues)
twice_sent sid s m m' n =
    ground (arith, send-queues sid s m' (send sid m n), send-queues sid s m n, send-clients sid m n)

answer-queues :
    (sid s msg_id : Text) (res : ChatResponse) (h : Hub)
    → lookup s (answer_ai_chat sid msg_id res h).net.queues ≡ (
        if same sid s && has sid h.net.clients
        then queued
            (outcome msg_id res)
            (queued (ai_chat_typing msg_id false) (lookup s h.net.queues))
        else lookup s h.net.queues)
unfolding answer_ai_chat
answer-queues sid s msg_id (answered t) h =
    twice_sent sid s (ai_chat_typing msg_id false) (ai_chat_response msg_id t) h.net
answer-queues sid s msg_id (refused e) h =
    twice_sent sid s (ai_chat_typing msg_id false) (ai_chat_error msg_id e) h.net

abbrev pub Queues :
    Limits → Runtime → Outside → Text → Fields → Hub → Hub → Text → ChatResponse → Text → Type 0
Queues l g o sid fs h h' msg_id res s =
    let d = handle_ai_chat l g o sid fs h in
    let e = answer_ai_chat sid msg_id res h' in
    ((d.1 ≡ none) ↔ (may_chat l o sid h ≡ false))
    × (lookup s d.0.net.queues ≡ (
        if same sid s && has sid h.net.clients
        then queued
            (if may_chat l o sid h
              then ai_chat_typing (msg_id_of g fs) true
              else ai_chat_error (msg_id_of g fs) (lit "Slow down — too many AI messages"))
            (lookup s h.net.queues)
        else lookup s h.net.queues))
    × (lookup s e.net.queues ≡ (
        if same sid s && has sid h'.net.clients
        then queued (outcome msg_id res)
            (queued (ai_chat_typing msg_id false) (lookup s h'.net.queues))
        else lookup s h'.net.queues))
    × (d.0.core ≡ h.core)
    × (e.core ≡ h'.core)

-- A chat that the rate store lets through is started, and its session is shown as being answered;
-- one that it does not is answered with an error and not started. When the response has come, the
-- session gets the end of the typing and then the response or the error. All of it goes to the queue
-- of the session alone and changes no room, user or channel, whatever the hub did in between.
pub ai_chat-Queues :
    (l : Limits) (g : Runtime) (o : Outside) (sid : Text) (fs : Fields) (h h' : Hub) (msg_id : Text)
    (res : ChatResponse) (s : Text)
    → Queues l g o sid fs h h' msg_id res s
unfolding handle_ai_chat answer_ai_chat
ai_chat-Queues l g o sid fs h h' msg_id res s =
    let slow = ai_chat_error (msg_id_of g fs) (lit "Slow down — too many AI messages") in
    (
      ((λ e. ground arith), (λ e. ground arith)),
      ground (
        arith,
        send-queues sid s slow h.net,
        send-queues sid s (ai_chat_typing (msg_id_of g fs) true) h.net,
      ),
      answer-queues sid s msg_id res h',
      ground arith,
      refl,
    )
