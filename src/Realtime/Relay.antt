-- ===== src/Realtime/Relay.antt =====
-- Who hears whom: voice messages and acknowledgements of internal/realtime/events.go.
use walkie_talk_server.Json.{Runtime, Fields, any_string, get, trim}
use walkie_talk_server.Realtime.State.{
  Limits, Net, Hub, members_of, failure, msg_too_large, rate_limited, Message, acknowledged,
}
use walkie_talk_server.Realtime.Send.{send, deliver_all}
use walkie_talk_server.Realtime.Join.{room_name}
use walkie_talk_server.Realtime.Invariant.{Inv}
use walkie_talk_server.Realtime.Delivery.{
  queued, deliver-queues, deliver_all-clients, broadcast-queues,
}
use walkie_talk_server.Realtime.Events.{
  Inputs, audio_of, voice_payload, handle_voice_message, target_of, is_reachable,
  handle_message_ack,
}
use walkie_talk_server.Store.{check}
use walkie_talk_server.Base.{
  ℕ, ◌≡◌, ◌≢◌, Bool, true, false, not, ◌&&◌, ◌++◌, [], ◌∷◌, Text, lit, ltb, arith, if◌then◌else◌,
  is_empty, byte_len, Bool-cases, inl, inr,
}
use walkie_talk_server.Base.Dict.{lookup}
use walkie_talk_server.Base.KeySet.{has, same}

-- A message to one client changes no queue of another.
pub send-queues :
    (sid s : Text) (m : Message) (n : Net)
    → lookup s (send sid m n).queues ≡ (
        if same sid s && has sid n.clients then queued m (lookup s n.queues) else lookup s n.queues)
unfolding send
send-queues sid s m n = ground (arith, deliver-queues m sid s n)

pub send-clients : (sid : Text) (m : Message) (n : Net) → (send sid m n).clients ≡ n.clients
unfolding send deliver_all
send-clients sid m n = ground (arith, deliver_all-clients m (sid ∷ []) n)

-- The voice message is relayed: its sender is in a room, it has audio that is not too long, and the
-- rate store lets it through.
abbrev pub relayed : Limits → Runtime → Inputs → Text → Fields → Hub → Bool
relayed l g o sid fs h =
    not (is_empty (room_name sid h.core).0)
    && (not (is_empty (audio_of g fs))
        && (not (ltb l.max_audio_base64_chars (byte_len (audio_of g fs)))
            && (check o.outside (sid ++ lit ":voice") l.max_msg_rate l.msg_rate_window h.rate).1))

-- A voice message reaches the queues of the other members of the sender's room that have a client,
-- exactly if it is relayed, and of no one else but the sender, who may get an error. It changes no
-- room, user or channel.
pub voice_message-queues :
    (l : Limits) (g : Runtime) (o : Inputs) (sid : Text) (fs : Fields) (h : Hub)
    → Inv l.max_room_size h.core
    → (s : Text) → s ≢ sid
    → let d = handle_voice_message l g o sid fs h in
      let at = room_name sid h.core in
      (lookup s d.net.queues ≡ (
        if relayed l g o sid fs h && (has s (members_of at.0 h.core.rooms) && has s h.net.clients)
        then queued (voice_payload l g sid at.1 fs) (lookup s h.net.queues)
        else lookup s h.net.queues))
      × (d.core ≡ h.core)
unfolding handle_voice_message
voice_message-queues l g o sid fs h v s d =
    let at = room_name sid h.core in
    ground (
      arith,
      send-queues sid s (failure msg_too_large) h.net,
      send-queues sid s (failure rate_limited) h.net,
      broadcast-queues at.0 (voice_payload l g sid at.1 fs) sid h.core h.net (v.distinct at.0) s,
    )

module _ (max : ℕ) (g : Runtime) (o : Inputs) (sid event : Text) (fs : Fields) (h : Hub)
    (v : Inv max h.core) (s : Text) where
  abbrev may_hear : Bool
  may_hear =
      same (target_of g fs) s
      && (not (same s sid)
          && (has s h.net.clients && has s (members_of (room_name sid h.core).0 h.core.rooms)))

  ack-unheard :
      may_hear ≡ false
      → lookup s (handle_message_ack g o sid event fs h).net.queues ≡ lookup s h.net.queues
  unfolding handle_message_ack is_reachable
  ack-unheard e = ground (
    arith,
    send-queues (target_of g fs) s
        (acknowledged event (trim (any_string g (get (lit "msg_id") fs)) 80) sid
          (room_name sid h.core).1 (target_of g fs) o.acknowledged_at)
        h.net,
    v.agree s (room_name sid h.core).0,
  )

  -- An acknowledgement changes the queue of its target alone, and only if the target is another
  -- session that has a client and is in the room of the sender. It changes no room, user or channel.
  pub message_ack-queues :
      let d = handle_message_ack g o sid event fs h in
      (d.core ≡ h.core)
      × (lookup s d.net.queues ≢ lookup s h.net.queues
          → (s ≡ target_of g fs)
            × (s ≢ sid)
            × (has s h.net.clients ≡ true)
            × (has s (members_of (room_name sid h.core).0 h.core.rooms) ≡ true))
  unfolding handle_message_ack
  message_ack-queues = (
    ground arith,
    λ c. elim (Bool-cases may_hear) [ inl e ↦ ground arith | inr e ↦ absurd (c (ack-unheard e)) ],
  )
