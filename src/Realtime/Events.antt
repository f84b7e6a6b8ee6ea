-- ===== src/Realtime/Events.antt =====
-- internal/realtime/events.go: voice, acknowledgements, and the dispatch of an envelope.
use walkie_talk_server.Json.{Runtime, Fields, any_string, any_float, get, trim, round1}
use walkie_talk_server.Realtime.State.{
  Limits, msg_too_large, rate_limited, assistant_removed, screen_removed, unknown_event, Message,
  failure, voice_message, voice_chunk, voice_stream_end, acknowledged, Core, Net, Hub,
}
use walkie_talk_server.Realtime.Secrets.{first_non_empty_string}
use walkie_talk_server.Realtime.Send.{send, broadcast}
use walkie_talk_server.Realtime.Channels.{channel_payload}
use walkie_talk_server.Realtime.Join.{
  Readings, room_name, handle_join, handle_leave, handle_update_name,
}
use walkie_talk_server.Realtime.Quality.{handle_quality_pong}
use walkie_talk_server.Store.{Outside, check}
use walkie_talk_server.Util.Runes.{trim_space}
use walkie_talk_server.Util.Sanitize.{strip_data_url}
use walkie_talk_server.Base.{
  ℕ, Bool, false, ◌&&◌, ◌||◌, List, [], ◌∷◌, ◌++◌, Option, none, some, Text, lit, ltb,
  if◌then◌else◌, is_empty, byte_len,
}
use walkie_talk_server.Base.Dict.{lookup}
use walkie_talk_server.Base.KeySet.{has, same}

-- What one event reads from outside: clocks and random bytes of a join, what the rate store reads,
-- and the time of an acknowledgement as a float64.
pub record Inputs : Type 0 where
  pub readings : Readings
  pub outside : Outside
  pub acknowledged_at : ℕ

unfoldable pub allowed_mime : List Text
allowed_mime =
    lit "audio/webm"
    ∷ lit "audio/webm;codecs=opus"
    ∷ lit "audio/mp4"
    ∷ lit "audio/ogg"
    ∷ lit "audio/wav"
    ∷ []

unfoldable pub mime_of : Runtime → Fields → Text
mime_of g fs =
    let mime = any_string g (get (lit "mime") fs) in
    if has mime allowed_mime then mime else lit "audio/webm"

unfoldable pub audio_of : Runtime → Fields → Text
audio_of g fs = strip_data_url g.unicode (any_string g (get (lit "audio") fs))

-- The duration, no longer than the limit; `Limits.max_duration` is in seconds.
unfoldable pub duration_of : Limits → Runtime → Fields → ℕ
duration_of l g fs =
    let d = any_float g (get (lit "duration") fs) in
    let most = g.float.of_ℕ l.max_duration in if g.float.less most d then most else d

unfoldable pub voice_payload : Limits → Runtime → Text → Text → Fields → Message
voice_payload l g sid name fs =
    voice_message (audio_of g fs) (mime_of g fs) (round1 g.float (duration_of l g fs))
      (trim (any_string g (get (lit "msg_id") fs)) 64) sid name

unfoldable pub handle_voice_message : Limits → Runtime → Inputs → Text → Fields → Hub → Hub
handle_voice_message l g o sid fs h =
    let at = room_name sid h.core in
    let audio = audio_of g fs in
    let r = check o.outside (sid ++ lit ":voice") l.max_msg_rate l.msg_rate_window h.rate in
    if is_empty at.0 || is_empty audio
    then h
    else if ltb l.max_audio_base64_chars (byte_len audio)
    then record h { net = send sid (failure msg_too_large) h.net }
    else if r.1
    then record h {
      rate = r.0;
      net = broadcast at.0 (voice_payload l g sid at.1 fs) sid h.core h.net;
    }
    else record h { rate = r.0; net = send sid (failure rate_limited) h.net }

unfoldable pub chunk_payload : Runtime → Text → Text → Fields → Message
chunk_payload g sid name fs =
    voice_chunk (audio_of g fs) (mime_of g fs) (trim (any_string g (get (lit "stream_id") fs)) 32)
      (g.float.to_int (any_float g (get (lit "seq") fs))) sid name

unfoldable pub handle_voice_chunk : Limits → Runtime → Inputs → Text → Fields → Hub → Hub
handle_voice_chunk l g o sid fs h =
    let at = room_name sid h.core in
    let audio = audio_of g fs in
    let r = check o.outside (sid ++ lit ":live") l.max_chunk_rate l.msg_rate_window h.rate in
    if is_empty at.0 || (is_empty audio || ltb l.max_chunk_bytes (byte_len audio))
    then h
    else if r.1
    then record h {
      rate = r.0;
      net = broadcast at.0 (chunk_payload g sid at.1 fs) sid h.core h.net;
    }
    else record h { rate = r.0 }

unfoldable pub handle_voice_stream_end : Runtime → Text → Fields → Hub → Hub
handle_voice_stream_end g sid fs h =
    let at = room_name sid h.core in
    if is_empty at.0 then h else record h {
      net =
          broadcast at.0
            (voice_stream_end (trim (any_string g (get (lit "stream_id") fs)) 32) sid at.1) sid
            h.core h.net;
    }

unfoldable pub target_of : Runtime → Fields → Text
target_of g fs =
    trim
      (first_non_empty_string (
        any_string g (get (lit "to") fs)
        ∷ any_string g (get (lit "target_sid") fs)
        ∷ any_string g (get (lit "sender_sid") fs)
        ∷ []))
      80

-- The target has a user in the room, and a client.
unfoldable pub is_reachable : Text → Text → Core → Net → Bool
is_reachable target room c n = elim (lookup target c.users) [
  | none ↦ false
  | some u ↦ same u.room room && has target n.clients
]

unfoldable pub handle_message_ack : Runtime → Inputs → Text → Text → Fields → Hub → Hub
handle_message_ack g o sid event fs h =
    let msg_id = trim (any_string g (get (lit "msg_id") fs)) 80 in
    let target = target_of g fs in
    let at = room_name sid h.core in
    if is_empty msg_id || (is_empty target || (is_empty at.0 || same target sid))
    then h
    else if is_reachable target at.0 h.core h.net
    then record h {
      net = send target (acknowledged event msg_id sid at.1 target o.acknowledged_at) h.net;
    }
    else h

-- The cases of the switch in HandleEvent.
pub data Event : Type 0 where
  join leave update_name voice chunk stream_end channels_list ai_chat quality_pong ack screen :
      Event
  unknown : Event

unfoldable pub event_of : Text → Event
event_of e =
    if has e (lit "join" ∷ lit "join_room" ∷ [])
    then join
    else if has e (lit "leave" ∷ lit "leave_room" ∷ lit "leave_room_event" ∷ [])
    then leave
    else if has e (lit "update_name" ∷ [])
    then update_name
    else if has e (lit "voice_message" ∷ [])
    then voice
    else if has e (lit "voice_chunk" ∷ [])
    then chunk
    else if has e (lit "voice_stream_end" ∷ [])
    then stream_end
    else if has e (lit "channels_list" ∷ lit "channels_refresh" ∷ [])
    then channels_list
    else if has e (lit "ai_chat_message" ∷ [])
    then ai_chat
    else if has e (lit "quality_pong" ∷ [])
    then quality_pong
    else if has e (
        lit "msg_delivered"
        ∷ lit "message_delivered"
        ∷ lit "msg_read"
        ∷ lit "message_read"
        ∷ lit "msg_seen"
        ∷ lit "message_seen"
        ∷ lit "msg_received"
        ∷ lit "message_received"
        ∷ [])
    then ack
    else if has e (
        lit "screen_share_start"
        ∷ lit "screen_share_stop"
        ∷ lit "screen_share_state"
        ∷ lit "screen_viewer_ready"
        ∷ lit "screen_offer"
        ∷ lit "screen_answer"
        ∷ lit "screen_ice_candidate"
        ∷ [])
    then screen
    else unknown

unfoldable pub after_pong : Text → Hub → Core × Option Message → Hub
after_pong sid h (c, none) = record h { core = c }
after_pong sid h (c, some m) = record h { core = c; net = send sid m h.net }

unfoldable pub run_event : Limits → Runtime → Inputs → Event → Text → Text → Fields → Hub → Hub
unfolding after_pong
run_event l g o join name sid fs h = handle_join l g o.readings sid fs h
run_event l g o leave name sid fs h = handle_leave l o.readings sid h
run_event l g o update_name name sid fs h = handle_update_name l g o.readings sid fs h
run_event l g o voice name sid fs h = handle_voice_message l g o sid fs h
run_event l g o chunk name sid fs h = handle_voice_chunk l g o sid fs h
run_event l g o stream_end name sid fs h = handle_voice_stream_end g sid fs h
run_event l g o channels_list name sid fs h = record h {
  net = send sid (channel_payload l.channel_empty_ttl o.readings.shown_at h.core) h.net;
}
run_event l g o ai_chat name sid fs h = record h {
  net = send sid (failure assistant_removed) h.net;
}
run_event l g o quality_pong name sid fs h =
    after_pong sid h (handle_quality_pong g o.readings.now sid fs h.core)
run_event l g o ack name sid fs h = handle_message_ack g o sid (trim_space name) fs h
run_event l g o screen name sid fs h = record h { net = send sid (failure screen_removed) h.net }
run_event l g o unknown name sid fs h = record h {
  net = send sid (failure (unknown_event name)) h.net;
}

-- HandleEvent, on the decoded data of the envelope.
unfoldable pub handle_event : Limits → Runtime → Inputs → Text → Text → Fields → Hub → Hub
unfolding event_of run_event
handle_event l g o sid event fs h = run_event l g o (event_of (trim_space event)) event sid fs h
