-- ===== src/Realtime/Order.antt =====
-- What the handlers of internal/realtime do to the queues of the clients.
use walkie_talk_server.Json.{Runtime, Fields, any_string, get}
use walkie_talk_server.Realtime.Quality.{handle_quality_pong}
use walkie_talk_server.Util.Sanitize.{clean_room, clean_name}
use walkie_talk_server.Base.KeySet.{has, add, del}
use walkie_talk_server.Realtime.State.{
  connected, Limits, Failure, failure, bad_channel, Message, Core, Net, Hub,
}
use walkie_talk_server.Realtime.Send.{send, close_client_send}
use walkie_talk_server.Realtime.Channels.{cleanup_expired_channels}
use walkie_talk_server.Realtime.Join.{
  Readings, join_check, sid_prefix, leave_no_broadcast, refused, go_on, announce_join, join_rest,
  handle_join, handle_leave, handle_update_name,
}
use walkie_talk_server.Realtime.Events.{
  Inputs, Event, join, leave, update_name, voice, chunk, stream_end, channels_list, ai_chat,
  quality_pong, ack, screen, unknown, handle_voice_message, handle_voice_chunk,
  handle_voice_stream_end, handle_message_ack, after_pong, run_event, event_of, handle_event,
}
use walkie_talk_server.Realtime.Lifecycle.{
  add_client, screen_of, stop_screen_share, drop_client, forget, remove_client, close_all, close,
}
use walkie_talk_server.Realtime.Only.{
  Only, Only-refl, Only-trans, Only-close, Only-send, Only-all, Only-clients, Sends-screen,
  then-send, then-broadcast, then-channels, Sends, sends, Sends-nothing, Sends-if, Sends-check,
  Only-if,
}
use walkie_talk_server.Util.Runes.{trim_space}
use walkie_talk_server.Base.{ℕ, Text, lit, is_empty, Option, none, some, List, [], ◌∷◌}

ruleset sending =
    (Sends-if, Sends-nothing, sends, then-send, then-broadcast, then-channels, Only-if, Only-refl)

module _ (l : Limits) (g : Runtime) (o : Inputs) (sid : Text) (fs : Fields) (h : Hub)
    {s : Text} where
  voice-Sends : Sends s h (handle_voice_message l g o sid fs h)
  unfolding handle_voice_message
  voice-Sends = search sending depth 12 fits 4000

  chunk-Sends : Sends s h (handle_voice_chunk l g o sid fs h)
  unfolding handle_voice_chunk
  chunk-Sends = search sending depth 12 fits 4000

  stream_end-Sends : Sends s h (handle_voice_stream_end g sid fs h)
  unfolding handle_voice_stream_end
  stream_end-Sends = search sending depth 12 fits 4000

  ack-Sends : (event : Text) → Sends s h (handle_message_ack g o sid event fs h)
  unfolding handle_message_ack
  ack-Sends event = search sending depth 12 fits 4000

  leave-Sends : (t : Readings) → Sends s h (handle_leave l t sid h)
  unfolding handle_leave
  leave-Sends t = search sending depth 12 fits 4000

  update_name-Sends : (t : Readings) → Sends s h (handle_update_name l g t sid fs h)
  unfolding handle_update_name
  update_name-Sends t = search sending depth 12 fits 4000

  join_rest-Sends :
      (t : Readings) (room name : Text) (c : Core) → Sends s h (join_rest l t room sid name c h)
  unfolding join_rest announce_join
  join_rest-Sends t room name c = search sending depth 14 fits 8000

  join-Sends : (t : Readings) → Sends s h (handle_join l g t sid fs h)
  unfolding handle_join
  join-Sends t =
      let room = clean_room g.unicode (any_string g (get (lit "room") fs)) l.max_room_len in
      let name =
        clean_name g.unicode (any_string g (get (lit "name") fs)) (sid_prefix sid) l.max_name_len in
      let r = join_check l g t.code t.spare_code room sid name fs t.now h.core in
      let rejected = λ (f : Failure). record h { core = r.0; net = send sid (failure f) h.net } in
      let entered = join_rest l t room sid name r.0 h in
      Sends-if (is_empty room) (record h { net = send sid (failure bad_channel) h.net })
        (elim r.1 [ refused f ↦ rejected f | go_on ↦ entered ])
        (sends (Only-send sid (failure bad_channel) h.net))
        (Sends-check r.1 rejected entered (λ f. sends (Only-send sid (failure f) h.net))
          (join_rest-Sends t room name r.0))

  pong-Sends : (r : Core × Option Message) → Sends s h (after_pong sid h r)
  unfolding after_pong
  pong-Sends (c, none) = search sending depth 12 fits 4000
  pong-Sends (c, some m) = search sending depth 12 fits 4000

  run_event-Sends : (e : Event) (name : Text) → Sends s h (run_event l g o e name sid fs h)
  unfolding run_event
  run_event-Sends join name = join-Sends o.readings
  run_event-Sends leave name = leave-Sends o.readings
  run_event-Sends update_name name = update_name-Sends o.readings
  run_event-Sends voice name = voice-Sends
  run_event-Sends chunk name = chunk-Sends
  run_event-Sends stream_end name = stream_end-Sends
  run_event-Sends channels_list name = search sending depth 12 fits 4000
  run_event-Sends ai_chat name = search sending depth 12 fits 4000
  run_event-Sends quality_pong name =
      pong-Sends (handle_quality_pong g o.readings.now sid fs h.core)
  run_event-Sends ack name = ack-Sends (trim_space name)
  run_event-Sends screen name = search sending depth 12 fits 4000
  run_event-Sends unknown name = search sending depth 12 fits 4000

  pub handle_event-Sends : (event : Text) → Sends s h (handle_event l g o sid event fs h)
  unfolding handle_event
  handle_event-Sends event = run_event-Sends (event_of (trim_space event)) event

net_of : {s : Text} {h h' : Hub} → Sends s h h' → Only s h.net h'.net
net_of (sends p) = p

stop-Sends : (sid reason : Text) (h : Hub) {s : Text} → Sends s h (stop_screen_share sid reason h)
unfolding stop_screen_share
stop-Sends sid reason h =
    Sends-screen (screen_of sid h.core.screens) h _ Sends-nothing
      (λ r t. search sending depth 12 fits 4000)

drop-Only : (sid : Text) (n : Net) {s : Text} → Only s n (drop_client sid n)
unfolding drop_client
drop-Only sid n =
    let left : Net = record n { clients = del sid n.clients } in
    Only-if (has sid n.clients) (close_client_send sid left) n
      (Only-clients (del sid n.clients) n (close_client_send sid left) (Only-close sid left))
      (Only-refl n)

pub remove_client-Sends :
    (l : Limits) (now shown_at : ℕ) (sid reason : Text) (h : Hub) {s : Text}
    → Sends s h (remove_client l now shown_at sid reason h)
unfolding remove_client forget
remove_client-Sends l now shown_at sid reason h {s} =
    let left : Hub = record h { core = leave_no_broadcast l.channel_empty_ttl sid now h.core } in
    let stopped = stop_screen_share sid reason left in
    let p : Only s h.net (drop_client sid stopped.net) =
      Only-trans (net_of (stop-Sends sid reason left)) (drop-Only sid stopped.net) in
    search sending depth 12 fits 4000

pub add_client-Sends :
    (l : Limits) (sid : Text) (h : Hub) {s : Text} → Sends s h (add_client l sid h)
unfolding add_client
add_client-Sends l sid h {s} =
    let n : Net = record h.net { clients = add sid h.net.clients } in
    let m = connected sid l.instance_id in
    let p : Only s h.net (send sid m n) =
      Only-clients n.clients h.net (send sid m n) (Only-send sid m n) in
    search (sending, Only-close) depth 12 fits 4000

pub cleanup-Sends :
    (ttl now shown_at : ℕ) (h : Hub) {s : Text}
    → Sends s h (cleanup_expired_channels ttl now shown_at h)
unfolding cleanup_expired_channels
cleanup-Sends ttl now shown_at h = search (sending, Only-all) depth 12 fits 4000

close_all-Only : (sids : List Text) (n : Net) {s : Text} → Only s n (close_all sids n)
unfolding close_all
close_all-Only [] n = Only-refl n
close_all-Only (sid ∷ sids) n =
    Only-trans (Only-close sid n) (close_all-Only sids (close_client_send sid n))

pub close-Sends : (h : Hub) {s : Text} → Sends s h (close h)
unfolding close
close-Sends h {s} =
    let n : Net = record h.net { clients = [] } in
    let p : Only s h.net (close_all h.net.clients n) =
      Only-clients [] h.net (close_all h.net.clients n) (close_all-Only h.net.clients n) in
    search sending depth 12 fits 4000
