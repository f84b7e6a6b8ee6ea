-- ===== src/Tests/Hub.antt =====
-- Messages, removals and expiry: internal/realtime.
use walkie_talk_server.Json.{no_fields, field, string, Fields}
use walkie_talk_server.Realtime.State.{QualityState, members_of}
use walkie_talk_server.Realtime.Channels.{sweep, touch_channel, touched, channel_or_new, unowned}
use walkie_talk_server.Realtime.Join.{room_name, leave_no_broadcast, join_commit, open_room, enter}
use walkie_talk_server.Realtime.Invariant.{Inv}
use walkie_talk_server.Realtime.Enter.{join_commit-Inv}
use walkie_talk_server.Realtime.Interleaving.{new_core}
use walkie_talk_server.Realtime.Threads.{start-IsSafe}
use walkie_talk_server.Realtime.Delivery.{queued}
use walkie_talk_server.Realtime.QualityBounds
use walkie_talk_server.Realtime.Quality.{answer, quality_score, append_bounded}
use walkie_talk_server.Realtime.QualityBounds.{measures, pinged, expired, answered}
use walkie_talk_server.Realtime.Events.{
  handle_voice_message, handle_message_ack, voice_payload, target_of,
}
use walkie_talk_server.Realtime.Relay
use walkie_talk_server.Realtime.Relay.{relayed}
use walkie_talk_server.Realtime.Expiry
use walkie_talk_server.Realtime.Departed
use walkie_talk_server.Realtime.Departed.{departures, IsGone}
use walkie_talk_server.Realtime.Pumps.{Lobby, read_error, read_pump}
use walkie_talk_server.Realtime.Expiry.{is_due, is_some, keys}
use walkie_talk_server.Tests.Samples.{
  runtime, limits, inputs, room, ann, bob, one, two, hub, net, voice, whole,
}
use walkie_talk_server.Base.{
  ◌+◌, ◌≤◌, ◌≡◌, ◌≢◌, refl, true, false, not, ◌&&◌, [], ◌∷◌, lit, arith, text_dec, length, leb,
  if◌then◌else◌,
}
use walkie_talk_server.Base.Dict.{lookup, insert, remove}
use walkie_talk_server.Base.KeySet.{has, add, Distinct}

program : Unit {0}
unfolding members_of lookup insert remove text_dec join_commit open_room enter touch_channel touched
    channel_or_new unowned has add new_core
program = tt

one-Inv : Inv 2 one
unfolding program
one-Inv =
    join_commit-Inv limits room ann (lit "Ann") 10 new_core
      (start-IsSafe limits runtime (omega arith)).inv (omega arith) refl refl

two-Inv : Inv 2 two
unfolding program
two-Inv = join_commit-Inv limits room bob (lit "Bob") 20 one one-Inv (omega arith) refl refl

two-Distinct : Distinct (members_of room two.rooms)
two-Distinct = two-Inv.distinct room

voice_message-queues_example :
    let d = handle_voice_message limits runtime inputs ann voice (hub two) in
    (lookup bob d.net.queues ≡ (
      if relayed limits runtime inputs ann voice (hub two)
        && (has bob (members_of (room_name ann two).0 two.rooms) && has bob net.clients)
      then queued
          (voice_payload limits runtime ann (room_name ann two).1 voice)
          (lookup bob net.queues)
      else lookup bob net.queues))
    × (d.core ≡ two)
voice_message-queues_example =
    Relay.voice_message-queues limits runtime inputs ann voice (hub two) two-Inv bob
      (λ e. ground arith)

abbrev read_by_ann : Fields
read_by_ann = field (lit "to") (string bob) (field (lit "msg_id") (string (lit "m1")) no_fields)

message_ack-queues_example :
    let d = handle_message_ack runtime inputs ann (lit "msg_read") read_by_ann (hub two) in
    (d.core ≡ two)
    × (lookup bob d.net.queues ≢ lookup bob net.queues
        → (bob ≡ target_of runtime read_by_ann)
          × (bob ≢ ann)
          × (has bob net.clients ≡ true)
          × (has bob (members_of (room_name ann two).0 two.rooms) ≡ true))
message_ack-queues_example =
    Relay.message_ack-queues 2 runtime inputs ann (lit "msg_read") read_by_ann (hub two) two-Inv bob

last_leave-expires_example :
    let after = leave_no_broadcast 900 ann 100 one in
    is_some (lookup room (sweep 900 1000 after.channels after).0.channels)
    ≡ not (leb (100 + 900) 1000)
unfolding program
last_leave-expires_example =
    Expiry.last_leave-expires 900 ann 100 1000 one 2 one-Inv
      (record { name = lit "Ann"; room = room; joined_at = 10 }) refl refl (refl, tt)

abbrev five : QualityState
five = record {
  pending = (lit "q_1", 5) ∷ [];
  rtts = 10 ∷ 20 ∷ 30 ∷ 40 ∷ 50 ∷ [];
  cycles = true ∷ true ∷ false ∷ true ∷ true ∷ [];
}

quality_bounds_example :
    let q =
      measures
        (pinged (lit "q_1") 5 ∷ answered (lit "q_1") (λ t. t) ∷ expired (lit "q_2") ∷ [])
        (record { pending = []; rtts = []; cycles = [] }) in
    (length q.rtts ≤ 5) × (length q.cycles ≤ 5) × ((quality_score whole q.rtts q.cycles).0 ≤ 100)
quality_bounds_example =
    QualityBounds.quality_bounds whole
      (pinged (lit "q_1") 5 ∷ answered (lit "q_1") (λ t. t) ∷ expired (lit "q_2") ∷ [])

answer_run : (answer (lit "q_1") (λ t. t) five).rtts ≡ 20 ∷ 30 ∷ 40 ∷ 50 ∷ 5 ∷ []
unfolding answer append_bounded lookup text_dec
answer_run = refl

-- Ann has left already when the websocket of Bob fails.
read_pump-IsGone_example :
    let b : Lobby = record { hub = hub two; registering = []; unregistering = ann ∷ [] } in
    let d =
      departures limits
        ((30, 31) ∷ (40, 41) ∷ [])
        (read_pump limits runtime bob ((inputs, read_error) ∷ []) b) in
    (d.unregistering ≡ []) × (d.registering ≡ []) × IsGone bob d.hub
read_pump-IsGone_example =
    Departed.read_pump-IsGone limits runtime bob inputs []
      (record { hub = hub two; registering = []; unregistering = ann ∷ [] })
      ((30, 31) ∷ (40, 41) ∷ []) (omega arith) two-Inv (omega arith) refl
