-- ===== src/Tests/Pumps.antt =====
-- internal/realtime/client.go
use walkie_talk_server.Realtime.State.{Queue, Message, Core, peer_left, members_of}
use walkie_talk_server.Realtime.Send.{enqueue}
use walkie_talk_server.Realtime.Pumps.{
  Lobby, registration, run_one, handle_ws, write_one, Choice, received, ticked, write_loop,
}
use walkie_talk_server.Realtime.Writes
use walkie_talk_server.Realtime.Writes.{messages, IsClosing}
use walkie_talk_server.Realtime.Arrival
use walkie_talk_server.Realtime.Posted
use walkie_talk_server.Realtime.Posted.{
  Post, posting, cutting, writing, one, members, everyone, run_posts, run_post, post,
}
use walkie_talk_server.Realtime.Send.{
  close_client_send, send, broadcast, broadcast_all, deliver_all, deliver, audience,
}
use walkie_talk_server.Realtime.Arrival.{session, Greeted}
use walkie_talk_server.Realtime.Fifo.{QueueOp, put, take_one, shut, queue_run}
use walkie_talk_server.Tests.Samples.{limits, two, hub, ann, bob, open_queue, net, room}
use walkie_talk_server.Base.Dict.{lookup, insert, remove}
use walkie_talk_server.Base.KeySet.{has}
use walkie_talk_server.Base.{
  some, text_dec, ◌≤◌, ◌≡◌, refl, List, [], none, ◌∷◌, ◌++◌, true, false, lit, length, arith,
}

abbrev first : Message
first = peer_left ann (lit "Ann")

abbrev second : Message
second = peer_left bob (lit "Bob")

-- The last message comes too late.
abbrev ops : List QueueOp
ops = put first ∷ put second ∷ take_one ∷ shut ∷ put first ∷ take_one ∷ []

queue_run_trace : (queue_run ops open_queue).1 ≡ first ∷ second ∷ []
unfolding queue_run enqueue write_one
queue_run_trace = refl

abbrev lobby : Lobby
lobby = record { hub = hub two; registering = []; unregistering = [] }

handle_ws-Greeted_example :
    Greeted limits (session none) lobby (run_one limits 5 6 registration (handle_ws none lobby).1)
handle_ws-Greeted_example = Arrival.handle_ws-Greeted limits 5 6 none lobby refl

-- Ann speaks, Bob reads once, the hub closes, Bob reads on.
abbrev together : Core
together = record two { rooms = (room, ann ∷ bob ∷ []) ∷ [] }

-- The last message comes too late.
abbrev posts : List Post
posts =
    posting (one bob) first
    ∷ posting (members together room ann) second
    ∷ writing
    ∷ posting (one ann) first
    ∷ cutting bob
    ∷ posting everyone first
    ∷ writing
    ∷ []

run_posts_run : (run_posts bob posts net).1 ≡ first ∷ second ∷ []
unfolding run_posts close_client_send send broadcast broadcast_all deliver_all deliver audience
    enqueue write_one lookup insert has text_dec members_of run_post post remove
run_posts_run = refl

run_posts-taken_example :
    let d = run_posts bob posts net in
    (q' : Queue) × (lookup bob d.0.queues ≡ some q')
    × (d.1 ++ q'.buffer ≡ first ∷ second ∷ [])
    × (0 ≤ 256 → length q'.buffer ≤ 256)
unfolding lookup text_dec has members_of
run_posts-taken_example =
    Posted.run_posts-taken bob posts net open_queue refl (refl, (refl, (refl, tt)))
      ((refl, (refl, tt)), tt)

-- A ping comes between two messages, and the last write fails.
abbrev choices : List Choice
choices = received true ∷ ticked true ∷ received false ∷ received true ∷ []

write_loop-ordered_example :
    let d = write_loop choices (record { buffer = first ∷ second ∷ []; closed = false }) in
    (messages d.1 ++ d.0.buffer ≡ first ∷ second ∷ []) × (d.0.closed ≡ false) × IsClosing d.1 d.0
write_loop-ordered_example = Writes.write_loop-ordered choices (first ∷ second ∷ []) false

write_loop-drains_example :
    let d =
      write_loop
        (received true ∷ ticked true ∷ received true ∷ [])
        (record { buffer = first ∷ []; closed = true }) in
    (messages d.1 ≡ first ∷ []) × (d.0.buffer ≡ []) × (d.2 ≡ true)
write_loop-drains_example =
    Writes.write_loop-drains (received true ∷ ticked true ∷ received true ∷ []) (first ∷ []) refl
      (omega arith)
