-- ===== src/Realtime/Pumps.antt =====
-- internal/realtime/client.go, and Register and Run of internal/realtime/hub.go: what moves between a
-- websocket and the hub.
use walkie_talk_server.Json.{Runtime, Fields}
use walkie_talk_server.Realtime.State.{Limits, bad_json, Message, failure, Queue, Net, Hub}
use walkie_talk_server.Realtime.Secrets.{Random, random_id}
use walkie_talk_server.Realtime.Send.{queue_size, close_client_send, send}
use walkie_talk_server.Realtime.Channels.{cleanup_expired_channels}
use walkie_talk_server.Realtime.Events.{Inputs, handle_event}
use walkie_talk_server.Realtime.Lifecycle.{add_client, remove_client}
use walkie_talk_server.Base.{
  ℕ, zero, suc, Bool, true, false, List, [], ◌∷◌, ◌++◌, Option, none, some, Text, lit, leb, length,
  if◌then◌else◌, is_empty,
}
use walkie_talk_server.Base.Dict.{insert}

-- What ReadMessage and the decoding of one message give: an error, no JSON envelope, or an envelope
-- with its event and decoded data.
pub data Incoming : Type 0 where
  read_error : Incoming
  not_json : Incoming
  envelope : Text → Fields → Incoming

-- The hub with its channels `register` and `unregister`.
pub record Lobby : Type 0 where
  pub hub : Hub
  pub registering : List Text
  pub unregistering : List Text

abbrev with_hub : Lobby → Hub → Lobby
with_hub b h = record b { hub = h }

-- The deferred end of ReadPump: to `unregister` if it has space, else a goroutine removes the client.
unfoldable pub leave_lobby : Text → Lobby → Lobby
leave_lobby sid b =
    if leb queue_size (length b.unregistering)
    then with_hub b (record b.hub {
      net = record b.hub.net {
        removals = b.hub.net.removals ++ record { sid = sid; reason = lit "disconnect" } ∷ [];
      };
    })
    else record b { unregistering = b.unregistering ++ sid ∷ [] }

-- One message that is no error.
unfoldable pub read_one : Limits → Runtime → Inputs → Text → Text → Fields → Hub → Hub
read_one l g o sid event fs h =
    if is_empty event
    then record h { net = send sid (failure bad_json) h.net }
    else handle_event l g o sid event fs h

-- ReadPump, message by message, with what each handler reads from outside; it ends at the first
-- error, or where the messages stop.
unfoldable pub read_pump : Limits → Runtime → Text → List (Inputs × Incoming) → Lobby → Lobby
unfolding leave_lobby read_one
read_pump l g sid [] b = b
read_pump l g sid ((o, read_error) ∷ more) b = leave_lobby sid b
read_pump l g sid ((o, not_json) ∷ more) b =
    read_pump l g sid more
      (with_hub b (record b.hub { net = send sid (failure bad_json) b.hub.net }))
read_pump l g sid ((o, envelope event fs) ∷ more) b =
    read_pump l g sid more (with_hub b (read_one l g o sid event fs b.hub))

-- What WritePump puts on the websocket.
pub data Outgoing : Type 0 where
  json_message : Message → Outgoing
  close_message : Outgoing
  ping_message : Outgoing

-- The case of WritePump that reads `Send`: nothing comes while the queue is open and empty.
unfoldable pub write_one : Queue → Queue × Option Outgoing
write_one q = elim q.buffer [
  | m ∷ ms ↦ (record q { buffer = ms }, some (json_message m))
  | [] ↦ (q, if q.closed then some close_message else none)
]

-- So many turns of WritePump without a ping and without an error of the websocket; it returns after
-- a close message, and waits where nothing comes.
unfoldable pub write_pump : ℕ → Queue → Queue × List Outgoing
unfolding write_one
write_pump zero q = (q, [])
write_pump (suc n) q =
    let rest = write_pump n (write_one q).0 in
    elim (write_one q).1 [
      | none ↦ (q, [])
      | some (json_message m) ↦ (rest.0, json_message m ∷ rest.1)
      | some o ↦ ((write_one q).0, o ∷ [])
    ]

-- What the select of WritePump chooses, and whether the write that follows succeeds. Its context is
-- that of handleWS, which is never cancelled.
pub data Choice : Type 0 where
  received : Bool → Choice
  ticked : Bool → Choice

-- WritePump by its choices: the queue, what it tries to write, and whether it has returned. Nothing
-- is received from a queue that is open and empty.
unfoldable pub write_loop : List Choice → Queue → Queue × List Outgoing × Bool
unfolding write_one
write_loop [] q = (q, [], false)
write_loop (received ok ∷ more) q =
    let rest = write_loop more (write_one q).0 in
    elim (write_one q).1 [
      | none ↦ rest
      | some (json_message m) ↦
          if ok
          then (rest.0, json_message m ∷ rest.1, rest.2)
          else ((write_one q).0, json_message m ∷ [], true)
      | some o ↦ ((write_one q).0, o ∷ [], true)
    ]
write_loop (ticked ok ∷ more) q =
    let rest = write_loop more q in
    if ok then (rest.0, ping_message ∷ rest.1, rest.2) else (q, ping_message ∷ [], true)

unfoldable pub register : Text → Lobby → Lobby
register sid b =
    if b.hub.core.closed
    then with_hub b (record b.hub { net = close_client_send sid b.hub.net })
    else if leb queue_size (length b.registering)
    then with_hub b (record b.hub { net = close_client_send sid b.hub.net })
    else record b { registering = b.registering ++ sid ∷ [] }

-- The cases of the select in Run. `now` and `shown_at` are readings of the clock.
pub data Wake : Type 0 where
  registration departure tick : Wake

unfoldable pub run_one : Limits → ℕ → ℕ → Wake → Lobby → Lobby
run_one l now shown_at registration b = elim b.registering [
  | [] ↦ b
  | sid ∷ sids ↦ record b { hub = add_client l sid b.hub; registering = sids }
]
run_one l now shown_at departure b = elim b.unregistering [
  | [] ↦ b
  | sid ∷ sids ↦ record b {
    hub = remove_client l now shown_at sid (lit "disconnect") b.hub;
    unregistering = sids;
  }
]
run_one l now shown_at tick b =
    with_hub b (cleanup_expired_channels l.channel_empty_ttl now shown_at b.hub)

-- handleWS of internal/api/server.go after the upgrade: a client with a new queue registers.
unfoldable pub new_client : Text → Net → Net
new_client sid n = record n {
  queues = insert sid (record { buffer = []; closed = false }) n.queues;
}

unfoldable pub handle_ws : Random → Lobby → Text × Lobby
unfolding new_client random_id
handle_ws r b =
    let sid = random_id (lit "sid_") r in
    (sid, register sid (with_hub b (record b.hub { net = new_client sid b.hub.net })))
