-- ===== src/Server/Program.antt =====
-- main of cmd/server/main.go: the hub and the server that it makes of one rate store, and what their
-- goroutines do.
use walkie_talk_server.Base.{ℕ, List, [], ◌∷◌, Option, none, some, Text}
use walkie_talk_server.Store.{RateStore}
use walkie_talk_server.Json.{Runtime}
use walkie_talk_server.Config.Load.{Config}
use walkie_talk_server.Realtime.State.{Limits, Queue, Net, Hub}
use walkie_talk_server.Realtime.QualityLoop.{quality_round, quality_timeout}
use walkie_talk_server.Realtime.Interleaving.{new_core}
use walkie_talk_server.Realtime.Events.{Inputs}
use walkie_talk_server.Realtime.Lifecycle.{remove_client, close}
use walkie_talk_server.Realtime.Pumps.{Incoming, read_pump, write_one, Wake, run_one}
use walkie_talk_server.Api.ZoneValues.{Library}
use walkie_talk_server.Api.Serve.{Server, Call, new_server, serve}
use walkie_talk_server.Base.Dict.{lookup, insert}

-- NewHub with the rate store.
unfoldable pub new_hub : RateStore → Hub
unfolding new_core
new_hub rate = record {
  core = new_core;
  net = record { clients = []; queues = []; removals = [] };
  rate = rate;
}

-- What main has made when it starts to listen.
unfoldable pub start : ℕ → RateStore → Server
unfolding new_server new_hub
start now rate =
    new_server now (record { hub = new_hub rate; registering = []; unregistering = [] })

-- What happens next: ReadPump of a session takes a message, Run wakes up, a goroutine removes a
-- client, a request is served, the loop of the quality of a session turns or one of its timers ends,
-- WritePump of a session writes, or main closes the hub.
pub data Move : Type 0 where
  incoming : Text → Inputs → Incoming → Move
  woken : ℕ → ℕ → Wake → Move
  removed : ℕ → ℕ → Text → Text → Move
  request : Call → Move
  measured : Text → ℕ → Text → Move
  timed_out : Text → Text → Move
  written : Text → Move
  closing : Move

abbrev pub with_hub : Server → Hub → Server
with_hub s h = record s { lobby = record s.lobby { hub = h } }

abbrev rest_of : Option Queue → Text → Net → Net
rest_of none sid n = n
rest_of (some q) sid n = record n { queues = insert sid (write_one q).0 n.queues }

module _ (r : Runtime) (g : Library) (l : Limits) (c : Config) where
  unfoldable pub step : Move → Server → Server
  step (incoming sid o m) s = record s { lobby = read_pump l r sid ((o, m) ∷ []) s.lobby }
  step (woken now shown_at w) s = record s { lobby = run_one l now shown_at w s.lobby }
  step (removed now shown_at sid reason) s =
      with_hub s (remove_client l now shown_at sid reason s.lobby.hub)
  step (request q) s = (serve g l c q s).1
  step (measured nonce now sid) s = with_hub s (quality_round nonce now sid s.lobby.hub)
  step (timed_out nonce sid) s = with_hub s (quality_timeout r.float nonce sid s.lobby.hub)
  step (written sid) s =
      with_hub s (record s.lobby.hub {
        net = rest_of (lookup sid s.lobby.hub.net.queues) sid s.lobby.hub.net;
      })
  step closing s = with_hub s (close s.lobby.hub)

  unfoldable pub run : List Move → Server → Server
  unfolding step
  run [] s = s
  run (m ∷ ms) s = run ms (step m s)
