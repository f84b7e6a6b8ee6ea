-- ===== src/Tests/Program.antt =====
-- The whole program: cmd/server/main.go with the hub and the server.
use walkie_talk_server.Config.Load.{Config, load}
use walkie_talk_server.Api.Public.{cors, routes, any_origin}
use walkie_talk_server.Api.Serve.{Server, Call, serve, upgraded, answered}
use walkie_talk_server.Api.Served
use walkie_talk_server.Api.Served.{Kept, MayWrite, is_discreet}
use walkie_talk_server.Api.Origins
use walkie_talk_server.Api.Origins.{origin_of, is_listed}
use walkie_talk_server.Realtime.State.{members_of}
use walkie_talk_server.Realtime.Keyed.{IsKeyed}
use walkie_talk_server.Realtime.Pumps.{envelope}
use walkie_talk_server.Realtime.Interleaving.{World, Reach, start_world}
use walkie_talk_server.Server.Program.{Move, incoming, request, written, start, run}
use walkie_talk_server.Server.KeepAlive.{Address, ping}
use walkie_talk_server.Server.Pinged
use walkie_talk_server.Api.Access.{client_ip}
use walkie_talk_server.Store.{check}
use walkie_talk_server.Server.Limited
use walkie_talk_server.Server.Limited.{voices}
use walkie_talk_server.Server.Refined
use walkie_talk_server.Store.Bound.{in_span}
use walkie_talk_server.Tests.Settings.{lists}
use walkie_talk_server.Tests.Zones.{library, bytes, call, accepting}
use walkie_talk_server.Tests.Samples.{
  runtime, inputs, outside_reads, limits, store, two, hub, ann, bob, voice, join_lobby,
}
use walkie_talk_server.Base.{
  ℕ, ◌≤◌, ◌≡◌, ◌⊎◌, refl, true, ◌||◌, List, [], ◌∷◌, ◌++◌, if◌then◌else◌, inl, none, some, lit,
  is_empty, length, arith, text_dec,
}
use walkie_talk_server.Base.KeySet.{has, Distinct}

abbrev config : Config
config = load lists (lit "abc")

abbrev posted : Call
posted = record {
  request = call;
  now = 9;
  outside = outside_reads;
  probe = record {
    now = 9;
    shown_at = 9;
    redis_ok = true;
    supabase = record { status = 200; body = []; error = none };
  };
  pinged = true;
  random = none;
  body = bytes;
  upgrades = true;
  save = accepting;
  find = λ q. record { status = 200; body = []; error = none };
  delete = λ z d. record { status = 200; body = []; error = none };
}

abbrev server : Server
server = record {
  lobby = record { hub = hub two; registering = []; unregistering = [] };
  start = 1;
  cache = none;
}

serve-hub_example :
    Kept library limits config posted server (serve library limits config posted server)
    × MayWrite library limits config posted server (serve library limits config posted server).0
unfolding routes text_dec
serve-hub_example = Served.serve-hub library limits config posted server (λ e. cc)

serve-is_discreet_example :
    is_discreet library limits config posted server (serve library limits config posted server).0
    ≡ true
serve-is_discreet_example = Served.serve-is_discreet library limits config posted server

serve-origins_example :
    ((cors config.cors_origins call).allow_origin ≡ some (lit "*")
      → ((◌≡◌ (lit "*") (lit "*")) × (any_origin config.cors_origins ≡ true))
        ⊎ ((lit "*" ≡ origin_of call) × (has (origin_of call) config.cors_origins ≡ true)))
    × ((serve library limits config posted server).0 ≡ upgraded ann
        → (is_empty (origin_of call) || is_listed config.cors_origins (origin_of call)) ≡ true)
serve-origins_example = Origins.serve-origins library limits config posted server (lit "*") ann

-- Ann speaks twice, with a request and a read of Bob in between.
abbrev moves : List Move
moves =
    incoming ann inputs (envelope (lit "voice_message") voice)
    ∷ request posted
    ∷ written bob
    ∷ incoming ann inputs (envelope (lit "voice_message") voice)
    ∷ []

voices_window_example :
    in_span 4 10000000000 3 (voices runtime library limits config (lit "a") moves server) ≤ 4
voices_window_example =
    Limited.voices_window runtime library limits config (lit "a") moves server refl refl
      (omega arith) (omega arith) 3

abbrev joined : List Move
joined =
    incoming ann inputs (envelope (lit "join") join_lobby)
    ∷ incoming bob inputs (envelope (lit "join") join_lobby)
    ∷ request posted
    ∷ []

run-reaches_example :
    let core = (run runtime library limits config joined (start 1 store)).lobby.hub.core in
    ((w : World) × Reach limits runtime start_world w × (w.core ≡ core))
    × IsKeyed core
    × ((a b s : List ℕ)
        → (length (members_of a core.rooms) ≤ 2)
          × Distinct (members_of a core.rooms)
          × (has s (members_of a core.rooms) ≡ true
              → has s (members_of b core.rooms) ≡ true
              → a ≡ b))
run-reaches_example =
    Refined.run-reaches runtime library limits config joined 1 store (refl, (refl, (tt, tt)))
      (omega arith)

-- What net/url makes of the address of a server that has the hook at its usual path.
abbrev address : Address
address = record { path_of = λ s. lit "/webhook/keepalive"; query_of = λ s k. [] }

ping-accepted_example :
    let r = ping address config (lit "10.0.0.1") (lit "startup") in
    (serve library limits config (record posted { request = r }) server).0
    ≡ answered (
        if (check outside_reads (lit "keepalive:" ++ client_ip r) 180 60000000000 store).1
        then 200
        else 429)
unfolding ping
ping-accepted_example =
    Pinged.ping-accepted lists (lit "abc") library limits address (lit "10.0.0.1") (lit "startup")
      posted server (inl refl)
