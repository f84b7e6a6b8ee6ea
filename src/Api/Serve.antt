-- ===== src/Api/Serve.antt =====
-- internal/api/server.go: the server with its handlers behind Routes and cors.
use walkie_talk_server.Base.{
  ℕ, ◌-◌, ◌/◌, Bool, true, false, not, ◌&&◌, List, Option, none, some, Text, lit, if◌then◌else◌,
  is_empty,
}
use walkie_talk_server.Store.{RateStore, Outside, Stats, stats, redis_ok}
use walkie_talk_server.Json.{Value}
use walkie_talk_server.Config.Load.{Config}
use walkie_talk_server.Realtime.State.{
  Limits, ChannelState, Message, zone_updated, zone_deleted, Net,
}
use walkie_talk_server.Realtime.Secrets.{Random}
use walkie_talk_server.Realtime.Send.{broadcast_all}
use walkie_talk_server.Realtime.Channels.{second, channels_snapshot}
use walkie_talk_server.Realtime.Status.{HubStats, hub_stats, Health, handle_health}
use walkie_talk_server.Realtime.Pumps.{Lobby, handle_ws}
use walkie_talk_server.Api.Supabase.{Answer}
use walkie_talk_server.Api.Access.{
  Request, origin_allowed, handle_keep_alive_webhook, handle_zone_by_id,
}
use walkie_talk_server.Api.ZoneValues.{Library}
use walkie_talk_server.Api.ZoneValues
use walkie_talk_server.Api.Zones.{
  Zone, zone_map, post_zone_request, Found, get_zones, list_zones, write_zone, answer_with,
  handle_zones,
}
use walkie_talk_server.Api.Ready.{Report, Origin, Cache, Probe, cached_at, handle_ready}
use walkie_talk_server.Api.Ready
use walkie_talk_server.Api.Public.{
  StatsReply, Features, handle_root, handle_stats, handle_channels, TokenReply,
  handle_mapbox_config, handle_ai_disabled, handle_socket_io_migration_notice, cors, Handler, root,
  health, ready, keep_alive, mapbox, channels_list, ai_disabled, all_zones, zone_by_id, web_socket,
  socket_io, routes,
}

-- The state of the server: the hub with the channels of Run, whose `rate` is the rate store of the
-- server too, the time of its start, and the cache of handleReady.
pub record Server : Type 0 where
  pub lobby : Lobby
  pub start : ℕ
  pub cache : Option Cache

-- NewServer; the client and the upgrader that it makes are outside.
unfoldable pub new_server : ℕ → Lobby → Server
new_server start b = record { lobby = b; start = start; cache = none }

-- The settings of the two handlers that have records of their own. The window is that of the hub.
unfoldable pub zone_settings : Limits → Config → ZoneValues.Settings
zone_settings l c = record {
  max_room_len = c.max_room_len;
  zone_ttl = c.zone_ttl;
  max_zone_read_rate = c.max_zone_read_rate;
  max_zone_write_rate = c.max_zone_write_rate;
  msg_rate_window = l.msg_rate_window;
  zone_write_requires_api_key = c.zone_write_requires_api_key;
  public_api_key = c.public_api_key;
}

unfoldable pub ready_settings : Config → Ready.Settings
ready_settings c = record {
  instance_id = c.instance_id;
  readiness_cache_ttl = c.readiness_cache_ttl;
  redis_enabled = c.redis_enabled;
  redis_url = c.redis_url;
  supabase_url = c.supabase_url;
  supabase_key = c.supabase_key;
  mapbox_access_token = c.mapbox_access_token;
}

-- A request with what its handler reads from outside: the clock, the rate store, random bytes, the
-- bytes of the body, whether the websocket library upgrades it, and what Supabase answers.
pub record Call : Type 0 where
  pub request : Request
  pub now : ℕ
  pub outside : Outside
  pub probe : Probe
  pub pinged : Bool
  pub random : Random
  pub body : List ℕ
  pub upgrades : Bool
  pub save : List (Text × Value) → Answer
  pub find : List (Text × Text) → Answer
  pub delete : Text → Text → Answer

-- The response: a status whose body is a fixed text or an error, or what the handler shows.
pub data Response : Type 0 where
  answered : ℕ → Response
  shown_root : ℕ × Option Features → Response
  shown_health : Health → Response
  shown_readiness : Report × Origin → Response
  shown_stats : ℕ × Option (StatsReply HubStats Stats) → Response
  shown_channels : ℕ × Option (List ChannelState × ℕ) → Response
  shown_token : TokenReply → Response
  shown_zones : Found → Response
  shown_zone : ℕ → Text → Option Zone → Response
  shown_deletion : ℕ × Option (Text × Text) → Response
  upgraded : Text → Response
  not_upgraded : Response

-- What the response tells all clients.
unfoldable pub told : Response → Option Message
told (shown_zone status error (some z)) = some (zone_updated (zone_map z))
told (shown_deletion (status, some (zone, device))) = some (zone_deleted zone device)
told r = none

unfoldable pub tell : Option Message → Net → Net
tell none n = n
tell (some m) n = broadcast_all m n

-- The hub of the server with a rate store, and with what clients are told.
abbrev pub with_rate : Server → RateStore → Server
with_rate s rate = record s { lobby = record s.lobby { hub = record s.lobby.hub { rate = rate } } }

abbrev pub with_net : Server → Net → Server
with_net s n = record s { lobby = record s.lobby { hub = record s.lobby.hub { net = n } } }

abbrev is_missing : Option Report → Bool
is_missing none = true
is_missing (some r) = false

module _ (g : Library) (l : Limits) (c : Config) where
  -- handleReady with the ping of RedisOK, which a request makes that finds no report in the cache.
  unfoldable pub serve_ready : Call → Server → Response × Server
  unfolding ready_settings
  serve_ready q s =
      let t = ready_settings c in
      let asks =
        is_missing (cached_at t q.probe.now s.cache)
        && (c.redis_enabled && not (is_empty c.redis_url)) in
      let p = redis_ok q.outside.asked_at q.outside.failed_at q.pinged s.lobby.hub.rate in
      let d = handle_ready t s.start (record q.probe { redis_ok = p.1 }) s.cache in
      (shown_readiness d.0, record (if asks then with_rate s p.0 else s) { cache = d.1 })

  unfoldable pub serve_zones : Call → Server → Response × Server
  unfolding zone_settings tell told
  serve_zones q s =
      let t = zone_settings l c in
      elim (handle_zones t q.request) [
        | answer_with status ↦ (answered status, s)
        | list_zones ↦
            let d = get_zones g t q.outside q.find q.request s.lobby.hub.rate in
            (shown_zones d.0, with_rate s d.2)
        | write_zone ↦
            let d =
              post_zone_request g t q.outside q.save q.random q.request q.body s.lobby.hub.rate in
            let r = shown_zone d.status d.error d.told in
            (r, with_net (with_rate s d.rate) (tell (told r) s.lobby.hub.net))
      ]

  unfoldable pub serve_zone_by_id : Call → Server → Response × Server
  unfolding tell told
  serve_zone_by_id q s =
      let d = handle_zone_by_id q.delete c.zone_write_requires_api_key c.public_api_key q.request in
      let r = shown_deletion d in (r, with_net s (tell (told r) s.lobby.hub.net))

  -- The upgrader asks originAllowed.
  unfoldable pub serve_ws : Call → Server → Response × Server
  serve_ws q s =
      let d = handle_ws q.random s.lobby in
      if q.upgrades && origin_allowed c.cors_origins (q.request.header (lit "Origin"))
      then (upgraded d.0, record s { lobby = d.1 })
      else (not_upgraded, s)

  unfoldable pub dispatch : Handler → Call → Server → Response × Server
  unfolding serve_ready serve_zones serve_zone_by_id serve_ws
  dispatch root q s = (shown_root (handle_root c q.request), s)
  dispatch health q s = (shown_health (handle_health c s.start q.now s.lobby.hub), s)
  dispatch ready q s = serve_ready q s
  dispatch keep_alive q s =
      let d =
        handle_keep_alive_webhook g.unicode q.outside c.keep_alive_token q.request
          s.lobby.hub.rate in
      (answered d.0, with_rate s d.1)
  dispatch Handler.stats q s = (
    shown_stats (
        handle_stats (hub_stats c.instance_id c.channel_empty_ttl q.now s.lobby.hub.core)
          (stats q.now s.lobby.hub.rate) c.public_api_key c.supabase_url c.supabase_key
          c.mapbox_access_token ((q.now - s.start) / second) q.request),
    s,
  )
  dispatch mapbox q s = (
    shown_token (
        handle_mapbox_config c.mapbox_access_token c.mapbox_standard_style
          c.mapbox_standard_satellite_style c.public_config_cache_secs),
    s,
  )
  dispatch channels_list q s =
      let d =
        handle_channels (channels_snapshot c.channel_empty_ttl q.now s.lobby.hub.core)
          (c.channel_empty_ttl / second) c.max_zone_read_rate l.msg_rate_window q.outside q.request
          s.lobby.hub.rate in
      (shown_channels d.0, with_rate s d.1)
  dispatch ai_disabled q s = (answered (handle_ai_disabled q.request), s)
  dispatch all_zones q s = serve_zones q s
  dispatch zone_by_id q s = serve_zone_by_id q s
  dispatch web_socket q s = serve_ws q s
  dispatch socket_io q s = (answered (handle_socket_io_migration_notice q.request), s)

  -- Routes with cors, which answers a preflight itself.
  unfoldable pub serve : Call → Server → Response × Server
  serve q s =
      if (cors c.cors_origins q.request).is_passed_on
      then dispatch (routes q.request.path) q s
      else (answered 204, s)
