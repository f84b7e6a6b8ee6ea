-- ===== src/Api/Public.antt =====
-- internal/api/server.go: the handlers without a state of their own, cors and Routes.
use walkie_talk_server.Base.{
  ℕ, ◌*◌, ◌/◌, Bool, false, not, ◌&&◌, ◌||◌, List, [], ◌∷◌, ◌++◌, Option, none, some, Text, lit,
  if◌then◌else◌, is_empty,
}
use walkie_talk_server.Base.KeySet.{same}
use walkie_talk_server.Util.Runes.{has_prefix}
use walkie_talk_server.Config.Load.{Config, second}
use walkie_talk_server.Store.{RateStore, Outside, check}
use walkie_talk_server.Api.Access.{Request, authorized, client_ip, origin_allowed}

-- The entries of handleRoot that depend on the settings; the others are always the same.
pub record Features : Type 0 where
  pub channel_empty_expire_minutes : ℕ
  pub mapbox_env_config : Bool
  pub zone_write_api_key_required : Bool
  pub keepalive_self_ping : Bool
  pub readiness_cache_seconds : ℕ

unfoldable pub handle_root : Config → Request → ℕ × Option Features
handle_root c r = if not (same r.path (lit "/")) then (404, none) else (
  200,
  some record {
    channel_empty_expire_minutes = c.channel_empty_ttl / (60 * second);
    mapbox_env_config = not (is_empty c.mapbox_access_token);
    zone_write_api_key_required = c.zone_write_requires_api_key;
    keepalive_self_ping = c.keep_alive_enabled && not (is_empty c.keep_alive_url);
    readiness_cache_seconds = c.readiness_cache_ttl / second;
  },
)

-- What handleStats adds to the statistics of the hub.
pub record StatsReply (A B : Type 0) : Type 0 where
  pub hub : A
  pub uptime_s : ℕ
  pub redis : B
  pub supabase_enabled : Bool
  pub mapbox_enabled : Bool

-- The status, and the statistics of the hub and of the rate store where they are given.
module _ {A B : Type 0} (hub_stats : A) (rate_stats : B) where
  unfoldable pub handle_stats :
      Text → Text → Text → Text → ℕ → Request → ℕ × Option (StatsReply A B)
  handle_stats public_api_key supabase_url supabase_key mapbox_token uptime_s r =
      if not (authorized public_api_key r) then (401, none) else (
        200,
        some record {
          hub = hub_stats;
          uptime_s = uptime_s;
          redis = rate_stats;
          supabase_enabled = not (is_empty supabase_url) && not (is_empty supabase_key);
          mapbox_enabled = not (is_empty mapbox_token);
        },
      )

-- The status, and the channels with the seconds an empty one is kept, where they are given.
module _ {A : Type 0} (channels : A) (empty_ttl_seconds : ℕ) where
  unfoldable pub handle_channels :
      ℕ → ℕ → Outside → Request → RateStore → (ℕ × Option (A × ℕ)) × RateStore
  handle_channels max_zone_read_rate msg_rate_window o r rate =
      let c =
        check o (lit "channels_read:" ++ client_ip r) max_zone_read_rate msg_rate_window rate in
      if not (same r.method (lit "GET"))
      then ((405, none), rate)
      else if not c.1
      then ((429, none), c.0)
      else ((200, some (channels, empty_ttl_seconds)), c.0)

-- The styles of the map in the response, with the default one.
pub record Styles : Type 0 where
  pub standard : Text
  pub standard_satellite : Text
  pub default_style : Text

-- The status, how many seconds caches may keep the response (none for no-store), the token and the
-- styles.
pub record TokenReply : Type 0 where
  pub status : ℕ
  pub max_age : Option ℕ
  pub token : Option Text
  pub styles : Option Styles

unfoldable pub handle_mapbox_config : Text → Text → Text → ℕ → TokenReply
handle_mapbox_config token standard standard_satellite secs =
    if is_empty token
    then record { status = 503; max_age = none; token = none; styles = none }
    else if has_prefix (lit "sk.") token
    then record { status = 500; max_age = none; token = none; styles = none }
    else record {
      status = 200;
      max_age = some secs;
      token = some token;
      styles = some record {
        standard = standard;
        standard_satellite = standard_satellite;
        default_style = lit "standard";
      };
    }

-- handleAIDisabled and handleSocketIOMigrationNotice.
unfoldable pub handle_ai_disabled : Request → ℕ
handle_ai_disabled r = 410

unfoldable pub handle_socket_io_migration_notice : Request → ℕ
handle_socket_io_migration_notice r = 410

-- What cors sets, and whether it passes the request on; if not, it answers 204.
pub record CorsReply : Type 0 where
  pub allow_origin : Option Text
  pub vary : Bool
  pub is_passed_on : Bool

unfoldable pub any_origin : List Text → Bool
any_origin (o ∷ []) = same o (lit "*")
any_origin origins = false

unfoldable pub cors : List Text → Request → CorsReply
unfolding any_origin
cors origins r =
    let origin = r.header (lit "Origin") in
    let allowed = origin_allowed origins origin in
    record {
      allow_origin =
          if allowed
          then (if any_origin origins
              then some (lit "*")
              else if not (is_empty origin)
              then some origin
              else none)
          else none;
      vary = allowed;
      is_passed_on = not (same r.method (lit "OPTIONS"));
    }

-- The handler that Routes gives a path, by the longest pattern; a pattern that ends in `/` takes the
-- paths that start with it.
pub data Handler : Type 0 where
  root : Handler
  health : Handler
  ready : Handler
  keep_alive : Handler
  stats : Handler
  mapbox : Handler
  channels_list : Handler
  ai_disabled : Handler
  all_zones : Handler
  zone_by_id : Handler
  web_socket : Handler
  socket_io : Handler

unfoldable pub routes : Text → Handler
routes path =
    if same path (lit "/health")
    then health
    else if same path (lit "/ready")
    then ready
    else if same path (lit "/webhook/keepalive") || same path (lit "/hooks/keepalive")
    then keep_alive
    else if same path (lit "/stats")
    then stats
    else if same path (lit "/config/mapbox")
    then mapbox
    else if same path (lit "/channels")
    then channels_list
    else if same path (lit "/ai/chat")
    then ai_disabled
    else if same path (lit "/zones")
    then all_zones
    else if has_prefix (lit "/zones/") path
    then zone_by_id
    else if same path (lit "/ws")
    then web_socket
    else if same path (lit "/socket.io")
    then socket_io
    else root
