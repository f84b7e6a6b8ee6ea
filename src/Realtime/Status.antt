-- ===== src/Realtime/Status.antt =====
-- What internal/realtime/hub.go reports of itself: Stats, RoomsSnapshot, ScreensSnapshot,
-- ChannelsSnapshot, Members and SendChannelsState; and handleHealth of internal/api/server.go.
use walkie_talk_server.Store.{Stats, stats}
use walkie_talk_server.Config.Load.{Config}
use walkie_talk_server.Realtime.State.{RoomMember, ChannelState, ScreenState, Core, Net, Hub}
use walkie_talk_server.Realtime.Send.{send}
use walkie_talk_server.Realtime.Channels.{
  second, members_locked, channels_snapshot, channel_payload,
}
use walkie_talk_server.Base.{ℕ, ◌-◌, ◌/◌, Bool, not, ◌&&◌, List, [], ◌∷◌, Text, length, is_empty}

unfoldable pub rooms_snapshot : List (Text × List Text) → List (Text × ℕ)
rooms_snapshot [] = []
rooms_snapshot ((room, sids) ∷ rooms) = (room, length sids) ∷ rooms_snapshot rooms

unfoldable pub screens_snapshot : Core → List (Text × ScreenState)
screens_snapshot c = c.screens

unfoldable pub members : Text → Core → List RoomMember
members room c = members_locked room c

unfoldable pub send_channels_state : ℕ → ℕ → Text → Core → Net → Net
send_channels_state ttl now sid c n = send sid (channel_payload ttl now c) n

-- The map that Stats of the hub returns.
pub record HubStats : Type 0 where
  pub instance : Text
  pub local_users : ℕ
  pub local_rooms : List (Text × ℕ)
  pub channels : List ChannelState
  pub screen_shares : List (Text × ScreenState)
  pub quality_tasks : ℕ

unfoldable pub hub_stats : Text → ℕ → ℕ → Core → HubStats
unfolding rooms_snapshot
hub_stats instance_id ttl now c = record {
  instance = instance_id;
  local_users = length c.users;
  local_rooms = rooms_snapshot c.rooms;
  channels = channels_snapshot ttl now c;
  screen_shares = c.screens;
  quality_tasks = length c.quality;
}

-- The entries of handleHealth that are not the same at every call.
pub record Health : Type 0 where
  pub instance : Text
  pub connections : ℕ
  pub channels_count : ℕ
  pub redis : Stats
  pub supabase_configured : Bool
  pub mapbox_configured : Bool
  pub zone_write_api_key_required : Bool
  pub uptime_s : ℕ

unfoldable pub handle_health : Config → ℕ → ℕ → Hub → Health
unfolding hub_stats
handle_health c start now h = record {
  instance = c.instance_id;
  connections = (hub_stats c.instance_id c.channel_empty_ttl now h.core).local_users;
  channels_count = length (channels_snapshot c.channel_empty_ttl now h.core);
  redis = stats now h.rate;
  supabase_configured = not (is_empty c.supabase_url) && not (is_empty c.supabase_key);
  mapbox_configured = not (is_empty c.mapbox_access_token);
  zone_write_api_key_required = c.zone_write_requires_api_key;
  uptime_s = (now - start) / second;
}
