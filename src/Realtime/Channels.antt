-- ===== src/Realtime/Channels.antt =====
-- Channels in internal/realtime/hub.go: members, expiry and snapshots.
use walkie_talk_server.Realtime.State.{
  User, RoomMember, unset, public, private, ChannelState, Message, channels_state, channels_expired,
  Core, Net, Hub, members_of,
}
use walkie_talk_server.Realtime.Send.{broadcast_all}
use walkie_talk_server.Base.{
  ℕ, ◌+◌, ◌-◌, ◌/◌, Bool, true, false, not, ◌&&◌, List, [], ◌∷◌, Option, none, some, Text, ltb, leb,
  ◌==◌, if◌then◌else◌, is_empty, length,
}
use walkie_talk_server.Base.Dict.{lookup, insert, remove}
use walkie_talk_server.Base.KeySet.{has, is_nil}
use walkie_talk_server.Base.Sort.{text_lt, sort}

-- membersLocked: the members with a user, in the order of their sessions.
unfoldable pub named : List (Text × User) → List Text → List RoomMember
named users [] = []
named users (sid ∷ sids) = elim (lookup sid users) [
  | none ↦ named users sids
  | some u ↦ record { sid = sid; name = u.name } ∷ named users sids
]

unfoldable pub members_locked : Text → Core → List RoomMember
members_locked room c = named c.users (sort text_lt (members_of room c.rooms))

unfoldable pub is_room_member : Text → Text → Core → Bool
is_room_member room sid c = has sid (members_of room c.rooms)

-- A channel that is made where there is none, with no owner.
unfoldable pub unowned : Text → ℕ → ChannelState
unowned room now = record {
  name = room;
  visibility = public;
  is_private = false;
  user_count = 0;
  members = [];
  owner_name = [];
  has_pin = false;
  created_at = now;
  last_active = now;
  empty_since = none;
  expires_at = none;
  ttl_remaining_seconds = 0;
  owner_sid = [];
  invite_code = [];
  pin_hash = [];
}

unfoldable pub channel_or_new : Text → ℕ → Core → ChannelState
channel_or_new room now c = elim (lookup room c.channels) [ none ↦ unowned room now | some s ↦ s ]

-- What touchChannelLocked does to the channel of a room with `count` members.
unfoldable pub touched : ℕ → ℕ → ChannelState → ChannelState
touched count now s = record s {
  user_count = count;
  last_active = now;
  empty_since = none;
  expires_at = none;
}

unfoldable pub touch_channel : Text → ℕ → Core → Core
touch_channel room now c = if is_empty room then c else record c {
  channels =
      insert room (touched (length (members_of room c.rooms)) now (channel_or_new room now c))
        c.channels;
}

abbrev pub since : Option ℕ → ℕ → ℕ
since none now = now
since (some t) now = t

-- What markChannelEmptyLocked does to the channel: the first mark stays.
unfoldable pub emptied : ℕ → ℕ → ChannelState → ChannelState
emptied ttl now s = record s {
  user_count = 0;
  last_active = now;
  empty_since = some (since s.empty_since now);
  expires_at = some (since s.empty_since now + ttl);
}

unfoldable pub mark_channel_empty : ℕ → Text → ℕ → Core → Core
mark_channel_empty ttl room now c = if is_empty room then c else record c {
  channels = insert room (emptied ttl now (channel_or_new room now c)) c.channels;
}

-- The test of CleanupExpiredChannels for one channel.
unfoldable pub is_expired : ℕ → ℕ → List (Text × List Text) → Text × ChannelState → Bool
is_expired ttl now rooms (room, s) = elim s.empty_since [
  | none ↦ false
  | some t ↦ is_nil (members_of room rooms) && leb (t + ttl) now
]

unfoldable pub drop_channel : Text → Core → Core
drop_channel room c = record c {
  channels = remove room c.channels;
  rooms = remove room c.rooms;
  screens = remove room c.screens;
}

-- The loop over the channels that were there at the start; it returns the rooms that it dropped.
unfoldable pub sweep : ℕ → ℕ → List (Text × ChannelState) → Core → Core × List Text
sweep ttl now [] c = (c, [])
sweep ttl now (e ∷ es) c =
    let r = sweep ttl now es (if is_expired ttl now c.rooms e then drop_channel e.0 c else c) in
    (r.0, if is_expired ttl now c.rooms e then e.0 ∷ r.1 else r.1)

abbrev pub second : ℕ
second = 1000000000

-- One entry of channelsSnapshotLocked. Times of channels are not the zero time.
unfoldable pub snapshot_entry : ℕ → ℕ → Core → Text × ChannelState → ChannelState
snapshot_entry ttl now c (room, s) =
    let count = length (members_of room c.rooms) in
    let shown : ChannelState = record s {
      name = room;
      visibility = elim s.visibility [ unset ↦ public | public ↦ public | private ↦ private ];
      is_private = elim s.visibility [ unset ↦ false | public ↦ false | private ↦ true ];
      user_count = count;
      members = members_locked room c;
      invite_code = [];
      pin_hash = [];
      owner_sid = [];
    } in
    elim (if count == 0 then s.empty_since else none) [
      | none ↦ record shown { empty_since = none; expires_at = none; ttl_remaining_seconds = 0 }
      | some t ↦ record shown {
        expires_at = some (t + ttl);
        ttl_remaining_seconds = (t + ttl - now) / second;
      }
    ]

-- The order of the channel list: more users, then more recent, then the name.
unfoldable pub listed_before : ChannelState → ChannelState → Bool
listed_before a b =
    if not (a.user_count == b.user_count)
    then ltb b.user_count a.user_count
    else if not (a.last_active == b.last_active)
    then ltb b.last_active a.last_active
    else text_lt a.name b.name

unfoldable pub snapshot_entries : ℕ → ℕ → Core → List (Text × ChannelState) → List ChannelState
snapshot_entries ttl now c [] = []
snapshot_entries ttl now c (e ∷ es) = snapshot_entry ttl now c e ∷ snapshot_entries ttl now c es

unfoldable pub channels_snapshot : ℕ → ℕ → Core → List ChannelState
channels_snapshot ttl now c = sort listed_before (snapshot_entries ttl now c c.channels)

unfoldable pub channel_payload : ℕ → ℕ → Core → Message
channel_payload ttl now c = channels_state (channels_snapshot ttl now c) (ttl / second)

unfoldable pub broadcast_channels_state : ℕ → ℕ → Core → Net → Net
broadcast_channels_state ttl now c n = broadcast_all (channel_payload ttl now c) n

-- `shown_at` is the time of the snapshot that is sent.
unfoldable pub cleanup_expired_channels : ℕ → ℕ → ℕ → Hub → Hub
cleanup_expired_channels ttl now shown_at h =
    let r = sweep ttl now h.core.channels h.core in
    if is_nil r.1 then record h { core = r.0 } else record h {
      core = r.0;
      net = broadcast_channels_state ttl shown_at r.0 (broadcast_all (channels_expired r.1) h.net);
    }
