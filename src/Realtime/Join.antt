-- ===== src/Realtime/Join.antt =====
-- Joining, leaving and renaming: leaveNoBroadcast of internal/realtime/hub.go, and handleJoin,
-- handleLeave and handleUpdateName of internal/realtime/events.go.
use walkie_talk_server.Json.{Runtime, Fields, any_string, get}
use walkie_talk_server.Realtime.State.{
  Limits, User, RoomMember, Visibility, unset, public, private, RoomState, Failure, bad_channel,
  room_full, private_channel, failure, peer_left, peer_joined, peer_name_updated, room_state, Core,
  Net, Hub, members_of,
}
use walkie_talk_server.Realtime.Secrets.{Random}
use walkie_talk_server.Realtime.Send.{send, broadcast}
use walkie_talk_server.Realtime.Channels.{
  touch_channel, mark_channel_empty, is_room_member, members_locked, broadcast_channels_state,
}
use walkie_talk_server.Realtime.Admission.{prepare_channel_join, wants_private}
use walkie_talk_server.Util.Sanitize.{clean_room, clean_name}
use walkie_talk_server.Util.Runes.{take_bytes}
use walkie_talk_server.Base.{
  ℕ, Bool, true, false, not, ◌&&◌, List, [], none, some, Text, lit, leb, if◌then◌else◌, is_empty,
  length, byte_len,
}
use walkie_talk_server.Base.Dict.{lookup, insert, remove}
use walkie_talk_server.Base.KeySet.{add, del, same, is_nil}

-- sidPrefix; sessions are ASCII texts.
unfoldable pub sid_prefix : Text → Text
sid_prefix sid = if leb (byte_len sid) 6 then sid else take_bytes 6 sid

-- roomName: the room and the name of a session; no room if it has no user.
unfoldable pub room_name : Text → Core → Text × Text
room_name sid c = elim (lookup sid c.users) [
  | none ↦ ([], sid_prefix sid)
  | some u ↦ (u.room, u.name)
]

-- What leaveNoBroadcast does to the room and the channel, for the members `sids` of the room.
unfoldable pub leave_room : ℕ → Text → Text → ℕ → List Text → Core → Core
leave_room ttl room sid now sids c =
    if is_nil (del sid sids)
    then mark_channel_empty ttl room now (record c { rooms = remove room c.rooms })
    else touch_channel room now (record c { rooms = insert room (del sid sids) c.rooms })

unfoldable pub leave_current : ℕ → Text → ℕ → User → Core → Core
leave_current ttl sid now u c = elim (lookup u.room c.rooms) [
  | none ↦ c
  | some sids ↦ leave_room ttl u.room sid now sids c
]

unfoldable pub without_user : Text → Core → Core
without_user sid c = record c { users = remove sid c.users }

-- leaveNoBroadcast on the state; what it returns is `room_name` before.
unfoldable pub leave_no_broadcast : ℕ → Text → ℕ → Core → Core
leave_no_broadcast ttl sid now c = elim (lookup sid c.users) [
  | none ↦ c
  | some u ↦ without_user sid (leave_current ttl sid now u c)
]

-- The first locked part of handleJoin. `refused` carries the error.
pub data Check : Type 0 where
  go_on : Check
  refused : Failure → Check

unfoldable pub join_check :
    Limits → Runtime → Random → Random → Text → Text → Text → Fields → ℕ → Core → Core × Check
join_check l g r r' room sid name fs now c =
    let p = prepare_channel_join g r r' room sid name fs now c in
    (
      p.0,
      if not p.1
          then refused (private_channel room)
          else if not (is_room_member room sid p.0)
              && leb l.max_room_size (length (members_of room p.0.rooms))
          then refused room_full
          else go_on,
    )

-- The last locked part of handleJoin, on the state: `rooms[room]` is made if it is not there.
unfoldable pub open_room : Text → Core → Core
open_room room c = elim (lookup room c.rooms) [
  | none ↦ record c { rooms = insert room [] c.rooms }
  | some sids ↦ c
]

unfoldable pub enter : Text → Text → Text → ℕ → Core → Core
enter room sid name now c = touch_channel room now (record c {
  rooms = insert room (add sid (members_of room c.rooms)) c.rooms;
  users = insert sid (record { name = name; room = room; joined_at = now }) c.users;
})

unfoldable pub join_commit : Limits → Text → Text → Text → ℕ → Core → Core × Bool
join_commit l room sid name now c =
    let o = open_room room c in
    if leb l.max_room_size (length (members_of room o.rooms))
    then (o, false)
    else (enter room sid name now o, true)

abbrev shown_state : Text → List RoomMember → Visibility → Bool → Text → Bool → RoomState
shown_state room members v owner code pin = record {
  room = room;
  members = members;
  user_count = length members;
  visibility = elim v [ unset ↦ public | public ↦ public | private ↦ private ];
  is_private = wants_private v;
  owner = owner;
  invite_code = code;
  has_pin = pin;
}

-- What the joiner is told: the invite code only if it owns a private channel.
unfoldable pub room_state_of : Text → Text → Core → RoomState
room_state_of room sid c = elim (lookup room c.channels) [
  | none ↦ shown_state room (members_locked room c) public false [] false
  | some s ↦
      shown_state room (members_locked room c) s.visibility (same s.owner_sid sid)
        (if same s.owner_sid sid && wants_private s.visibility then s.invite_code else []) s.has_pin
]

-- The readings of the clock and of the random source in one call.
pub record Readings : Type 0 where
  pub now : ℕ
  pub left_at : ℕ
  pub shown_at : ℕ
  pub code : Random
  pub spare_code : Random

-- The messages after a join that went through.
unfoldable pub announce_join : Limits → Readings → Text → Text → Text → Core → Net → Net
announce_join l t room sid name c n = broadcast_channels_state l.channel_empty_ttl t.shown_at c (
    send sid (room_state (room_state_of room sid c))
      (broadcast room (peer_joined sid name) sid c n))

-- handleJoin from `leaveNoBroadcast` on; `c` is the state after the first locked part.
unfoldable pub join_rest : Limits → Readings → Text → Text → Text → Core → Hub → Hub
join_rest l t room sid name c h =
    let old = room_name sid c in
    let left = leave_no_broadcast l.channel_empty_ttl sid t.left_at c in
    let net =
      if not (is_empty old.0) && not (same old.0 room)
      then broadcast old.0 (peer_left sid old.1) sid left h.net
      else h.net in
    let r = join_commit l room sid name t.now left in
    record h {
      core = r.0;
      net =
          if r.1 then announce_join l t room sid name r.0 net else send sid (failure room_full) net;
    }

unfoldable pub handle_join : Limits → Runtime → Readings → Text → Fields → Hub → Hub
handle_join l g t sid fs h =
    let room = clean_room g.unicode (any_string g (get (lit "room") fs)) l.max_room_len in
    let name =
      clean_name g.unicode (any_string g (get (lit "name") fs)) (sid_prefix sid) l.max_name_len in
    let r = join_check l g t.code t.spare_code room sid name fs t.now h.core in
    if is_empty room then record h { net = send sid (failure bad_channel) h.net } else elim r.1 [
      | refused f ↦ record h { core = r.0; net = send sid (failure f) h.net }
      | go_on ↦ join_rest l t room sid name r.0 h
    ]

unfoldable pub handle_leave : Limits → Readings → Text → Hub → Hub
handle_leave l t sid h =
    let old = room_name sid h.core in
    let left = leave_no_broadcast l.channel_empty_ttl sid t.now h.core in
    record h {
      core = left;
      net =
          if is_empty old.0
          then h.net
          else broadcast_channels_state l.channel_empty_ttl t.shown_at left
              (broadcast old.0 (peer_left sid old.1) sid left h.net);
    }

unfoldable pub rename : Text → Text → Core → Core
rename sid name c = elim (lookup sid c.users) [
  | none ↦ c
  | some u ↦ record c { users = insert sid (record u { name = name }) c.users }
]

unfoldable pub handle_update_name : Limits → Runtime → Readings → Text → Fields → Hub → Hub
handle_update_name l g t sid fs h =
    let name = clean_name g.unicode (any_string g (get (lit "name") fs)) [] l.max_name_len in
    let room = (room_name sid h.core).0 in
    let c = rename sid name h.core in
    if is_empty name then h else record h {
      core = c;
      net =
          if is_empty room
          then h.net
          else broadcast_channels_state l.channel_empty_ttl t.shown_at c
              (broadcast room (peer_name_updated sid name) sid c h.net);
    }
