-- ===== src/Realtime/Admission.antt =====
-- prepareChannelJoinLocked of internal/realtime/hub.go: who may join a channel.
use walkie_talk_server.Json.{Runtime, Fields}
use walkie_talk_server.Realtime.State.{Visibility, unset, public, private, ChannelState, Core}
use walkie_talk_server.Realtime.Secrets.{
  Random, requested_visibility, new_channel_invite_code, pin_of, hash_channel_pin, opens,
}
use walkie_talk_server.Base.{
  ℕ, Bool, true, false, not, ◌&&◌, ◌||◌, [], none, some, Text, if◌then◌else◌, is_empty,
}
use walkie_talk_server.Base.Dict.{lookup, insert}
use walkie_talk_server.Base.KeySet.{same}
use walkie_talk_server.Realtime.Channels.{unowned, is_room_member}

-- A channel that its first joiner makes.
unfoldable pub new_channel :
    Runtime → Random → Random → Text → Text → Text → Fields → ℕ → ChannelState
new_channel g r r' room sid name fs now =
    let s : ChannelState = record (unowned room now) { owner_sid = sid; owner_name = name } in
    elim (requested_visibility g fs) [
      | unset ↦ s
      | public ↦ s
      | private ↦ record s {
        visibility = private;
        is_private = true;
        invite_code = new_channel_invite_code g r r';
        pin_hash = if is_empty (pin_of g fs) then [] else hash_channel_pin g (pin_of g fs);
        has_pin = not (is_empty (pin_of g fs));
      }
    ]

-- The repairs of a channel that is there: visibility, private flag, owner.
unfoldable pub repaired : Text → Text → ChannelState → ChannelState
repaired sid name s = record s {
  visibility = elim s.visibility [ unset ↦ public | public ↦ public | private ↦ private ];
  is_private = elim s.visibility [ unset ↦ false | public ↦ false | private ↦ true ];
  owner_sid = if is_empty s.owner_sid then sid else s.owner_sid;
  owner_name = if is_empty s.owner_name then name else s.owner_name;
}

unfoldable pub wants_private : Visibility → Bool
wants_private unset = false
wants_private public = false
wants_private private = true

-- The owner may make the channel private, and set the PIN of a private channel.
unfoldable pub close_by_owner : Runtime → Random → Random → Fields → ChannelState → ChannelState
close_by_owner g r r' fs s =
    if wants_private (requested_visibility g fs) && not s.is_private
    then record s {
      visibility = private;
      is_private = true;
      invite_code = new_channel_invite_code g r r';
    }
    else s

unfoldable pub set_pin : Runtime → Fields → ChannelState → ChannelState
set_pin g fs s =
    if s.is_private && not (is_empty (pin_of g fs))
    then record s { pin_hash = hash_channel_pin g (pin_of g fs); has_pin = true }
    else s

-- A channel that is there: what it becomes, and whether the session may join.
unfoldable pub admit :
    Runtime → Random → Random → Text → Text → Fields → Bool → ChannelState → ChannelState × Bool
admit g r r' sid name fs is_member old =
    let s = repaired sid name old in
    if same s.owner_sid sid
    then (set_pin g fs (close_by_owner g r r' fs s), true)
    else (s, not (s.is_private && not is_member) || opens g fs s)

-- prepareChannelJoinLocked: the channels after it, and whether there is no error code.
unfoldable pub prepare_channel_join :
    Runtime → Random → Random → Text → Text → Text → Fields → ℕ → Core → Core × Bool
prepare_channel_join g r r' room sid name fs now c = elim (lookup room c.channels) [
  | none ↦ (
    record c { channels = insert room (new_channel g r r' room sid name fs now) c.channels },
    true,
  )
  | some old ↦
      let a = admit g r r' sid name fs (is_room_member room sid c) old in
      (record c { channels = insert room a.0 c.channels }, a.1)
]
