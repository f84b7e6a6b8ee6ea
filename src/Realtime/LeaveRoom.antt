-- ===== src/Realtime/LeaveRoom.antt =====
-- What leaveNoBroadcast of internal/realtime/hub.go does to the room that a session leaves.
use walkie_talk_server.Realtime.State.{User, Core, members_of}
use walkie_talk_server.Realtime.Join.{leave_room}
use walkie_talk_server.Realtime.Invariant.{
  in_room, is_active, is_filled, is_sound, members_of-insert, members_of-remove,
  touch_channel-frame, mark_channel_empty-frame, touch_channel-active, touch_channel_sound,
  mark_channel_empty-active, mark_channel_empty_sound,
}
use walkie_talk_server.Base.{
  ℕ, ◌≡◌, true, false, not, ◌&&◌, List, Text, text_dec, ite, arith, is_empty,
}
use walkie_talk_server.Base.Dict.{lookup, insert, remove, lookup-insert, lookup-remove}
use walkie_talk_server.Base.KeySet.{del, same, is_nil}

pub in_room-remove :
    (sid s r : Text) (users : List (Text × User))
    → in_room s r (remove sid users) ≡ (not (same sid s) && in_room s r users)
in_room-remove sid s r users = ground (arith, lookup-remove sid s users)

module _ (ttl : ℕ) (room sid : Text) (now : ℕ) (sids : List Text) (c : Core) where
  abbrev after : Core
  after = leave_room ttl room sid now sids c

  pub leave_room-users : after.users ≡ c.users
  unfolding leave_room
  leave_room-users = ground (
    arith,
    mark_channel_empty-frame room now (record c { rooms = remove room c.rooms }) ttl,
    touch_channel-frame room now (record c { rooms = insert room (del sid sids) c.rooms }),
  )

  pub leave_room-members :
      (j : Text)
      → members_of j after.rooms ≡ ite (text_dec room j) (del sid sids) (members_of j c.rooms)
  unfolding leave_room
  leave_room-members j = ground (
    arith,
    mark_channel_empty-frame room now (record c { rooms = remove room c.rooms }) ttl,
    touch_channel-frame room now (record c { rooms = insert room (del sid sids) c.rooms }),
    members_of-insert room j (del sid sids) c.rooms,
    members_of-remove room j c.rooms,
  )

  pub leave_room-filled :
      (j : Text) → is_filled (lookup j c.rooms) ≡ true → is_filled (lookup j after.rooms) ≡ true
  unfolding leave_room
  leave_room-filled j h = ground (
    arith,
    mark_channel_empty-frame room now (record c { rooms = remove room c.rooms }) ttl,
    touch_channel-frame room now (record c { rooms = insert room (del sid sids) c.rooms }),
    lookup-insert room j (del sid sids) c.rooms,
    lookup-remove room j c.rooms,
  )

  pub leave_room-active :
      (j : Text)
      → is_empty room ≡ false
      → is_nil (members_of j after.rooms) ≡ false
      → (is_nil (members_of j c.rooms) ≡ false → is_active (lookup j c.channels) ≡ true)
      → is_active (lookup j after.channels) ≡ true
  unfolding leave_room
  leave_room-active j named busy h = ground (
    arith,
    leave_room-members j,
    mark_channel_empty-active room now (record c { rooms = remove room c.rooms }) ttl j,
    touch_channel-active room now (record c { rooms = insert room (del sid sids) c.rooms }) j,
  )

  pub leave_room_sound :
      ((r : Text) → is_sound (lookup r c.channels) ≡ true)
      → (r : Text) → is_sound (lookup r after.channels) ≡ true
  unfolding leave_room
  leave_room_sound h r = ground (
    arith,
    mark_channel_empty_sound room now (record c { rooms = remove room c.rooms }) ttl r h,
    touch_channel_sound room now (record c { rooms = insert room (del sid sids) c.rooms }) r h,
  )
