-- ===== src/Realtime/Invariant.antt =====
-- The invariant of the hub's state (internal/realtime/hub.go), and how map writes show in it.
use walkie_talk_server.Realtime.State.{User, ChannelState, Core, members_of}
use walkie_talk_server.Realtime.Channels.{
  touch_channel, mark_channel_empty, channel_or_new, touched, emptied, unowned,
}
use walkie_talk_server.Realtime.Admission.{wants_private}
use walkie_talk_server.Base.{
  ℕ, ◌≤◌, ◌≢◌, ◌≡◌, Bool, true, false, not, ◌&&◌, List, [], Option, none, some, Text, text_dec, ite,
  arith, if◌then◌else◌, is_empty, length,
}
use walkie_talk_server.Base.Dict.{lookup, insert, remove, lookup-insert, lookup-remove}
use walkie_talk_server.Base.KeySet.{has, same, is_nil, Distinct}

-- The session has a user, in this room.
abbrev pub in_room : Text → Text → List (Text × User) → Bool
in_room sid room users = elim (lookup sid users) [ none ↦ false | some u ↦ same u.room room ]

-- The channel is there, and not marked as empty.
abbrev pub is_active : Option ChannelState → Bool
is_active none = false
is_active (some s) = elim s.empty_since [ none ↦ true | some t ↦ false ]

abbrev pub is_filled : Option (List Text) → Bool
is_filled none = true
is_filled (some sids) = not (is_nil sids)

-- The private flag says what the visibility says, and a private channel has an owner.
abbrev pub is_sound : Option ChannelState → Bool
is_sound none = true
is_sound (some s) =
    if wants_private s.visibility
    then s.is_private && not (is_empty s.owner_sid)
    else not s.is_private

pub record Inv (max : ℕ) (c : Core) : Type 0 where
  pub sized : (r : Text) → length (members_of r c.rooms) ≤ max
  pub distinct : (r : Text) → Distinct (members_of r c.rooms)
  pub agree : (s r : Text) → has s (members_of r c.rooms) ≡ in_room s r c.users
  pub unnamed : (s : Text) → in_room s [] c.users ≡ false
  pub filled : (r : Text) → is_filled (lookup r c.rooms) ≡ true
  pub active :
      (r : Text) → is_nil (members_of r c.rooms) ≡ false → is_active (lookup r c.channels) ≡ true
  pub sound : (r : Text) → is_sound (lookup r c.channels) ≡ true

pub members_of-insert :
    (k j : Text) (xs : List Text) (rooms : List (Text × List Text))
    → members_of j (insert k xs rooms) ≡ ite (text_dec k j) xs (members_of j rooms)
unfolding members_of
members_of-insert k j xs rooms = ground (arith, lookup-insert k j xs rooms)

pub members_of-remove :
    (k j : Text) (rooms : List (Text × List Text))
    → members_of j (remove k rooms) ≡ ite (text_dec k j) [] (members_of j rooms)
unfolding members_of
members_of-remove k j rooms = ground (arith, lookup-remove k j rooms)

channel_or_new-is_sound :
    (room : Text) (now : ℕ) (c : Core)
    → is_sound (lookup room c.channels) ≡ true
    → is_sound (some (channel_or_new room now c)) ≡ true
unfolding channel_or_new wants_private unowned
channel_or_new-is_sound room now c h = ground arith

module _ (room : Text) (now : ℕ) (c : Core) where
  pub touch_channel-frame :
      ((touch_channel room now c).rooms ≡ c.rooms)
      × ((touch_channel room now c).users ≡ c.users)
      × ((touch_channel room now c).screens ≡ c.screens)
  unfolding touch_channel touched
  touch_channel-frame = ground arith

  pub mark_channel_empty-frame :
      (ttl : ℕ)
      → ((mark_channel_empty ttl room now c).rooms ≡ c.rooms)
        × ((mark_channel_empty ttl room now c).users ≡ c.users)
        × ((mark_channel_empty ttl room now c).screens ≡ c.screens)
  unfolding mark_channel_empty emptied
  mark_channel_empty-frame ttl = ground arith

  new_state : ChannelState
  new_state = touched (length (members_of room c.rooms)) now (channel_or_new room now c)

  -- A touched channel is active; the others stay as they are.
  pub touch_channel-active :
      (j : Text)
      → is_empty room ≡ false
      → is_active (lookup j (touch_channel room now c).channels)
        ≡ ite (text_dec room j) true (is_active (lookup j c.channels))
  unfolding touch_channel touched new_state
  touch_channel-active j h = ground (arith, lookup-insert room j new_state c.channels)

  pub touch_channel_sound :
      (j : Text)
      → ((r : Text) → is_sound (lookup r c.channels) ≡ true)
      → is_sound (lookup j (touch_channel room now c).channels) ≡ true
  unfolding touch_channel touched new_state wants_private
  touch_channel_sound j h = ground (
    arith,
    lookup-insert room j new_state c.channels,
    channel_or_new-is_sound room now c (h room),
    h j,
  )

  pub mark_channel_empty-active :
      (ttl : ℕ) (j : Text)
      → room ≢ j
      → is_active (lookup j (mark_channel_empty ttl room now c).channels)
        ≡ is_active (lookup j c.channels)
  unfolding mark_channel_empty emptied
  mark_channel_empty-active ttl j h =
      ground (arith, lookup-insert room j (emptied ttl now (channel_or_new room now c)) c.channels)

  pub mark_channel_empty_sound :
      (ttl : ℕ) (j : Text)
      → ((r : Text) → is_sound (lookup r c.channels) ≡ true)
      → is_sound (lookup j (mark_channel_empty ttl room now c).channels) ≡ true
  unfolding mark_channel_empty emptied wants_private
  mark_channel_empty_sound ttl j h = ground (
    arith,
    lookup-insert room j (emptied ttl now (channel_or_new room now c)) c.channels,
    channel_or_new-is_sound room now c (h room),
    h j,
  )
