-- ===== src/Realtime/Enter.antt =====
-- The entry of handleJoin into a room (internal/realtime/events.go) on the invariant.
use walkie_talk_server.Realtime.State.{Limits, User, Core, members_of}
use walkie_talk_server.Realtime.Join.{open_room, enter, join_commit}
use walkie_talk_server.Realtime.Invariant.{
  Inv, in_room, is_active, is_filled, is_sound, members_of-insert, touch_channel-frame,
  touch_channel-active, touch_channel_sound,
}
use walkie_talk_server.Base.{
  ℕ, ◌≤◌, ◌<◌, ◌≢◌, ◌≡◌, inl, inr, true, false, not, ◌&&◌, List, [], none, Text, text_dec, ite,
  arith, leb, if◌then◌else◌, is_empty, length, Bool-cases, Option-cases,
}
use walkie_talk_server.Base.Dict.{lookup, insert, lookup-insert}
use walkie_talk_server.Base.KeySet.{
  has, add, same, is_nil, has-add, length-add-le, add-Distinct, is_nil-add,
}

pub in_room-insert :
    (sid s r : Text) (u : User) (users : List (Text × User))
    → in_room s r (insert sid u users) ≡ (if same sid s then same u.room r else in_room s r users)
in_room-insert sid s r u users = ground (arith, lookup-insert sid s u users)

module _ (room sid name : Text) (now : ℕ) (c : Core) (max : ℕ) (v : Inv max c) where
  -- Making a room that is not there changes no one's membership.
  pub open_room-members : (j : Text) → members_of j (open_room room c).rooms ≡ members_of j c.rooms
  unfolding open_room members_of
  open_room-members j = ground (arith, lookup-insert room j [] c.rooms)

  pub open_room-frame :
      ((open_room room c).users ≡ c.users) × ((open_room room c).channels ≡ c.channels)
  unfolding open_room
  open_room-frame = ground arith

  open_room-lookup : (j : Text) → room ≢ j → lookup j (open_room room c).rooms ≡ lookup j c.rooms
  unfolding open_room
  open_room-lookup j h = ground (arith, lookup-insert room j [] c.rooms)

  open_room-full :
      1 ≤ max
      → leb max (length (members_of room (open_room room c).rooms)) ≡ true
      → open_room room c ≡ c
  unfolding open_room members_of
  open_room-full m h = elim (Option-cases (lookup room c.rooms)) [
    | inl e ↦ absurd (ground (arith, open_room-members room))
    | inr (sids, e) ↦ ground arith
  ]

  abbrev o : Core
  o = open_room room c

  abbrev seats : List Text
  seats = add sid (members_of room o.rooms)

  abbrev inside : User
  inside = record { name = name; room = room; joined_at = now }

  abbrev entered : Core
  entered = record o { rooms = insert room seats o.rooms; users = insert sid inside o.users }

  pub entered-members :
      (j : Text)
      → members_of j (enter room sid name now o).rooms
        ≡ ite (text_dec room j) (add sid (members_of j c.rooms)) (members_of j c.rooms)
  unfolding enter
  entered-members j = ground (
    arith,
    touch_channel-frame room now entered,
    members_of-insert room j seats o.rooms,
    open_room-members j,
    open_room-members room,
  )

  entered-users : (enter room sid name now o).users ≡ insert sid inside c.users
  unfolding enter
  entered-users = ground (arith, touch_channel-frame room now entered, open_room-frame)

  entered-filled : (j : Text) → is_filled (lookup j (enter room sid name now o).rooms) ≡ true
  unfolding enter
  entered-filled j = ground (
    arith,
    touch_channel-frame room now entered,
    lookup-insert room j seats o.rooms,
    open_room-lookup j,
    is_nil-add sid (members_of room o.rooms),
    v.filled j,
  )

  entered-active :
      (j : Text)
      → is_empty room ≡ false
      → is_nil (members_of j (enter room sid name now o).rooms) ≡ false
      → is_active (lookup j (enter room sid name now o).channels) ≡ true
  unfolding enter
  entered-active j n h = ground (
    arith,
    touch_channel-active room now entered j,
    entered-members j,
    open_room-frame,
    v.active j,
  )

  entered_sound : (j : Text) → is_sound (lookup j (enter room sid name now o).channels) ≡ true
  unfolding enter
  entered_sound j = touch_channel_sound room now entered j (λ r. rw open_room-frame.1 (v.sound r))

  module _ (out : lookup sid c.users ≡ none) where
    entered-agree :
        (s j : Text)
        → has s (members_of j (enter room sid name now o).rooms)
          ≡ in_room s j (enter room sid name now o).users
    entered-agree s j = ground (
      arith,
      entered-members j,
      entered-users,
      v.agree s j,
      has-add sid s (members_of j c.rooms),
      in_room-insert sid s j inside c.users,
    )

    -- Entering a room that has space keeps the invariant, for a session with no user.
    pub enter-Inv :
        is_empty room ≡ false
        → length (members_of room c.rooms) < max
        → Inv max (enter room sid name now (open_room room c))
    enter-Inv n space = record {
      sized = λ j.
          ground (arith, entered-members j, v.sized j, length-add-le sid (members_of j c.rooms));
      distinct = λ j.
          ground (arith, entered-members j, v.distinct j, add-Distinct sid (members_of j c.rooms));
      agree = entered-agree;
      unnamed =
          λ s. ground (arith, entered-users, v.unnamed s, in_room-insert sid s [] inside c.users);
      filled = entered-filled;
      active = λ j h. entered-active j n h;
      sound = entered_sound;
    }

module _ (l : Limits) (room sid name : Text) (now : ℕ) (c : Core) (v : Inv l.max_room_size c)
    (m : 1 ≤ l.max_room_size) (n : is_empty room ≡ false) (out : lookup sid c.users ≡ none) where
  -- The entry keeps the invariant, whether or not it finds the room full. The limit is not 0.
  pub join_commit-Inv : Inv l.max_room_size (join_commit l room sid name now c).0
  unfolding join_commit
  join_commit-Inv =
      let full = leb l.max_room_size (length (members_of room (open_room room c).rooms)) in
      elim (Bool-cases full) [
        | inl e ↦ rw (e, open_room-full room sid name now c l.max_room_size v m e) v
        | inr e ↦ rw e (
            enter-Inv room sid name now c l.max_room_size v out n
              (ground (arith, open_room-members room sid name now c l.max_room_size v room)))
      ]

  -- A session without a user gets in exactly if the room has space. Then it is in that room and in no
  -- other, and all others are where they were; otherwise no membership changes. The invariant holds
  -- before, the limit is not 0 and the room has a name.
  pub join_commit-members :
      (s r : Text)
      → let d = join_commit l room sid name now c in
        (d.1 ≡ not (leb l.max_room_size (length (members_of room c.rooms))))
        × (has s (members_of r d.0.rooms)
            ≡ (if d.1 && same sid s then same room r else has s (members_of r c.rooms)))
  unfolding join_commit
  join_commit-members s r =
      let full = leb l.max_room_size (length (members_of room (open_room room c).rooms)) in
      elim (Bool-cases full) [
        | inl e ↦ ground (arith, open_room-full room sid name now c l.max_room_size v m e)
        | inr e ↦ ground (
          arith,
          open_room-members room sid name now c l.max_room_size v room,
          entered-members room sid name now c l.max_room_size v r,
          has-add sid s (members_of r c.rooms),
          v.agree sid r,
        )
      ]

  -- No other session gets a user.
  pub join_commit-none :
      (s : Text)
      → sid ≢ s
      → lookup s c.users ≡ none
      → lookup s (join_commit l room sid name now c).0.users ≡ none
  unfolding join_commit
  join_commit-none s d h = ground (
    arith,
    open_room-frame room sid name now c l.max_room_size v,
    entered-users room sid name now c l.max_room_size v,
    lookup-insert sid s (inside room sid name now c l.max_room_size v) c.users,
  )
