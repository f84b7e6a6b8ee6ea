-- ===== src/Realtime/Leave.antt =====
-- leaveNoBroadcast of internal/realtime/hub.go on the invariant and on who is where.
use walkie_talk_server.Realtime.State.{User, Core, members_of}
use walkie_talk_server.Realtime.Join.{leave_room, leave_current, without_user, leave_no_broadcast}
use walkie_talk_server.Realtime.Invariant.{Inv, in_room}
use walkie_talk_server.Base.{
  ℕ, ◌≤◌, ◌<◌, ◌≡◌, inl, inr, true, false, not, ◌&&◌, List, [], none, some, Text, text_dec, ite,
  arith, is_empty, length, Option-cases,
}
use walkie_talk_server.Base.Dict.{lookup, lookup-remove}
use walkie_talk_server.Base.KeySet.{
  has, del, same, has-del, length-del-le, length-del-lt, del-Distinct,
}
use walkie_talk_server.Realtime.LeaveRoom.{
  in_room-remove, leave_room-users, leave_room-members, leave_room-filled, leave_room-active,
  leave_room_sound,
}

-- Who is in a room after a session has left, by the invariant's equation between rooms and users.
module _ (ttl : ℕ) (sid : Text) (now : ℕ) (c : Core) where
  left : Core
  left = leave_no_broadcast ttl sid now c

  pub leave-absent : lookup sid c.users ≡ none → leave_no_broadcast ttl sid now c ≡ c
  unfolding leave_no_broadcast
  leave-absent h = ground arith

  pub leave-present :
      (u : User) (sids : List Text)
      → lookup sid c.users ≡ some u
      → lookup u.room c.rooms ≡ some sids
      → leave_no_broadcast ttl sid now c ≡ without_user sid (leave_room ttl u.room sid now sids c)
  unfolding leave_no_broadcast leave_current
  leave-present u sids h k = ground arith

  module _ (max : ℕ) (v : Inv max c) (u : User) (sids : List Text)
      (hu : lookup sid c.users ≡ some u) (hs : lookup u.room c.rooms ≡ some sids) where
    room-named : is_empty u.room ≡ false
    room-named = ground (arith, v.unnamed sid)

    members-sids : members_of u.room c.rooms ≡ sids
    unfolding members_of
    members-sids = ground arith

    after-members :
        (j : Text)
        → members_of j (leave_room ttl u.room sid now sids c).rooms
          ≡ ite (text_dec u.room j) (del sid (members_of j c.rooms)) (members_of j c.rooms)
    after-members j = ground (arith, leave_room-members ttl u.room sid now sids c j, members-sids)

    present-Inv : Inv max (without_user sid (leave_room ttl u.room sid now sids c))
    unfolding without_user
    present-Inv = record {
      sized =
          λ r. ground (arith, after-members r, v.sized r, length-del-le sid (members_of r c.rooms));
      distinct = λ r.
          ground (arith, after-members r, v.distinct r, del-Distinct sid (members_of r c.rooms));
      agree = λ s r. ground (
        arith,
        after-members r,
        v.agree s r,
        has-del sid s (members_of r c.rooms),
        in_room-remove sid s r c.users,
        leave_room-users ttl u.room sid now sids c,
        hu,
      );
      unnamed = λ s. ground (
        arith,
        in_room-remove sid s [] c.users,
        v.unnamed s,
        leave_room-users ttl u.room sid now sids c,
      );
      filled = λ r. leave_room-filled ttl u.room sid now sids c r (v.filled r);
      active = λ r h. leave_room-active ttl u.room sid now sids c r room-named h (v.active r);
      sound = leave_room_sound ttl u.room sid now sids c v.sound;
    }

module _ (ttl : ℕ) (sid : Text) (now : ℕ) (c : Core) (max : ℕ) (v : Inv max c) where
  -- A session with a user is in an open room.
  pub user-room :
      (u : User)
      → lookup sid c.users ≡ some u
      → (sids : List Text) × (lookup u.room c.rooms ≡ some sids)
  unfolding members_of has
  user-room u h = elim (Option-cases (lookup u.room c.rooms)) [
    | inr (sids, e) ↦ (sids, e)
    | inl e ↦ absurd (ground (arith, v.agree sid u.room))
  ]

  leave-cases {ℓ} :
      (P : Core → Type ℓ)
      → (lookup sid c.users ≡ none → P c)
      → ((u : User) (sids : List Text)
          → lookup sid c.users ≡ some u
          → lookup u.room c.rooms ≡ some sids
          → P (without_user sid (leave_room ttl u.room sid now sids c)))
      → P (leave_no_broadcast ttl sid now c)
  leave-cases P absent present = elim (Option-cases (lookup sid c.users)) [
    | inl e ↦ rw (leave-absent ttl sid now c e) (absent e)
    | inr (u, e) ↦
        let (sids, k) = user-room u e in
        rw (leave-present ttl sid now c u sids e k) (present u sids e k)
  ]

  -- Leaving keeps the invariant.
  pub leave-Inv : Inv max (leave_no_broadcast ttl sid now c)
  leave-Inv =
      leave-cases (Inv max) (λ _. v) (λ u sids h k. present-Inv ttl sid now c max v u sids h k)

  -- After leaving, the session is in no room, in the map of rooms and in the map of users, and every
  -- other session is where it was. The invariant holds before.
  pub leave-members :
      (s r : Text)
      → (has s (members_of r (leave_no_broadcast ttl sid now c).rooms)
          ≡ (not (same sid s) && has s (members_of r c.rooms)))
        × (in_room s r (leave_no_broadcast ttl sid now c).users
            ≡ (not (same sid s) && in_room s r c.users))
  unfolding without_user
  leave-members s r =
      leave-cases
        (λ d.
          (has s (members_of r d.rooms) ≡ (not (same sid s) && has s (members_of r c.rooms)))
          × (in_room s r d.users ≡ (not (same sid s) && in_room s r c.users)))
        (λ e. ground (arith, v.agree s r))
        (λ u sids h k. ground (
          arith,
          after-members ttl sid now c max v u sids h k r,
          v.agree s r,
          has-del sid s (members_of r c.rooms),
          in_room-remove sid s r c.users,
          leave_room-users ttl u.room sid now sids c,
        ))

  -- No room grows by a leave, and the room of the session shrinks.
  pub leave-sizes :
      (r : Text)
      → (length (members_of r (leave_no_broadcast ttl sid now c).rooms)
          ≤ length (members_of r c.rooms))
        × (in_room sid r c.users ≡ true
            → length (members_of r (leave_no_broadcast ttl sid now c).rooms)
              < length (members_of r c.rooms))
  unfolding without_user
  leave-sizes r =
      leave-cases
        (λ d.
          (length (members_of r d.rooms) ≤ length (members_of r c.rooms))
          × (in_room sid r c.users ≡ true
              → length (members_of r d.rooms) < length (members_of r c.rooms)))
        (λ e. ground arith)
        (λ u sids h k. ground (
          arith,
          after-members ttl sid now c max v u sids h k r,
          length-del-le sid (members_of r c.rooms),
          length-del-lt sid (members_of r c.rooms),
          v.agree sid r,
        ))

  pub leave-gone : lookup sid (leave_no_broadcast ttl sid now c).users ≡ none
  unfolding without_user
  leave-gone =
      leave-cases (λ d. lookup sid d.users ≡ none) (λ e. e)
        (λ u sids h k.
          ground (arith, leave_room-users ttl u.room sid now sids c, lookup-remove sid sid c.users))

  pub leave-none :
      (s : Text)
      → lookup s c.users ≡ none
      → lookup s (leave_no_broadcast ttl sid now c).users ≡ none
  unfolding without_user
  leave-none s h =
      leave-cases (λ d. lookup s d.users ≡ none) (λ _. h)
        (λ u sids _ _.
          ground (arith, leave_room-users ttl u.room sid now sids c, lookup-remove sid s c.users))
