-- ===== src/Realtime/Upkeep.antt =====
-- CleanupExpiredChannels of internal/realtime/hub.go and the renaming of handleUpdateName
-- (events.go) on the invariant.
use walkie_talk_server.Realtime.State.{ChannelState, Core, members_of}
use walkie_talk_server.Realtime.Channels.{is_expired, drop_channel, sweep}
use walkie_talk_server.Realtime.Join.{rename}
use walkie_talk_server.Realtime.Invariant.{Inv, in_room, members_of-remove}
use walkie_talk_server.Realtime.Enter.{in_room-insert}
use walkie_talk_server.Base.{
  ℕ, ◌≡◌, refl, inl, inr, true, List, [], ◌∷◌, none, Text, arith, Bool-cases, Option-cases,
}
use walkie_talk_server.Base.Dict.{lookup, lookup-insert, lookup-remove}
use walkie_talk_server.Base.KeySet.{is_nil}

module _ (max : ℕ) (room : Text) (c : Core) (v : Inv max c) where
  -- Dropping the channel of a room without members changes no room.
  pub drop-members :
      is_nil (members_of room c.rooms) ≡ true
      → (j : Text) → members_of j (drop_channel room c).rooms ≡ members_of j c.rooms
  unfolding drop_channel
  drop-members h j =
      ground (arith, members_of-remove room j c.rooms, is_nil-eq (members_of room c.rooms))
    where
      is_nil-eq : (xs : List Text) → is_nil xs ≡ true → xs ≡ []
      is_nil-eq [] h = refl
      is_nil-eq (x ∷ xs) h = absurd (ground arith)

  pub drop-Inv : is_nil (members_of room c.rooms) ≡ true → Inv max (drop_channel room c)
  unfolding drop_channel
  drop-Inv h = record {
    sized = λ j. rw (drop-members h j) (v.sized j);
    distinct = λ j. rw (drop-members h j) (v.distinct j);
    agree = λ s j. rw (drop-members h j) (v.agree s j);
    unnamed = v.unnamed;
    filled = λ j. ground (arith, lookup-remove room j c.rooms, v.filled j);
    active = λ j b. ground (arith, drop-members h j, lookup-remove room j c.channels, v.active j);
    sound = λ j. ground (arith, lookup-remove room j c.channels, v.sound j);
  }

pub is_expired-is_nil :
    (ttl now : ℕ) (e : Text × ChannelState) (rooms : List (Text × List Text))
    → is_expired ttl now rooms e ≡ true
    → is_nil (members_of e.0 rooms) ≡ true
unfolding is_expired
is_expired-is_nil ttl now (room, s) rooms h = ground arith

-- The sweep keeps the invariant and the users.
pub sweep-Inv :
    (max ttl now : ℕ) (es : List (Text × ChannelState)) (c : Core)
    → Inv max c
    → Inv max (sweep ttl now es c).0 × ((sweep ttl now es c).0.users ≡ c.users)
unfolding sweep drop_channel
sweep-Inv max ttl now [] c v = (v, refl)
sweep-Inv max ttl now (e ∷ es) c v = elim (Bool-cases (is_expired ttl now c.rooms e)) [
  | inl x ↦ rw x (
      sweep-Inv max ttl now es (drop_channel e.0 c)
        (drop-Inv max e.0 c v (is_expired-is_nil ttl now e c.rooms x)))
  | inr x ↦ rw x (sweep-Inv max ttl now es c v)
]

in_room-rename :
    (sid name s r : Text) (c : Core) → in_room s r (rename sid name c).users ≡ in_room s r c.users
unfolding rename
in_room-rename sid name s r c = elim (Option-cases (lookup sid c.users)) [
  | inl e ↦ ground arith
  | inr (u, e) ↦ ground (arith, in_room-insert sid s r (record u { name = name }) c.users)
]

-- Renaming keeps the invariant, and makes no user.
pub rename-Inv :
    (max : ℕ) (sid name : Text) (c : Core)
    → Inv max c
    → Inv max (rename sid name c)
      × ((s : Text) → lookup s c.users ≡ none → lookup s (rename sid name c).users ≡ none)
unfolding rename
rename-Inv max sid name c v = elim (Option-cases (lookup sid c.users)) [
  | inl e ↦ rw (e, rename) (v, λ s h. h)
  | inr (u, e) ↦
      rw (e, rename)
        (
          record {
            sized = v.sized;
            distinct = v.distinct;
            agree = λ s r.
                ground
                  (arith, v.agree s r, in_room-insert sid s r (record u { name = name }) c.users);
            unnamed = λ s.
                ground
                  (arith, v.unnamed s, in_room-insert sid s [] (record u { name = name }) c.users);
            filled = v.filled;
            active = v.active;
            sound = v.sound;
          },
          λ s h. ground (arith, lookup-insert sid s (record u { name = name }) c.users),
        )
]
