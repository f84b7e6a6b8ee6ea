-- ===== src/Realtime/Prepare.antt =====
-- The check of handleJoin (internal/realtime/events.go), prepareChannelJoinLocked of hub.go, on the
-- invariant.
use walkie_talk_server.Json.{Runtime, Fields}
use walkie_talk_server.Realtime.State.{ChannelState, Core}
use walkie_talk_server.Realtime.Secrets.{Random}
use walkie_talk_server.Realtime.Channels.{unowned, is_room_member}
use walkie_talk_server.Realtime.Admission.{
  new_channel, repaired, close_by_owner, set_pin, admit, wants_private, prepare_channel_join,
}
use walkie_talk_server.Realtime.Invariant.{Inv, is_active, is_sound}
use walkie_talk_server.Base.{
  ℕ, ◌≡◌, inl, inr, Bool, true, false, some, Text, arith, is_empty, Option-cases,
}
use walkie_talk_server.Base.Dict.{lookup, lookup-insert}

module _ (g : Runtime) (r r' : Random) (sid name : Text) (fs : Fields) where
  new_channel-is_sound :
      (room : Text) (now : ℕ)
      → is_empty sid ≡ false
      → is_sound (some (new_channel g r r' room sid name fs now)) ≡ true
  unfolding new_channel unowned wants_private
  new_channel-is_sound room now h = ground arith

  admit-is_sound :
      (is_member : Bool) (s : ChannelState)
      → is_empty sid ≡ false
      → is_sound (some (admit g r r' sid name fs is_member s).0) ≡ true
  unfolding admit repaired close_by_owner set_pin wants_private
  admit-is_sound is_member s h = ground arith

  -- A join does not take the mark of an empty channel away.
  admit-empty_since :
      (is_member : Bool) (s : ChannelState)
      → (admit g r r' sid name fs is_member s).0.empty_since ≡ s.empty_since
  unfolding admit repaired close_by_owner set_pin
  admit-empty_since is_member s = ground arith

  module _ (room : Text) (now : ℕ) (c : Core) where
    pub prepare-frame :
        let d = (prepare_channel_join g r r' room sid name fs now c).0 in
        (d.rooms ≡ c.rooms) × (d.users ≡ c.users) × (d.screens ≡ c.screens)
    unfolding prepare_channel_join
    prepare-frame = ground arith

    prepare-active :
        (j : Text)
        → is_active (lookup j c.channels) ≡ true
        → is_active (lookup j (prepare_channel_join g r r' room sid name fs now c).0.channels)
          ≡ true
    unfolding prepare_channel_join
    prepare-active j h = elim (Option-cases (lookup room c.channels)) [
      | inl e ↦
          ground (arith, lookup-insert room j (new_channel g r r' room sid name fs now) c.channels)
      | inr (s, e) ↦
          let a = (admit g r r' sid name fs (is_room_member room sid c) s).0 in
          ground (
            arith,
            lookup-insert room j a c.channels,
            admit-empty_since (is_room_member room sid c) s,
          )
    ]

    prepare_sound :
        is_empty sid ≡ false
        → ((j : Text) → is_sound (lookup j c.channels) ≡ true)
        → (j : Text)
        → is_sound (lookup j (prepare_channel_join g r r' room sid name fs now c).0.channels) ≡ true
    unfolding prepare_channel_join wants_private
    prepare_sound sn h j = elim (Option-cases (lookup room c.channels)) [
      | inl e ↦ ground (
        arith,
        lookup-insert room j (new_channel g r r' room sid name fs now) c.channels,
        new_channel-is_sound room now sn,
        h j,
      )
      | inr (s, e) ↦
          let a = (admit g r r' sid name fs (is_room_member room sid c) s).0 in
          ground (
            arith,
            lookup-insert room j a c.channels,
            admit-is_sound (is_room_member room sid c) s sn,
            h j,
          )
    ]

    -- The check of a join keeps the invariant, also when it refuses. Sessions are not empty.
    pub prepare-Inv :
        {max : ℕ}
        → is_empty sid ≡ false
        → Inv max c
        → Inv max (prepare_channel_join g r r' room sid name fs now c).0
    prepare-Inv sn v =
        let f = prepare-frame in
        record {
          sized = λ j. rw f.0 (v.sized j);
          distinct = λ j. rw f.0 (v.distinct j);
          agree = λ s j. rw (f.0, f.1) (v.agree s j);
          unnamed = λ s. rw f.1 (v.unnamed s);
          filled = λ j. rw f.0 (v.filled j);
          active = λ j h. prepare-active j (v.active j (rw f.0 at h));
          sound = prepare_sound sn v.sound;
        }
