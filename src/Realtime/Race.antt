-- ===== src/Realtime/Race.antt =====
-- A join between its two locks and the sweep: handleJoin of internal/realtime/events.go and
-- CleanupExpiredChannels of internal/realtime/hub.go.
use walkie_talk_server.Json.{Runtime}
use walkie_talk_server.Realtime.State.{Limits, ChannelState, Core, members_of}
use walkie_talk_server.Realtime.Channels.{sweep, touch_channel, touched, channel_or_new, unowned}
use walkie_talk_server.Realtime.Admission.{wants_private}
use walkie_talk_server.Realtime.Join.{leave_no_broadcast, join_commit, open_room, enter}
use walkie_talk_server.Realtime.Invariant.{Inv}
use walkie_talk_server.Realtime.Interleaving.{
  checked, departed, World, Reach, start, next, depart, arrive, cleanup,
}
use walkie_talk_server.Realtime.Runs.{set_phase_self}
use walkie_talk_server.Realtime.Enter.{open_room-members, open_room-frame, entered-members}
use walkie_talk_server.Realtime.Upkeep.{sweep-Inv}
use walkie_talk_server.Realtime.Expiry.{keys, is_due, sweep-channels}
use walkie_talk_server.Base.{
  ℕ, ◌≤◌, ◌≡◌, refl, sym, subst, ap, ◌∙◌, true, false, List, [], none, some, Text, is_empty, arith,
  length, Option-cases, inl, inr,
}
use walkie_talk_server.Base.Dict.{lookup, insert, lookup-insert}
use walkie_talk_server.Base.KeySet.{has, has-add, add, Distinct}

due-members :
    (ttl now : ℕ) (room : Text) (c : Core)
    → is_due ttl now c.rooms room c.channels ≡ true
    → members_of room c.rooms ≡ []
due-members ttl now room c h = elim (Option-cases (lookup room c.channels)) [
  | inl e ↦ ground arith
  | inr (s, e) ↦ ground arith
]

module _ (room sid name : Text) (t : ℕ) (c : Core) (n : is_empty room ≡ false)
    (nobody : members_of room c.rooms ≡ []) (gone : lookup room c.channels ≡ none) where
  abbrev seated : List (Text × List Text)
  seated = insert room (add sid (members_of room c.rooms)) c.rooms

  enter-public :
      lookup room (enter room sid name t c).channels ≡ some (touched 1 t (unowned room t))
  unfolding enter touch_channel channel_or_new members_of add has
  enter-public = ground (
    arith,
    lookup-insert room room (add sid (members_of room c.rooms)) c.rooms,
    lookup-insert room room (touched (length (members_of room seated)) t (unowned room t))
        c.channels,
  )

module _ (l : Limits) (sid room name : Text) (t : ℕ) (c : Core) (n : is_empty room ≡ false)
    (m : 1 ≤ l.max_room_size) (v : Inv l.max_room_size c) (nobody : members_of room c.rooms ≡ [])
    (gone : lookup room c.channels ≡ none) where
  abbrev opened : Core
  opened = open_room room c

  opened-members : members_of room opened.rooms ≡ []
  opened-members = open_room-members room sid name t c l.max_room_size v room ∙ nobody

  join_commit-enter : join_commit l room sid name t c ≡ (enter room sid name t opened, true)
  unfolding join_commit
  join_commit-enter = ground (arith, opened-members)

  -- Who enters a room whose channel is gone makes a public one.
  join_commit-public :
      let d = (join_commit l room sid name t c).0 in
      (lookup room d.channels ≡ some (touched 1 t (unowned room t)))
      × (has sid (members_of room d.rooms) ≡ true)
  unfolding has
  join_commit-public = rw join_commit-enter (
    enter-public room sid name t opened n opened-members
        (ap (lookup room) (open_room-frame room sid name t c l.max_room_size v).1 ∙ gone),
    ground (
      arith,
      entered-members room sid name t c l.max_room_size v room,
      has-add sid sid (members_of room c.rooms),
    ),
  )

-- Nobody leaves who is nowhere.
leave_nobody :
    (ttl now : ℕ) (sid : Text) (c : Core)
    → lookup sid c.users ≡ none
    → leave_no_broadcast ttl sid now c ≡ c
unfolding leave_no_broadcast
leave_nobody ttl now sid c h = rw (h, leave_no_broadcast) refl

-- The session is in the room, whose channel is public and has no owner.
abbrev pub IsOpened : Text → Text → Core → Type 0
IsOpened sid room c =
    (s : ChannelState) × (lookup room c.channels ≡ some s)
    × (wants_private s.visibility ≡ false)
    × (s.owner_sid ≡ [])
    × (has sid (members_of room c.rooms) ≡ true)

module _ (l : Limits) (g : Runtime) (w : World) (sid room name : Text) (t : ℕ)
    (m : 1 ≤ l.max_room_size) (v : Inv l.max_room_size w.core) (d : Distinct (keys w.core.channels))
    (n : is_empty room ≡ false) (free : lookup sid w.core.users ≡ none) (now left_at : ℕ)
    (due : is_due l.channel_empty_ttl now w.core.rooms room w.core.channels ≡ true) where
  abbrev swept : Core
  swept = (sweep l.channel_empty_ttl now w.core.channels w.core).0

  swept-IsOpened : IsOpened sid room (join_commit l room sid name t swept).0
  unfolding touched unowned wants_private
  swept-IsOpened =
      let i = sweep-Inv l.max_room_size l.channel_empty_ttl now w.core.channels w.core v in
      let x =
        sweep-channels l.max_room_size l.channel_empty_ttl now w.core.channels w.core v d room in
      let p =
        join_commit-public l sid room name t swept n m i.0
          (x.1 ∙ due-members l.channel_empty_ttl now room w.core due) (ground (arith, x.0)) in
      (touched 1 t (unowned room t), p.0, refl, refl, p.1)

  -- A session without a room that was let into a channel, and stands between the check and the entry
  -- of handleJoin, may find the channel public and without an owner, whatever it was: where the
  -- channel is empty and due, a sweep can come in between.
  pub late_join-IsOpened :
      w.phase sid ≡ checked room name t → (w' : World) × Reach l g w w' × IsOpened sid room w'.core
  late_join-IsOpened at_check =
      let i = sweep-Inv l.max_room_size l.channel_empty_ttl now w.core.channels w.core v in
      let e = leave_nobody l.channel_empty_ttl left_at sid swept (ap (lookup sid) i.1 ∙ free) in
      let there = departed room name t in
      (
        _,
        next (next (next start (cleanup now)) (depart sid room name t left_at at_check))
            (arrive sid room name t (set_phase_self l g sid there w.phase)),
        subst (λ c. IsOpened sid room (join_commit l room sid name t c).0) (sym e) swept-IsOpened,
      )
