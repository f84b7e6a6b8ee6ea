-- ===== src/Realtime/Joined.antt =====
-- handleJoin of internal/realtime/events.go as one call, with no other goroutine in between.
use walkie_talk_server.Json.{Runtime, Fields, any_string, get}
use walkie_talk_server.Realtime.State.{
  Limits, ChannelState, private_channel, failure, Core, Hub, members_of,
}
use walkie_talk_server.Realtime.Secrets.{Random, opens}
use walkie_talk_server.Realtime.Send.{send}
use walkie_talk_server.Realtime.Channels.{is_room_member}
use walkie_talk_server.Realtime.Admission.{prepare_channel_join, repaired, admit, wants_private}
use walkie_talk_server.Realtime.Join.{
  Readings, Check, go_on, join_check, join_commit, join_rest, handle_join, leave_no_broadcast,
  sid_prefix,
}
use walkie_talk_server.Realtime.Invariant.{Inv}
use walkie_talk_server.Realtime.Leave.{leave-Inv, leave-members, leave-gone, leave-sizes}
use walkie_talk_server.Realtime.Prepare.{prepare-Inv, prepare-frame}
use walkie_talk_server.Realtime.Enter.{join_commit-members}
use walkie_talk_server.Util.Sanitize.{clean_room, clean_name}
use walkie_talk_server.Base.{
  ℕ, ◌≤◌, ◌<◌, ◌≡◌, ◌≢◌, refl, true, false, some, Text, lit, arith, if◌then◌else◌, is_empty, length,
}
use walkie_talk_server.Base.Dict.{lookup, insert, lookup-insert}
use walkie_talk_server.Base.KeySet.{has, same}

module _ (l : Limits) (g : Runtime) (t : Readings) (room sid name : Text) (fs : Fields) (c : Core)
    (m : 1 ≤ l.max_room_size) (v : Inv l.max_room_size c) (sn : is_empty sid ≡ false)
    (rn : is_empty room ≡ false) where
  abbrev checked_core : Core
  checked_core = (prepare_channel_join g t.code t.spare_code room sid name fs t.now c).0

  abbrev left_core : Core
  left_core = leave_no_broadcast l.channel_empty_ttl sid t.left_at checked_core

  check-Inv : Inv l.max_room_size checked_core
  check-Inv = prepare-Inv g t.code t.spare_code sid name fs room t.now c sn v

  left-Inv : Inv l.max_room_size left_core
  left-Inv = leave-Inv l.channel_empty_ttl sid t.left_at checked_core l.max_room_size check-Inv

  check-full :
      (join_check l g t.code t.spare_code room sid name fs t.now c).1 ≡ go_on
      → has sid (members_of room c.rooms) ≡ false
      → length (members_of room c.rooms) < l.max_room_size
  unfolding join_check is_room_member
  check-full h k = ground (arith, prepare-frame g t.code t.spare_code sid name fs room t.now c)

  -- The room that passed the check has space after the leave.
  space :
      (join_check l g t.code t.spare_code room sid name fs t.now c).1 ≡ go_on
      → length (members_of room left_core.rooms) < l.max_room_size
  space h = ground (
    arith,
    check-full h,
    leave-sizes l.channel_empty_ttl sid t.left_at checked_core l.max_room_size check-Inv room,
    prepare-frame g t.code t.spare_code sid name fs room t.now c,
    v.agree sid room,
    v.sized room,
  )

  committed-members :
      (join_check l g t.code t.spare_code room sid name fs t.now c).1 ≡ go_on
      → (s r : Text)
      → has s (members_of r (join_commit l room sid name t.now left_core).0.rooms)
        ≡ (if same sid s then same room r else has s (members_of r c.rooms))
  committed-members h s r = ground (
    arith,
    space h,
    join_commit-members l room sid name t.now left_core left-Inv m rn
        (leave-gone l.channel_empty_ttl sid t.left_at checked_core l.max_room_size check-Inv) s r,
    leave-members l.channel_empty_ttl sid t.left_at checked_core l.max_room_size check-Inv s r,
    prepare-frame g t.code t.spare_code sid name fs room t.now c,
  )

module _ (g : Runtime) (r r' : Random) (sid name : Text) (fs : Fields) (room : Text) (now : ℕ)
    (c : Core) (s : ChannelState) where
  opens-repaired : opens g fs (repaired sid name s) ≡ opens g fs s
  unfolding opens repaired
  opens-repaired = refl

  admit-refuses :
      wants_private s.visibility ≡ true
      → is_empty s.owner_sid ≡ false
      → s.owner_sid ≢ sid
      → opens g fs s ≡ false
      → admit g r r' sid name fs false s ≡ (repaired sid name s, false)
  unfolding admit repaired wants_private
  admit-refuses p w o x = ground (arith, opens-repaired)

  prepare-refuses :
      lookup room c.channels ≡ some s
      → wants_private s.visibility ≡ true
      → is_empty s.owner_sid ≡ false
      → s.owner_sid ≢ sid
      → has sid (members_of room c.rooms) ≡ false
      → opens g fs s ≡ false
      → prepare_channel_join g r r' room sid name fs now c
        ≡ (record c { channels = insert room (repaired sid name s) c.channels }, false)
  unfolding prepare_channel_join is_room_member
  prepare-refuses e p w o k x = rw (e, prepare_channel_join, k, admit-refuses p w o x)

abbrev pub room_asked : Limits → Runtime → Fields → Text
room_asked l g fs = clean_room g.unicode (any_string g (get (lit "room") fs)) l.max_room_len

abbrev pub name_asked : Limits → Runtime → Text → Fields → Text
name_asked l g sid fs =
    clean_name g.unicode (any_string g (get (lit "name") fs)) (sid_prefix sid) l.max_name_len

abbrev pub verdict : Limits → Runtime → Readings → Text → Fields → Core → Check
verdict l g t sid fs c =
    (join_check l g t.code t.spare_code (room_asked l g fs) sid (name_asked l g sid fs) fs t.now
      c).1

module _ (l : Limits) (g : Runtime) (t : Readings) (sid : Text) (fs : Fields) (h : Hub)
    (m : 1 ≤ l.max_room_size) (v : Inv l.max_room_size h.core) (sn : is_empty sid ≡ false) where
  join-go_on :
      (rn : is_empty (room_asked l g fs) ≡ false)
      → verdict l g t sid fs h.core ≡ go_on
      → (handle_join l g t sid fs h).core
        ≡ (join_commit l
            (room_asked l g fs)
            sid
            (name_asked l g sid fs)
            t.now
            (left_core l g t (room_asked l g fs) sid (name_asked l g sid fs) fs h.core m v sn rn)).0
  unfolding handle_join join_rest join_check
  join-go_on rn e = ground arith

  join-refused :
      verdict l g t sid fs h.core ≢ go_on
      → ((handle_join l g t sid fs h).core.rooms ≡ h.core.rooms)
        × ((handle_join l g t sid fs h).core.users ≡ h.core.users)
  unfolding handle_join join_check
  join-refused e = ground (
    arith,
    prepare-frame g t.code t.spare_code sid (name_asked l g sid fs) fs (room_asked l g fs) t.now
        h.core,
  )

  join-unnamed : is_empty (room_asked l g fs) ≡ true → (handle_join l g t sid fs h).core ≡ h.core
  unfolding handle_join
  join-unnamed e = ground arith

  -- A join whose check goes on always ends in the room: the session is then in that room and in no
  -- other, and every other session is where it was. A join that is refused, or that names no room,
  -- changes no room and no user. No other goroutine comes in between, the limit is not 0 and the
  -- session is not empty.
  pub handle_join-members :
      (s r : Text)
      → let c = (handle_join l g t sid fs h).core in
        (is_empty (room_asked l g fs) ≡ false
          → verdict l g t sid fs h.core ≡ go_on
          → has s (members_of r c.rooms) ≡ (
              if same sid s then same (room_asked l g fs) r else has s (members_of r h.core.rooms)))
        × (verdict l g t sid fs h.core ≢ go_on
            → (c.rooms ≡ h.core.rooms) × (c.users ≡ h.core.users))
        × (is_empty (room_asked l g fs) ≡ true → c ≡ h.core)
  handle_join-members s r = (
    λ rn e. rw (join-go_on rn e) (
        committed-members l g t (room_asked l g fs) sid (name_asked l g sid fs) fs h.core m v sn rn
          e s r),
    join-refused,
    join-unnamed,
  )

  owned :
      (s : ChannelState)
      → lookup (room_asked l g fs) h.core.channels ≡ some s
      → wants_private s.visibility ≡ true
      → is_empty s.owner_sid ≡ false
  owned s e p = ground (arith, v.sound (room_asked l g fs))

  -- A private channel keeps out a session that does not own it and is not a member, unless it gives
  -- the invite code or the PIN: the session gets the error and nobody else a message, no room and no
  -- user changes, and the channel keeps its visibility, owner, invite code and PIN.
  pub handle_join-private :
      (s : ChannelState)
      → is_empty (room_asked l g fs) ≡ false
      → lookup (room_asked l g fs) h.core.channels ≡ some s
      → wants_private s.visibility ≡ true
      → s.owner_sid ≢ sid
      → has sid (members_of (room_asked l g fs) h.core.rooms) ≡ false
      → opens g fs s ≡ false
      → let d = handle_join l g t sid fs h in
        (d.net ≡ send sid (failure (private_channel (room_asked l g fs))) h.net)
        × (d.core.rooms ≡ h.core.rooms)
        × (d.core.users ≡ h.core.users)
        × ((s' : ChannelState) × (lookup (room_asked l g fs) d.core.channels ≡ some s')
            × (s'.visibility ≡ s.visibility)
            × (s'.owner_sid ≡ s.owner_sid)
            × (s'.invite_code ≡ s.invite_code)
            × (s'.pin_hash ≡ s.pin_hash))
  unfolding handle_join join_check repaired wants_private
  handle_join-private s rn e p o k x =
      let refuse =
        prepare-refuses g t.code t.spare_code sid (name_asked l g sid fs) fs (room_asked l g fs)
          t.now h.core s e p (owned s e p) o k x in
      let named = repaired sid (name_asked l g sid fs) s in
      (
        ground (arith, refuse),
        ground (arith, refuse),
        ground (arith, refuse),
        (
          named,
          ground (
            arith,
            refuse,
            lookup-insert (room_asked l g fs) (room_asked l g fs) named h.core.channels,
          ),
          ground arith,
          ground (arith, owned s e p),
          refl,
          refl,
        ),
      )
