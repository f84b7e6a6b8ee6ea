-- ===== src/Screen/Signals.antt =====
-- Whom the handlers of internal/realtime/screen.go reach, and what they do to the screens.
use walkie_talk_server.Json.{Runtime, Fields, get}
use walkie_talk_server.Store.{check}
use walkie_talk_server.Realtime.State.{
  Limits, ScreenState, signaling_too_fast, bad_offer, bad_answer, viewer_not_found,
  sharer_not_found, screen_share_error, screen_offer, screen_answer, screen_ice_candidate, Hub,
  members_of,
}
use walkie_talk_server.Realtime.Join.{room_name}
use walkie_talk_server.Realtime.Relay.{send-queues}
use walkie_talk_server.Screen.Clean.{
  clean_web_rtc_type, any_bool, sdp_from_data, clean_ice_candidate,
}
use walkie_talk_server.Screen.Handlers.{
  Reads, other_screen, new_screen, start_screen, handle_screen_start, handle_screen_stop,
  handle_screen_offer, handle_screen_answer, handle_screen_ice, signal_target, stream_of,
}
use walkie_talk_server.Base.{
  ◌≡◌, ◌≢◌, Bool, true, false, not, ◌&&◌, ◌++◌, none, some, Text, lit, arith, if◌then◌else◌,
  is_empty, Bool-cases, Option-cases, inl, inr, text_dec, ap,
}
use walkie_talk_server.Base.Dict.{lookup, lookup-insert, lookup-remove}
use walkie_talk_server.Base.KeySet.{has, same}

module _ (l : Limits) (g : Runtime) (i : Reads) (sid : Text) (fs : Fields) (h : Hub) where
  abbrev pub signal_passes : Bool
  signal_passes =
      (check i.outside (sid ++ lit ":signal") l.max_screen_signal_rate l.msg_rate_window h.rate).1

  -- There is a room to share in, and its screen is free, the session's own, or taken over.
  abbrev pub may_share : Bool
  may_share =
      signal_passes
      && (not (is_empty (room_name sid h.core).0)
          && elim (other_screen sid (lookup (room_name sid h.core).0 h.core.screens)) [
            | none ↦ true
            | some o ↦ any_bool g (get (lit "takeover") fs)
          ])

  -- The session shares the screen of its room.
  abbrev pub may_stop : Bool
  may_stop =
      not (is_empty (room_name sid h.core).0)
      && elim (lookup (room_name sid h.core).0 h.core.screens) [
        | none ↦ false
        | some s ↦ same s.sender_sid sid
      ]

  -- A start puts the new screen into the map, under the session's room, exactly if the session may
  -- share: the rate store lets it through, it is in a room, and the screen of the room is free, its
  -- own, or taken over. No other screen, and no room, user or channel, changes.
  pub handle_screen_start-screens :
      (j : Text)
      → let at = room_name sid h.core in
        let d = (handle_screen_start l g i sid fs h).core in
        (lookup j d.screens ≡ (
          if may_share && same at.0 j
          then some (new_screen g i at.0 at.1 sid fs)
          else lookup j h.core.screens))
        × (d ≡ record h.core { screens = d.screens })
  unfolding handle_screen_start start_screen
  handle_screen_start-screens j =
      let at = room_name sid h.core in
      let s = new_screen g i at.0 at.1 sid fs in
      elim (Option-cases (other_screen sid (lookup at.0 h.core.screens))) [
        | inl e ↦ ground (arith, lookup-insert at.0 j s h.core.screens)
        | inr (o, e) ↦ ground (arith, lookup-insert at.0 j s h.core.screens)
      ]

  -- A stop takes the screen of the session's room, exactly if the session shares it.
  pub handle_screen_stop-screens :
      (j : Text)
      → let d = (handle_screen_stop g sid fs h).core in
        (lookup j d.screens
          ≡ (if may_stop && same (room_name sid h.core).0 j then none else lookup j h.core.screens))
        × (d ≡ record h.core { screens = d.screens })
  unfolding handle_screen_stop
  handle_screen_stop-screens j =
      let at = room_name sid h.core in
      elim (Option-cases (lookup at.0 h.core.screens)) [
        | inl e ↦ ground arith
        | inr (s, e) ↦ ground (arith, lookup-remove at.0 j h.core.screens)
      ]

  -- A screen of another session stays as it is when the session stops sharing, and when it starts to
  -- share without asking for a takeover.
  pub screens_guarded :
      (j : Text) (s : ScreenState)
      → lookup j h.core.screens ≡ some s
      → s.sender_sid ≢ sid
      → (any_bool g (get (lit "takeover") fs) ≡ false
          → lookup j (handle_screen_start l g i sid fs h).core.screens ≡ some s)
        × (lookup j (handle_screen_stop g sid fs h).core.screens ≡ some s)
  screens_guarded j s e n = elim (text_dec (room_name sid h.core).0 j) [
    | yes p ↦ (
      λ t. ground (arith, handle_screen_start-screens j, ap (λ r. lookup r h.core.screens) p),
      ground (arith, handle_screen_stop-screens j, ap (λ r. lookup r h.core.screens) p),
    )
    | no p ↦ (
      λ t. ground (arith, handle_screen_start-screens j),
      ground (arith, handle_screen_stop-screens j),
    )
  ]

-- Only the target, in the room of the sender and with a client, may have been sent anything but the
-- sender, and nothing but messages changes.
abbrev pub Heard : Runtime → Text → Fields → Hub → Text → Hub → Type 0
Heard g sid fs h s d =
    (d.core ≡ h.core)
    × (lookup s d.net.queues ≢ lookup s h.net.queues
        → (s ≡ signal_target g fs)
          × (has s h.net.clients ≡ true)
          × (has s (members_of (room_name sid h.core).0 h.core.rooms) ≡ true))

module _ (l : Limits) (g : Runtime) (i : Reads) (sid : Text) (fs : Fields) (h : Hub) (s : Text)
    (other : s ≢ sid) where
  abbrev may_hear : Bool
  may_hear =
      same (signal_target g fs) s
      && (has s h.net.clients && has s (members_of (room_name sid h.core).0 h.core.rooms))

  offer-unheard :
      may_hear ≡ false
      → lookup s (handle_screen_offer l g i sid fs h).net.queues ≡ lookup s h.net.queues
  unfolding handle_screen_offer
  offer-unheard e =
      let at = room_name sid h.core in
      let kind = clean_web_rtc_type g (get (lit "type") fs) (lit "offer") in
      let m = screen_offer sid at.1 (sdp_from_data g fs) kind (stream_of g fs) in
      ground (
        arith,
        send-queues sid s (screen_share_error signaling_too_fast) h.net,
        send-queues sid s (screen_share_error bad_offer) h.net,
        send-queues sid s (screen_share_error viewer_not_found) h.net,
        send-queues (signal_target g fs) s m h.net,
      )

  answer-unheard :
      may_hear ≡ false
      → lookup s (handle_screen_answer l g i sid fs h).net.queues ≡ lookup s h.net.queues
  unfolding handle_screen_answer
  answer-unheard e =
      let at = room_name sid h.core in
      let kind = clean_web_rtc_type g (get (lit "type") fs) (lit "answer") in
      let m = screen_answer sid at.1 (sdp_from_data g fs) kind (stream_of g fs) in
      ground (
        arith,
        send-queues sid s (screen_share_error signaling_too_fast) h.net,
        send-queues sid s (screen_share_error bad_answer) h.net,
        send-queues sid s (screen_share_error sharer_not_found) h.net,
        send-queues (signal_target g fs) s m h.net,
      )

  ice-unheard :
      may_hear ≡ false
      → lookup s (handle_screen_ice l g i sid fs h).net.queues ≡ lookup s h.net.queues
  unfolding handle_screen_ice
  ice-unheard e =
      let at = room_name sid h.core in
      let too_fast = send-queues sid s (screen_share_error signaling_too_fast) h.net in
      elim (Option-cases
        (clean_ice_candidate g (get (lit "candidate") fs) l.max_screen_ice_chars)) [
          | inl k ↦ ground (arith, too_fast)
          | inr (c, k) ↦ ground (
            arith,
            too_fast,
            send-queues (signal_target g fs) s (screen_ice_candidate sid at.1 c (stream_of g fs))
                h.net,
          )
        ]

  Heard-unheard :
      (d : Hub)
      → d.core ≡ h.core
      → (may_hear ≡ false → lookup s d.net.queues ≡ lookup s h.net.queues)
      → Heard g sid fs h s d
  Heard-unheard d k u =
      (k, λ c. elim (Bool-cases may_hear) [ inl e ↦ ground arith | inr e ↦ absurd (c (u e)) ])

  -- An offer, an answer and an ICE candidate change no queue but that of their target, which is then
  -- in the room of the sender and has a client, and the sender's own; no room, user, channel or screen
  -- changes.
  pub signal-queues :
      Heard g sid fs h s (handle_screen_offer l g i sid fs h)
      × Heard g sid fs h s (handle_screen_answer l g i sid fs h)
      × Heard g sid fs h s (handle_screen_ice l g i sid fs h)
  unfolding handle_screen_offer handle_screen_answer handle_screen_ice
  signal-queues = (
    Heard-unheard (handle_screen_offer l g i sid fs h) (ground arith) offer-unheard,
    Heard-unheard (handle_screen_answer l g i sid fs h) (ground arith) answer-unheard,
    Heard-unheard (handle_screen_ice l g i sid fs h) (ground arith) ice-unheard,
  )
