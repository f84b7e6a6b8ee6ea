-- ===== src/Screen/Handlers.antt =====
-- The handlers of internal/realtime/screen.go.
use walkie_talk_server.Json.{Runtime, Fields, get, any_string, trim}
use walkie_talk_server.Util.Sanitize.{clean_small_text}
use walkie_talk_server.Store.{Outside, check}
use walkie_talk_server.Realtime.Secrets.{Random}
use walkie_talk_server.Realtime.State.{
  Limits, ScreenState, ScreenFailure, signaling_too_fast, not_in_room, screen_busy, not_owner,
  no_screen, bad_offer, bad_answer, viewer_not_found, sharer_not_found, screen_share_started,
  screen_share_stopped, screen_share_state, screen_share_error, screen_viewer_ready, screen_offer,
  screen_answer, screen_ice_candidate, Core, Net, Hub, members_of,
}
use walkie_talk_server.Realtime.Send.{send, broadcast}
use walkie_talk_server.Realtime.Join.{room_name}
use walkie_talk_server.Screen.Clean.{
  clean_stream_id, clean_screen_kind, clean_web_rtc_type, any_bool, sdp_from_data,
  clean_ice_candidate,
}
use walkie_talk_server.Base.{
  ℕ, Bool, true, false, not, ◌&&◌, ◌||◌, [], ◌++◌, Option, none, some, Text, lit, if◌then◌else◌,
  is_empty,
}
use walkie_talk_server.Base.Dict.{lookup, insert, remove}
use walkie_talk_server.Base.KeySet.{has, same}

-- What a handler reads from outside: the rate store's inputs, random bytes, and the time as a float64.
pub record Reads : Type 0 where
  pub outside : Outside
  pub random : Random
  pub started_at : ℕ

unfoldable pub emit_screen_error : Text → ScreenFailure → Hub → Hub
emit_screen_error sid e h = record h { net = send sid (screen_share_error e) h.net }

unfoldable pub check_signal : Limits → Reads → Text → Hub → Hub × Bool
unfolding emit_screen_error
check_signal l i sid h =
    let r =
      check i.outside (sid ++ lit ":signal") l.max_screen_signal_rate l.msg_rate_window h.rate in
    let h' : Hub = record h { rate = r.0 } in
    if r.1 then (h', true) else (emit_screen_error sid signaling_too_fast h', false)

-- The screen of another session.
abbrev pub other_screen : Text → Option ScreenState → Option ScreenState
other_screen sid none = none
other_screen sid (some s) = if same s.sender_sid sid then none else some s

unfoldable pub new_screen : Runtime → Reads → Text → Text → Text → Fields → ScreenState
new_screen g i room name sid fs = record {
  room = room;
  stream_id = clean_stream_id g i.random (get (lit "stream_id") fs);
  sender_sid = sid;
  sender_name = name;
  kind = clean_screen_kind g (get (lit "kind") fs);
  title = clean_small_text (any_string g (get (lit "title") fs)) 120;
  has_audio = any_bool g (get (lit "has_audio") fs);
  started_at = i.started_at;
}

-- The end of handleScreenStart: the new screen is put into the map, and the room is told.
unfoldable pub start_screen : Text → ScreenState → Option ScreenState → Hub → Hub
start_screen room s taken h =
    let c : Core = record h.core { screens = insert room s h.core.screens } in
    let n = elim taken as (λ x. Net) [
      | none ↦ h.net
      | some o ↦
          broadcast room (screen_share_stopped room o.stream_id o.sender_sid (lit "takeover")) [] c
            h.net
    ] in
    record h {
      core = c;
      net =
          broadcast room (screen_share_state (some s)) [] c
            (broadcast room (screen_share_started s) [] c n);
    }

unfoldable pub handle_screen_start : Limits → Runtime → Reads → Text → Fields → Hub → Hub
unfolding check_signal emit_screen_error
handle_screen_start l g i sid fs h =
    let r = check_signal l i sid h in
    let at = room_name sid h.core in
    let s = new_screen g i at.0 at.1 sid fs in
    if not r.1
    then r.0
    else if is_empty at.0
    then emit_screen_error sid not_in_room r.0
    else elim (other_screen sid (lookup at.0 h.core.screens)) [
      | none ↦ start_screen at.0 s none r.0
      | some o ↦
          if any_bool g (get (lit "takeover") fs)
          then start_screen at.0 s (some o) r.0
          else emit_screen_error sid (screen_busy o) r.0
    ]

unfoldable pub stop_reason : Runtime → Fields → Text
stop_reason g fs =
    let reason = clean_small_text (any_string g (get (lit "reason") fs)) 40 in
    if is_empty reason then lit "stopped" else reason

unfoldable pub handle_screen_stop : Runtime → Text → Fields → Hub → Hub
unfolding emit_screen_error
handle_screen_stop g sid fs h =
    let at = room_name sid h.core in
    let c : Core = record h.core { screens = remove at.0 h.core.screens } in
    if is_empty at.0 then h else elim (lookup at.0 h.core.screens) [
      | none ↦ record h { net = send sid (screen_share_state none) h.net }
      | some s ↦
          if not (same s.sender_sid sid) then emit_screen_error sid not_owner h else record h {
            core = c;
            net = broadcast at.0 (screen_share_state none) [] c (
                broadcast at.0 (screen_share_stopped at.0 s.stream_id sid (stop_reason g fs)) [] c
                  h.net);
          }
    ]

unfoldable pub handle_screen_state : Text → Hub → Hub
handle_screen_state sid h =
    let at = room_name sid h.core in
    let shown = if is_empty at.0 then none else lookup at.0 h.core.screens in
    record h { net = send sid (screen_share_state shown) h.net }

unfoldable pub handle_screen_state_for_room : Text → Hub → Hub
handle_screen_state_for_room room h = record h {
  net = broadcast room (screen_share_state (lookup room h.core.screens)) [] h.core h.net;
}

unfoldable pub handle_viewer_ready : Limits → Reads → Text → Hub → Hub
unfolding check_signal emit_screen_error
handle_viewer_ready l i sid h =
    let r = check_signal l i sid h in
    let at = room_name sid h.core in
    if not r.1 || is_empty at.0 then r.0 else elim (lookup at.0 h.core.screens) [
      | none ↦ emit_screen_error sid no_screen r.0
      | some s ↦ if same s.sender_sid sid then r.0 else record r.0 {
        net = send s.sender_sid (screen_viewer_ready sid at.1 s.stream_id) r.0.net;
      }
    ]

unfoldable pub sid_in_room : Text → Text → Core → Bool
sid_in_room sid room c = not (is_empty sid || is_empty room) && has sid (members_of room c.rooms)

unfoldable pub signal_target : Runtime → Fields → Text
signal_target g fs = clean_small_text (any_string g (get (lit "target_sid") fs)) 128

abbrev pub stream_of : Runtime → Fields → Text
stream_of g fs = trim (any_string g (get (lit "stream_id") fs)) 48

unfoldable pub handle_screen_offer : Limits → Runtime → Reads → Text → Fields → Hub → Hub
unfolding check_signal emit_screen_error sid_in_room
handle_screen_offer l g i sid fs h =
    let r = check_signal l i sid h in
    let at = room_name sid h.core in
    let target = signal_target g fs in
    let sdp = sdp_from_data g fs in
    let kind = clean_web_rtc_type g (get (lit "type") fs) (lit "offer") in
    if not r.1
    then r.0
    else if is_empty target || is_empty sdp
    then emit_screen_error sid bad_offer r.0
    else if not (sid_in_room target at.0 h.core)
    then emit_screen_error sid viewer_not_found r.0
    else record r.0 { net = send target (screen_offer sid at.1 sdp kind (stream_of g fs)) r.0.net }

unfoldable pub handle_screen_answer : Limits → Runtime → Reads → Text → Fields → Hub → Hub
unfolding check_signal emit_screen_error sid_in_room
handle_screen_answer l g i sid fs h =
    let r = check_signal l i sid h in
    let at = room_name sid h.core in
    let target = signal_target g fs in
    let sdp = sdp_from_data g fs in
    let kind = clean_web_rtc_type g (get (lit "type") fs) (lit "answer") in
    if not r.1
    then r.0
    else if is_empty target || is_empty sdp
    then emit_screen_error sid bad_answer r.0
    else if not (sid_in_room target at.0 h.core)
    then emit_screen_error sid sharer_not_found r.0
    else record r.0 { net = send target (screen_answer sid at.1 sdp kind (stream_of g fs)) r.0.net }

unfoldable pub handle_screen_ice : Limits → Runtime → Reads → Text → Fields → Hub → Hub
unfolding check_signal emit_screen_error sid_in_room
handle_screen_ice l g i sid fs h =
    let r = check_signal l i sid h in
    let at = room_name sid h.core in
    let target = signal_target g fs in
    if not r.1
    then r.0
    else elim (clean_ice_candidate g (get (lit "candidate") fs) l.max_screen_ice_chars) [
      | none ↦ r.0
      | some c ↦
          if is_empty target || not (sid_in_room target at.0 h.core) then r.0 else record r.0 {
            net = send target (screen_ice_candidate sid at.1 c (stream_of g fs)) r.0.net;
          }
    ]
