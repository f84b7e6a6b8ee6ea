-- ===== src/Tests/Screen.antt =====
-- internal/realtime/screen.go
use walkie_talk_server.Realtime.State.{ScreenState, Hub}
use walkie_talk_server.Realtime.Join.{room_name}
use walkie_talk_server.Screen.Sdp.{
  clean_sdp, clean_sdp_text, kept_lines, sdp_lines, line_feeds, bare_line, is_sdp_line, normal_line,
  ssrc_msid,
}
use walkie_talk_server.Util.Runes.{trim_space, has_prefix}
use walkie_talk_server.Util.Pieces.{split, contains, take_while, drop_while}
use walkie_talk_server.Screen.Clean.{sdp_from_data, any_bool}
use walkie_talk_server.Screen.Handlers.{
  Reads, new_screen, handle_screen_start, handle_screen_stop, handle_screen_offer,
  handle_screen_answer, handle_screen_ice,
}
use walkie_talk_server.Screen.Signals
use walkie_talk_server.Screen.Signals.{may_share, Heard}
use walkie_talk_server.Screen.Lines
use walkie_talk_server.Screen.Stale
use walkie_talk_server.Screen.Stale.{own, others}
use walkie_talk_server.Realtime.Lifecycle.{remove_client}
use walkie_talk_server.Screen.Lines.{IsClean}
use walkie_talk_server.Json.{Fields, get, no_fields, field, string, object}
use walkie_talk_server.Tests.Samples.{runtime, limits, outside_reads, room, ann, bob, two, hub}
use walkie_talk_server.Base.{
  ◌≡◌, ◌-◌, length, refl, false, ◌&&◌, [], ◌∷◌, ◌++◌, some, none, Text, lit, arith, if◌then◌else◌,
  text_dec,
}
use walkie_talk_server.Base.Dict.{lookup}
use walkie_talk_server.Base.KeySet.{same, has}

abbrev line_end : Text
line_end = 13 ∷ 10 ∷ []

-- A description with written-out line ends, a line before the version, and a source line.
abbrev offered : Text
offered =
    lit "x=1" ++ 92 ∷ b'n' ∷ (lit "v=0" ++ 92 ∷ b'r' ∷ 92 ∷ b'n' ∷ lit "a=ssrc:7  msid: s  t u")

clean_sdp_run :
    clean_sdp runtime (object (field (lit "value") (string offered) no_fields))
    ≡ lit "v=0" ++ (line_end ++ (lit "a=ssrc:7 msid:s t" ++ line_end))
unfolding clean_sdp text_dec clean_sdp_text trim_space kept_lines sdp_lines split line_feeds
    has_prefix bare_line is_sdp_line normal_line contains ssrc_msid take_while drop_while
clean_sdp_run = refl

abbrev offer : Fields
offer = field (lit "target_sid") (string bob) (field (lit "sdp") (string offered) no_fields)

sdp_from_data-IsClean_example : IsClean (sdp_from_data runtime offer)
sdp_from_data-IsClean_example = Lines.sdp_from_data-IsClean runtime offer

abbrev reads : Reads
reads = record { outside = outside_reads; random = none; started_at = 5 }

handle_screen_start-screens_example :
    let at = room_name ann two in
    let d = (handle_screen_start limits runtime reads ann offer (hub two)).core in
    (lookup room d.screens ≡ (
      if may_share limits runtime reads ann offer (hub two) && same at.0 room
      then some (new_screen runtime reads at.0 at.1 ann offer)
      else lookup room two.screens))
    × (d ≡ record two { screens = d.screens })
handle_screen_start-screens_example =
    Signals.handle_screen_start-screens limits runtime reads ann offer (hub two) room

abbrev anns : ScreenState
anns = new_screen runtime reads room (lit "Ann") ann offer

screens_guarded_example :
    let h = hub (record two { screens = (room, anns) ∷ [] }) in
    (any_bool runtime (get (lit "takeover") offer) ≡ false
      → lookup room (handle_screen_start limits runtime reads bob offer h).core.screens ≡ some anns)
    × (lookup room (handle_screen_stop runtime bob offer h).core.screens ≡ some anns)
unfolding lookup text_dec new_screen
screens_guarded_example =
    Signals.screens_guarded limits runtime reads bob offer
      (hub (record two { screens = (room, anns) ∷ [] })) room anns refl (ground arith)

signal-queues_example :
    Heard runtime ann offer
      (hub two)
      bob
      (handle_screen_offer limits runtime reads ann offer (hub two))
    × Heard runtime ann offer
        (hub two)
        bob
        (handle_screen_answer limits runtime reads ann offer (hub two))
    × Heard runtime ann offer
        (hub two)
        bob
        (handle_screen_ice limits runtime reads ann offer (hub two))
signal-queues_example =
    Signals.signal-queues limits runtime reads ann offer (hub two) bob (ground arith)

abbrev screen_in : Text → ScreenState
screen_in r = record {
  room = r;
  stream_id = lit "s1";
  sender_sid = ann;
  sender_name = lit "Ann";
  kind = lit "screen";
  title = [];
  has_audio = false;
  started_at = 5;
}

-- Ann shares in two rooms.
abbrev sharing : Hub
sharing =
    hub (record two {
      screens = (room, screen_in room) ∷ (lit "OTHER", screen_in (lit "OTHER")) ∷ [];
    })

remove_client-screens_example :
    let after = (remove_client limits 30 31 ann (lit "disconnect") sharing).core.screens in
    (length (own ann after) ≡ length (own ann sharing.core.screens) - 1)
    × (others ann after ≡ others ann sharing.core.screens)
unfolding has text_dec
remove_client-screens_example =
    Stale.remove_client-screens limits 30 31 ann (lit "disconnect") sharing (refl, (refl, tt))
