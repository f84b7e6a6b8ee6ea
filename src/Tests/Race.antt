-- ===== src/Tests/Race.antt =====
-- A private channel that a sweep takes while a session joins it: internal/realtime.
use walkie_talk_server.Json.{Fields, no_fields, get, any_string, field, string}
use walkie_talk_server.Realtime.State.{Core, members_of}
use walkie_talk_server.Realtime.Secrets.{
  opens, requested_visibility, clean_channel_visibility, secret_of, pin_of, equal_fold,
  hash_channel_pin, new_channel_invite_code, clean_channel_pin, first_non_empty_string,
}
use walkie_talk_server.Realtime.Channels.{
  is_room_member, unowned, touch_channel, touched, channel_or_new, mark_channel_empty, emptied,
}
use walkie_talk_server.Realtime.Admission.{
  wants_private, prepare_channel_join, new_channel, admit, repaired, close_by_owner, set_pin,
}
use walkie_talk_server.Realtime.Join.{
  go_on, join_check, join_commit, leave_no_broadcast, leave_current, leave_room, without_user,
  open_room, enter,
}
use walkie_talk_server.Realtime.Invariant.{Inv}
use walkie_talk_server.Realtime.Prepare.{prepare-Inv}
use walkie_talk_server.Realtime.Enter.{join_commit-Inv}
use walkie_talk_server.Realtime.Leave.{leave-Inv}
use walkie_talk_server.Realtime.Threads.{start-IsSafe}
use walkie_talk_server.Realtime.Interleaving.{
  World, Reach, start_world, new_core, set_phase, checked,
}
use walkie_talk_server.Realtime.Race
use walkie_talk_server.Realtime.Race.{IsOpened}
use walkie_talk_server.Tests.Samples.{runtime, limits, room, ann, bob}
use walkie_talk_server.Util.Runes.{trim_space}
use walkie_talk_server.Base.{◌≡◌, refl, none, lit, arith, text_dec, rune_len}
use walkie_talk_server.Base.Dict.{lookup, insert, remove}
use walkie_talk_server.Base.KeySet.{has, add, del}

program : Unit {0}
unfolding join_check prepare_channel_join is_room_member new_channel unowned admit repaired
    close_by_owner set_pin requested_visibility clean_channel_visibility opens secret_of pin_of
    equal_fold hash_channel_pin members_of lookup insert remove text_dec wants_private join_commit
    open_room enter touch_channel touched channel_or_new has add new_core get any_string
    mark_channel_empty emptied leave_no_broadcast leave_current leave_room without_user del
    set_phase
program = tt

-- Ann makes a private channel with a PIN, enters it, and leaves it at 100.
abbrev asked : Fields
asked =
    field (lit "visibility") (string (lit "private"))
      (field (lit "pin") (string (lit "1234")) no_fields)

abbrev made : Core
made = (prepare_channel_join runtime none none room ann (lit "Ann") asked 10 new_core).0

abbrev used : Core
used = (join_commit limits room ann (lit "Ann") 10 made).0

abbrev left : Core
left = leave_no_broadcast limits.channel_empty_ttl ann 100 used

left-Inv : Inv 2 left
unfolding program
left-Inv = leave-Inv limits.channel_empty_ttl ann 100 used 2 (
    join_commit-Inv limits room ann (lit "Ann") 10 made
      (prepare-Inv runtime none none ann (lit "Ann") asked room 10 new_core refl
        (start-IsSafe limits runtime (omega arith)).inv)
      (omega arith) refl refl)

-- Bob has given the PIN.
abbrev pinned : Fields
pinned = field (lit "pin") (string (lit "1234")) no_fields

pin_opens :
    (join_check limits runtime none none room bob (lit "Bob") pinned 900000000099 left).1 ≡ go_on
unfolding program clean_channel_pin new_channel_invite_code first_non_empty_string trim_space
    rune_len
pin_opens = refl

abbrev waiting : World
waiting = record {
  core = left;
  phase = set_phase bob (checked room (lit "Bob") 900000000099) start_world.phase;
}

late_join-IsOpened_example :
    (w' : World) × Reach limits runtime waiting w' × IsOpened bob room w'.core
unfolding program
late_join-IsOpened_example =
    Race.late_join-IsOpened limits runtime waiting bob room (lit "Bob") 900000000099 (omega arith)
      left-Inv (refl, tt) refl refl 900000000100 900000000101 refl refl
