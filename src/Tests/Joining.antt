-- ===== src/Tests/Joining.antt =====
-- Joins, one call at a time and interleaved: internal/realtime/events.go and hub.go.
use walkie_talk_server.Config.{Sources}
use walkie_talk_server.Json.{pos, Fields, no_fields, get, any_string, field, string}
use walkie_talk_server.Realtime.State.{ChannelState, Core, private_channel, failure, members_of}
use walkie_talk_server.Realtime.Send.{send}
use walkie_talk_server.Realtime.Secrets.{
  opens, requested_visibility, clean_channel_visibility, secret_of, pin_of, equal_fold,
  hash_channel_pin, new_channel_invite_code, random_id,
}
use walkie_talk_server.Realtime.Channels.{
  is_room_member, unowned, touch_channel, touched, channel_or_new,
}
use walkie_talk_server.Realtime.Admission.{
  wants_private, prepare_channel_join, new_channel, admit, repaired, close_by_owner, set_pin,
}
use walkie_talk_server.Realtime.Join.{
  go_on, join_check, join_commit, handle_join, leave_no_broadcast, open_room, enter, sid_prefix,
}
use walkie_talk_server.Realtime.Invariant.{Inv, in_room, is_active, is_sound}
use walkie_talk_server.Realtime.Prepare.{prepare-Inv}
use walkie_talk_server.Realtime.Enter.{join_commit-Inv}
use walkie_talk_server.Realtime.Threads
use walkie_talk_server.Realtime.Interleaving.{
  World, Reach, Step, start_world, new_core, set_phase, checked, departed, outside,
}
use walkie_talk_server.Realtime.Threads.{start-IsSafe}
use walkie_talk_server.Realtime.Joined
use walkie_talk_server.Realtime.Joined.{room_asked, name_asked, verdict}
use walkie_talk_server.Util.Sanitize.{clean_room, clean_name}
use walkie_talk_server.Tests.Samples.{
  runtime, limits, readings, room, ann, bob, cat, one, two, hub, join_lobby,
}
use walkie_talk_server.Base.{
  ◌≤◌, ◌≡◌, ◌≢◌, refl, true, false, [], ◌∷◌, none, some, lit, arith, text_dec, length, is_empty,
  if◌then◌else◌, rune_len,
}
use walkie_talk_server.Base.Dict.{lookup, insert, remove}
use walkie_talk_server.Base.KeySet.{has, add, same, is_nil, Distinct}

-- All that a join computes with.
program : Unit {0}
unfolding join_check prepare_channel_join is_room_member new_channel unowned admit repaired
    close_by_owner set_pin requested_visibility clean_channel_visibility opens secret_of pin_of
    equal_fold hash_channel_pin members_of lookup insert remove text_dec wants_private join_commit
    open_room enter touch_channel touched channel_or_new has add new_core clean_room clean_name
    rune_len get any_string sid_prefix
program = tt

start-Inv : Inv 2 new_core
start-Inv = (start-IsSafe limits runtime (omega arith)).inv

one-Inv : Inv 2 one
unfolding program
one-Inv = join_commit-Inv limits room ann (lit "Ann") 10 new_core start-Inv (omega arith) refl refl

two-Inv : Inv 2 two
unfolding program
two-Inv = join_commit-Inv limits room bob (lit "Bob") 20 one one-Inv (omega arith) refl refl

two_members : members_of room two.rooms ≡ ann ∷ bob ∷ []
unfolding program
two_members = refl

-- A third session is refused.
full_run : (join_commit limits room cat (lit "Cat") 30 two).1 ≡ false
unfolding program
full_run = refl

abbrev after_check : World
after_check = record {
  core = (join_check limits runtime none none room ann (lit "Ann") no_fields 5 new_core).0;
  phase = set_phase ann (checked room (lit "Ann") 5) start_world.phase;
}

abbrev after_leave : World
after_leave = record {
  core = leave_no_broadcast limits.channel_empty_ttl ann 6 after_check.core;
  phase = set_phase ann (departed room (lit "Ann") 5) after_check.phase;
}

abbrev joined : World
joined = record {
  core = (join_commit limits room ann (lit "Ann") 5 after_leave.core).0;
  phase = set_phase ann outside after_leave.phase;
}

joined-Reach : Reach limits runtime start_world joined
unfolding program set_phase
joined-Reach =
    Reach.next
      (Reach.next
        (Reach.next Reach.start
          (Step.check_join ann room (lit "Ann") no_fields none none 5 refl refl refl refl))
        (Step.depart ann room (lit "Ann") 5 6 refl))
      (Step.arrive ann room (lit "Ann") 5 refl)

rooms_agree_example :
    (length (members_of room joined.core.rooms) ≤ 2)
    × Distinct (members_of room joined.core.rooms)
    × (has ann (members_of room joined.core.rooms) ≡ in_room ann room joined.core.users)
    × (has ann (members_of room joined.core.rooms) ≡ true
        → has ann (members_of bob joined.core.rooms) ≡ true
        → room ≡ bob)
rooms_agree_example =
    Threads.rooms_agree limits runtime (omega arith) joined joined-Reach ann room bob

channels_kept_example :
    (is_nil (members_of room joined.core.rooms) ≡ false
      → is_active (lookup room joined.core.channels) ≡ true)
    × (is_sound (lookup room joined.core.channels) ≡ true)
channels_kept_example = Threads.channels_kept limits runtime (omega arith) joined joined-Reach room

handle_join-members_example :
    let c = (handle_join limits runtime readings cat join_lobby (hub one)).core in
    (is_empty (room_asked limits runtime join_lobby) ≡ false
      → verdict limits runtime readings cat join_lobby one ≡ go_on
      → has cat (members_of room c.rooms) ≡ (
          if same cat cat
          then same (room_asked limits runtime join_lobby) room
          else has cat (members_of room one.rooms)))
    × (verdict limits runtime readings cat join_lobby one ≢ go_on
        → (c.rooms ≡ one.rooms) × (c.users ≡ one.users))
    × (is_empty (room_asked limits runtime join_lobby) ≡ true → c ≡ one)
unfolding program
handle_join-members_example =
    Joined.handle_join-members limits runtime readings cat join_lobby (hub one) (omega arith)
      one-Inv refl cat room

handle_join_run : verdict limits runtime readings cat join_lobby one ≡ go_on
unfolding program
handle_join_run = refl

-- Ann made the room private.
abbrev ask_private : Fields
ask_private = field (lit "visibility") (string (lit "Private")) no_fields

abbrev prepared : Core
prepared = (prepare_channel_join runtime none none room ann (lit "Ann") ask_private 5 new_core).0

abbrev locked : Core
locked = (join_commit limits room ann (lit "Ann") 10 prepared).0

abbrev locked_state : ChannelState
locked_state = touched 1 10 (new_channel runtime none none room ann (lit "Ann") ask_private 5)

prepared-Inv : Inv 2 prepared
prepared-Inv =
    prepare-Inv runtime none none ann (lit "Ann") ask_private room 5 new_core refl start-Inv

locked-Inv : Inv 2 locked
unfolding program
locked-Inv =
    join_commit-Inv limits room ann (lit "Ann") 10 prepared prepared-Inv (omega arith) refl refl

handle_join-private_example :
    let d = handle_join limits runtime readings cat join_lobby (hub locked) in
    (d.net ≡ send cat (failure (private_channel room)) (hub locked).net)
    × (d.core.rooms ≡ locked.rooms)
    × (d.core.users ≡ locked.users)
    × ((s' : ChannelState) × (lookup room d.core.channels ≡ some s')
        × (s'.visibility ≡ locked_state.visibility)
        × (s'.owner_sid ≡ locked_state.owner_sid)
        × (s'.invite_code ≡ locked_state.invite_code)
        × (s'.pin_hash ≡ locked_state.pin_hash))
unfolding program new_channel_invite_code random_id
handle_join-private_example =
    Joined.handle_join-private limits runtime readings cat join_lobby (hub locked) (omega arith)
      locked-Inv refl locked_state refl refl refl (λ e. ground arith) refl refl

-- A machine on which every variable is the number 2.
abbrev twos : Sources
twos = record {
  getenv = λ key. lit "2";
  atoi = λ s. some (pos 2);
  parse_float = λ s. some 2;
  unicode = runtime.unicode;
  float = runtime.float;
}
