-- ===== src/Tests/Listing.antt =====
-- What clients are told of channels: internal/realtime/hub.go and the end of handleJoin.
use mathlib.Core.List.{Perm}
use walkie_talk_server.Realtime.State.{ChannelState, Core, private}
use walkie_talk_server.Realtime.Channels.{channels_snapshot, unowned}
use walkie_talk_server.Realtime.Admission.{wants_private}
use walkie_talk_server.Realtime.Join.{room_state_of}
use walkie_talk_server.Realtime.Listing
use walkie_talk_server.Realtime.Listing.{is_secret_free, is_counted, InOrder}
use walkie_talk_server.Tests.Samples.{two, room, ann}
use walkie_talk_server.Base.{◌≡◌, refl, true, [], ◌∷◌, some, lit, all, map, text_dec}
use walkie_talk_server.Base.Dict.{lookup}

channels_snapshot-listing_example :
    InOrder (channels_snapshot 900 30 two)
    × Perm (map (λ s. s.name) (channels_snapshot 900 30 two)) (map (λ e. e.0) two.channels)
    × (all (is_counted two) (channels_snapshot 900 30 two) ≡ true)
    × (all is_secret_free (channels_snapshot 900 30 two) ≡ true)
channels_snapshot-listing_example = Listing.channels_snapshot-listing 900 30 two

-- A private channel of Ann's.
abbrev club : ChannelState
club = record (unowned room 5) {
  visibility = private;
  is_private = true;
  owner_sid = ann;
  invite_code = lit "CODE";
}

abbrev with_club : Core
with_club = record two { channels = (room, club) ∷ [] }

room_state_of-code_example :
    (s : ChannelState) × (lookup room with_club.channels ≡ some s)
    × (s.owner_sid ≡ ann)
    × (wants_private s.visibility ≡ true)
    × ((room_state_of room ann with_club).invite_code ≡ s.invite_code)
unfolding room_state_of lookup text_dec wants_private
room_state_of-code_example = Listing.room_state_of-code room ann with_club refl
