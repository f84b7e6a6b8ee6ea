-- ===== src/Realtime/Configured.antt =====
-- The hub (internal/realtime) with the settings of internal/config/config.go.
use walkie_talk_server.Realtime.State.{Limits, members_of}
use walkie_talk_server.Realtime.Interleaving.{World, Reach, start_world}
use walkie_talk_server.Realtime.Threads.{rooms_agree}
use walkie_talk_server.Config.{Sources}
use walkie_talk_server.Config.Load.{load}
use walkie_talk_server.Config.Ranges.{load_ranges}
use walkie_talk_server.Json.{Runtime}
use walkie_talk_server.Base.{◌≤◌, ◌≡◌, true, Text, length, arith}
use walkie_talk_server.Base.KeySet.{has}

-- With a room limit that Load gives, whatever the environment variables hold, no interleaving of the
-- goroutines puts more than 200 sessions into a room, or a session into two rooms.
pub load-rooms_agree :
    (o : Sources) (random : Text) (l : Limits) (g : Runtime)
    → l.max_room_size ≡ (load o random).max_room_size
    → (w : World) → Reach l g start_world w
    → (s r q : Text)
    → (length (members_of r w.core.rooms) ≤ 200)
      × (has s (members_of r w.core.rooms) ≡ true
          → has s (members_of q w.core.rooms) ≡ true
          → r ≡ q)
load-rooms_agree o random l g e w h s r q =
    let ranges = load_ranges o random in
    let agree = rooms_agree l g (omega (arith, e, ranges.0)) w h s r q in
    (omega (arith, e, ranges.1, agree.0), agree.3)
