-- ===== src/Realtime/Keyed.antt =====
-- The keys of the lists that stand for the maps of users, rooms and channels in
-- internal/realtime/hub.go.
use walkie_talk_server.Json.{Runtime, Fields}
use walkie_talk_server.Realtime.State.{Limits, ChannelState, Core}
use walkie_talk_server.Realtime.Secrets.{Random}
use walkie_talk_server.Realtime.Channels.{
  sweep, drop_channel, is_expired, touch_channel, mark_channel_empty,
}
use walkie_talk_server.Realtime.Admission.{prepare_channel_join}
use walkie_talk_server.Realtime.Join.{
  leave_no_broadcast, leave_current, leave_room, without_user, join_check, join_commit, open_room,
  enter, rename,
}
use walkie_talk_server.Realtime.Interleaving.{
  World, Step, Reach, start, next, new_core, start_world, closed_core, check_join, refuse_join,
  depart, arrive, leave, update_name, cleanup, close, side,
}
use walkie_talk_server.Realtime.Expiry.{keys, insert-Distinct, remove-Distinct}
use walkie_talk_server.Base.{ℕ, List, [], ◌∷◌, Text, arith, Bool-cases, inl, inr}
use walkie_talk_server.Base.KeySet.{Distinct}

-- Users, rooms and channels hold each key once.
pub record IsKeyed (c : Core) : Type 0 where
  pub users : Distinct (keys c.users)
  pub rooms : Distinct (keys c.rooms)
  pub channels : Distinct (keys c.channels)

touch_channel-IsKeyed :
    (room : Text) (now : ℕ) (c : Core) → IsKeyed c → IsKeyed (touch_channel room now c)
unfolding touch_channel
touch_channel-IsKeyed room now c k = grind (arith, insert-Distinct)

mark_channel_empty-IsKeyed :
    (ttl : ℕ) (room : Text) (now : ℕ) (c : Core)
    → IsKeyed c
    → IsKeyed (mark_channel_empty ttl room now c)
unfolding mark_channel_empty
mark_channel_empty-IsKeyed ttl room now c k = grind (arith, insert-Distinct)

leave_room-IsKeyed :
    (ttl : ℕ) (room sid : Text) (now : ℕ) (sids : List Text) (c : Core)
    → IsKeyed c
    → IsKeyed (leave_room ttl room sid now sids c)
unfolding leave_room
leave_room-IsKeyed ttl room sid now sids c k =
    grind
      (arith, touch_channel-IsKeyed, mark_channel_empty-IsKeyed, insert-Distinct, remove-Distinct)

leave-IsKeyed :
    (ttl : ℕ) (sid : Text) (now : ℕ) (c : Core)
    → IsKeyed c
    → IsKeyed (leave_no_broadcast ttl sid now c)
unfolding leave_no_broadcast leave_current without_user
leave-IsKeyed ttl sid now c k = grind (arith, leave_room-IsKeyed, remove-Distinct)

prepare-IsKeyed :
    (l : Limits) (g : Runtime) (r r' : Random) (room sid name : Text) (fs : Fields) (now : ℕ)
    (c : Core)
    → IsKeyed c
    → IsKeyed (join_check l g r r' room sid name fs now c).0
unfolding join_check prepare_channel_join
prepare-IsKeyed l g r r' room sid name fs now c k = grind (arith, insert-Distinct)

enter-IsKeyed :
    (room sid name : Text) (now : ℕ) (c : Core) → IsKeyed c → IsKeyed (enter room sid name now c)
unfolding enter
enter-IsKeyed room sid name now c k = grind (arith, touch_channel-IsKeyed, insert-Distinct)

commit-IsKeyed :
    (l : Limits) (room sid name : Text) (now : ℕ) (c : Core)
    → IsKeyed c
    → IsKeyed (join_commit l room sid name now c).0
unfolding join_commit open_room
commit-IsKeyed l room sid name now c k = grind (arith, enter-IsKeyed, insert-Distinct)

rename-IsKeyed : (sid name : Text) (c : Core) → IsKeyed c → IsKeyed (rename sid name c)
unfolding rename
rename-IsKeyed sid name c k = grind (arith, insert-Distinct)

drop-IsKeyed : (room : Text) (c : Core) → IsKeyed c → IsKeyed (drop_channel room c)
unfolding drop_channel
drop-IsKeyed room c k = grind (arith, remove-Distinct)

sweep-IsKeyed :
    (ttl now : ℕ) (es : List (Text × ChannelState)) (c : Core)
    → IsKeyed c
    → IsKeyed (sweep ttl now es c).0
unfolding sweep
sweep-IsKeyed ttl now [] c k = k
sweep-IsKeyed ttl now (e ∷ es) c k = elim (Bool-cases (is_expired ttl now c.rooms e)) [
  | inl x ↦ rw x (sweep-IsKeyed ttl now es (drop_channel e.0 c) (drop-IsKeyed e.0 c k))
  | inr x ↦ rw x (sweep-IsKeyed ttl now es c k)
]

module _ {l : Limits} {g : Runtime} where
  Step-IsKeyed : {w w' : World} → Step l g w w' → IsKeyed w.core → IsKeyed w'.core
  unfolding closed_core
  Step-IsKeyed {w} (check_join sid room name fs r r' now n m o e) k =
      prepare-IsKeyed l g r r' room sid name fs now w.core k
  Step-IsKeyed {w} (refuse_join sid room name fs r r' now n o) k =
      prepare-IsKeyed l g r r' room sid name fs now w.core k
  Step-IsKeyed {w} (depart sid room name t now e) k =
      leave-IsKeyed l.channel_empty_ttl sid now w.core k
  Step-IsKeyed {w} (arrive sid room name t e) k = commit-IsKeyed l room sid name t w.core k
  Step-IsKeyed {w} (leave sid now) k = leave-IsKeyed l.channel_empty_ttl sid now w.core k
  Step-IsKeyed {w} (update_name sid name) k = rename-IsKeyed sid name w.core k
  Step-IsKeyed {w} (cleanup now) k = sweep-IsKeyed l.channel_empty_ttl now w.core.channels w.core k
  Step-IsKeyed {w} close k = record { users = tt; rooms = tt; channels = tt }
  Step-IsKeyed {w} (side screens quality) k = record {
    users = k.users;
    rooms = k.rooms;
    channels = k.channels;
  }

  pub Reach-IsKeyed : {w : World} → Reach l g start_world w → IsKeyed w.core
  unfolding new_core
  Reach-IsKeyed start = record { users = tt; rooms = tt; channels = tt }
  Reach-IsKeyed (next r st) = Step-IsKeyed st (Reach-IsKeyed r)
