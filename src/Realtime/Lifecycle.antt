-- ===== src/Realtime/Lifecycle.antt =====
-- Clients that come and go: addClient, removeClient and Close of internal/realtime/hub.go, and
-- stopScreenShareForSID of internal/realtime/screen.go.
use walkie_talk_server.Realtime.State.{
  Limits, ScreenState, connected, peer_left, screen_share_stopped, screen_share_state, Core, Net,
  Hub,
}
use walkie_talk_server.Realtime.Send.{send, broadcast, close_client_send}
use walkie_talk_server.Realtime.Channels.{broadcast_channels_state}
use walkie_talk_server.Realtime.Join.{room_name, leave_no_broadcast}
use walkie_talk_server.Realtime.Interleaving.{closed_core}
use walkie_talk_server.Base.{ℕ, List, [], ◌∷◌, Option, none, some, Text, if◌then◌else◌, is_empty}
use walkie_talk_server.Base.Dict.{insert, remove}
use walkie_talk_server.Base.KeySet.{has, add, del, same}

unfoldable pub add_client : Limits → Text → Hub → Hub
add_client l sid h =
    if h.core.closed then record h { net = close_client_send sid h.net } else record h {
      core = record h.core {
        quality = insert sid (record { pending = []; rtts = []; cycles = [] }) h.core.quality;
      };
      net =
          send sid (connected sid l.instance_id) (record h.net { clients = add sid h.net.clients });
    }

-- The first screen of the session, in the order of the loop over the map.
unfoldable pub screen_of : Text → List (Text × ScreenState) → Option (Text × ScreenState)
screen_of sid [] = none
screen_of sid ((r, s) ∷ es) = if same s.sender_sid sid then some (r, s) else screen_of sid es

unfoldable pub stop_screen_share : Text → Text → Hub → Hub
stop_screen_share sid reason h = elim (screen_of sid h.core.screens) [
  | none ↦ h
  | some (r, s) ↦
      let c : Core = record h.core { screens = remove r h.core.screens } in
      if is_empty r then record h { core = c } else record h {
        core = c;
        net =
            broadcast r (screen_share_state none) [] c
              (broadcast r (screen_share_stopped r s.stream_id sid reason) [] c h.net);
      }
]

-- `delete(h.clients, sid)` and `closeClientSend`, if there is a client.
unfoldable pub drop_client : Text → Net → Net
drop_client sid n =
    if has sid n.clients
    then close_client_send sid (record n { clients = del sid n.clients })
    else n

unfoldable pub forget : Text → Hub → Hub
forget sid h = record h {
  core = record h.core { quality = remove sid h.core.quality };
  net = drop_client sid h.net;
}

unfoldable pub remove_client : Limits → ℕ → ℕ → Text → Text → Hub → Hub
remove_client l now shown_at sid reason h =
    let old = room_name sid h.core in
    let left : Hub = record h { core = leave_no_broadcast l.channel_empty_ttl sid now h.core } in
    let gone = forget sid (stop_screen_share sid reason left) in
    if is_empty old.0 then gone else record gone {
      net =
          broadcast_channels_state l.channel_empty_ttl shown_at gone.core
            (broadcast old.0 (peer_left sid old.1) sid gone.core gone.net);
    }

unfoldable pub close_all : List Text → Net → Net
close_all [] n = n
close_all (sid ∷ sids) n = close_all sids (close_client_send sid n)

unfoldable pub close : Hub → Hub
unfolding close_all
close h = if h.core.closed then h else record h {
  core = closed_core h.core;
  net = close_all h.net.clients (record h.net { clients = [] });
}
