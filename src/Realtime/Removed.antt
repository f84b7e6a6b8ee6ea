-- ===== src/Realtime/Removed.antt =====
-- What removeClient of internal/realtime/hub.go leaves of a session.
use walkie_talk_server.Realtime.State.{
  Limits, peer_left, screen_share_stopped, screen_share_state, Core, Net, Hub, members_of,
}
use walkie_talk_server.Realtime.Send.{broadcast, close_client_send}
use walkie_talk_server.Realtime.Channels.{broadcast_channels_state, channel_payload}
use walkie_talk_server.Realtime.Join.{room_name, leave_no_broadcast}
use walkie_talk_server.Realtime.Lifecycle.{
  screen_of, stop_screen_share, drop_client, forget, remove_client,
}
use walkie_talk_server.Realtime.Invariant.{Inv}
use walkie_talk_server.Realtime.Leave.{leave-members, leave-gone}
use walkie_talk_server.Realtime.Delivery.{broadcast-clients, broadcast_all-clients}
use walkie_talk_server.Base.{ℕ, ◌≡◌, refl, not, ◌&&◌, [], none, Text, arith, Option-cases, inl, inr}
use walkie_talk_server.Base.Dict.{lookup, remove, lookup-remove}
use walkie_talk_server.Base.KeySet.{has, same, has-del}

module _ (l : Limits) (now shown_at : ℕ) (sid reason : Text) (h : Hub) where
  abbrev left : Core
  left = leave_no_broadcast l.channel_empty_ttl sid now h.core

  stop-core :
      (k : Hub)
      → ((stop_screen_share sid reason k).core.rooms ≡ k.core.rooms)
        × ((stop_screen_share sid reason k).core.users ≡ k.core.users)
        × ((stop_screen_share sid reason k).net.clients ≡ k.net.clients)
  unfolding stop_screen_share
  stop-core k = elim (Option-cases (screen_of sid k.core.screens)) [
    | inl e ↦ rw (e, stop_screen_share) (refl, refl, refl)
    | inr (x, e) ↦
        let c : Core = record k.core { screens = remove x.0 k.core.screens } in
        let stopped = screen_share_stopped x.0 x.1.stream_id sid reason in
        ground (
          arith,
          broadcast-clients x.0 stopped [] c k.net,
          broadcast-clients x.0 (screen_share_state none) [] c (broadcast x.0 stopped [] c k.net),
        )
  ]

  drop-clients :
      (n : Net) (s : Text)
      → has s (drop_client sid n).clients ≡ (not (same sid s) && has s n.clients)
  unfolding drop_client close_client_send
  drop-clients n s = ground (arith, has-del sid s n.clients)

  abbrev gone : Hub
  gone = forget sid (stop_screen_share sid reason (record h { core = left }))

  gone-fields :
      (max : ℕ)
      → Inv max h.core
      → (s r : Text)
      → (has s gone.net.clients ≡ (not (same sid s) && has s h.net.clients))
        × (lookup sid gone.core.quality ≡ none)
        × (lookup sid gone.core.users ≡ none)
        × (has s (members_of r gone.core.rooms)
            ≡ (not (same sid s) && has s (members_of r h.core.rooms)))
  unfolding forget
  gone-fields max v s r =
      let k = stop_screen_share sid reason (record h { core = left }) in
      ground (
        arith,
        stop-core (record h { core = left }),
        drop-clients k.net s,
        lookup-remove sid sid k.core.quality,
        leave-gone l.channel_empty_ttl sid now h.core max v,
        leave-members l.channel_empty_ttl sid now h.core max v s r,
      )

  -- What follows is sent only, so that it leaves the clients and the state as they are.
  remove_client-frame :
      ((remove_client l now shown_at sid reason h).core ≡ gone.core)
      × ((remove_client l now shown_at sid reason h).net.clients ≡ gone.net.clients)
  unfolding remove_client broadcast_channels_state
  remove_client-frame =
      let old = room_name sid h.core in
      let told = broadcast old.0 (peer_left sid old.1) sid gone.core gone.net in
      ground (
        arith,
        broadcast-clients old.0 (peer_left sid old.1) sid gone.core gone.net,
        broadcast_all-clients (channel_payload l.channel_empty_ttl shown_at gone.core) told,
      )

  -- After the removal of a client its session has no client, no quality state and no user, and is in
  -- no room; every other session keeps its client and its rooms.
  pub remove_client-gone :
      (max : ℕ)
      → Inv max h.core
      → (s r : Text)
      → let d = remove_client l now shown_at sid reason h in
        (has s d.net.clients ≡ (not (same sid s) && has s h.net.clients))
        × (lookup sid d.core.quality ≡ none)
        × (lookup sid d.core.users ≡ none)
        × (has s (members_of r d.core.rooms)
            ≡ (not (same sid s) && has s (members_of r h.core.rooms)))
  remove_client-gone max v s r =
      let f = remove_client-frame in rw (f.0, f.1) (gone-fields max v s r)
