-- ===== src/Realtime/Arrival.antt =====
-- What becomes of a new websocket: handleWS of internal/api/server.go, Register and Run of
-- internal/realtime/hub.go, and WritePump of internal/realtime/client.go.
use walkie_talk_server.Realtime.State.{Limits, connected, Queue, Net, Hub}
use walkie_talk_server.Realtime.Secrets.{Random, random_id}
use walkie_talk_server.Realtime.Send.{queue_size, enqueue, close_client_send}
use walkie_talk_server.Realtime.Relay.{send-queues, send-clients}
use walkie_talk_server.Realtime.Lifecycle.{add_client}
use walkie_talk_server.Realtime.Pumps.{
  Lobby, register, registration, run_one, new_client, handle_ws,
}
use walkie_talk_server.Base.{
  ℕ, ◌≡◌, refl, true, false, [], ◌∷◌, ◌++◌, some, Text, lit, leb, length, if◌then◌else◌, arith,
  subst, sym, ap, ◌∙◌, Bool-cases, Option-cases, inl, inr,
}
use walkie_talk_server.Base.Dict.{lookup, lookup-insert}
use walkie_talk_server.Base.KeySet.{has, add, has-add, same}

abbrev pub session : Random → Text
session r = random_id (lit "sid_") r

same_refl : (s : Text) → same s s ≡ true
same_refl s = ground arith

new_client-queue :
    (sid : Text) (n : Net)
    → lookup sid (new_client sid n).queues ≡ some (record { buffer = []; closed = false })
unfolding new_client
new_client-queue sid n =
    ground (arith, lookup-insert sid sid (record { buffer = []; closed = false }) n.queues)

turned_away :
    (r : Random) (b : Lobby)
    → b.hub.core.closed ≡ true
    → handle_ws r b ≡ (
      session r,
      record b {
        hub = record b.hub {
          net = close_client_send (session r) (new_client (session r) b.hub.net);
        };
      },
    )
unfolding handle_ws register
turned_away r b h = ground arith

let_in :
    (r : Random) (b : Lobby)
    → b.hub.core.closed ≡ false
    → leb queue_size (length b.registering) ≡ false
    → handle_ws r b ≡ (
      session r,
      record b {
        hub = record b.hub { net = new_client (session r) b.hub.net };
        registering = b.registering ++ session r ∷ [];
      },
    )
unfolding handle_ws register
let_in r b h k = ground arith

close-queue :
    (sid : Text) (q : Queue) (n : Net)
    → lookup sid n.queues ≡ some q
    → lookup sid (close_client_send sid n).queues ≡ some (record q { closed = true })
unfolding close_client_send
close-queue sid q n h = ground (arith, lookup-insert sid sid (record q { closed = true }) n.queues)

closed-clients :
    (sid : Text) (n : Net) → (close_client_send sid (new_client sid n)).clients ≡ n.clients
unfolding close_client_send new_client
closed-clients sid n = elim (Option-cases (lookup sid (new_client sid n).queues)) [
  | inl e ↦ ground arith
  | inr (q, e) ↦ ground arith
]

greeting :
    (l : Limits) (sid : Text) (h : Hub)
    → h.core.closed ≡ false
    → lookup sid h.net.queues ≡ some (record { buffer = []; closed = false })
    → let d = add_client l sid h in
      (has sid d.net.clients ≡ true)
      × (lookup sid d.net.queues
          ≡ some (record { buffer = connected sid l.instance_id ∷ []; closed = false }))
      × (d.core.users ≡ h.core.users)
      × (d.core.rooms ≡ h.core.rooms)
      × (d.core.channels ≡ h.core.channels)
unfolding add_client enqueue
greeting l sid h c q =
    let n : Net = record h.net { clients = add sid h.net.clients } in
    let m = connected sid l.instance_id in
    let here = has-add sid sid h.net.clients in
    (
      ground (arith, send-clients sid m n, here, same_refl sid),
      ground (arith, send-queues sid sid m n, here, same_refl sid),
      ground arith,
      ground arith,
      ground arith,
    )

run_none :
    (l : Limits) (now shown_at : ℕ) (b : Lobby)
    → b.registering ≡ []
    → run_one l now shown_at registration b ≡ b
unfolding run_one
run_none l now shown_at b h = ground arith

run_first :
    (l : Limits) (now shown_at : ℕ) (sid : Text) (b : Lobby)
    → b.registering ≡ sid ∷ []
    → run_one l now shown_at registration b
      ≡ record b { hub = add_client l sid b.hub; registering = [] }
unfolding run_one
run_first l now shown_at sid b h = ground arith

abbrev pub Greeted : Limits → Text → Lobby → Lobby → Type 0
Greeted l sid b d =
    let closed = b.hub.core.closed in
    (lookup sid d.hub.net.queues
      ≡ some (
          if closed
          then record { buffer = []; closed = true }
          else record { buffer = connected sid l.instance_id ∷ []; closed = false }))
    × (closed ≡ true → d.hub.net.clients ≡ b.hub.net.clients)
    × (closed ≡ false → has sid d.hub.net.clients ≡ true)
    × (d.hub.core.users ≡ b.hub.core.users)
    × (d.hub.core.rooms ≡ b.hub.core.rooms)
    × (d.hub.core.channels ≡ b.hub.core.channels)

-- A websocket that comes while the hub is open and no other registers is a client once Run has taken
-- it, with the greeting first and alone in its queue. One that comes to a closed hub has a closed
-- queue that is empty, and the clients are as before. No room, user or channel changes.
pub handle_ws-Greeted :
    (l : Limits) (now shown_at : ℕ) (r : Random) (b : Lobby)
    → b.registering ≡ []
    → Greeted l (session r) b (run_one l now shown_at registration (handle_ws r b).1)
handle_ws-Greeted l now shown_at r b e = elim (Bool-cases b.hub.core.closed) [
  | inl c ↦
      let n = new_client (session r) b.hub.net in
      let d : Lobby = record b { hub = record b.hub { net = close_client_send (session r) n } } in
      subst (Greeted l (session r) b)
        (sym (
          ap (λ w. run_one l now shown_at registration w.1) (turned_away r b c)
          ∙ run_none l now shown_at d e))
        (
          rw c (
              close-queue (session r) (record { buffer = []; closed = false }) n
                (new_client-queue (session r) b.hub.net)),
          λ x. closed-clients (session r) b.hub.net,
          λ x. ground arith,
          refl,
          refl,
          refl,
        )
  | inr c ↦
      let h : Hub = record b.hub { net = new_client (session r) b.hub.net } in
      let d : Lobby = record b { hub = h; registering = b.registering ++ session r ∷ [] } in
      let (x, y, u, v, w) = greeting l (session r) h c (new_client-queue (session r) b.hub.net) in
      subst (Greeted l (session r) b)
        (sym (
          ap (λ w. run_one l now shown_at registration w.1)
            (let_in r b c (ground (arith, ap length e)))
          ∙ run_first l now shown_at (session r) d (ap (λ x. x ++ session r ∷ []) e)))
        ((ground arith), (λ k. ground arith), (λ k. x), u, v, w)
]
