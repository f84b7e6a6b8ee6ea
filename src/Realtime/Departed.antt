-- ===== src/Realtime/Departed.antt =====
-- The end of a websocket: ReadPump of internal/realtime/client.go, then Run and removeClient of
-- internal/realtime/hub.go.
use walkie_talk_server.Json.{Runtime}
use walkie_talk_server.Realtime.State.{Limits, Core, Hub, members_of}
use walkie_talk_server.Realtime.Send.{queue_size}
use walkie_talk_server.Realtime.Events.{Inputs}
use walkie_talk_server.Realtime.Lifecycle.{remove_client}
use walkie_talk_server.Realtime.Pumps.{
  Lobby, Incoming, read_error, leave_lobby, read_pump, departure, run_one,
}
use walkie_talk_server.Realtime.Interleaving.{outside}
use walkie_talk_server.Realtime.Invariant.{Inv}
use walkie_talk_server.Realtime.Threads.{Reach-IsSafe}
use walkie_talk_server.Realtime.Refined.{remove_client-Runs}
use walkie_talk_server.Realtime.Runs.{Runs}
use walkie_talk_server.Realtime.Removed.{remove_client-gone}
use walkie_talk_server.Base.{
  ℕ, suc, ◌≤◌, ◌<◌, ◌≡◌, refl, sym, subst, false, List, [], ◌∷◌, ◌++◌, none, Text, lit, arith,
  length, leb,
}
use walkie_talk_server.Base.Dict.{lookup}
use walkie_talk_server.Base.KeySet.{has}

-- Run takes a departure so many times, each with two readings of the clock.
unfoldable pub departures : Limits → List (ℕ × ℕ) → Lobby → Lobby
departures l [] b = b
departures l ((now, shown_at) ∷ ts) b = departures l ts (run_one l now shown_at departure b)

-- The session is no client, and has no quality state, no user and no place in a room.
abbrev pub IsGone : Text → Hub → Type 0
IsGone sid h =
    (has sid h.net.clients ≡ false)
    × (lookup sid h.core.quality ≡ none)
    × (lookup sid h.core.users ≡ none)
    × ((r : Text) → has sid (members_of r h.core.rooms) ≡ false)

module _ (l : Limits) (g : Runtime) where
  -- What the interleavings keep is kept by what is a run of them.
  pub Runs-Inv :
      (c c' : Core)
      → 1 ≤ l.max_room_size
      → Runs l g c c'
      → Inv l.max_room_size c
      → Inv l.max_room_size c'
  Runs-Inv c c' m r v =
      let (p, x, i) = r (λ s. outside) (λ s. refl) in
      (Reach-IsSafe l g m (record { inv = v; phases = λ s. tt }) x).inv

  removed-IsGone :
      (now shown_at : ℕ) (sid reason : Text) (h : Hub)
      → Inv l.max_room_size h.core
      → IsGone sid (remove_client l now shown_at sid reason h)
  removed-IsGone now shown_at sid reason h v =
      let d =
        λ (r : Text). remove_client-gone l now shown_at sid reason h l.max_room_size v sid r in
      (ground (arith, (d []).0), (d []).1, (d []).2, λ r. ground (arith, (d r).3))

  abbrev after : ℕ → ℕ → Text → List Text → Lobby → Lobby
  after now shown_at sid sids b = record b {
    hub = remove_client l now shown_at sid (lit "disconnect") b.hub;
    unregistering = sids;
  }

  departure_lem :
      (now shown_at : ℕ) (sid : Text) (sids : List Text) (b : Lobby)
      → b.unregistering ≡ sid ∷ sids
      → run_one l now shown_at departure b ≡ after now shown_at sid sids b
  unfolding run_one
  departure_lem now shown_at sid sids b e = rw (e, run_one) refl

  abbrev Ended : List (ℕ × ℕ) → Text → List Text → Lobby → Type 0
  Ended ts sid coming b =
      let d = departures l ts b in
      (d.unregistering ≡ []) × (d.registering ≡ coming) × IsGone sid d.hub

  drained :
      (ts : List (ℕ × ℕ)) (sids : List Text) (sid : Text) (b : Lobby)
      → 1 ≤ l.max_room_size
      → b.unregistering ≡ sids ++ sid ∷ []
      → length ts ≡ suc (length sids)
      → Inv l.max_room_size b.hub.core
      → Ended ts sid b.registering b
  unfolding departures
  drained [] sids sid b m e n v = absurd (omega arith)
  drained ((t, u) ∷ ts) (x ∷ sids) sid b m e n v =
      let h = remove_client l t u x (lit "disconnect") b.hub in
      subst (Ended ts sid b.registering) (sym (departure_lem t u x (sids ++ sid ∷ []) b e)) (
        drained ts sids sid (after t u x (sids ++ sid ∷ []) b) m refl (omega arith)
          (Runs-Inv b.hub.core h.core m (remove_client-Runs l g t u x (lit "disconnect") b.hub) v))
  drained ((t, u) ∷ []) [] sid b m e n v =
      subst (Ended [] sid b.registering) (sym (departure_lem t u sid [] b e))
        (refl, refl, removed-IsGone t u sid (lit "disconnect") b.hub v)
  drained ((t, u) ∷ x ∷ ts) [] sid b m e n v = absurd (omega arith)

  -- Once reading the websocket of a session fails and Run has taken those who left before and this
  -- one, the session has no client, quality state, user or place in a room, no one waits in
  -- `unregister`, and `register` is as it was. It is under the invariant, `unregister` has space, and
  -- the limit is not 0.
  pub read_pump-IsGone :
      (sid : Text) (o : Inputs) (more : List (Inputs × Incoming)) (b : Lobby) (ts : List (ℕ × ℕ))
      → 1 ≤ l.max_room_size
      → Inv l.max_room_size b.hub.core
      → length b.unregistering < queue_size
      → length ts ≡ suc (length b.unregistering)
      → let d = departures l ts (read_pump l g sid ((o, read_error) ∷ more) b) in
        (d.unregistering ≡ []) × (d.registering ≡ b.registering) × IsGone sid d.hub
  unfolding read_pump leave_lobby
  read_pump-IsGone sid o more b ts m v space n =
      let full = leb queue_size (length b.unregistering) in
      let e : full ≡ false = ground arith in
      rw e (
        drained ts b.unregistering sid (record b { unregistering = b.unregistering ++ sid ∷ [] }) m
          refl n v)
