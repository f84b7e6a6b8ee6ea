-- ===== src/Server/Refined.antt =====
-- The program as a run of the interleavings in Realtime/Interleaving, and what that gives.
use walkie_talk_server.Base.{
  ℕ, ◌≤◌, ◌≡◌, refl, sym, true, false, List, [], ◌∷◌, Text, lit, arith, is_empty, length,
  Bool-cases, inl, inr,
}
use walkie_talk_server.Base.KeySet.{has, Distinct}
use walkie_talk_server.Store.{RateStore}
use walkie_talk_server.Json.{Runtime}
use walkie_talk_server.Config.Load.{Config}
use walkie_talk_server.Realtime.State.{Limits, members_of}
use walkie_talk_server.Realtime.Interleaving.{outside, World, Reach, start_world}
use walkie_talk_server.Realtime.Threads.{rooms_agree}
use walkie_talk_server.Realtime.Keyed.{IsKeyed, Reach-IsKeyed}
use walkie_talk_server.Realtime.Refined.{
  handle_event-Runs, add_client-Runs, remove_client-Runs, cleanup-Runs, close-Runs,
  quality_round-Runs, quality_timeout-Runs,
}
use walkie_talk_server.Realtime.Runs.{Runs, Runs-refl, Runs-eq, Runs-trans}
use walkie_talk_server.Realtime.Events.{Inputs}
use walkie_talk_server.Realtime.Pumps.{
  Lobby, Incoming, read_error, not_json, envelope, read_pump, read_one, leave_lobby, Wake,
  registration, departure, tick, run_one,
}
use walkie_talk_server.Api.ZoneValues.{Library}
use walkie_talk_server.Api.Serve.{Server, new_server}
use walkie_talk_server.Api.Served.{serve-core}
use walkie_talk_server.Server.Limited.{List-cases}
use walkie_talk_server.Server.Program.{
  Move, incoming, woken, removed, request, measured, timed_out, written, closing, new_hub, start,
  step, run,
}

-- The sessions have names.
abbrev pub IsNamed : Move → Type 0
IsNamed (incoming sid o m) = is_empty sid ≡ false
IsNamed m = Unit {0}

abbrev pub AllNamed : List Move → Type 0
AllNamed [] = Unit {0}
AllNamed (m ∷ ms) = IsNamed m × AllNamed ms

module _ (r : Runtime) (l : Limits) where
  read-Runs :
      (sid : Text) (o : Inputs) (m : Incoming) (b : Lobby)
      → is_empty sid ≡ false
      → Runs l r b.hub.core (read_pump l r sid ((o, m) ∷ []) b).hub.core
  unfolding read_pump read_one leave_lobby
  read-Runs sid o read_error b n =
      Runs-eq l r b.hub.core b.hub.core _ (ground arith) (Runs-refl l r b.hub.core)
  read-Runs sid o not_json b n = Runs-refl l r b.hub.core
  read-Runs sid o (envelope event fs) b n = elim (Bool-cases (is_empty event)) [
    | inl e ↦ rw e (Runs-refl l r b.hub.core)
    | inr e ↦ rw e (handle_event-Runs l r o sid fs b.hub event n)
  ]

  woken-Runs :
      (now shown_at : ℕ) (w : Wake) (b : Lobby)
      → Runs l r b.hub.core (run_one l now shown_at w b).hub.core
  unfolding run_one
  woken-Runs now shown_at registration b = elim (List-cases b.registering) [
    | inl e ↦ rw (e, run_one) (Runs-refl l r b.hub.core)
    | inr (sid, sids, e) ↦ rw (e, run_one) (add_client-Runs l r sid b.hub)
  ]
  woken-Runs now shown_at departure b = elim (List-cases b.unregistering) [
    | inl e ↦ rw (e, run_one) (Runs-refl l r b.hub.core)
    | inr (sid, sids, e) ↦
        rw (e, run_one) (remove_client-Runs l r now shown_at sid (lit "disconnect") b.hub)
  ]
  woken-Runs now shown_at tick b = cleanup-Runs l r now shown_at b.hub

module _ (r : Runtime) (g : Library) (l : Limits) (c : Config) where
  step-Runs :
      (m : Move) (s : Server)
      → IsNamed m
      → Runs l r s.lobby.hub.core (step r g l c m s).lobby.hub.core
  unfolding step
  step-Runs (incoming sid o m) s n = read-Runs r l sid o m s.lobby n
  step-Runs (woken t u w) s n = woken-Runs r l t u w s.lobby
  step-Runs (removed t u sid reason) s n = remove_client-Runs l r t u sid reason s.lobby.hub
  step-Runs (request q) s n =
      Runs-eq l r s.lobby.hub.core s.lobby.hub.core _ (sym (serve-core g l c q s))
        (Runs-refl l r s.lobby.hub.core)
  step-Runs (measured nonce t sid) s n = quality_round-Runs l r nonce sid t s.lobby.hub
  step-Runs (timed_out nonce sid) s n = quality_timeout-Runs l r nonce sid s.lobby.hub
  step-Runs (written sid) s n = Runs-refl l r s.lobby.hub.core
  step-Runs closing s n = close-Runs l r s.lobby.hub

  run-Runs :
      (ms : List Move) (s : Server)
      → AllNamed ms
      → Runs l r s.lobby.hub.core (run r g l c ms s).lobby.hub.core
  unfolding run
  run-Runs [] s n = Runs-refl l r s.lobby.hub.core
  run-Runs (m ∷ ms) s n =
      let s' = step r g l c m s in
      Runs-trans l r s.lobby.hub.core s'.lobby.hub.core (run r g l c ms s').lobby.hub.core
        (step-Runs m s n.0) (run-Runs ms s' n.1)

  -- The program refines the interleavings: what it has made of the maps of the hub, after any moves
  -- from its start, is a state that the interleavings reach. So no room holds more sessions than the
  -- limit, or one twice, a session is in one room at most, and users, rooms and channels hold each
  -- key once. Sessions have names, and the limit is not 0.
  pub run-reaches :
      (ms : List Move) (now : ℕ) (rate : RateStore)
      → AllNamed ms
      → 1 ≤ l.max_room_size
      → let core = (run r g l c ms (start now rate)).lobby.hub.core in
        ((w : World) × Reach l r start_world w × (w.core ≡ core))
        × IsKeyed core
        × ((a b s : Text)
            → (length (members_of a core.rooms) ≤ l.max_room_size)
              × Distinct (members_of a core.rooms)
              × (has s (members_of a core.rooms) ≡ true
                  → has s (members_of b core.rooms) ≡ true
                  → a ≡ b))
  unfolding start new_server new_hub
  run-reaches ms now rate n m =
      let (p, x, i) = run-Runs ms (start now rate) n (λ s. outside) (λ s. refl) in
      (
        (_, x, refl),
        Reach-IsKeyed x,
        λ a b s. let d = rooms_agree l r m _ x s a b in (d.0, d.1, d.3),
      )
