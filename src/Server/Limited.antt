-- ===== src/Server/Limited.antt =====
-- How many voice messages of a session the whole program relays: the hub and the server share one
-- rate store, and all their goroutines call it.
use mathlib.Core.List.{append_assoc, append-nil}
use walkie_talk_server.Base.{
  ℕ, ◌+◌, ◌≤◌, ◌≡◌, ◌⊎◌, refl, sym, subst, false, List, [], ◌∷◌, ◌++◌, Text, lit, arith,
  if◌then◌else◌, is_empty, length, Bool-cases, inl, inr,
}
use walkie_talk_server.Base.Dict.{lookup}
use walkie_talk_server.Util.Runes.{trim_space}
use walkie_talk_server.Store.{items_of}
use walkie_talk_server.Store.Bound.{in_span}
use walkie_talk_server.Store.Calls.{Holds, unused, Use-Holds}
use walkie_talk_server.Json.{Float64, Runtime, Fields}
use walkie_talk_server.Config.Load.{Config}
use walkie_talk_server.Realtime.State.{Limits, Hub}
use walkie_talk_server.Realtime.Channels.{cleanup_expired_channels}
use walkie_talk_server.Realtime.Lifecycle.{
  add_client, remove_client, close, forget, stop_screen_share,
}
use walkie_talk_server.Realtime.QualityLoop.{quality_round, quality_timeout}
use walkie_talk_server.Realtime.Events.{Inputs, event_of, handle_event}
use walkie_talk_server.Realtime.Spoken.{voice_key, Use-eq, VoiceUse, spoken, event-Use}
use walkie_talk_server.Realtime.Pumps.{
  read_error, not_json, envelope, read_pump, read_one, Lobby, leave_lobby, Wake, registration,
  departure, tick, run_one,
}
use walkie_talk_server.Api.ZoneValues.{Library}
use walkie_talk_server.Api.Serve.{Server}
use walkie_talk_server.Server.Calls.{serve-Use}
use walkie_talk_server.Server.Program.{
  Move, incoming, woken, removed, request, measured, timed_out, written, closing, step,
}

-- When a move asks the rate store, if it does; the others take no time of it.
abbrev pub time : ℕ → Move → ℕ
time now (incoming who o m) = o.outside.counted_at
time now (request q) = q.outside.counted_at
time now m = now

-- The clock that the store reads does not go back.
abbrev pub InOrder : ℕ → List Move → Type 0
InOrder now [] = Unit {0}
InOrder now (m ∷ ms) = (now ≤ time now m) × InOrder (time now m) ms

module _ (l : Limits) (now shown_at : ℕ) (h : Hub) (sid reason : Text) where
  removed-rate : (remove_client l now shown_at sid reason h).rate ≡ h.rate
  unfolding remove_client forget stop_screen_share
  removed-rate = ground arith

pub List-cases : (xs : List Text) → (xs ≡ []) ⊎ ((y : Text) × (ys : List Text) × (xs ≡ y ∷ ys))
List-cases [] = inl refl
List-cases (y ∷ ys) = inr (y, ys, refl)

module _ (l : Limits) (now shown_at : ℕ) where
  woken-rate : (w : Wake) (b : Lobby) → (run_one l now shown_at w b).hub.rate ≡ b.hub.rate
  unfolding run_one add_client cleanup_expired_channels
  woken-rate registration b = ground arith
  woken-rate departure b = elim (List-cases b.unregistering) [
    | inl e ↦ rw (e, run_one) refl
    | inr (sid, sids, e) ↦
        rw (e, run_one) (removed-rate l now shown_at b.hub sid (lit "disconnect"))
  ]
  woken-rate tick b = ground arith

measured-rate :
    (nonce sid : Text) (now : ℕ) (h : Hub) → (quality_round nonce now sid h).rate ≡ h.rate
unfolding quality_round
measured-rate nonce sid now h = ground arith

timed_out-rate :
    (f : Float64) (nonce sid : Text) (h : Hub) → (quality_timeout f nonce sid h).rate ≡ h.rate
unfolding quality_timeout
timed_out-rate f nonce sid h = ground arith

closing-rate : (h : Hub) → (close h).rate ≡ h.rate
unfolding close
closing-rate h = ground arith

read_error-rate : (sid : Text) (b : Lobby) → (leave_lobby sid b).hub.rate ≡ b.hub.rate
unfolding leave_lobby
read_error-rate sid b = ground arith

module _ (r : Runtime) (g : Library) (l : Limits) (c : Config) (x : Text) where
  abbrev session : Text
  session = lit "sid_" ++ x

  -- The times of the voice messages of the session that a move relays.
  abbrev pub heard : Move → Server → List ℕ
  heard (incoming who o (envelope event fs)) s =
      if is_empty event
      then []
      else spoken r l session o fs s.lobby.hub (event_of (trim_space event)) who
  heard m s = []

  unfoldable pub voices : List Move → Server → List ℕ
  voices [] s = []
  voices (m ∷ ms) s = heard m s ++ voices ms (step r g l c m s)

  -- What a move asks of the store about the session.
  abbrev MoveUse : ℕ → Move → Server → Type 0
  MoveUse now m s =
      VoiceUse r l session s.lobby.hub (time now m) (heard m s) (step r g l c m s).lobby.hub

  idle-Use : (h h' : Hub) (t : ℕ) → h'.rate ≡ h.rate → VoiceUse r l session h t [] h'
  idle-Use h h' t e =
      Use-eq (voice_key session) l.max_msg_rate l.msg_rate_window h.rate h.rate h'.rate t [] []
        (unused t) refl (sym e)

  read-Use :
      (now : ℕ) (who event : Text) (o : Inputs) (fs : Fields) (s : Server)
      → MoveUse now (incoming who o (envelope event fs)) s
  unfolding step read_pump read_one handle_event
  read-Use now who event o fs s = elim (Bool-cases (is_empty event)) [
    | inl e ↦ rw e (unused o.outside.counted_at)
    | inr e ↦ rw e (event-Use r l session o fs s.lobby.hub (event_of (trim_space event)) event who)
  ]

  step-Use :
      (now : ℕ) (m : Move) (s : Server) → s.lobby.hub.rate.has_redis ≡ false → MoveUse now m s
  unfolding step read_pump
  step-Use now (incoming who o read_error) s e =
      idle-Use s.lobby.hub (leave_lobby who s.lobby).hub o.outside.counted_at
        (read_error-rate who s.lobby)
  step-Use now (incoming who o not_json) s e = unused o.outside.counted_at
  step-Use now (incoming who o (envelope event fs)) s e = read-Use now who event o fs s
  step-Use now (woken t u w) s e =
      idle-Use s.lobby.hub (run_one l t u w s.lobby).hub now (woken-rate l t u w s.lobby)
  step-Use now (removed t u sid reason) s e =
      idle-Use s.lobby.hub (remove_client l t u sid reason s.lobby.hub) now
        (removed-rate l t u s.lobby.hub sid reason)
  step-Use now (request q) s e = serve-Use g l c x q s e
  step-Use now (measured nonce t sid) s e =
      idle-Use s.lobby.hub (quality_round nonce t sid s.lobby.hub) now
        (measured-rate nonce sid t s.lobby.hub)
  step-Use now (timed_out nonce sid) s e =
      idle-Use s.lobby.hub (quality_timeout r.float nonce sid s.lobby.hub) now
        (timed_out-rate r.float nonce sid s.lobby.hub)
  step-Use now (written sid) s e = unused now
  step-Use now closing s e = idle-Use s.lobby.hub (close s.lobby.hub) now (closing-rate s.lobby.hub)

  abbrev HoldsVoices : ℕ → ℕ → List ℕ → Server → Type 0
  HoldsVoices now left passed s =
      Holds (voice_key session) l.max_msg_rate l.msg_rate_window now left passed s.lobby.hub.rate

  run-bounded :
      (now : ℕ) (ms : List Move) (passed : List ℕ) (s : Server)
      → InOrder now ms
      → HoldsVoices now (length ms) passed s
      → (m : ℕ)
      → in_span l.max_msg_rate l.msg_rate_window m (passed ++ voices ms s) ≤ l.max_msg_rate
  unfolding voices
  run-bounded now [] passed s o h m = rw append-nil (h.bounded m)
  run-bounded now (a ∷ ms) passed s o h m =
      let h' : HoldsVoices now (length ms + 1) passed s =
        subst (λ k. HoldsVoices now k passed s) (omega arith) h in
      let next =
        Use-Holds (voice_key session) l.max_msg_rate l.msg_rate_window (step-Use now a s h.local)
          o.0 h' in
      subst (λ ts. in_span l.max_msg_rate l.msg_rate_window m ts ≤ l.max_msg_rate)
        (append_assoc passed (heard a s) (voices ms (step r g l c a s)))
        (run-bounded (time now a) ms (passed ++ heard a s) (step r g l c a s) o.1 next m)

  -- Of the voice messages of a session the program relays at most the limit in any window, whatever
  -- all sessions, the HTTP requests and the other goroutines do in between. There is no Redis, the
  -- store is empty at first, the clock that it reads does not go back, and the moves cannot fill the
  -- map to the size that is shrunk.
  pub voices_window :
      (ms : List Move) (s : Server)
      → s.lobby.hub.rate.has_redis ≡ false
      → s.lobby.hub.rate.times ≡ []
      → length ms ≤ 50000
      → InOrder 0 ms
      → (now : ℕ) → in_span l.max_msg_rate l.msg_rate_window now (voices ms s) ≤ l.max_msg_rate
  unfolding in_span items_of lookup
  voices_window ms s e t few o now =
      run-bounded 0 ms [] s o
        (record {
          local = e;
          small = rw t (omega arith);
          agrees = λ m h. rw t refl;
          bounded = λ m. omega arith;
        })
        now
