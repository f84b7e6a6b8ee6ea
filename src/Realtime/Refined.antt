-- ===== src/Realtime/Refined.antt =====
-- The handlers of internal/realtime as runs of the steps in Realtime/Interleaving.
use walkie_talk_server.Json.{Runtime, Fields, any_string, get}
use walkie_talk_server.Util.Runes.{trim_space}
use walkie_talk_server.Util.Sanitize.{clean_room, clean_name}
use walkie_talk_server.Realtime.State.{Limits, Failure, Core, Message, Hub}
use walkie_talk_server.Realtime.Channels.{cleanup_expired_channels, sweep}
use walkie_talk_server.Realtime.Join.{
  Readings, Check, go_on, refused, join_check, join_rest, join_commit, leave_no_broadcast, rename,
  sid_prefix, handle_join, handle_leave, handle_update_name,
}
use walkie_talk_server.Realtime.Lifecycle.{
  add_client, remove_client, forget, stop_screen_share, screen_of,
}
use walkie_talk_server.Realtime.Lifecycle
use walkie_talk_server.Realtime.Quality.{ping, handle_quality_pong}
use walkie_talk_server.Realtime.QualityLoop.{quality_round, quality_timeout}
use walkie_talk_server.Realtime.Events.{
  Inputs, Event, join, voice, chunk, stream_end, quality_pong, ack, after_pong,
  handle_voice_message, handle_voice_chunk, handle_voice_stream_end, handle_message_ack, event_of,
  run_event, handle_event,
}
use walkie_talk_server.Realtime.Interleaving.{
  outside, checked, departed, set_phase, closed_core, start, next, check_join, refuse_join, depart,
  arrive, leave, update_name, cleanup, close,
}
use walkie_talk_server.Base.{
  ℕ, ◌≡◌, ◌⊎◌, refl, sym, false, [], Option, none, some, Text, is_empty, lit, arith, Bool-cases,
  inl, inr,
}
use walkie_talk_server.Realtime.Runs.{
  Runs, Runs-refl, Runs-eq, Runs-trans, one_step, set_phase_self, Idle-set, SameRooms, aside-Runs,
}

module _ (l : Limits) (g : Runtime) where
  -- A join that goes on is three steps.
  join-Runs :
      (t : Readings) (sid room name : Text) (fs : Fields) (c : Core)
      → is_empty sid ≡ false
      → is_empty room ≡ false
      → let r = join_check l g t.code t.spare_code room sid name fs t.now c in
        r.1 ≡ go_on
        → Runs l g c
            (join_commit l room sid name t.now
              (leave_no_broadcast l.channel_empty_ttl sid t.left_at r.0)).0
  join-Runs t sid room name fs c n m e p i =
      let there = checked room name t.now in
      let gone = departed room name t.now in
      (
        set_phase sid outside (set_phase sid gone (set_phase sid there p)),
        next
            (next (next start (check_join sid room name fs t.code t.spare_code t.now n m (i sid) e))
              (depart sid room name t.now t.left_at (set_phase_self l g sid there p)))
            (arrive sid room name t.now (set_phase_self l g sid gone (set_phase sid there p))),
        Idle-set l g sid there gone p i,
      )

  Check-cases : (k : Check) → (k ≡ go_on) ⊎ ((f : Failure) × (k ≡ refused f))
  Check-cases go_on = inl refl
  Check-cases (refused f) = inr (f, refl)

  handle_join-Runs :
      (t : Readings) (sid : Text) (fs : Fields) (h : Hub)
      → is_empty sid ≡ false
      → Runs l g h.core (handle_join l g t sid fs h).core
  unfolding handle_join join_rest
  handle_join-Runs t sid fs h n =
      let room = clean_room g.unicode (any_string g (get (lit "room") fs)) l.max_room_len in
      let name =
        clean_name g.unicode (any_string g (get (lit "name") fs)) (sid_prefix sid) l.max_name_len in
      let r = join_check l g t.code t.spare_code room sid name fs t.now h.core in
      elim (Bool-cases (is_empty room)) [
        | inl e ↦ Runs-eq l g h.core h.core _ (ground arith) (Runs-refl l g h.core)
        | inr e ↦ elim (Check-cases r.1) [
          | inl k ↦
              Runs-eq l g h.core _ _ (ground arith) (join-Runs t sid room name fs h.core n e k)
          | inr (f, k) ↦ Runs-eq l g h.core r.0 _ (ground arith) (
              one_step l g h.core r.0
                (λ p i. refuse_join sid room name fs t.code t.spare_code t.now n (i sid)))
        ]
      ]

  leave-Runs :
      (sid : Text) (now : ℕ) (c : Core)
      → Runs l g c (leave_no_broadcast l.channel_empty_ttl sid now c)
  leave-Runs sid now c = one_step l g c _ (λ p i. leave sid now)

  handle_leave-Runs :
      (t : Readings) (sid : Text) (h : Hub) → Runs l g h.core (handle_leave l t sid h).core
  unfolding handle_leave
  handle_leave-Runs t sid h = leave-Runs sid t.now h.core

  handle_update_name-Runs :
      (t : Readings) (sid : Text) (fs : Fields) (h : Hub)
      → Runs l g h.core (handle_update_name l g t sid fs h).core
  unfolding handle_update_name
  handle_update_name-Runs t sid fs h =
      let name = clean_name g.unicode (any_string g (get (lit "name") fs)) [] l.max_name_len in
      elim (Bool-cases (is_empty name)) [
        | inl e ↦ Runs-eq l g h.core h.core _ (ground arith) (Runs-refl l g h.core)
        | inr e ↦
            Runs-eq l g h.core (rename sid name h.core) _ (ground arith)
              (one_step l g h.core (rename sid name h.core) (λ p i. update_name sid name))
      ]

  pub cleanup-Runs :
      (now shown_at : ℕ) (h : Hub)
      → Runs l g h.core (cleanup_expired_channels l.channel_empty_ttl now shown_at h).core
  unfolding cleanup_expired_channels
  cleanup-Runs now shown_at h =
      let r = sweep l.channel_empty_ttl now h.core.channels h.core in
      Runs-eq l g h.core r.0 _ (ground arith) (one_step l g h.core r.0 (λ p i. cleanup now))

  pub close-Runs : (h : Hub) → Runs l g h.core (Lifecycle.close h).core
  unfolding Lifecycle.close
  close-Runs h = elim (Bool-cases h.core.closed) [
    | inl e ↦ Runs-eq l g h.core h.core _ (ground arith) (Runs-refl l g h.core)
    | inr e ↦
        Runs-eq l g h.core (closed_core h.core) _ (ground arith)
          (one_step l g h.core (closed_core h.core) (λ p i. close))
  ]

  pub add_client-Runs : (sid : Text) (h : Hub) → Runs l g h.core (add_client l sid h).core
  unfolding add_client
  add_client-Runs sid h = aside-Runs l g h.core (add_client l sid h).core (ground arith)

  remove_client-SameRooms :
      (now shown_at : ℕ) (sid reason : Text) (h : Hub)
      → SameRooms l g
          (leave_no_broadcast l.channel_empty_ttl sid now h.core)
          (remove_client l now shown_at sid reason h).core
  unfolding remove_client forget stop_screen_share
  remove_client-SameRooms now shown_at sid reason h = ground arith

  pub remove_client-Runs :
      (now shown_at : ℕ) (sid reason : Text) (h : Hub)
      → Runs l g h.core (remove_client l now shown_at sid reason h).core
  remove_client-Runs now shown_at sid reason h =
      let left = leave_no_broadcast l.channel_empty_ttl sid now h.core in
      Runs-trans l g h.core left (remove_client l now shown_at sid reason h).core
        (leave-Runs sid now h.core)
        (aside-Runs l g left (remove_client l now shown_at sid reason h).core
          (remove_client-SameRooms now shown_at sid reason h))

  pub quality_round-Runs :
      (nonce sid : Text) (now : ℕ) (h : Hub) → Runs l g h.core (quality_round nonce now sid h).core
  unfolding quality_round ping
  quality_round-Runs nonce sid now h =
      aside-Runs l g h.core (quality_round nonce now sid h).core (ground arith)

  pub quality_timeout-Runs :
      (nonce sid : Text) (h : Hub) → Runs l g h.core (quality_timeout g.float nonce sid h).core
  unfolding quality_timeout
  quality_timeout-Runs nonce sid h =
      aside-Runs l g h.core (quality_timeout g.float nonce sid h).core (ground arith)

  module _ (o : Inputs) (sid : Text) (fs : Fields) (h : Hub) where
    pong-SameRooms : (now : ℕ) → SameRooms l g h.core (handle_quality_pong g now sid fs h.core).0
    unfolding handle_quality_pong
    pong-SameRooms now = ground arith

    after_pong-core : (x : Core × Option Message) → (after_pong sid h x).core ≡ x.0
    unfolding after_pong
    after_pong-core (c, none) = refl
    after_pong-core (c, some m) = refl

    relay-SameRooms :
        (SameRooms l g h.core (handle_voice_message l g o sid fs h).core)
        × (SameRooms l g h.core (handle_voice_chunk l g o sid fs h).core)
        × (SameRooms l g h.core (handle_voice_stream_end g sid fs h).core)
    unfolding handle_voice_message handle_voice_chunk handle_voice_stream_end
    relay-SameRooms = (ground arith, ground arith, ground arith)

    ack-SameRooms :
        (event : Text) → SameRooms l g h.core (handle_message_ack g o sid event fs h).core
    unfolding handle_message_ack
    ack-SameRooms event = ground arith

    run_event-Runs :
        (e : Event) (name : Text)
        → is_empty sid ≡ false
        → Runs l g h.core (run_event l g o e name sid fs h).core
    unfolding run_event
    run_event-Runs join name n = handle_join-Runs o.readings sid fs h n
    run_event-Runs Event.leave name n = handle_leave-Runs o.readings sid h
    run_event-Runs Event.update_name name n = handle_update_name-Runs o.readings sid fs h
    run_event-Runs voice name n = aside-Runs l g h.core _ relay-SameRooms.0
    run_event-Runs chunk name n = aside-Runs l g h.core _ relay-SameRooms.1
    run_event-Runs stream_end name n = aside-Runs l g h.core _ relay-SameRooms.2
    run_event-Runs quality_pong name n =
        let x = handle_quality_pong g o.readings.now sid fs h.core in
        Runs-eq l g h.core x.0 (after_pong sid h x).core (sym (after_pong-core x))
          (aside-Runs l g h.core x.0 (pong-SameRooms o.readings.now))
    run_event-Runs ack name n = aside-Runs l g h.core _ (ack-SameRooms (trim_space name))
    run_event-Runs e name n = Runs-refl l g h.core

    pub handle_event-Runs :
        (event : Text)
        → is_empty sid ≡ false
        → Runs l g h.core (handle_event l g o sid event fs h).core
    unfolding handle_event
    handle_event-Runs event n = run_event-Runs (event_of (trim_space event)) event n
