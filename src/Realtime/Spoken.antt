-- ===== src/Realtime/Spoken.antt =====
-- What the events of internal/realtime/events.go ask of the rate store, for the voice messages of one
-- session.
use mathlib.Core.List.{append_cancel_right, head-eq_of_cons-eq, tail-eq_of_cons-eq}
use walkie_talk_server.Base.{
  ℕ, ◌≡◌, ◌≢◌, refl, sym, ap, subst, Bool, true, false, ◌&&◌, ◌||◌, List, [], ◌∷◌, ◌++◌, Option,
  none, some, Text, lit, ltb, arith, if◌then◌else◌, is_empty, byte_len, length, length-append,
  text_dec, Bool-cases, inl, inr,
}
use walkie_talk_server.Base.KeySet.{same}
use walkie_talk_server.Store.{RateStore, check}
use walkie_talk_server.Store.Calls.{Use, unused, other, counted}
use walkie_talk_server.Json.{Runtime, Fields}
use walkie_talk_server.Realtime.State.{Limits, Core, Message, Hub}
use walkie_talk_server.Realtime.Join.{
  room_name, handle_join, join_rest, handle_leave, handle_update_name,
}
use walkie_talk_server.Realtime.Events.{
  Inputs, Event, join, quality_pong, chunk, after_pong, handle_voice_stream_end, handle_message_ack,
  voice, audio_of, handle_voice_message, handle_voice_chunk, run_event,
}
use walkie_talk_server.Realtime.Quality.{handle_quality_pong}
use walkie_talk_server.Realtime.Relay.{relayed}

abbrev pub voice_key : Text → Text
voice_key sid = sid ++ lit ":voice"

live-ne-voice : (xs ys : Text) → xs ++ lit ":live" ≢ ys ++ lit ":voice"
live-ne-voice [] [] h = cc
live-ne-voice [] (y ∷ ys) h = omega (arith, ap length h, length-append ys (lit ":voice"))
live-ne-voice (x ∷ []) [] h = omega (arith, head-eq_of_cons-eq (tail-eq_of_cons-eq h))
live-ne-voice (x ∷ z ∷ xs) [] h = omega (arith, ap length h, length-append xs (lit ":live"))
live-ne-voice (x ∷ xs) (y ∷ ys) h = live-ne-voice xs ys (tail-eq_of_cons-eq h)

module _ (k : Text) (limit window : ℕ) where
  pub Use-eq :
      (s s' s'' : RateStore) (t : ℕ) (ts ts' : List ℕ)
      → Use k limit window s t ts s'
      → ts ≡ ts'
      → s' ≡ s''
      → Use k limit window s t ts' s''
  Use-eq s s' s'' t ts ts' u p q =
      subst (λ x. Use k limit window s t ts' x) q (subst (λ x. Use k limit window s t x s') p u)

abbrev pub is_voice : Event → Bool
is_voice voice = true
is_voice e = false

abbrev is_chunk : Event → Bool
is_chunk chunk = true
is_chunk e = false

module _ (r : Runtime) (l : Limits) (sid : Text) where
  abbrev pub VoiceUse : Hub → ℕ → List ℕ → Hub → Type 0
  VoiceUse h t ts h' = Use (voice_key sid) l.max_msg_rate l.msg_rate_window h.rate t ts h'.rate

  module _ (o : Inputs) (fs : Fields) (h : Hub) where
    abbrev pub t : ℕ
    t = o.outside.counted_at

    abbrev guarded : Text → Bool
    guarded who =
        is_empty (room_name who h.core).0
        || (is_empty (audio_of r fs) || ltb l.max_audio_base64_chars (byte_len (audio_of r fs)))

    abbrev called : Text → RateStore × Bool
    called who = check o.outside (voice_key who) l.max_msg_rate l.msg_rate_window h.rate

    guarded-rate :
        (who : Text)
        → guarded who ≡ true
        → ((handle_voice_message l r o who fs h).rate ≡ h.rate) × (relayed l r o who fs h ≡ false)
    unfolding handle_voice_message
    guarded-rate who e = ground arith

    called-rate :
        (who : Text)
        → guarded who ≡ false
        → ((handle_voice_message l r o who fs h).rate ≡ (called who).0)
          × (relayed l r o who fs h ≡ (called who).1)
    unfolding handle_voice_message
    called-rate who e = ground arith

    own-Use :
        guarded sid ≡ false
        → VoiceUse h t
            (if same sid sid && relayed l r o sid fs h then t ∷ [] else [])
            (handle_voice_message l r o sid fs h)
    own-Use e =
        let (p, q) = called-rate sid e in
        Use-eq (voice_key sid) l.max_msg_rate l.msg_rate_window h.rate (called sid).0 _ t
          (if (called sid).1 then t ∷ [] else []) _ (counted o.outside) (ground arith) (sym p)

    voice-Use :
        (who : Text)
        → VoiceUse h t
            (if same who sid && relayed l r o who fs h then t ∷ [] else [])
            (handle_voice_message l r o who fs h)
    voice-Use who = elim (Bool-cases (guarded who)) [
      | inl e ↦
          let (p, q) = guarded-rate who e in
          Use-eq (voice_key sid) l.max_msg_rate l.msg_rate_window h.rate h.rate _ t [] _ (unused t)
            (ground arith) (sym p)
      | inr e ↦
          let (p, q) = called-rate who e in
          elim (text_dec who sid) [
            | yes w ↦
                subst
                  (λ x.
                    VoiceUse h t (if same x sid && relayed l r o x fs h then t ∷ [] else [])
                      (handle_voice_message l r o x fs h))
                  (sym w) (own-Use (subst (λ x. guarded x ≡ false) w e))
            | no w ↦
                Use-eq (voice_key sid) l.max_msg_rate l.msg_rate_window h.rate (called who).0 _ t []
                  _
                  (other o.outside (voice_key who) l.max_msg_rate l.msg_rate_window
                    (λ x. w (append_cancel_right who sid (lit ":voice") x)))
                  (ground arith) (sym p)
          ]
    ]

    chunk-Use : (who : Text) → VoiceUse h t [] (handle_voice_chunk l r o who fs h)
    unfolding handle_voice_chunk
    chunk-Use who =
        let audio = audio_of r fs in
        let key = who ++ lit ":live" in
        let c = check o.outside key l.max_chunk_rate l.msg_rate_window h.rate in
        let skipped =
          is_empty (room_name who h.core).0
          || (is_empty audio || ltb l.max_chunk_bytes (byte_len audio)) in
        elim (Bool-cases skipped) [
          | inl e ↦
              Use-eq (voice_key sid) l.max_msg_rate l.msg_rate_window h.rate h.rate _ t [] _
                (unused t) refl (ground arith)
          | inr e ↦
              Use-eq (voice_key sid) l.max_msg_rate l.msg_rate_window h.rate c.0 _ t [] _
                (other o.outside key l.max_chunk_rate l.msg_rate_window (live-ne-voice who sid))
                refl (ground arith)
        ]

    pong-rate : (who : Text) (x : Core × Option Message) → (after_pong who h x).rate ≡ h.rate
    unfolding after_pong
    pong-rate who (c, none) = refl
    pong-rate who (c, some m) = refl

    quiet-rate :
        (e : Event) (name who : Text)
        → is_voice e ≡ false
        → is_chunk e ≡ false
        → (run_event l r o e name who fs h).rate ≡ h.rate
    unfolding run_event handle_join join_rest handle_leave handle_update_name
        handle_voice_stream_end handle_message_ack
    quiet-rate voice name who a b = ground arith
    quiet-rate chunk name who a b = ground arith
    quiet-rate join name who a b = ground arith
    quiet-rate quality_pong name who a b =
        pong-rate who (handle_quality_pong r o.readings.now who fs h.core)
    quiet-rate e name who a b = ground arith

    -- The time of a voice message of the session that is relayed.
    abbrev pub spoken : Event → Text → List ℕ
    spoken e who = if is_voice e && (same who sid && relayed l r o who fs h) then t ∷ [] else []

    pub event-Use :
        (e : Event) (name who : Text)
        → VoiceUse h t (spoken e who) (run_event l r o e name who fs h)
    unfolding run_event
    event-Use voice name who = voice-Use who
    event-Use chunk name who = chunk-Use who
    event-Use e name who =
        Use-eq (voice_key sid) l.max_msg_rate l.msg_rate_window h.rate h.rate _ t [] _ (unused t)
          refl (sym (quiet-rate e name who refl refl))
