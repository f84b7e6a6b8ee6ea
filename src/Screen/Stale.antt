-- ===== src/Screen/Stale.antt =====
-- The screens of a session that goes: stopScreenShareForSID of internal/realtime/screen.go, as
-- removeClient of internal/realtime/hub.go calls it.
use walkie_talk_server.Realtime.State.{Limits, ScreenState, Core, Hub}
use walkie_talk_server.Realtime.Channels.{mark_channel_empty, touch_channel}
use walkie_talk_server.Realtime.Join.{leave_no_broadcast, leave_current, leave_room, without_user}
use walkie_talk_server.Realtime.Lifecycle.{screen_of, stop_screen_share, forget, remove_client}
use walkie_talk_server.Realtime.Expiry.{keys}
use walkie_talk_server.Base.{
  ℕ, ◌-◌, ◌≡◌, refl, ap, true, false, not, List, [], ◌∷◌, none, some, Text, arith, length, keep,
  Option-cases, Bool-cases, inl, inr,
}
use walkie_talk_server.Base.Dict.{remove}
use walkie_talk_server.Base.KeySet.{has, same, Distinct}

-- The screens that the session shares, and those of others.
abbrev pub own : Text → List (Text × ScreenState) → List (Text × ScreenState)
own sid = keep (λ e. same e.1.sender_sid sid)

abbrev pub others : Text → List (Text × ScreenState) → List (Text × ScreenState)
others sid = keep (λ e. not (same e.1.sender_sid sid))

remove_absent :
    (k : Text) (es : List (Text × ScreenState)) → has k (keys es) ≡ false → remove k es ≡ es
unfolding remove has
remove_absent k [] h = refl
remove_absent k ((j, s) ∷ es) h = ground (arith, remove_absent k es)

screen_of-keys :
    (sid r : Text) (s : ScreenState) (es : List (Text × ScreenState))
    → screen_of sid es ≡ some (r, s)
    → has r (keys es) ≡ true
unfolding screen_of has
screen_of-keys sid r s [] h = ground arith
screen_of-keys sid r s ((k, v) ∷ es) h = ground (arith, screen_of-keys sid r s es)

-- What stopScreenShareForSID makes of the screens.
abbrev stopped : Text → List (Text × ScreenState) → List (Text × ScreenState)
stopped sid es = elim (screen_of sid es) [ none ↦ es | some (r, s) ↦ remove r es ]

abbrev OneGone : Text → List (Text × ScreenState) → List (Text × ScreenState) → Type 0
OneGone sid es es' =
    (length (own sid es') ≡ length (own sid es) - 1) × (others sid es' ≡ others sid es)

stopped-OneGone :
    (sid : Text) (es : List (Text × ScreenState))
    → Distinct (keys es)
    → OneGone sid es (stopped sid es)
unfolding screen_of remove
stopped-OneGone sid [] d = (omega arith, refl)
stopped-OneGone sid ((k, v) ∷ es) d = elim (Bool-cases (same v.sender_sid sid)) [
  | inl e ↦ ground (arith, remove_absent k es d.0)
  | inr e ↦ elim (Option-cases (screen_of sid es)) [
    | inl n ↦ ground (arith, stopped-OneGone sid es d.1)
    | inr ((r, s), n) ↦ ground (arith, stopped-OneGone sid es d.1, screen_of-keys sid r s es n)
  ]
]

leave-screens :
    (ttl now : ℕ) (sid : Text) (c : Core) → (leave_no_broadcast ttl sid now c).screens ≡ c.screens
unfolding leave_no_broadcast leave_current leave_room without_user mark_channel_empty touch_channel
leave-screens ttl now sid c = ground arith

stop-screens :
    (sid reason : Text) (h : Hub)
    → (stop_screen_share sid reason h).core.screens ≡ stopped sid h.core.screens
unfolding stop_screen_share
stop-screens sid reason h = ground arith

-- The removal of a client takes one screen of its session, if it shares any, and no other: a session
-- that shares in one room at most leaves none, and one that shares in two leaves one. The map of
-- screens has each room once.
pub remove_client-screens :
    (l : Limits) (now shown_at : ℕ) (sid reason : Text) (h : Hub)
    → Distinct (keys h.core.screens)
    → let after = (remove_client l now shown_at sid reason h).core.screens in
      (length (own sid after) ≡ length (own sid h.core.screens) - 1)
      × (others sid after ≡ others sid h.core.screens)
unfolding remove_client forget
remove_client-screens l now shown_at sid reason h d =
    let left : Hub = record h { core = leave_no_broadcast l.channel_empty_ttl sid now h.core } in
    let e : (remove_client l now shown_at sid reason h).core.screens ≡ stopped sid h.core.screens =
      ground (
        arith,
        stop-screens sid reason left,
        leave-screens l.channel_empty_ttl now sid h.core,
        ap (stopped sid) (leave-screens l.channel_empty_ttl now sid h.core),
      ) in
    rw e (stopped-OneGone sid h.core.screens d)
