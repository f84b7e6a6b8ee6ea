-- ===== src/Realtime/Expiry.antt =====
-- When a channel disappears: CleanupExpiredChannels and markChannelEmptyLocked of
-- internal/realtime/hub.go.
use walkie_talk_server.Realtime.State.{ChannelState, User, Core, Hub, members_of}
use walkie_talk_server.Realtime.Channels.{
  is_expired, drop_channel, sweep, cleanup_expired_channels, mark_channel_empty, emptied,
  channel_or_new,
}
use walkie_talk_server.Realtime.Join.{leave_no_broadcast, leave_room, without_user}
use walkie_talk_server.Realtime.Invariant.{Inv, mark_channel_empty-frame, members_of-remove}
use walkie_talk_server.Realtime.Leave.{leave-present, leave-Inv, user-room}
use walkie_talk_server.Realtime.Upkeep.{drop-members, is_expired-is_nil, drop-Inv}
use walkie_talk_server.Base.{
  ℕ, ◌+◌, ◌≡◌, ◌∙◌, refl, Bool, true, false, not, ◌&&◌, List, [], ◌∷◌, map, Option, none, some,
  Text, arith, text_dec, ite, leb, if◌then◌else◌, is_empty, ap, Bool-cases, inl, inr,
}
use walkie_talk_server.Base.Dict.{lookup, insert, remove, lookup-insert, lookup-remove}
use walkie_talk_server.Base.KeySet.{has, del, is_nil, Distinct}

-- A Go map has each key once.
abbrev pub keys {ℓ} : {V : Type ℓ} → List (Text × V) → List Text
keys = map (λ e. e.0)

abbrev pub is_some {ℓ} : {A : Type ℓ} → Option A → Bool
is_some none = false
is_some (some a) = true

has-keys {ℓ} : {V : Type ℓ} (j : Text) (m : List (Text × V)) → has j (keys m) ≡ is_some (lookup j m)
unfolding has lookup
has-keys j [] = refl
has-keys j ((k, v) ∷ m) = ground (arith, has-keys j m)

pub remove-Distinct {ℓ} :
    {V : Type ℓ} (k : Text) (m : List (Text × V)) → Distinct (keys m) → Distinct (keys (remove k m))
unfolding remove
remove-Distinct k [] d = tt
remove-Distinct k ((j, v) ∷ m) d =
    ground
      (arith, remove-Distinct k m d.1, has-keys j (remove k m), has-keys j m, lookup-remove k j m)

pub insert-Distinct {ℓ} :
    {V : Type ℓ} (k : Text) (v : V) (m : List (Text × V))
    → Distinct (keys m)
    → Distinct (keys (insert k v m))
unfolding insert has
insert-Distinct k v [] d = ground arith
insert-Distinct k v ((j, w) ∷ m) d = ground (
  arith,
  insert-Distinct k v m d.1,
  remove-Distinct k m d.1,
  has-keys j (insert k v m),
  has-keys j m,
  has-keys k (remove k m),
  lookup-remove k k m,
  lookup-insert k j v m,
)

-- The channel of the room is there, has no member, and was marked as empty at least `ttl` ago.
abbrev pub is_due : ℕ → ℕ → List (Text × List Text) → Text → List (Text × ChannelState) → Bool
is_due ttl now rooms j channels = elim (lookup j channels) [
  | none ↦ false
  | some s ↦ elim s.empty_since [
    | none ↦ false
    | some t ↦ is_nil (members_of j rooms) && leb (t + ttl) now
  ]
]

drop-channels :
    (k j : Text) (c : Core)
    → lookup j (drop_channel k c).channels ≡ ite (text_dec k j) none (lookup j c.channels)
unfolding drop_channel
drop-channels k j c = lookup-remove k j c.channels

-- One entry of the loop: its own channel goes if it is due, and no other.
step-channels :
    (max ttl now : ℕ) (k : Text) (s : ChannelState) (es : List (Text × ChannelState)) (c : Core)
    → Inv max c
    → has k (keys es) ≡ false
    → (j : Text)
    → let x = is_expired ttl now c.rooms (k, s) in
      let c' = if x then drop_channel k c else c in
      ((if is_due ttl now c'.rooms j es then none else lookup j c'.channels)
        ≡ (if is_due ttl now c.rooms j ((k, s) ∷ es) then none else lookup j c.channels))
      × (members_of j c'.rooms ≡ members_of j c.rooms)
      × Inv max c'
unfolding lookup
step-channels max ttl now k s es c v d j = elim (Bool-cases (is_expired ttl now c.rooms (k, s))) [
  | inl x ↦
      let n = is_expired-is_nil ttl now (k, s) c.rooms x in
      rw x (
        ground (
          arith,
          open_expired ttl now k s c.rooms,
          drop-channels k j c,
          drop-members max k c v n j,
          has-keys k es,
          ap (λ i. lookup i es),
        ),
        drop-members max k c v n j,
        drop-Inv max k c v n,
      )
  | inr x ↦ rw x (ground (arith, open_expired ttl now k s c.rooms, has-keys k es), refl, v)
]
  where
    open_expired :
        (ttl now : ℕ) (k : Text) (s : ChannelState) (rooms : List (Text × List Text))
        → is_expired ttl now rooms (k, s) ≡ (elim s.empty_since [
          | none ↦ false
          | some t ↦ is_nil (members_of k rooms) && leb (t + ttl) now
        ])
    open_expired ttl now k s rooms = unfold is_expired in refl

pub sweep-channels :
    (max ttl now : ℕ) (es : List (Text × ChannelState)) (c : Core)
    → Inv max c
    → Distinct (keys es)
    → (j : Text)
    → (lookup j (sweep ttl now es c).0.channels
        ≡ (if is_due ttl now c.rooms j es then none else lookup j c.channels))
      × (members_of j (sweep ttl now es c).0.rooms ≡ members_of j c.rooms)
unfolding sweep
sweep-channels max ttl now [] c v d j = (unfold lookup in refl, refl)
sweep-channels max ttl now ((k, s) ∷ es) c v d j =
    let st = step-channels max ttl now k s es c v d.0 j in
    let c' : Core = if is_expired ttl now c.rooms (k, s) then drop_channel k c else c in
    let ih = sweep-channels max ttl now es c' st.2 d.1 j in (ih.0 ∙ st.0, ih.1 ∙ st.1)

-- The cleanup takes exactly the channels that have no member and were marked as empty at least the
-- empty time ago; every other channel stays as it is, and the members of every room too. The map of
-- channels has each key once.
pub cleanup-channels :
    (max ttl now shown_at : ℕ) (h : Hub)
    → Inv max h.core
    → Distinct (keys h.core.channels)
    → (j : Text)
    → let d = cleanup_expired_channels ttl now shown_at h in
      (lookup j d.core.channels ≡ (
        if is_due ttl now h.core.rooms j h.core.channels then none else lookup j h.core.channels))
      × (members_of j d.core.rooms ≡ members_of j h.core.rooms)
unfolding cleanup_expired_channels
cleanup-channels max ttl now shown_at h v d j =
    ground (arith, sweep-channels max ttl now h.core.channels h.core v d j)

module _ (ttl : ℕ) (sid : Text) (t now : ℕ) (c : Core) (max : ℕ) (v : Inv max c) (u : User)
    (hu : lookup sid c.users ≡ some u) (alone : members_of u.room c.rooms ≡ sid ∷ [])
    (d : Distinct (keys c.channels)) where
  abbrev after : Core
  after = leave_no_broadcast ttl sid t c

  abbrev unroomed : Core
  unroomed = record c { rooms = remove u.room c.rooms }

  abbrev marked : ChannelState
  marked = emptied ttl t (channel_or_new u.room t unroomed)

  alone-sids : (sids : List Text) → lookup u.room c.rooms ≡ some sids → sids ≡ sid ∷ []
  unfolding members_of
  alone-sids sids e = ground arith

  left-alone : after ≡ without_user sid (mark_channel_empty ttl u.room t unroomed)
  unfolding leave_room del
  left-alone =
      let (sids, e) = user-room ttl sid t c max v u hu in
      rw (leave-present ttl sid t c u sids hu e, alone-sids sids e) (ground arith)

  named : is_empty u.room ≡ false
  named = ground (arith, v.unnamed sid)

  left-channels : after.channels ≡ insert u.room marked c.channels
  unfolding without_user mark_channel_empty
  left-channels = rw left-alone (ground (arith, named))

  left-rooms : after.rooms ≡ remove u.room c.rooms
  unfolding without_user
  left-rooms = rw left-alone (mark_channel_empty-frame u.room t unroomed ttl).0

  marked-since : marked.empty_since ≡ some t
  unfolding emptied channel_or_new
  marked-since = ground (arith, v.active u.room)

  -- The channel that its last member leaves at time `t` is there after a sweep exactly if the sweep
  -- comes before `t + ttl`. The map of channels has each key once.
  pub last_leave-expires :
      is_some (lookup u.room (sweep ttl now after.channels after).0.channels)
      ≡ not (leb (t + ttl) now)
  last_leave-expires = ground (
    arith,
    sweep-channels max ttl now after.channels after (leave-Inv ttl sid t c max v)
        (rw left-channels (insert-Distinct u.room marked c.channels d)) u.room,
    ap (lookup u.room) left-channels,
    lookup-insert u.room u.room marked c.channels,
    ap (members_of u.room) left-rooms,
    members_of-remove u.room u.room c.rooms,
    marked-since,
  )
