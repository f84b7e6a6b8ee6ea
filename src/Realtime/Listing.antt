-- ===== src/Realtime/Listing.antt =====
-- channelsSnapshotLocked of internal/realtime/hub.go: the list of channels that clients get.
use mathlib.Core.List.{Perm}
use mathlib.Core.List.Perm
use walkie_talk_server.Realtime.State.{ChannelState, Core, members_of}
use walkie_talk_server.Realtime.Channels.{
  snapshot_entry, snapshot_entries, listed_before, channels_snapshot,
}
use walkie_talk_server.Realtime.Admission.{wants_private}
use walkie_talk_server.Base.{
  ℕ, ◌<◌, ◌≡◌, ◌⊎◌, refl, ap₂, subst, ltb, ◌==◌, map, length, Bool-cases, Bool, true, false, ◌&&◌,
  List, [], ◌∷◌, some, Text, arith, is_empty, all, inl, inr, Option-cases,
}
use walkie_talk_server.Realtime.Join.{room_state_of}
use walkie_talk_server.Base.Dict.{lookup}
use walkie_talk_server.Base.Sort.{
  sort, text_lt, Sorted, sort-perm, sort-Sorted, all-sort, text_lt_asymm,
}

listed_before_asymm : (a b : ChannelState) → listed_before a b ≡ true → listed_before b a ≡ false
unfolding listed_before
listed_before_asymm a b h = ground (arith, text_lt_asymm a.name b.name)

-- The invite code, the PIN hash and the field with the session of the owner are empty.
abbrev pub is_secret_free : ChannelState → Bool
is_secret_free s = is_empty s.invite_code && (is_empty s.pin_hash && is_empty s.owner_sid)

snapshot_entry-secret_free :
    (ttl now : ℕ) (c : Core) (e : Text × ChannelState)
    → is_secret_free (snapshot_entry ttl now c e) ≡ true
unfolding snapshot_entry
snapshot_entry-secret_free ttl now c (room, s) = ground arith

snapshot_entry-name :
    (ttl now : ℕ) (c : Core) (e : Text × ChannelState) → (snapshot_entry ttl now c e).name ≡ e.0
unfolding snapshot_entry
snapshot_entry-name ttl now c (room, s) = ground arith

-- The entry has the number of the sessions in its room.
abbrev pub is_counted : Core → ChannelState → Bool
is_counted c s = s.user_count == length (members_of s.name c.rooms)

snapshot_entry-counted :
    (ttl now : ℕ) (c : Core) (e : Text × ChannelState)
    → is_counted c (snapshot_entry ttl now c e) ≡ true
unfolding snapshot_entry
snapshot_entry-counted ttl now c (room, s) = ground arith

-- More users, or as many and active later, or else the name is not after the other.
abbrev pub IsBefore : ChannelState → ChannelState → Type 0
IsBefore a b =
    (b.user_count < a.user_count)
    ⊎ ((a.user_count ≡ b.user_count)
        × ((b.last_active < a.last_active)
            ⊎ ((a.last_active ≡ b.last_active) × (text_lt b.name a.name ≡ false))))

abbrev pub InOrder : List ChannelState → Type 0
InOrder [] = Unit {0}
InOrder (a ∷ []) = Unit {0}
InOrder (a ∷ b ∷ cs) = IsBefore a b × InOrder (b ∷ cs)

before : (a b : ChannelState) → listed_before b a ≡ false → IsBefore a b
unfolding listed_before
before a b h = elim (Bool-cases (ltb b.user_count a.user_count)) [
  | inl e ↦ inl (ground arith)
  | inr e ↦ inr (
    ground arith,
    elim (Bool-cases (ltb b.last_active a.last_active)) [
      | inl k ↦ inl (ground arith)
      | inr k ↦ inr (ground arith, ground arith)
    ],
  )
]

Sorted-InOrder : (cs : List ChannelState) → Sorted listed_before cs → InOrder cs
Sorted-InOrder [] h = tt
Sorted-InOrder (a ∷ []) h = tt
Sorted-InOrder (a ∷ b ∷ cs) h = (before a b h.0, Sorted-InOrder (b ∷ cs) h.1)

module _ (ttl now : ℕ) (c : Core) where
  entries-secret_free :
      (es : List (Text × ChannelState)) → all is_secret_free (snapshot_entries ttl now c es) ≡ true
  unfolding snapshot_entries
  entries-secret_free [] = refl
  entries-secret_free (e ∷ es) =
      ground (arith, snapshot_entry-secret_free ttl now c e, entries-secret_free es)

  entries-names :
      (es : List (Text × ChannelState))
      → map (λ s. s.name) (snapshot_entries ttl now c es) ≡ map (λ e. e.0) es
  unfolding snapshot_entries
  entries-names [] = refl
  entries-names (e ∷ es) = ap₂ (◌∷◌) (snapshot_entry-name ttl now c e) (entries-names es)

  entries-counted :
      (es : List (Text × ChannelState)) → all (is_counted c) (snapshot_entries ttl now c es) ≡ true
  unfolding snapshot_entries
  entries-counted [] = refl
  entries-counted (e ∷ es) = ground (arith, snapshot_entry-counted ttl now c e, entries-counted es)

  -- The list of channels names each channel, private ones too, and no other, and with each the number
  -- of sessions in its room. It is in order: more users first, then the more recently active, then by
  -- name. The invite code, the PIN hash and the field with the session of the owner are empty in it.
  pub channels_snapshot-listing :
      InOrder (channels_snapshot ttl now c)
      × Perm (map (λ s. s.name) (channels_snapshot ttl now c)) (map (λ e. e.0) c.channels)
      × (all (is_counted c) (channels_snapshot ttl now c) ≡ true)
      × (all is_secret_free (channels_snapshot ttl now c) ≡ true)
  unfolding channels_snapshot
  channels_snapshot-listing =
      let entries = snapshot_entries ttl now c c.channels in
      (
        Sorted-InOrder (sort listed_before entries)
            (sort-Sorted listed_before listed_before_asymm entries),
        subst (λ ns. Perm (map (λ s. s.name) (sort listed_before entries)) ns)
            (entries-names c.channels) (Perm.map (λ s. s.name) (sort-perm listed_before entries)),
        ground (arith, all-sort listed_before (is_counted c) entries, entries-counted c.channels),
        ground
            (arith, all-sort listed_before is_secret_free entries, entries-secret_free c.channels),
      )

-- A joiner is told an invite code only if it owns the channel and the channel is private; then it is
-- the code of that channel.
pub room_state_of-code :
    (room sid : Text) (c : Core)
    → is_empty (room_state_of room sid c).invite_code ≡ false
    → (s : ChannelState) × (lookup room c.channels ≡ some s)
      × (s.owner_sid ≡ sid)
      × (wants_private s.visibility ≡ true)
      × ((room_state_of room sid c).invite_code ≡ s.invite_code)
unfolding room_state_of
room_state_of-code room sid c h = elim (Option-cases (lookup room c.channels)) [
  | inl e ↦ ground arith
  | inr (s, e) ↦ (s, e, ground arith, ground arith, ground arith)
]
