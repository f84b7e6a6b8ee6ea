-- ===== src/Api/ZoneValid.antt =====
-- The zones that postZone of internal/api/server.go makes.
use walkie_talk_server.Base.{
  ℕ, ◌≤◌, ◌≡◌, refl, ◌⊎◌, inl, inr, true, false, not, none, some, Text, lit, arith, if◌then◌else◌,
  is_empty, all, byte_len, length, Bool-cases,
}
use walkie_talk_server.Util.Runes.{trim_space}
use walkie_talk_server.Util.Sanitize.{
  is_room_char, is_device_char, is_control, is_color, clean_small_text,
}
use walkie_talk_server.Util.Bounds.{
  clean_room_bounds, clean_device_bounds, clean_small_text_bounds, clean_color-is_color,
  all-trim_space,
}
use walkie_talk_server.Realtime.Secrets.{Random, random_id}
use walkie_talk_server.Json.{Fields, get}
use walkie_talk_server.Api.ZoneValues.{
  Library, Settings, is_within, whole, negative, first_non_empty, any_string,
}
use walkie_talk_server.Api.Zones.{
  Zone, zone_id, zone_device, zone_name, zone_channel, zone_expiry, make_zone, asked_channel,
}

-- What every zone that is saved or shown to the clients satisfies.
pub record IsValid (g : Library) (c : Settings) (z : Zone) : Type 0 where
  pub with_id : is_empty z.id ≡ false
  pub id_clean :
      ((length z.id ≤ 128) × (all (λ x. not (is_control x)) z.id ≡ true))
      ⊎ ((r : Random) × (z.id ≡ random_id (lit "zone_") r))
  pub with_device : is_empty z.device_id ≡ false
  pub device_chars : all is_device_char z.device_id ≡ true
  pub device_short : byte_len z.device_id ≤ 128
  pub with_name : is_empty z.name ≡ false
  pub name_clean :
      ((length z.name ≤ 80) × (all (λ x. not (is_control x)) z.name ≡ true))
      ⊎ ((all is_room_char z.name ≡ true) ⊎ (z.name ≡ lit "Zone"))
  pub with_channel : is_empty z.channel ≡ false
  pub channel_chars : all is_room_char z.channel ≡ true
  pub channel_short : (byte_len z.channel ≤ c.max_room_len) ⊎ (z.channel ≡ lit "ZONE")
  pub lat_within : is_within g (negative g 90) (whole g 90) z.lat ≡ true
  pub lng_within : is_within g (negative g 180) (whole g 180) z.lng ≡ true
  pub radius_within : is_within g (whole g 10) (whole g 50000) z.radius ≡ true
  pub colored : is_color z.color ≡ true
  pub maker_short : length z.created_by ≤ 80
  pub maker_plain : all (λ x. not (is_control x)) z.created_by ≡ true
  pub expires : (g.is_rfc3339 z.expires_at ≡ true) ⊎ (z.expires_at ≡ g.after c.zone_ttl)

module _ (g : Library) (c : Settings) (r : Random) (body : Fields) where
  zone_id_present : is_empty (zone_id g r body) ≡ false
  unfolding zone_id random_id
  zone_id_present = by_random r (Bool-cases (is_empty id))
    where
      id : Text
      id = clean_small_text (any_string g (get (lit "id") body)) 128

      by_random :
          (r : Random)
          → (is_empty id ≡ true) ⊎ (is_empty id ≡ false)
          → is_empty (if is_empty id then random_id (lit "zone_") r else id) ≡ false
      by_random (some bs) e = ground arith
      by_random none e = ground arith

  asked_channel_bounds :
      (all is_room_char (asked_channel g c body) ≡ true)
      × (byte_len (asked_channel g c body) ≤ c.max_room_len)
  unfolding asked_channel
  asked_channel_bounds = ground (
    arith,
    clean_room_bounds g.unicode (any_string g (get (lit "channel") body)) c.max_room_len,
    clean_room_bounds g.unicode (clean_small_text (any_string g (get (lit "name") body)) 80)
        c.max_room_len,
  )

  zone_channel_bounds :
      let s = zone_channel g c body in
      (is_empty s ≡ false)
      × (all is_room_char s ≡ true)
      × ((byte_len s ≤ c.max_room_len) ⊎ (s ≡ lit "ZONE"))
  unfolding zone_channel is_room_char
  zone_channel_bounds = elim (Bool-cases (is_empty (asked_channel g c body))) [
    | inl e ↦ rw e (refl, refl, inr refl)
    | inr e ↦ rw e (e, asked_channel_bounds.0, inl asked_channel_bounds.1)
  ]

  zone_name_present : is_empty (zone_name g c body) ≡ false
  unfolding zone_name first_non_empty trim_space
  zone_name_present = ground arith

  zone_id_clean :
      ((length (zone_id g r body) ≤ 128)
        × (all (λ x. not (is_control x)) (zone_id g r body) ≡ true))
      ⊎ ((s : Random) × (zone_id g r body ≡ random_id (lit "zone_") s))
  unfolding zone_id
  zone_id_clean =
      let id = clean_small_text (any_string g (get (lit "id") body)) 128 in
      elim (Bool-cases (is_empty id)) [
        | inl e ↦ rw e (inr (r, refl))
        | inr e ↦ rw e (inl (clean_small_text_bounds _ 128))
      ]

  zone_name_clean :
      ((length (zone_name g c body) ≤ 80)
        × (all (λ x. not (is_control x)) (zone_name g c body) ≡ true))
      ⊎ ((all is_room_char (zone_name g c body) ≡ true) ⊎ (zone_name g c body ≡ lit "Zone"))
  unfolding zone_name first_non_empty trim_space
  zone_name_clean =
      let name = clean_small_text (any_string g (get (lit "name") body)) 80 in
      let channel = trim_space (asked_channel g c body) in
      let fine = all-trim_space is_room_char (asked_channel g c body) asked_channel_bounds.0 in
      elim (Bool-cases (is_empty name)) [
        | inr e ↦ rw e (inl (clean_small_text_bounds _ 80))
        | inl e ↦ elim (Bool-cases (is_empty channel)) [
          | inl k ↦ rw (e, k) (inr (inr refl))
          | inr k ↦ rw (e, k) (inr (inl fine))
        ]
      ]

  zone_expiry_fine :
      let t = zone_expiry g c body in (g.is_rfc3339 t ≡ true) ⊎ (t ≡ g.after c.zone_ttl)
  unfolding zone_expiry
  zone_expiry_fine = ground arith

  pub make_zone-IsValid :
      (lat lng radius : ℕ)
      → is_empty (zone_device g body) ≡ false
      → is_within g (negative g 90) (whole g 90) lat ≡ true
      → is_within g (negative g 180) (whole g 180) lng ≡ true
      → is_within g (whole g 10) (whole g 50000) radius ≡ true
      → IsValid g c (make_zone g c r body lat lng radius)
  unfolding make_zone zone_device
  make_zone-IsValid lat lng radius d p q s = record {
    with_id = zone_id_present;
    id_clean = zone_id_clean;
    with_device = d;
    device_chars = (clean_device_bounds _).0;
    device_short = (clean_device_bounds _).1;
    with_name = zone_name_present;
    name_clean = zone_name_clean;
    with_channel = zone_channel_bounds.0;
    channel_chars = zone_channel_bounds.1;
    channel_short = zone_channel_bounds.2;
    lat_within = p;
    lng_within = q;
    radius_within = s;
    colored = (clean_color-is_color _).0;
    maker_short = (clean_small_text_bounds _ 80).0;
    maker_plain = (clean_small_text_bounds _ 80).1;
    expires = zone_expiry_fine;
  }
