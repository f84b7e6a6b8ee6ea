-- ===== src/Util/Trim.antt =====
-- strings.TrimSpace, applied twice.
use walkie_talk_server.Base.{◌≡◌, refl, [], ◌∷◌, Text, arith, ap, ◌∙◌}
use walkie_talk_server.Util.Runes.{trim_left, trim_right, trim_space}

trim_right_idem : (s : Text) → trim_right (trim_right s) ≡ trim_right s
unfolding trim_right
trim_right_idem [] = refl
trim_right_idem (c ∷ s) = ground (arith, trim_right_idem s)

trim_left_right : (s : Text) → trim_left (trim_right (trim_left s)) ≡ trim_right (trim_left s)
unfolding trim_left trim_right
trim_left_right [] = refl
trim_left_right (c ∷ s) = ground (arith, trim_left_right s)

pub trim_space_idem : (s : Text) → trim_space (trim_space s) ≡ trim_space s
unfolding trim_space
trim_space_idem s = ap trim_right (trim_left_right s) ∙ trim_right_idem (trim_left s)
