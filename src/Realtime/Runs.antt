-- ===== src/Realtime/Runs.antt =====
-- Runs of the interleavings in Realtime/Interleaving between two states of the maps of the hub, with
-- no session on its way.
use walkie_talk_server.Json.{Runtime}
use walkie_talk_server.Realtime.State.{Limits, ScreenState, QualityState, Core}
use walkie_talk_server.Realtime.Interleaving.{
  Phase, outside, World, set_phase, Step, Reach, start, next, side,
}
use walkie_talk_server.Base.{◌≡◌, subst, List, Text, arith}

module _ (l : Limits) (g : Runtime) where
  abbrev world : Core → (Text → Phase) → World
  world c p = record { core = c; phase = p }

  abbrev pub Idle : (Text → Phase) → Type 0
  Idle p = (s : Text) → p s ≡ outside

  -- From the one state the interleavings reach the other, with no session on its way.
  abbrev pub Runs : Core → Core → Type 0
  Runs c c' =
      (p : Text → Phase)
      → Idle p
      → (p' : Text → Phase) × Reach l g (world c p) (world c' p') × Idle p'

  Reach-trans : {u v w : World} → Reach l g u v → Reach l g v w → Reach l g u w
  Reach-trans a start = a
  Reach-trans a (next b st) = next (Reach-trans a b) st

  pub Runs-refl : (c : Core) → Runs c c
  Runs-refl c p i = (p, start, i)

  pub Runs-eq : (c c' c'' : Core) → c' ≡ c'' → Runs c c' → Runs c c''
  Runs-eq c c' c'' e r = subst (λ d. Runs c d) e r

  pub Runs-trans : (c c' c'' : Core) → Runs c c' → Runs c' c'' → Runs c c''
  Runs-trans c c' c'' a b p i =
      let (p', x, j) = a p i in let (q, y, k) = b p' j in (q, Reach-trans x y, k)

  pub one_step :
      (c c' : Core) → ((p : Text → Phase) → Idle p → Step l g (world c p) (world c' p)) → Runs c c'
  one_step c c' st p i = (p, next start (st p i), i)

  pub set_phase_self : (sid : Text) (a : Phase) (p : Text → Phase) → set_phase sid a p sid ≡ a
  unfolding set_phase
  set_phase_self sid a p = ground arith

  pub Idle-set :
      (sid : Text) (a b : Phase) (p : Text → Phase)
      → Idle p
      → Idle (set_phase sid outside (set_phase sid b (set_phase sid a p)))
  unfolding set_phase
  Idle-set sid a b p i s = ground (arith, i s)

  pub side-Runs :
      (c : Core) (screens : List (Text × ScreenState)) (quality : List (Text × QualityState))
      → Runs c (record c { screens = screens; quality = quality })
  side-Runs c screens quality = one_step c _ (λ p i. side screens quality)

  -- Only screens and quality differ.
  abbrev pub SameRooms : Core → Core → Type 0
  SameRooms c c' =
      (c'.closed ≡ c.closed)
      × (c'.users ≡ c.users)
      × (c'.rooms ≡ c.rooms)
      × (c'.channels ≡ c.channels)

  pub aside-Runs : (c c' : Core) → SameRooms c c' → Runs c c'
  aside-Runs c c' e =
      Runs-eq c (record c { screens = c'.screens; quality = c'.quality }) c' (ground arith)
        (side-Runs c c'.screens c'.quality)
