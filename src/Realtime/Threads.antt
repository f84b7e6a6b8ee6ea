-- ===== src/Realtime/Threads.antt =====
-- What holds under all interleavings of the goroutines of the hub (internal/realtime).
use walkie_talk_server.Json.{Runtime, Fields}
use walkie_talk_server.Realtime.State.{Limits, User, Core, members_of}
use walkie_talk_server.Realtime.Secrets.{Random}
use walkie_talk_server.Realtime.Admission.{prepare_channel_join}
use walkie_talk_server.Realtime.Join.{join_check}
use walkie_talk_server.Realtime.Invariant.{Inv, in_room, is_active, is_sound}
use walkie_talk_server.Realtime.Leave.{leave-Inv, leave-gone, leave-none}
use walkie_talk_server.Realtime.Prepare.{prepare-Inv, prepare-frame}
use walkie_talk_server.Realtime.Enter.{join_commit-Inv, join_commit-none}
use walkie_talk_server.Realtime.Upkeep.{sweep-Inv, rename-Inv}
use walkie_talk_server.Base.{
  ℕ, ◌≤◌, ◌≡◌, ◌≢◌, refl, true, false, Option, none, Text, text_dec, if_pos, if_neg, arith,
  is_empty, length,
}
use walkie_talk_server.Base.Dict.{lookup}
use walkie_talk_server.Base.KeySet.{has, is_nil, Distinct}
use walkie_talk_server.Realtime.Interleaving.{
  Phase, outside, checked, departed, World, set_phase, new_core, start_world, closed_core, Step,
  Reach, start, next, check_join, refuse_join, depart, arrive, leave, update_name, cleanup, close,
  side,
}

-- A session that is behind the leave has no user, and the room that it goes to has a name.
abbrev InPhase : Phase → Option User → Type 0
InPhase outside u = Unit {0}
InPhase (checked room name t) u = is_empty room ≡ false
InPhase (departed room name t) u = (is_empty room ≡ false) × (u ≡ none)

pub record IsSafe (max : ℕ) (w : World) : Type 0 where
  pub inv : Inv max w.core
  pub phases : (s : Text) → InPhase (w.phase s) (lookup s w.core.users)

-- What keeps the users away keeps the phases.
InPhase-mono :
    (p : Phase) (u u' : Option User) → (u ≡ none → u' ≡ none) → InPhase p u → InPhase p u'
InPhase-mono outside u u' h i = tt
InPhase-mono (checked room name t) u u' h i = i
InPhase-mono (departed room name t) u u' h i = (i.0, h i.1)

InPhase-set :
    (sid s : Text) (p : Phase) (f : Text → Phase) (u : Option User)
    → (sid ≡ s → InPhase p u)
    → (sid ≢ s → InPhase (f s) u)
    → InPhase (set_phase sid p f s) u
unfolding set_phase
InPhase-set sid s p f u hit miss = elim (text_dec sid s) [
  | yes e ↦ rw (if_pos _ e) (hit e)
  | no e ↦ rw (if_neg _ e) (miss e)
]

closed-Inv : (max : ℕ) (c : Core) → Inv max (closed_core c)
unfolding closed_core lookup members_of has
closed-Inv max c = record {
  sized = λ r. omega arith;
  distinct = λ r. tt;
  agree = λ s r. refl;
  unnamed = λ s. refl;
  filled = λ r. refl;
  active = λ r h. absurd (ground arith);
  sound = λ r. refl;
}

module _ (l : Limits) (g : Runtime) (m : 1 ≤ l.max_room_size) where
  join_check-core :
      (room sid name : Text) (fs : Fields) (r r' : Random) (now : ℕ) (c : Core)
      → (join_check l g r r' room sid name fs now c).0
        ≡ (prepare_channel_join g r r' room sid name fs now c).0
  unfolding join_check
  join_check-core room sid name fs r r' now c = refl

  checked-Inv :
      (room sid name : Text) (fs : Fields) (r r' : Random) (now : ℕ) (c : Core)
      → is_empty sid ≡ false
      → Inv l.max_room_size c
      → Inv l.max_room_size (join_check l g r r' room sid name fs now c).0
        × ((join_check l g r r' room sid name fs now c).0.users ≡ c.users)
  checked-Inv room sid name fs r r' now c n v = rw (join_check-core room sid name fs r r' now c) (
    prepare-Inv g r r' sid name fs room now c n v,
    (prepare-frame g r r' sid name fs room now c).1,
  )

  at_phase :
      (w : World) (s : Text) (p : Phase)
      → IsSafe l.max_room_size w
      → w.phase s ≡ p
      → InPhase p (lookup s w.core.users)
  at_phase w s p h e = rw e at (h.phases s)

  -- Each step keeps the state safe.
  Step-IsSafe :
      {w w' : World} → Step l g w w' → IsSafe l.max_room_size w → IsSafe l.max_room_size w'
  unfolding lookup closed_core
  Step-IsSafe {w} (check_join sid room name fs r r' now n k out go) h =
      let i = checked-Inv room sid name fs r r' now w.core n h.inv in
      record {
        inv = i.0;
        phases = λ s.
            InPhase-set sid s (checked room name now) w.phase _ (λ e. k) (λ e. rw i.1 (h.phases s));
      }
  Step-IsSafe {w} (refuse_join sid room name fs r r' now n out) h =
      let i = checked-Inv room sid name fs r r' now w.core n h.inv in
      record { inv = i.0; phases = λ s. rw i.1 (h.phases s) }
  Step-IsSafe {w} (depart sid room name t now at_check) h = record {
    inv = leave-Inv l.channel_empty_ttl sid now w.core l.max_room_size h.inv;
    phases = λ s.
        InPhase-set sid s (departed room name t) w.phase _
          (λ e. (
            at_phase w sid (checked room name t) h at_check,
            rw (← e) (leave-gone l.channel_empty_ttl sid now w.core l.max_room_size h.inv),
          ))
          (λ e.
            InPhase-mono (w.phase s) _ _
              (leave-none l.channel_empty_ttl sid now w.core l.max_room_size h.inv s) (h.phases s));
  }
  Step-IsSafe {w} (arrive sid room name t at_door) h =
      let p = at_phase w sid (departed room name t) h at_door in
      record {
        inv = join_commit-Inv l room sid name t w.core h.inv m p.0 p.1;
        phases = λ s.
            InPhase-set sid s outside w.phase _ (λ e. tt)
              (λ e.
                InPhase-mono (w.phase s) _ _
                  (join_commit-none l room sid name t w.core h.inv m p.0 p.1 s e) (h.phases s));
      }
  Step-IsSafe {w} (leave sid now) h = record {
    inv = leave-Inv l.channel_empty_ttl sid now w.core l.max_room_size h.inv;
    phases = λ s.
        InPhase-mono (w.phase s) _ _
          (leave-none l.channel_empty_ttl sid now w.core l.max_room_size h.inv s) (h.phases s);
  }
  Step-IsSafe {w} (update_name sid name) h =
      let i = rename-Inv l.max_room_size sid name w.core h.inv in
      record { inv = i.0; phases = λ s. InPhase-mono (w.phase s) _ _ (i.1 s) (h.phases s) }
  Step-IsSafe {w} (cleanup now) h =
      let i = sweep-Inv l.max_room_size l.channel_empty_ttl now w.core.channels w.core h.inv in
      record { inv = i.0; phases = λ s. rw i.1 (h.phases s) }
  Step-IsSafe {w} close h = record {
    inv = closed-Inv l.max_room_size w.core;
    phases = λ s. InPhase-mono (w.phase s) _ _ (λ _. refl) (h.phases s);
  }
  Step-IsSafe {w} (side screens quality) h = record {
    inv = record {
      sized = h.inv.sized;
      distinct = h.inv.distinct;
      agree = h.inv.agree;
      unnamed = h.inv.unnamed;
      filled = h.inv.filled;
      active = h.inv.active;
      sound = h.inv.sound;
    };
    phases = h.phases;
  }

  pub Reach-IsSafe :
      {w w' : World} → IsSafe l.max_room_size w → Reach l g w w' → IsSafe l.max_room_size w'
  Reach-IsSafe h start = h
  Reach-IsSafe h (next r st) = Step-IsSafe st (Reach-IsSafe h r)

  pub start-IsSafe : IsSafe l.max_room_size start_world
  unfolding new_core lookup members_of has
  start-IsSafe = record {
    inv = record {
      sized = λ r. omega arith;
      distinct = λ r. tt;
      agree = λ s r. refl;
      unnamed = λ s. refl;
      filled = λ r. refl;
      active = λ r h. absurd (ground arith);
      sound = λ r. refl;
    };
    phases = λ s. tt;
  }

  -- From the new hub, no interleaving of the goroutines puts more sessions into a room than the
  -- limit, lists a session twice, or makes the rooms and the users disagree; a session is in one
  -- room at most. The limit is not 0.
  pub rooms_agree :
      (w : World)
      → Reach l g start_world w
      → (s r q : Text)
      → (length (members_of r w.core.rooms) ≤ l.max_room_size)
        × Distinct (members_of r w.core.rooms)
        × (has s (members_of r w.core.rooms) ≡ in_room s r w.core.users)
        × (has s (members_of r w.core.rooms) ≡ true
            → has s (members_of q w.core.rooms) ≡ true
            → r ≡ q)
  rooms_agree w h s r q =
      let v = (Reach-IsSafe start-IsSafe h).inv in
      (v.sized r, v.distinct r, v.agree s r, λ a b. ground (arith, v.agree s r, v.agree s q))

  -- In every state that is reachable from the new hub, a room with members has a channel that is not
  -- marked as empty, so that the sweep does not take it; a channel has the private flag exactly if
  -- its visibility is private, and then it has an owner. The limit is not 0.
  pub channels_kept :
      (w : World)
      → Reach l g start_world w
      → (r : Text)
      → (is_nil (members_of r w.core.rooms) ≡ false → is_active (lookup r w.core.channels) ≡ true)
        × (is_sound (lookup r w.core.channels) ≡ true)
  channels_kept w h r = let v = (Reach-IsSafe start-IsSafe h).inv in (v.active r, v.sound r)
