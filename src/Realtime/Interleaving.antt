-- ===== src/Realtime/Interleaving.antt =====
-- The hub under all interleavings of its goroutines (internal/realtime). A step is one section under
-- the lock `h.mu`; a join is three of them, and the steps of other sessions may come in between. The
-- events of one session come one after the other, from its read pump, while the removal of its
-- client, the sweep and Close may come at any time.
use walkie_talk_server.Json.{Runtime, Fields}
use walkie_talk_server.Realtime.State.{Limits, ScreenState, QualityState, Core}
use walkie_talk_server.Realtime.Secrets.{Random}
use walkie_talk_server.Realtime.Channels.{sweep}
use walkie_talk_server.Realtime.Join.{leave_no_broadcast, join_check, join_commit, rename, go_on}
use walkie_talk_server.Base.{ℕ, ◌≡◌, true, false, List, [], Text, text_dec, ite, is_empty}

-- Where a session stands in handleJoin: before it, behind the check, or behind the leave.
pub data Phase : Type 0 where
  outside : Phase
  checked : Text → Text → ℕ → Phase
  departed : Text → Text → ℕ → Phase

pub record World : Type 0 where
  pub core : Core
  pub phase : Text → Phase

unfoldable pub set_phase : Text → Phase → (Text → Phase) → Text → Phase
set_phase sid p f s = ite (text_dec sid s) p (f s)

-- The maps that NewHub makes.
unfoldable pub new_core : Core
new_core = record {
  closed = false;
  users = [];
  rooms = [];
  channels = [];
  screens = [];
  quality = [];
}

abbrev pub start_world : World
start_world = record { core = new_core; phase = λ s. outside }

-- Close under the lock.
unfoldable pub closed_core : Core → Core
closed_core c = record {
  closed = true;
  users = [];
  rooms = [];
  channels = [];
  screens = [];
  quality = [];
}

pub data Step (l : Limits) (g : Runtime) (w : World) : World → Type 0 where
  -- handleJoin up to the first unlock, which goes on
  check_join :
      (sid room name : Text) (fs : Fields) (r r' : Random) (now : ℕ)
      → is_empty sid ≡ false
      → is_empty room ≡ false
      → w.phase sid ≡ outside
      → (join_check l g r r' room sid name fs now w.core).1 ≡ go_on
      → Step l g w (record {
        core = (join_check l g r r' room sid name fs now w.core).0;
        phase = set_phase sid (checked room name now) w.phase;
      })
  -- the same, which is refused
  refuse_join :
      (sid room name : Text) (fs : Fields) (r r' : Random) (now : ℕ)
      → is_empty sid ≡ false
      → w.phase sid ≡ outside
      → Step l g w (record w { core = (join_check l g r r' room sid name fs now w.core).0 })
  -- leaveNoBroadcast in handleJoin
  depart :
      (sid room name : Text) (t now : ℕ)
      → w.phase sid ≡ checked room name t
      → Step l g w (record {
        core = leave_no_broadcast l.channel_empty_ttl sid now w.core;
        phase = set_phase sid (departed room name t) w.phase;
      })
  -- the last section of handleJoin
  arrive :
      (sid room name : Text) (t : ℕ)
      → w.phase sid ≡ departed room name t
      → Step l g w (record {
        core = (join_commit l room sid name t w.core).0;
        phase = set_phase sid outside w.phase;
      })
  -- leaveNoBroadcast in handleLeave, and in removeClient on another goroutine
  leave :
      (sid : Text) (now : ℕ)
      → Step l g w (record w { core = leave_no_broadcast l.channel_empty_ttl sid now w.core })
  -- handleUpdateName
  update_name : (sid name : Text) → Step l g w (record w { core = rename sid name w.core })
  -- CleanupExpiredChannels
  cleanup :
      (now : ℕ)
      → Step l g w (record w { core = (sweep l.channel_empty_ttl now w.core.channels w.core).0 })
  -- Close
  close : Step l g w (record w { core = closed_core w.core })
  -- screens and quality, which the other sections do not read
  side :
      (screens : List (Text × ScreenState)) (quality : List (Text × QualityState))
      → Step l g w (record w { core = record w.core { screens = screens; quality = quality } })

pub data Reach (l : Limits) (g : Runtime) (w : World) : World → Type 0 where
  start : Reach l g w w
  next : {u v : World} → Reach l g w u → Step l g u v → Reach l g w v
