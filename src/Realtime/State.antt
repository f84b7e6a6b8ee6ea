-- ===== src/Realtime/State.antt =====
-- The types of internal/realtime/types.go and the state of the hub (hub.go), with what the handlers
-- read of the configuration. Times are nanoseconds.
use walkie_talk_server.Base.{ℕ, Bool, List, [], Option, none, some, Text}
use walkie_talk_server.Base.Dict.{lookup}
use walkie_talk_server.Store.{RateStore}
use walkie_talk_server.Json.{ℤ, Value}

pub record Limits : Type 0 where
  pub instance_id : Text
  pub max_room_size : ℕ
  pub max_name_len : ℕ
  pub max_room_len : ℕ
  pub max_audio_base64_chars : ℕ
  pub max_duration : ℕ
  pub max_msg_rate : ℕ
  pub msg_rate_window : ℕ
  pub max_chunk_bytes : ℕ
  pub max_chunk_rate : ℕ
  pub channel_empty_ttl : ℕ
  pub max_ai_chat_rate : ℕ
  pub max_screen_signal_rate : ℕ
  pub max_screen_ice_chars : ℕ

pub record User : Type 0 where
  pub name : Text
  pub room : Text
  pub joined_at : ℕ

pub record RoomMember : Type 0 where
  pub sid : Text
  pub name : Text

pub record ScreenState : Type 0 where
  pub room : Text
  pub stream_id : Text
  pub sender_sid : Text
  pub sender_name : Text
  pub kind : Text
  pub title : Text
  pub has_audio : Bool
  pub started_at : ℕ

pub record QualityState : Type 0 where
  pub pending : List (Text × ℕ)
  pub rtts : List ℕ
  pub cycles : List Bool

-- The texts "", "public" and "private" of the field Visibility.
pub data Visibility : Type 0 where
  unset : Visibility
  public : Visibility
  private : Visibility

pub record ChannelState : Type 0 where
  pub name : Text
  pub visibility : Visibility
  pub is_private : Bool
  pub user_count : ℕ
  pub members : List RoomMember
  pub owner_name : Text
  pub has_pin : Bool
  pub created_at : ℕ
  pub last_active : ℕ
  pub empty_since : Option ℕ
  pub expires_at : Option ℕ
  pub ttl_remaining_seconds : ℕ
  pub owner_sid : Text
  pub invite_code : Text
  pub pin_hash : Text

pub record RoomState : Type 0 where
  pub room : Text
  pub members : List RoomMember
  pub user_count : ℕ
  pub visibility : Visibility
  pub is_private : Bool
  pub owner : Bool
  pub invite_code : Text
  pub has_pin : Bool

-- The code and the message of an "error" event.
pub data Failure : Type 0 where
  bad_json : Failure
  bad_channel : Failure
  room_full : Failure
  private_channel : Text → Failure
  msg_too_large : Failure
  rate_limited : Failure
  assistant_removed : Failure
  screen_removed : Failure
  unknown_event : Text → Failure

-- The code and the message of a "screen_share_error" event.
pub data ScreenFailure : Type 0 where
  signaling_too_fast : ScreenFailure
  not_in_room : ScreenFailure
  screen_busy : ScreenState → ScreenFailure
  not_owner : ScreenFailure
  no_screen : ScreenFailure
  bad_offer : ScreenFailure
  bad_answer : ScreenFailure
  viewer_not_found : ScreenFailure
  sharer_not_found : ScreenFailure

-- An ICE candidate as it is passed on: a text, or the fields candidate, sdpMid, sdpMLineIndex and
-- usernameFragment, of which the last three may be left out.
pub data Candidate : Type 0 where
  candidate_text : Text → Candidate
  candidate_fields : Text → Option Text → Option ℤ → Option Text → Candidate

-- An envelope: the event and its data, a constructor for each event.
pub data Message : Type 0 where
  connected : Text → Text → Message
  failure : Failure → Message
  peer_left : Text → Text → Message
  peer_joined : Text → Text → Message
  peer_name_updated : Text → Text → Message
  room_state : RoomState → Message
  channels_state : List ChannelState → ℕ → Message
  channels_expired : List Text → Message
  -- audio, mime, duration, msg_id, sender_sid, sender_name
  voice_message : Text → Text → ℕ → Text → Text → Text → Message
  -- audio, mime, stream_id, seq, sender_sid, sender_name
  voice_chunk : Text → Text → Text → ℤ → Text → Text → Message
  -- stream_id, sender_sid, sender_name
  voice_stream_end : Text → Text → Text → Message
  -- event, msg_id, from, from_name, target_sid, time
  acknowledged : Text → Text → Text → Text → Text → ℕ → Message
  quality_ping : Text → Message
  -- score, latency, drop percentage, jitter
  quality_update : ℕ → ℕ → ℕ → ℕ → Message
  -- room, stream_id, sender_sid, reason
  screen_share_stopped : Text → Text → Text → Text → Message
  screen_share_state : Option ScreenState → Message
  screen_share_started : ScreenState → Message
  screen_share_error : ScreenFailure → Message
  -- viewer_sid, viewer_name, stream_id
  screen_viewer_ready : Text → Text → Text → Message
  -- sender_sid, sender_name, sdp, type, stream_id
  screen_offer : Text → Text → Text → Text → Text → Message
  screen_answer : Text → Text → Text → Text → Text → Message
  -- sender_sid, sender_name, candidate, stream_id
  screen_ice_candidate : Text → Text → Candidate → Text → Message
  -- msg_id, on
  ai_chat_typing : Text → Bool → Message
  -- msg_id, error
  ai_chat_error : Text → Text → Message
  -- msg_id, text
  ai_chat_response : Text → Text → Message
  -- the zone as a map, and the id and the device of one that is deleted
  zone_updated : List (Text × Value) → Message
  zone_deleted : Text → Text → Message

-- The channel `Send` of a client.
pub record Queue : Type 0 where
  pub buffer : List Message
  pub closed : Bool

-- A goroutine that was started: `go h.removeClient(sid, reason)`.
pub record Removal : Type 0 where
  pub sid : Text
  pub reason : Text

-- What the handlers share under the lock.
pub record Core : Type 0 where
  pub closed : Bool
  pub users : List (Text × User)
  pub rooms : List (Text × List Text)
  pub channels : List (Text × ChannelState)
  pub screens : List (Text × ScreenState)
  pub quality : List (Text × QualityState)

-- The registered clients, the queues of all clients ever made, by session, and what was started.
pub record Net : Type 0 where
  pub clients : List Text
  pub queues : List (Text × Queue)
  pub removals : List Removal

pub record Hub : Type 0 where
  pub core : Core
  pub net : Net
  pub rate : RateStore

-- len(h.rooms[room]) and the loops over h.rooms[room] read this: nobody if there is no room.
unfoldable pub members_of : Text → List (Text × List Text) → List Text
members_of room rooms = elim (lookup room rooms) [ none ↦ [] | some sids ↦ sids ]
