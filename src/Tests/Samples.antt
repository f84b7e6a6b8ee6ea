-- ===== src/Tests/Samples.antt =====
-- A runtime that knows ASCII only, limits, and a hub with two sessions in one room.
use walkie_talk_server.Base.{◌+◌, ◌-◌, ◌*◌, ◌/◌, false, [], ◌∷◌, none, some, Text, lit, ltb, leb}
use walkie_talk_server.Util.Runes.{Unicode}
use walkie_talk_server.Json.{Runtime, Float64, pos, Fields, no_fields, field, string}
use walkie_talk_server.Store.{RateStore, Outside, replied}
use walkie_talk_server.Realtime.State.{Limits, Core, Net, Hub, Queue}
use walkie_talk_server.Realtime.Join.{Readings, join_commit}
use walkie_talk_server.Realtime.Interleaving.{new_core}
use walkie_talk_server.Realtime.Events.{Inputs}

abbrev pub ascii : Unicode
ascii = record { letter = λ c. false; digit = λ c. false; upper = λ c. c; lower = λ c. c }

-- Whole numbers in place of floats.
abbrev pub whole : Float64
whole = record {
  less = ltb;
  less_eq = leb;
  plus = λ a b. a + b;
  minus = λ a b. a - b;
  times = λ a b. a * b;
  over = λ a b. a / b;
  pow = λ a b. a * a;
  sqrt = λ a. a;
  max = λ a b. a + (b - a);
  round = λ a. a;
  of_ℕ = λ a. a;
  to_int = λ a. pos a;
}

abbrev pub runtime : Runtime
runtime = record { unicode = ascii; marshal = λ v. []; sha256_hex = λ s. s; float = whole }

abbrev pub limits : Limits
limits = record {
  instance_id = lit "inst";
  max_room_size = 2;
  max_name_len = 32;
  max_room_len = 40;
  max_audio_base64_chars = 1000;
  max_duration = 65;
  max_msg_rate = 4;
  msg_rate_window = 10000000000;
  max_chunk_bytes = 1000;
  max_chunk_rate = 40;
  channel_empty_ttl = 900000000000;
  max_ai_chat_rate = 8;
  max_screen_signal_rate = 50;
  max_screen_ice_chars = 16000;
}

abbrev pub store : RateStore
store = record {
  failure_threshold = 3;
  circuit_open_time = 15000000000;
  has_redis = false;
  times = [];
  redis_failures = 0;
  redis_circuit_until = none;
}

abbrev pub outside_reads : Outside
outside_reads = record {
  asked_at = 1;
  failed_at = 2;
  counted_at = 3;
  reply = replied 1;
  key_order = [];
}

abbrev pub readings : Readings
readings = record {
  now = 100;
  left_at = 101;
  shown_at = 102;
  code = some (1 ∷ 2 ∷ 3 ∷ 4 ∷ []);
  spare_code = none;
}

abbrev pub inputs : Inputs
inputs = record { readings = readings; outside = outside_reads; acknowledged_at = 7 }

abbrev pub room : Text
room = lit "LOBBY"

abbrev pub ann : Text
ann = lit "sid_a"

abbrev pub bob : Text
bob = lit "sid_b"

abbrev pub cat : Text
cat = lit "sid_c"

-- Ann is in the room.
abbrev pub one : Core
one = (join_commit limits room ann (lit "Ann") 10 new_core).0

-- Bob came second.
abbrev pub two : Core
two = (join_commit limits room bob (lit "Bob") 20 one).0

abbrev pub open_queue : Queue
open_queue = record { buffer = []; closed = false }

abbrev pub net : Net
net = record {
  clients = ann ∷ bob ∷ cat ∷ [];
  queues = (ann, open_queue) ∷ (bob, open_queue) ∷ (cat, open_queue) ∷ [];
  removals = [];
}

abbrev pub hub : Core → Hub
hub c = record { core = c; net = net; rate = store }

abbrev pub voice : Fields
voice =
    field (lit "audio") (string (lit "AAAA")) (field (lit "msg_id") (string (lit "m1")) no_fields)

abbrev pub join_lobby : Fields
join_lobby =
    field (lit "room") (string (lit "lobby")) (field (lit "name") (string (lit "Cat")) no_fields)
