-- ===== src/Lib.antt =====
-- The WalkieTalk server: a websocket server that relays voice messages between the sessions in a
-- room, with public and private channels, limits on rates, a measure of connection quality,
-- geographic zones, and the signals of screen sharing.
--
-- Parts, and the files that model them (paths from the repository's root):
-- - Util (internal/util/sanitize.go): the cleaners of what clients send. CleanName is `clean_name`,
--   and so on: a Go name is the same name here in snake case. `RoomMember` and the like keep
--   theirs. Runes and Pieces have what they and others use of strings, Cleaners what all of them
--   promise; Redact has RedactURL.
-- - Store (internal/store/rate_store.go): the limiter of calls. Check asks Redis while its circuit
--   is closed, and else the map in memory. Store/Window and Store/Bound are about the local
--   limiter, Store/Script has the Lua script, ScriptLimit its proof, Store/Circuit is about the breaker.
-- - Json: decoded JSON values, and anyString, anyFloat, trim (internal/realtime/events.go).
-- - Realtime (internal/realtime): the hub. State has the records, Send the queues (Send, Broadcast,
--   enqueue), Secrets, Channels and Admission the channels, Join the handlers of join, leave and rename,
--   Events the others and the dispatch HandleEvent, Quality (with QualityBounds) the pings and the
--   score, Lifecycle addClient, removeClient, Close and stopScreenShareForSID. The proofs are in Invariant, LeaveRoom,
--   Leave, Prepare, Enter, Upkeep, Joined, Delivery, Relay, Listing, Removed and Expiry. Interleaving has
--   the steps of the goroutines, Threads and Keyed what they keep, Race a join that a
--   sweep overtakes, Configured the limit of a room with the settings of Config.
--   Pumps has ReadPump, WritePump (internal/realtime/client.go), Register and Run with the channels
--   between them, and handleWS; Fifo is about the queue between the hub and WritePump, Writes about
--   the choices of WritePump, Only, Order, Ordered
--   and Posted about the hub and WritePump together, Arrival
--   about a new websocket and Departed about the end of one. QualityLoop has qualityLoop. Status has
--   what the hub reports: Stats and the other getters, and handleHealth.
-- - Screen (internal/realtime/screen.go): Sdp and Clean have cleanSDP, cleanICECandidate and the
--   other cleaners, Handlers the handlers; Fine, Lines, Signals and Stale have the proofs.
-- - Config (internal/config/config.go): the readers of environment variables and Load, in
--   Config/Load; Config/Ranges is about what they give.
-- - Api (internal/api/server.go): Supabase has supabaseRequestBody and the loop of postZone, Access
--   the checks of key, token, origin and device with handleKeepAliveWebhook and handleZoneByID,
--   Zones handleZones, getZones and postZone with the readers of values in ZoneValues, Ready
--   handleReady with its cache, Public the other handlers, cors and Routes; Serve has the server as
--   a whole, with the handlers behind Routes and cors. Retry, Guards, ZoneValid, ZoneChecks,
--   ZoneReads and ReadyCache have the proofs about the handlers, Served and Origins those about the
--   whole.
-- - Ai (internal/ai/client.go): Clean has cleanAIText, cleanHistory and extractReply, Request
--   postJSONWithRetry and backoff, Chat BuildChat, CallChat and the two functions handleAIChat that
--   call them. History, Retry, Answers and Typing have the proofs.
-- - Server (cmd/server/main.go): KeepAlive has startKeepAliveLoop, Pinged what its pings meet.
--   Program is main: the hub and the server on one rate store, and the moves of their goroutines, one
--   after another. Refined shows it to be a run of Realtime/Interleaving (for the handlers alone in
--   Realtime/Runs and Realtime/Refined), Limited follows one key of the rate store through it (the calls of the hub in
--   Realtime/Spoken, those of the requests in Calls, the store in Store/Calls).
-- - Base: the shared types, maps as association lists, sets of keys, sorting. Tests: runs of the
--   definitions, and every theorem with hypotheses at concrete values.
--
-- How the parts interact: an event names a session; the handler cleans its fields with Util, asks
-- Store, changes the maps of the hub, and puts messages into the queues of clients. A session is in
-- `rooms` (sets of sessions), in `users` (its room and name), and its room has a channel, which
-- outlives the room by the empty time.
--
-- How the code is modelled:
-- - A text is the list of its code points; `len` of a string is `byte_len`, the length in UTF-8. Go
--   strings that are not UTF-8 are left out. What Unicode says of letters, digits and cases beyond
--   ASCII is a parameter.
-- - Times are nanoseconds as natural numbers, read from arguments, one for each reading of the
--   clock; random bytes likewise. A reading of random bytes may fail.
-- - A float64 is its bits, and its operations are a parameter (`Float64`): no theorem relies on laws
--   of rounding but the one about the Redis script, which names the two that it needs. Redis is taken
--   to read the clock of the callers. The conversion to an integer is one of them.
-- - A map is an association list, and a loop over a map follows the order of the list. In `evict`,
--   where the order matters, it is an argument.
-- - What os.Getenv, strconv and the answers of Supabase give are parameters.
-- - A client is known by its session; the channel `Send` of a client is a queue of at most 256
--   messages, and `go h.removeClient` appends to the list of removals that were started.
-- - In a handler, and in a move of Server/Program, the parts between two locks follow one another.
--   Realtime/Interleaving splits a join
--   where the code gives up the lock and lets other sessions join, leave, rename and be removed, and
--   the sweep and Close run, at every such point.
-- - Every loop is a recursion on a list, or on the turns that are left: of three in the requests to
--   Supabase, and of AI_RETRY_ATTEMPTS in those to the AI backend. The loop of WritePump
--   in the code has no end: `write_loop` goes by the choices of its select, `write_pump` by turns.
--
-- Not modelled: the websocket's deadlines; the Redis client, whose answers are arguments;
-- sha256, the decoding of JSON, net/url and time formats, which are parameters; logging; the JSON of
-- the responses; and of main the listening, the signals and the end of the process.

pub mod Base
pub mod Util
pub mod Store
pub mod Json
pub mod Config
pub mod Realtime
pub mod Screen
pub mod Api
pub mod Ai
pub mod Server
pub mod Tests
