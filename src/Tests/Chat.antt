-- ===== src/Tests/Chat.antt =====
-- internal/ai/client.go and cmd/server/main.go
use walkie_talk_server.Util.Runes.{trim_space}
use walkie_talk_server.Ai.Clean.{Library, clean_ai_text, extract_reply}
use walkie_talk_server.Ai.Request.{
  try_posts, Attempt, failed, replied, Reply, reply, post_json_with_retry,
}
use walkie_talk_server.Ai.Chat.{ChatRequest, chat_text, chat_request, build_chat, answered, refused}
use walkie_talk_server.Ai.Retry
use walkie_talk_server.Ai.Retry.{Result}
use walkie_talk_server.Ai.Answers
use walkie_talk_server.Config.Load.{Config, load}
use walkie_talk_server.Json.{
  Value, string, array, object, Fields, field, no_fields, no_elements, element,
}
use walkie_talk_server.Tests.Samples.{ascii}
use walkie_talk_server.Tests.Settings.{lists}
use walkie_talk_server.Base.{
  ℕ, ◌≡◌, refl, true, false, [], none, Text, lit, arith, ◌==◌, if◌then◌else◌, is_empty,
}

abbrev library : Library
library = record {
  unicode = ascii;
  sprint = λ v. [];
  decode = λ s. none;
  http_error = λ code s. lit "HTTP";
}

-- The backend is busy, then refuses the connection, then answers.
abbrev backend : ℕ → Attempt
backend attempt =
    if attempt == 1
    then replied 503 []
    else if attempt == 2
    then failed (lit "refused")
    else replied 200 (lit "hello")

post_json_with_retry_run :
    (post_json_with_retry library 3 450000000 backend).0 ≡ reply (lit "hello")
unfolding post_json_with_retry try_posts extract_reply clean_ai_text
post_json_with_retry_run = refl

post_json_with_retry-verdict_example :
    Result library 3 450000000 backend 2 1 (post_json_with_retry library 3 450000000 backend)
post_json_with_retry-verdict_example =
    Retry.post_json_with_retry-verdict library 3 450000000 backend (omega arith)

abbrev message : Text → Value
message role =
    object (field (lit "role") (string role) (field (lit "text") (string (lit "hi")) no_fields))

abbrev history : Value
history = array (
    element (message (lit "user"))
      (element (message (lit "system")) (element (message (lit "ASSISTANT")) no_elements)))

abbrev config : Config
config = load lists (lit "abc")

abbrev endpoint : Text → ChatRequest → Reply
endpoint url q = reply (lit "hello")

abbrev asked : Fields
asked = field (lit "message") (string (lit "hi")) no_fields

build_chat-answered_example :
    (is_empty (chat_text config library asked) ≡ true
      → build_chat config endpoint library asked ≡ refused (lit "Message is empty"))
    × ((s : Text)
        → build_chat config endpoint library asked ≡ answered s
        → (is_empty (chat_text config library asked) ≡ false)
          × (is_empty (trim_space s) ≡ false)
          × (is_empty config.ai_chat_url ≡ false
              → endpoint config.ai_chat_url (chat_request config library asked) ≡ reply s))
build_chat-answered_example = Answers.build_chat-answered config endpoint library asked
