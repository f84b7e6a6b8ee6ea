-- ===== src/Server/KeepAlive.antt =====
-- startKeepAliveLoop of cmd/server/main.go.
use walkie_talk_server.Base.{
  not, ◌&&◌, ◌||◌, List, [], ◌∷◌, ◌++◌, Text, lit, if◌then◌else◌, is_empty,
}
use walkie_talk_server.Base.KeySet.{same}
use walkie_talk_server.Config.{trim_slashes}
use walkie_talk_server.Config.Load.{Config}
use walkie_talk_server.Api.Access.{Request}

-- What net/url makes of an address: its path, and the first value of a key of its query.
pub record Address : Type 0 where
  pub path_of : Text → Text
  pub query_of : Text → Text → Text

unfoldable pub target : Config → Text
target c = trim_slashes c.keep_alive_url ++ c.keep_alive_path

-- The headers that a ping sets.
unfoldable pub ping_header : Config → Text → Text → Text
ping_header c reason name =
    if same name (lit "User-Agent")
    then lit "walkietalk-go-keepalive/1.0"
    else if same name (lit "X-Keepalive-Source")
    then reason
    else if same name (lit "X-Keep-Alive-Token") && not (is_empty c.keep_alive_token)
    then c.keep_alive_token
    else []

-- A ping as the server sees it that it comes to; `caller` is the address that it comes from.
unfoldable pub ping : Address → Config → Text → Text → Request
ping w c caller reason = record {
  method = lit "GET";
  path = w.path_of (target c);
  header = ping_header c reason;
  query = w.query_of (target c);
  remote_addr = caller;
}

-- What the selects of the loop choose.
pub data Wake : Type 0 where
  done : Wake
  timer : Wake

-- The loop on the ticker: the reasons of the pings that are sent.
unfoldable pub on_ticks : List Wake → List Text
on_ticks [] = []
on_ticks (done ∷ ws) = []
on_ticks (timer ∷ ws) = lit "interval" ∷ on_ticks ws

unfoldable pub start_keep_alive_loop : Config → List Wake → List Text
unfolding on_ticks
start_keep_alive_loop c [] = []
start_keep_alive_loop c (done ∷ ws) = []
start_keep_alive_loop c (timer ∷ ws) =
    if not c.keep_alive_enabled || is_empty c.keep_alive_url
    then []
    else lit "startup" ∷ on_ticks ws
