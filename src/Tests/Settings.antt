-- ===== src/Tests/Settings.antt =====
-- Settings for internal/config/config.go.
use walkie_talk_server.Config.{Sources}
use walkie_talk_server.Tests.Samples.{ascii, whole}
use walkie_talk_server.Base.{none, lit}

-- Every variable holds a list, which is no number.
abbrev pub lists : Sources
lists = record {
  getenv = λ key. lit " https://a, ,https://b ";
  atoi = λ s. none;
  parse_float = λ s. none;
  unicode = ascii;
  float = whole;
}
