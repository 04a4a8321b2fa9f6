-- ===== src/Logging/Lines/Tests.antt =====
-- A line at WARN, and one at FATAL.
use starry.Common.{◌<◌, ◌≡◌, ◌⊎◌, refl, false, [], ◌∷◌, ok}
use starry.Logging.{append_stream, avail}
use starry.Logging.Lines.{
  Place, Sink, log, info, warn, fatal_level, level_number, after_slash, has_slash, level_to_string,
}
use starry.Logging.Lines.Texts.{Passes, Written, line, log-Written}

abbrev somewhere : Place
somewhere = record {
  time = [];
  thread_id = 49 ∷ [];
  file_name = b'a' ∷ b'/' ∷ b'b' ∷ [];
  line = 55 ∷ [];
}

abbrev empty_sink : Sink
empty_sink = record { written = []; flushed = false }

-- `[1] WARN x - b:7` and a line feed.
warn_line :
    (log info warn 0 [] [] somewhere ((b'x' ∷ []) ∷ []) empty_sink).0.written
    ≡ (b'[' ∷ 49 ∷ b']' ∷ b' ' ∷ b'W' ∷ b'A' ∷ b'R' ∷ b'N' ∷ b' ' ∷ b'x' ∷ b' ' ∷ b'-' ∷ b' ' ∷ b'b'
        ∷ b':' ∷ 55 ∷ 10 ∷ [])
      ∷ []
unfolding log append_stream avail after_slash has_slash level_to_string
warn_line = refl

log-Written_example :
    (Passes warn fatal_level
      × Written fatal_level
          (line fatal_level 0 [] [] somewhere ((b'x' ∷ []) ∷ []))
          empty_sink
          (log warn fatal_level 0 [] [] somewhere ((b'x' ∷ []) ∷ []) empty_sink))
    ⊎ ((level_number fatal_level < level_number warn)
        × (level_number fatal_level < 3)
        × (log warn fatal_level 0 [] [] somewhere ((b'x' ∷ []) ∷ []) empty_sink
            ≡ (empty_sink, ok tt)))
log-Written_example = log-Written warn fatal_level 0 [] [] somewhere ((b'x' ∷ []) ∷ []) empty_sink
