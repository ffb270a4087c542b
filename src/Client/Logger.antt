-- ===== src/Client/Logger.antt =====
-- Logger of the client (client/src/common/logger.cpp): the server's Logger with another method. A line
-- of it is one of Server/Logger.
use cpp_socket_chat.Prelude.{ℕ, Bool, ◌&&◌, [], ◌∷◌, ◌++◌, Bytes, bytes, if◌then◌else◌}
use cpp_socket_chat.Server.Logger.{
  LogLevel, info_level, warn_level, error_level, Logger, line_of, write_line,
}

-- Logger::log
unfoldable pub log : LogLevel → Bytes → ℕ → Bytes → Logger → Logger
log level time ms msg l =
    let line = line_of level time ms msg in
    let written = write_line level line l in
    if written.use_file && written.is_open
    then record written { logfile = written.logfile ++ (line ++ 10 ∷ []) }
    else written

unfoldable pub info : Bytes → ℕ → Bytes → Logger → Logger
unfolding log
info = log info_level

unfoldable pub warn : Bytes → ℕ → Bytes → Logger → Logger
unfolding log
warn = log warn_level

unfoldable pub error : Bytes → ℕ → Bytes → Logger → Logger
unfolding log
error = log error_level

-- Logger::debug, which does nothing in a release build (NDEBUG)
unfoldable pub debug : Bool → Bytes → ℕ → Bytes → Logger → Logger
unfolding log
debug release time ms msg l =
    if release then l else log info_level time ms (bytes "[DEBUG] " ++ msg) l
