-- ===== src/Server/Logger.antt =====
-- Logger of the server (server/src/logger/Logger.cpp). Nothing defines Logger::init, so `use_file` is
-- never set. The local time is an argument, as strftime formats it, with the milliseconds.
use cpp_socket_chat.Prelude.{
  ℕ, ◌+◌, ◌/◌, ◌%◌, Bool, ◌&&◌, [], ◌∷◌, ◌++◌, Bytes, bytes, if◌then◌else◌,
}

pub data LogLevel : Type 0 where
  info_level warn_level error_level : LogLevel

-- std::cout, std::cerr and the log file.
pub record Logger : Type 0 where
  pub output : Bytes
  pub errors : Bytes
  pub logfile : Bytes
  pub use_file : Bool
  pub is_open : Bool

-- std::setw(3) << std::setfill('0') << ms, for less than a thousand of them
unfoldable pub padded : ℕ → Bytes
padded ms = (b'0' + ms / 100 % 10) ∷ ((b'0' + ms / 10 % 10) ∷ ((b'0' + ms % 10) ∷ []))

unfoldable pub level_str : LogLevel → Bytes
level_str info_level = bytes "INFO "
level_str warn_level = bytes "WARN "
level_str error_level = bytes "ERROR"

-- The line of a message.
unfoldable pub line_of : LogLevel → Bytes → ℕ → Bytes → Bytes
unfolding padded level_str
line_of level time ms msg =
    bytes "["
    ++ (time
        ++ (bytes "." ++ (padded ms ++ (bytes "] [" ++ (level_str level ++ (bytes "] " ++ msg))))))

-- std::cerr << line << "\n", or the same on std::cout
unfoldable pub write_line : LogLevel → Bytes → Logger → Logger
write_line error_level line l = record l { errors = l.errors ++ (line ++ 10 ∷ []) }
write_line _ line l = record l { output = l.output ++ (line ++ 10 ∷ []) }

-- Logger::log
unfoldable pub log : LogLevel → Bytes → ℕ → Bytes → Logger → Logger
unfolding line_of write_line
log level time ms msg l =
    let line = line_of level time ms msg in
    let written = write_line level line l in
    if written.use_file && written.is_open
    then record written { logfile = written.logfile ++ (line ++ 10 ∷ []) }
    else written

-- Logger::info, warn and error
unfoldable pub info : Bytes → ℕ → Bytes → Logger → Logger
unfolding log
info = log info_level

unfoldable pub warn : Bytes → ℕ → Bytes → Logger → Logger
unfolding log
warn = log warn_level

unfoldable pub error : Bytes → ℕ → Bytes → Logger → Logger
unfolding log
error = log error_level
