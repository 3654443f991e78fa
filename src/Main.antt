-- ===== src/Main.antt =====
-- src/app/linear_fcgi.cc: the settings that the program takes from the environment. `getenv`
-- answers C strings, so none of them holds a NUL.
pub mod Settings
mod Tests
use linear_fcgi.Common.{ℕ, ◌%◌, ◌^◌, List, ◌++◌, Option, none, some, Bool, codes}
use linear_fcgi.Log.{Log, log_err, set_level, enable, print, long_name}
use linear_fcgi.Log.Clock.{Local}
use linear_fcgi.Request.Input.{strtol}
use linear_fcgi.Storage.{default_max_clients, default_timeout}

-- The cast to Level keeps the 32 low bits of the number.
unfoldable pub level_of : Option (List ℕ) → ℕ
level_of none = log_err
level_of (some str_level) = (strtol str_level).0 % 2 ^ 32

unfoldable pub set_up : (fname str_level : Option (List ℕ)) (fopen : List ℕ → Bool) → Log → ℕ × Log
unfolding level_of
set_up none str_level fopen log = (log_err, log)
set_up (some fname) str_level fopen log =
    let level : ℕ = level_of str_level in (level, enable fopen fname (set_level level log))

-- setup_log.
unfoldable pub setup_log :
    (getenv : List ℕ → Option (List ℕ)) (fopen : List ℕ → Bool) → Log → ℕ × Log
unfolding set_up
setup_log getenv =
    set_up (getenv (codes "LINEAR_FCGI_LOG_FILE")) (getenv (codes "LINEAR_FCGI_LOG_LEVEL"))

-- How main ends: at once with -1, or with what `run` returns for a server of these settings.
pub data Outcome : Type 0 where
  fails : Outcome
  serves : (conf_fname : List ℕ) (max_clients timeout : ℕ) → Outcome

-- The 64-bit pattern of a number of the environment.
unfoldable pub setting : (default : ℕ) → Option (List ℕ) → ℕ
setting default none = default
setting default (some text) = (strtol text).0

abbrev pub required_message : List ℕ
required_message = codes "LINEAR_FCGI_WEBSOCKET_CONFIG_PATH is required\n"

unfoldable pub started_message : (conf_fname : List ℕ) (level : ℕ) → List ℕ
started_message conf_fname level =
    codes "log file: " ++ (conf_fname ++ (codes ", level: " ++ (long_name level ++ codes "\n")))

unfoldable pub start :
    (conf_fname str_max_clients str_timeout : Option (List ℕ)) (now : Option Local)
    → ℕ × Log
    → Log × Outcome
unfolding setting
start none str_max_clients str_timeout now (level, log) =
    (print now log_err required_message log, fails)
start (some conf_fname) str_max_clients str_timeout now (level, log) = (
  print now log_err (started_message conf_fname level) log,
  serves conf_fname (setting default_max_clients str_max_clients)
      (setting default_timeout str_timeout),
)

-- main; `now` is the time of its one message.
unfoldable pub main :
    (getenv : List ℕ → Option (List ℕ)) (fopen : List ℕ → Bool) (now : Option Local)
    → Log
    → Log × Outcome
unfolding setup_log start
main getenv fopen now log =
    start (getenv (codes "LINEAR_FCGI_WEBSOCKET_CONFIG_PATH"))
      (getenv (codes "LINEAR_FCGI_MAX_CLIENTS")) (getenv (codes "LINEAR_FCGI_TIMEOUT")) now
      (setup_log getenv fopen log)
