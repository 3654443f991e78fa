-- ===== src/Log.antt =====
-- src/linear_fcgi_log.h and src/linear_fcgi_log.cc: the log. A level is a 32-bit number, as
-- its enumeration has no negative value. The records that were written stand with the file they went to.
pub mod Clock
pub mod Records
mod Tests
use linear_fcgi.Common.{
  ℕ, ◌-◌, Bool, true, false, List, [], ◌∷◌, ◌++◌, Option, none, some, codes, ltb, take, c_str,
}
use linear_fcgi.Common.{if◌then◌else◌, ◌==◌}
use linear_fcgi.Log.Clock.{Local, date_time}

abbrev pub log_off : ℕ
log_off = 0

abbrev pub log_err : ℕ
log_err = 1

-- The string of a level in the table of the levels, and the empty string for another number.
unfoldable pub long_name : ℕ → List ℕ
long_name level =
    if level == 1
    then codes "ERROR"
    else if level == 2
    then codes "WARNING"
    else if level == 3
    then codes "INFO"
    else if level == 4
    then codes "DEBUG"
    else []

unfoldable pub short_name : ℕ → List ℕ
short_name level =
    if level == 1
    then codes "ERR"
    else if level == 2
    then codes "WRN"
    else if level == 3
    then codes "INF"
    else if level == 4
    then codes "DBG"
    else []

pub record Written : Type 0 where
  pub file : List ℕ
  pub text : List ℕ

-- `level` is g_level, `file` the name that fp_ is open for; both are zero when the program starts.
pub record Log : Type 0 where
  pub level : ℕ
  pub file : Option (List ℕ)
  pub written : List Written

unfoldable pub initial : Log
initial = record { level = log_off; file = none; written = [] }

unfoldable pub set_level : ℕ → Log → Log
set_level level log = record log { level = level }

-- Log::Enable; `fopen` says whether the file can be opened.
unfoldable pub enable : (fopen : List ℕ → Bool) → List ℕ → Log → Log
enable fopen fname log = record log { file = if fopen fname then some fname else none }

-- Log::Disable.
unfoldable pub disable : Log → Log
disable log = record log { file = none }

unfoldable pub line : Option Local → (level : ℕ) → (message : List ℕ) → List ℕ
unfolding date_time short_name
line now level message =
    date_time now ++ (codes ": " ++ (codes "[" ++ (short_name level ++ (codes "] " ++ message))))

-- Log::Write; `now` is the local time, if it can be found.
unfoldable pub write : Option Local → (level : ℕ) → (message : List ℕ) → Log → Log
unfolding line
write now level message log = elim log.file [
  | none ↦ log
  | some fname ↦ record log {
    written = log.written ++ (record { file = fname; text = line now level message } ∷ []);
  }
]

abbrev pub buffer_size : ℕ
buffer_size = 16384

-- log::Print; `message` is what the format and its arguments make, and vsnprintf cuts it.
unfoldable pub print : Option Local → (level : ℕ) → (message : List ℕ) → Log → Log
unfolding write
print now level message log =
    if ltb log.level level
    then log
    else write now level (take (buffer_size - 1) (c_str message)) log
