-- ===== src/Main/Settings.antt =====
-- What main of src/app/linear_fcgi.cc does with the variables of the environment.
use linear_fcgi.Common.{ℕ, ◌^◌, ◌<◌, ◌≡◌, refl, ap, arith}
use linear_fcgi.Common.{List, [], ◌∷◌, ◌++◌, Option, none, some, Bool, codes, if◌then◌else◌}
use linear_fcgi.Log.{Log, log_err, set_level, enable, print}
use linear_fcgi.Log.Clock.{Local}
use linear_fcgi.Log.Records.{Message, record_of, up_to, print_all, print_all-enable}
use linear_fcgi.Main.{
  level_of, set_up, start, setup_log, Outcome, fails, serves, setting, required_message,
  started_message, main,
}
use linear_fcgi.Request.Strtol.{strtol-decimal}
use linear_fcgi.Response.Decimal.{decimal}
use linear_fcgi.Storage.{default_max_clients, default_timeout}
use mathlib.Core.List.{map}
use mathlib.Core.Option

-- A variable that is unset or a printed number that a long holds.
pub record IsNumber (text : Option (List ℕ)) (n : Option ℕ) : Type 0 where
  pub printed : text ≡ Option.map decimal n
  pub fits : Option.get_or n 0 < 2 ^ 63

setting-IsNumber :
    (default : ℕ) (text : Option (List ℕ)) (n : Option ℕ)
    → IsNumber text n
    → setting default text ≡ Option.get_or n default
unfolding setting
setting-IsNumber default text none h = rw h.printed refl
setting-IsNumber default text (some n) h = rw h.printed (ap (λ r. r.0) (strtol-decimal n h.fits))

-- The log after one message of main, when a log file is named.
abbrev pub logged : (fopen : List ℕ → Bool) (fname : List ℕ) (level : ℕ) → Message → Log → Log
logged fopen fname level m log = record {
  level = level;
  file = if fopen fname then some fname else none;
  written =
      log.written ++ (if fopen fname then map (record_of fname) (up_to level (m ∷ [])) else []);
}

print-logged :
    (fopen : List ℕ → Bool) (fname : List ℕ) (level : ℕ) (m : Message) (log : Log)
    → print m.now m.level m.text (enable fopen fname (set_level level log))
      ≡ logged fopen fname level m log
unfolding print_all
print-logged fopen fname level m log = print_all-enable fopen fname level (m ∷ []) log

setup_log-named :
    (getenv : List ℕ → Option (List ℕ)) (fopen : List ℕ → Bool) (log : Log) (fname : List ℕ)
    (level : Option ℕ)
    → getenv (codes "LINEAR_FCGI_LOG_FILE") ≡ some fname
    → IsNumber (getenv (codes "LINEAR_FCGI_LOG_LEVEL")) level
    → Option.get_or level 0 < 2 ^ 32
    → setup_log getenv fopen log ≡ (
      Option.get_or level log_err,
      enable fopen fname (set_level (Option.get_or level log_err) log),
    )
unfolding setup_log set_up level_of
setup_log-named getenv fopen log fname none file h small = rw (file, h.printed) refl
setup_log-named getenv fopen log fname (some l) file h small =
    rw (file, h.printed, strtol-decimal l h.fits)
      (ap (λ k. (k, enable fopen fname (set_level k log))) (omega arith))

-- When a log file and the configuration are named and the other variables are unset or printed
-- numbers that fit, main starts the server with exactly those numbers, 8 clients and 30 seconds by
-- default; the level is the one given, LOG_ERR by default, and unless it is 0 or the file cannot be
-- opened, one message that names the configuration and the level stands in the log file.
pub main_settings :
    (getenv : List ℕ → Option (List ℕ)) (fopen : List ℕ → Bool) (now : Option Local) (log : Log)
    (fname conf_fname : List ℕ) (level max_clients timeout : Option ℕ)
    → getenv (codes "LINEAR_FCGI_LOG_FILE") ≡ some fname
    → IsNumber (getenv (codes "LINEAR_FCGI_LOG_LEVEL")) level
    → Option.get_or level 0 < 2 ^ 32
    → getenv (codes "LINEAR_FCGI_WEBSOCKET_CONFIG_PATH") ≡ some conf_fname
    → IsNumber (getenv (codes "LINEAR_FCGI_MAX_CLIENTS")) max_clients
    → IsNumber (getenv (codes "LINEAR_FCGI_TIMEOUT")) timeout
    → main getenv fopen now log ≡ (
      logged fopen fname
          (Option.get_or level log_err)
          (record {
            now = now;
            level = log_err;
            text = started_message conf_fname (Option.get_or level log_err);
          })
          log,
      serves conf_fname
          (Option.get_or max_clients default_max_clients)
          (Option.get_or timeout default_timeout),
    )
unfolding main start
main_settings getenv fopen now log fname conf_fname level max_clients timeout file l small conf n
      t =
    let outcome : Outcome =
      serves conf_fname (Option.get_or max_clients default_max_clients)
        (Option.get_or timeout default_timeout) in
    rw
      (
        setup_log-named getenv fopen log fname level file l small,
        conf,
        setting-IsNumber default_max_clients _ max_clients n,
        setting-IsNumber default_timeout _ timeout t,
      )
      (ap (λ out. (out, outcome)) (print-logged fopen fname (Option.get_or level log_err) _ log))

-- Without a configuration main fails, whatever the other variables are; and when a log file is
-- named, the message that asks for the configuration stands in it, unless the level is 0 or the file
-- cannot be opened.
pub main_required :
    (getenv : List ℕ → Option (List ℕ)) (fopen : List ℕ → Bool) (now : Option Local) (log : Log)
    → getenv (codes "LINEAR_FCGI_WEBSOCKET_CONFIG_PATH") ≡ none
    → ((main getenv fopen now log).1 ≡ fails)
      × ((fname : List ℕ)
          → getenv (codes "LINEAR_FCGI_LOG_FILE") ≡ some fname
          → (main getenv fopen now log).0
            ≡ logged fopen fname
                (setup_log getenv fopen log).0
                (record { now = now; level = log_err; text = required_message })
                log)
unfolding main start setup_log set_up
main_required getenv fopen now log conf =
    (rw conf refl, λ fname file. rw (conf, file) (print-logged fopen fname _ _ log))
