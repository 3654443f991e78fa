-- ===== src/Main/Tests.antt =====
-- The theorems on src/app/linear_fcgi.cc at an environment.
use linear_fcgi.Common.{ℕ, ◌≡◌, refl, arith}
use linear_fcgi.Common.{Bool, true, List, Option, none, some, codes, bytes_eq, if◌then◌else◌}
use linear_fcgi.Log.{initial, log_err}
use linear_fcgi.Main.{serves, started_message, main}
use linear_fcgi.Main.Settings.{logged, main_settings}
use linear_fcgi.Response.Decimal.{decimal}
use linear_fcgi.Storage.{default_max_clients, default_timeout}

abbrev environment : List ℕ → Option (List ℕ)
environment key =
    if bytes_eq key (codes "LINEAR_FCGI_LOG_FILE")
    then some (codes "app.log")
    else if bytes_eq key (codes "LINEAR_FCGI_LOG_LEVEL")
    then some (decimal 3)
    else if bytes_eq key (codes "LINEAR_FCGI_WEBSOCKET_CONFIG_PATH")
    then some (codes "ws.conf")
    else if bytes_eq key (codes "LINEAR_FCGI_TIMEOUT")
    then some (decimal 90)
    else none

abbrev opens : List ℕ → Bool
opens name = true

has_file : environment (codes "LINEAR_FCGI_LOG_FILE") ≡ some (codes "app.log")
unfolding bytes_eq
has_file = refl

has_conf : environment (codes "LINEAR_FCGI_WEBSOCKET_CONFIG_PATH") ≡ some (codes "ws.conf")
unfolding bytes_eq
has_conf = refl

has_level : environment (codes "LINEAR_FCGI_LOG_LEVEL") ≡ some (decimal 3)
unfolding bytes_eq
has_level = refl

has_timeout : environment (codes "LINEAR_FCGI_TIMEOUT") ≡ some (decimal 90)
unfolding bytes_eq
has_timeout = refl

no_clients : environment (codes "LINEAR_FCGI_MAX_CLIENTS") ≡ none
unfolding bytes_eq
no_clients = refl

main_settings_example : main environment opens none initial ≡ (
  logged opens
      (codes "app.log")
      3
      (record { now = none; level = log_err; text = started_message (codes "ws.conf") 3 })
      initial,
  serves (codes "ws.conf") 8 90,
)
unfolding started_message default_max_clients default_timeout
main_settings_example =
    main_settings environment opens none initial (codes "app.log") (codes "ws.conf") (some 3) none
      (some 90) has_file (record { printed = has_level; fits = omega arith }) (omega arith) has_conf
      (record { printed = no_clients; fits = omega arith })
      (record { printed = has_timeout; fits = omega arith })
