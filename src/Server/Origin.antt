-- ===== src/Server/Origin.antt =====
-- src/linear_fcgi_server.cc: Server::getBackend and Server::isAllowOrigin over the parsed
-- configuration, whose types are those of mod_websocket_config.h as far as this program reads them.
-- `matches pattern subject` is the anchored pcre_exec of a compiled pattern with PCRE, and string
-- equality in a build without it.
use linear_fcgi.Common.{ℕ, Bool, true, false, ◌||◌, List, [], ◌∷◌, Option, none, some}
use linear_fcgi.Common.{if◌then◌else◌}

pub record Backend : Type 0 where
  pub host : List ℕ
  pub port : ℕ
  pub is_websocket : Bool
  pub origins : List (List ℕ)

pub record Resource : Type 0 where
  pub key : List ℕ
  pub backend : Backend

abbrev pub Matcher : Type 0
Matcher = (pattern subject : List ℕ) → Bool

abbrev pub is_empty {ℓ} : {A : Type ℓ} → List A → Bool
is_empty [] = true
is_empty (x ∷ xs) = false

unfoldable pub any_origin : Matcher → List ℕ → List (List ℕ) → Bool
any_origin matches origin [] = false
any_origin matches origin (allowed ∷ rest) =
    if matches allowed origin then true else any_origin matches origin rest

-- Server::isAllowOrigin.
unfoldable pub is_allow_origin : Matcher → List ℕ → List (List ℕ) → Bool
unfolding any_origin
is_allow_origin matches origin allow_origins =
    if is_empty origin || is_empty allow_origins
    then true
    else any_origin matches origin allow_origins

found_backend : Matcher → List ℕ → Backend → Option Backend
found_backend matches origin backend =
    if backend.is_websocket
    then none
    else if is_allow_origin matches origin backend.origins
    then some backend
    else none

unfoldable pub find_backend : Matcher → (channel origin : List ℕ) → List Resource → Option Backend
unfolding found_backend
find_backend matches channel origin [] = none
find_backend matches channel origin (resource ∷ rest) =
    let later = find_backend matches channel origin rest in
    if matches resource.key channel then found_backend matches origin resource.backend else later

-- Server::getBackend; the configuration is `none` for NULL.
unfoldable pub get_backend :
    Matcher → Option (List Resource) → (channel origin : List ℕ) → Option Backend
unfolding find_backend
get_backend matches none channel origin = none
get_backend matches (some resources) channel origin =
    if is_empty channel then none else find_backend matches channel origin resources
