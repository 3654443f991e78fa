-- ===== src/Request/Env.antt =====
-- src/linear_fcgi_env.h and src/linear_fcgi_env.cc: the variables of a request.
use linear_fcgi.Common.{ℕ, List, [], Option, codes}
use mathlib.Core.Option

pub data Ident : Type 0 where
  request_method remote_host remote_addr remote_port content_type content_length : Ident
  http_cookie http_origin http_user_agent query_string : Ident

unfoldable pub name : Ident → List ℕ
name request_method = codes "REQUEST_METHOD"
name remote_host = codes "REMOTE_HOST"
name remote_addr = codes "REMOTE_ADDR"
name remote_port = codes "REMOTE_PORT"
name content_type = codes "CONTENT_TYPE"
name content_length = codes "CONTENT_LENGTH"
name http_cookie = codes "HTTP_COOKIE"
name http_origin = codes "HTTP_ORIGIN"
name http_user_agent = codes "HTTP_USER_AGENT"
name query_string = codes "QUERY_STRING"

-- Env::get, over what getenv of the FastCGI library answers.
unfoldable pub get : (getenv : List ℕ → Option (List ℕ)) → Ident → List ℕ
unfolding name
get getenv ident = Option.get_or (getenv (name ident)) []
