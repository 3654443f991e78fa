-- ===== src/Request/Input.antt =====
-- src/linear_fcgi_request.cc: how a request is made out of its variables and its body. Two things
-- outlive a request: the `static` variable of getQueryString, and errno.
use linear_fcgi.Common.{ℕ, ◌+◌, ◌-◌, ◌%◌, ◌^◌, Bool, true, false, not, ◌&&◌, ◌||◌}
use linear_fcgi.Common.{List, [], ◌∷◌, Option, none, some, if◌then◌else◌, ltb, leb, ◌==◌}
use linear_fcgi.Common.{codes, bytes_eq, c_str}
use linear_fcgi.Queries.{Queries, make}
use linear_fcgi.Request.Env
use linear_fcgi.Request.Env.{Ident, request_method, content_length, query_string}
use linear_fcgi.Response.Decimal.{read_digits}

-- <ctype.h>'s isspace in the C locale.
unfoldable pub is_space : ℕ → Bool
is_space c = c == 32 || leb 9 c && leb c 13

unfoldable pub skip_spaces : List ℕ → List ℕ
unfolding is_space
skip_spaces [] = []
skip_spaces (c ∷ text) = if is_space c then skip_spaces text else c ∷ text

-- A long as its 64-bit pattern, and whether ERANGE is set.
unfoldable pub clamp_pos : ℕ → ℕ × Bool
clamp_pos n = if ltb n (2 ^ 63) then (n, false) else (2 ^ 63 - 1, true)

unfoldable pub clamp_neg : ℕ → ℕ × Bool
clamp_neg n = if leb n (2 ^ 63) then ((2 ^ 64 - n) % 2 ^ 64, false) else (2 ^ 63, true)

-- The sign, and the digits behind it.
unfoldable pub signed : List ℕ → ℕ × Bool
unfolding clamp_pos clamp_neg read_digits
signed [] = (0, false)
signed (c ∷ text) =
    if c == b'-'
    then clamp_neg (read_digits 0 text).0
    else if c == b'+'
    then clamp_pos (read_digits 0 text).0
    else clamp_pos (read_digits 0 (c ∷ text)).0

-- strtol(text, NULL, 10).
unfoldable pub strtol : List ℕ → ℕ × Bool
unfolding signed skip_spaces
strtol text = signed (skip_spaces (c_str text))

pub data Method : Type 0 where
  get post unknown : Method

-- Request::getMethod.
unfoldable pub get_method : (Ident → List ℕ) → Method
unfolding bytes_eq
get_method envs =
    if bytes_eq (envs request_method) (codes "GET")
    then Method.get
    else if bytes_eq (envs request_method) (codes "POST")
    then Method.post
    else Method.unknown

-- The `static std::string data` of getQueryString, and whether errno is ERANGE.
pub record Static : Type 0 where
  pub body : List ℕ
  pub erange : Bool

-- `fread n` is what FCGI_fread puts into the buffer when it reads one item of n bytes, and `none`
-- when it returns 0.
pub record BodyEnv : Type 0 where
  pub malloc : ℕ → Bool
  pub fread : ℕ → Option (List ℕ)

-- `fault` is a write outside the buffer.
pub data Outcome {ℓ} (A : Type ℓ) : Type ℓ where
  fault : Outcome A
  done : A → Static → Outcome A

-- `data = query_string`, which copies up to the first NUL.
unfoldable pub store_body : Option (List ℕ) → Static → Outcome (List ℕ)
unfolding c_str
store_body none s = done s.body s
store_body (some buf) s = done (c_str buf) (record s { body = c_str buf })

-- The branch for POST, after strtol. The buffer has `siz + 1` bytes in 64-bit arithmetic, and
-- memset writes `siz` of them.
unfoldable pub read_body : BodyEnv → (siz : ℕ) → Static → Outcome (List ℕ)
unfolding store_body
read_body env siz s =
    if s.erange
    then done s.body s
    else if not (env.malloc ((siz + 1) % 2 ^ 64))
    then done s.body s
    else if ltb ((siz + 1) % 2 ^ 64) siz
    then fault
    else store_body (env.fread siz) s

unfoldable pub query_string_for : BodyEnv → Method → (Ident → List ℕ) → Static → Outcome (List ℕ)
unfolding read_body
query_string_for env Method.get envs s = done (envs query_string) s
query_string_for env Method.post envs s =
    let (siz, erange) = strtol (envs content_length) in
    read_body env siz (record s { erange = s.erange || erange })
query_string_for env Method.unknown envs s = done s.body s

-- Request::getQueryString.
unfoldable pub get_query_string : BodyEnv → (Ident → List ℕ) → Static → Outcome (List ℕ)
unfolding query_string_for
get_query_string env envs s = query_string_for env (get_method envs) envs s

pub record Request : Type 0 where
  pub envs : Ident → List ℕ
  pub queries : Queries

unfoldable pub with_queries : (Ident → List ℕ) → Outcome (List ℕ) → Outcome Request
with_queries envs fault = fault
with_queries envs (done text s) = done (record { envs = envs; queries = make text }) s

-- Request::create.
unfoldable pub create : (getenv : List ℕ → Option (List ℕ)) → BodyEnv → Static → Outcome Request
unfolding with_queries
create getenv env s = with_queries (Env.get getenv) (get_query_string env (Env.get getenv) s)
