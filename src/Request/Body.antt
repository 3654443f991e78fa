-- ===== src/Request/Body.antt =====
-- The query string of a request: what a well-formed POST gives, and what is left of the one before.
use linear_fcgi.Common.{ℕ, ◌+◌, ◌-◌, ◌%◌, ◌^◌, ◌<◌, ◌≡◌, refl, ◌∙◌, ◌≢◌, ◌↔◌, arith}
use linear_fcgi.Common.{Bool, true, false, ◌||◌, List, [], ◌∷◌, Option, none, some, length, c_str}
use linear_fcgi.Common.{c_str_of_chars, All, IsChar, codes}
use linear_fcgi.Queries.{make}
use linear_fcgi.Response.Decimal.{decimal}
use linear_fcgi.Request.Env
use linear_fcgi.Request.Env.{Ident, request_method, content_length, query_string}
use linear_fcgi.Request.Input.{
  signed, clamp_pos, clamp_neg, skip_spaces, strtol, Method, get_method, Static, BodyEnv, Outcome,
  fault, done, read_body, store_body, query_string_for, get_query_string, with_queries, create,
}
use linear_fcgi.Request.Strtol.{strtol-decimal}

-- The variables of a request.
abbrev pub envs_of : (List ℕ → Option (List ℕ)) → Ident → List ℕ
envs_of getenv = Env.get getenv

get_method-post :
    (envs : Ident → List ℕ) → envs request_method ≡ codes "POST" → get_method envs ≡ Method.post
unfolding get_method
get_method-post envs m = rw m

-- A POST is its body, read for the size that strtol finds.
pub create-read_body :
    (getenv : List ℕ → Option (List ℕ)) (env : BodyEnv) (s : Static)
    → envs_of getenv request_method ≡ codes "POST"
    → create getenv env s
      ≡ with_queries (envs_of getenv) (
          read_body env
            (strtol (envs_of getenv content_length)).0
            (record s { erange = s.erange || (strtol (envs_of getenv content_length)).1 }))
unfolding create get_query_string query_string_for
create-read_body getenv env s m = rw (get_method-post (envs_of getenv) m)

size_fits : (siz : ℕ) → siz < 2 ^ 63 → (siz + 1) % 2 ^ 64 ≡ siz + 1
size_fits siz h = omega arith

read_body-reads :
    (env : BodyEnv) (siz : ℕ) (s : Static) (buf : List ℕ)
    → s.erange ≡ false
    → siz < 2 ^ 63
    → env.malloc (siz + 1) ≡ true
    → env.fread siz ≡ some buf
    → read_body env siz s ≡ done (c_str buf) (record s { body = c_str buf })
unfolding read_body store_body
read_body-reads env siz s buf quiet small mem read = ground (arith, size_fits siz small)

read_body-stale :
    (env : BodyEnv) (siz : ℕ) (s : Static)
    → siz + 1 < 2 ^ 64
    → env.fread siz ≡ none
    → read_body env siz s ≡ done s.body s
unfolding read_body store_body
read_body-stale env siz s small unread = ground arith

-- A POST whose Content-Length is the printed length of a body without NUL, which FCGI_fread reads
-- whole, gives the fields of that body, and the body becomes the static text. errno must not be
-- ERANGE before, and the buffer must be allocated.
pub create_post :
    (getenv : List ℕ → Option (List ℕ)) (env : BodyEnv) (s : Static) (body : List ℕ)
    → envs_of getenv request_method ≡ codes "POST"
    → envs_of getenv content_length ≡ decimal (length body)
    → length body < 2 ^ 63
    → s.erange ≡ false
    → env.malloc (length body + 1) ≡ true
    → env.fread (length body) ≡ some body
    → All IsChar body
    → create getenv env s
      ≡ done (record { envs = envs_of getenv; queries = make body }) (record s { body = body })
unfolding with_queries
create_post getenv env s body m l small quiet mem read chars =
    let n = length body in
    create-read_body getenv env s m
    ∙ rw (l, strtol-decimal n small, quiet)
        (rw (read_body-reads env n (record s { erange = false }) body refl small mem read)
          (rw (c_str_of_chars body chars)))

or_false : (b : Bool) → (b || false) ≡ b
or_false true = refl
or_false false = refl

-- A POST whose body is not read, because its Content-Length is 0 or its body is short, is given the
-- fields of the last POST body that was read, whatever request that belonged to.
create_post_stale :
    (getenv : List ℕ → Option (List ℕ)) (env : BodyEnv) (s : Static) (siz : ℕ)
    → envs_of getenv request_method ≡ codes "POST"
    → strtol (envs_of getenv content_length) ≡ (siz, false)
    → siz + 1 < 2 ^ 64
    → env.fread siz ≡ none
    → create getenv env s ≡ done (record { envs = envs_of getenv; queries = make s.body }) s
unfolding with_queries
create_post_stale getenv env s siz m l small unread =
    create-read_body getenv env s m
    ∙ rw (l, read_body-stale env siz (record s { erange = s.erange || false }) small unread)
        (rw (or_false s.erange))

wraps : (siz : ℕ) → siz ≡ 2 ^ 64 - 1 → (siz + 1) % 2 ^ 64 ≡ 0
wraps siz h = omega arith

no_wrap : (siz : ℕ) → siz < 2 ^ 64 → (siz + 1) % 2 ^ 64 < siz → siz ≡ 2 ^ 64 - 1
no_wrap siz h k = omega arith

store_body-done : (o : Option (List ℕ)) (s : Static) → store_body o s ≢ fault
unfolding store_body
store_body-done none s e = cc
store_body-done (some buf) s e = cc

read_body-fault :
    (env : BodyEnv) (siz : ℕ) (s : Static)
    → siz < 2 ^ 64
    → (read_body env siz s ≡ fault)
      ↔ ((s.erange ≡ false) × (env.malloc 0 ≡ true) × (siz ≡ 2 ^ 64 - 1))
unfolding read_body
read_body-fault env siz s small = (
  λ h. ground (arith, store_body-done (env.fread siz) s, wraps siz, no_wrap siz small),
  λ h. ground (arith, wraps siz),
)

signed-lt : (text : List ℕ) → (signed text).0 < 2 ^ 64
unfolding signed clamp_pos clamp_neg
signed-lt [] = omega arith
signed-lt (c ∷ text) = ground arith

strtol-lt : (text : List ℕ) → (strtol text).0 < 2 ^ 64
unfolding strtol
strtol-lt text = signed-lt (skip_spaces (c_str text))

with_queries-fault :
    (envs : Ident → List ℕ) (o : Outcome (List ℕ)) → (with_queries envs o ≡ fault) ↔ (o ≡ fault)
unfolding with_queries
with_queries-fault envs fault = (λ h. refl, λ h. refl)
with_queries-fault envs (done text s) = (λ h. cc, λ h. cc)

-- A POST makes the program write outside its buffer exactly when its Content-Length is read as -1,
-- errno does not become ERANGE, and malloc(0) is not NULL.
pub create_post-fault :
    (getenv : List ℕ → Option (List ℕ)) (env : BodyEnv) (s : Static)
    → envs_of getenv request_method ≡ codes "POST"
    → (create getenv env s ≡ fault) ↔ (
        ((s.erange || (strtol (envs_of getenv content_length)).1) ≡ false)
        × (env.malloc 0 ≡ true)
        × ((strtol (envs_of getenv content_length)).0 ≡ 2 ^ 64 - 1))
create_post-fault getenv env s m =
    let text = envs_of getenv content_length in
    let s' : Static = record s { erange = s.erange || (strtol text).1 } in
    let outer = with_queries-fault (envs_of getenv) (read_body env (strtol text).0 s') in
    let inner = read_body-fault env (strtol text).0 s' (strtol-lt text) in
    rw (create-read_body getenv env s m) (λ h. inner.0 (outer.0 h), λ h. outer.1 (inner.1 h))
