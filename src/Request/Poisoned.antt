-- ===== src/Request/Poisoned.antt =====
-- errno in src/linear_fcgi_request.cc, which getQueryString reads but nobody clears, over a sequence
-- of requests.
use linear_fcgi.Common.{◌≡◌, refl, ap, ◌∙◌, inl, inr}
use linear_fcgi.Common.{
  Bool, true, false, ◌||◌, ℕ, List, [], ◌∷◌, map, Option, if◌then◌else◌, codes, bytes_eq,
  Bool-cases,
}
use linear_fcgi.Queries.{make}
use linear_fcgi.Request.Env.{request_method, content_length, query_string}
use linear_fcgi.Request.Input.{
  strtol, Static, BodyEnv, Outcome, fault, done, Request, get_method, read_body, query_string_for,
  get_query_string, with_queries, create,
}
use linear_fcgi.Request.Body.{envs_of, create-read_body}

-- A request before it is read.
pub record Source : Type 0 where
  pub getenv : List ℕ → Option (List ℕ)
  pub body : BodyEnv

abbrev pub before : Request → Outcome (List Request) → Outcome (List Request)
before req fault = fault
before req (done reqs s) = done (req ∷ reqs) s

-- The requests that Request::create makes one after another.
unfoldable pub create_all : List Source → Static → Outcome (List Request)
create_all [] s = done [] s
create_all (r ∷ rs) s = elim (create r.getenv r.body s) [
  | fault ↦ fault
  | done req s' ↦ before req (create_all rs s')
]

-- The request of a source, with a text for all that is not a GET.
abbrev pub given : (text : List ℕ) → Source → Request
given text r = record {
  envs = envs_of r.getenv;
  queries = make (
      if bytes_eq (envs_of r.getenv request_method) (codes "GET")
      then envs_of r.getenv query_string
      else text);
}

abbrev pub stuck : List ℕ → Static
stuck text = record { body = text; erange = true }

create-stuck :
    (text : List ℕ) (r : Source)
    → create r.getenv r.body (stuck text) ≡ done (given text r) (stuck text)
unfolding create get_query_string query_string_for get_method read_body with_queries
create-stuck text r =
    let method = envs_of r.getenv request_method in
    elim (Bool-cases (bytes_eq method (codes "GET"))) [
      | inl get ↦ rw get refl
      | inr other ↦ elim (Bool-cases (bytes_eq method (codes "POST"))) [
        | inl post ↦ rw (other, post) refl
        | inr unknown ↦ rw (other, unknown) refl
      ]
    ]

create_all-stuck :
    (text : List ℕ) (rs : List Source)
    → create_all rs (stuck text) ≡ done (map (given text) rs) (stuck text)
unfolding create_all
create_all-stuck text [] = refl
create_all-stuck text (r ∷ rs) =
    rw (create-stuck text r, create_all) (ap (before (given text r)) (create_all-stuck text rs))

or_true : (b : Bool) → (b || true) ≡ true
or_true true = refl
or_true false = refl

-- A POST whose Content-Length is out of range is given the text that is kept from before.
create-poisoned :
    (r : Source) (s : Static)
    → envs_of r.getenv request_method ≡ codes "POST"
    → (strtol (envs_of r.getenv content_length)).1 ≡ true
    → create r.getenv r.body s ≡ done (given s.body r) (stuck s.body)
unfolding read_body with_queries bytes_eq
create-poisoned r s post large =
    create-read_body r.getenv r.body s post ∙ rw (large, or_true s.erange, post) refl

-- After one POST whose Content-Length is out of the range of strtol, as long as nothing else sets
-- errno, it and every later POST, whatever body it has, is given the fields of the last body that
-- was read before, whatever request that belonged to; a GET still gets its own.
pub create_all-poisoned :
    (r : Source) (rs : List Source) (s : Static)
    → envs_of r.getenv request_method ≡ codes "POST"
    → (strtol (envs_of r.getenv content_length)).1 ≡ true
    → create_all (r ∷ rs) s ≡ done (map (given s.body) (r ∷ rs)) (stuck s.body)
unfolding create_all
create_all-poisoned r rs s post large =
    rw (create-poisoned r s post large, create_all)
      (ap (before (given s.body r)) (create_all-stuck s.body rs))
