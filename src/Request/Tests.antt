-- ===== src/Request/Tests.antt =====
-- The theorems on src/linear_fcgi_request.cc at an input.
use linear_fcgi.Common.{ℕ, ◌-◌, ◌^◌, ◌≡◌, ◌↔◌, refl, arith}
use linear_fcgi.Common.{
  true, false, ◌||◌, List, [], ◌∷◌, map, Option, none, some, All, IsChar, codes, length, bytes_eq,
}
use linear_fcgi.Common.{if◌then◌else◌, c_str}
use linear_fcgi.Queries.{make}
use linear_fcgi.Response.Decimal.{decimal}
use linear_fcgi.Request.Env
use linear_fcgi.Request.Env.{name, request_method, content_length}
use linear_fcgi.Request.Input.{
  BodyEnv, Static, done, fault, create, strtol, skip_spaces, signed, clamp_pos,
}
use linear_fcgi.Request.Poisoned.{Source, create_all, given, stuck, create_all-poisoned}
use linear_fcgi.Request.Body.{envs_of, create_post, create_post-fault}

abbrev post_with : List ℕ → List ℕ → Option (List ℕ)
post_with length_text key =
    if bytes_eq key (codes "REQUEST_METHOD")
    then some (codes "POST")
    else if bytes_eq key (codes "CONTENT_LENGTH")
    then some length_text
    else none

abbrev body : List ℕ
body = codes "sid=x"

abbrev reads_body : BodyEnv
reads_body = record { malloc = λ n. true; fread = λ n. some body }

abbrev reads_none : BodyEnv
reads_none = record { malloc = λ n. true; fread = λ n. none }

abbrev fresh : Static
fresh = record { body = []; erange = false }

abbrev used : Static
used = record { body = body; erange = false }

is_post : (text : List ℕ) → envs_of (post_with text) request_method ≡ codes "POST"
unfolding Env.get name bytes_eq
is_post text = refl

has_length : (text : List ℕ) → envs_of (post_with text) content_length ≡ text
unfolding Env.get name bytes_eq
has_length text = refl

body-IsChar : All IsChar body
body-IsChar = ground arith

create_post_example :
    create (post_with (decimal (length body))) reads_body fresh
    ≡ done
        (record { envs = envs_of (post_with (decimal (length body))); queries = make body })
        (record { body = body; erange = false })
create_post_example =
    create_post (post_with (decimal (length body))) reads_body fresh body
      (is_post (decimal (length body))) (has_length (decimal (length body))) (omega arith) refl refl
      refl body-IsChar

abbrev large_post : Source
large_post = record { getenv = post_with (codes "99999999999999999999"); body = reads_none }

abbrev good_post : Source
good_post = record { getenv = post_with (decimal (length body)); body = reads_body }

out_of_range : (strtol (envs_of large_post.getenv content_length)).1 ≡ true
unfolding strtol skip_spaces signed clamp_pos Env.get name bytes_eq c_str
out_of_range = refl

create_all-poisoned_example :
    create_all (large_post ∷ good_post ∷ []) fresh
    ≡ done (map (given []) (large_post ∷ good_post ∷ [])) (stuck [])
create_all-poisoned_example =
    create_all-poisoned large_post (good_post ∷ []) fresh (is_post (codes "99999999999999999999"))
      out_of_range

create_post-fault_example : (create (post_with (codes "-1")) reads_none fresh ≡ fault) ↔ (
    ((false || (strtol (envs_of (post_with (codes "-1")) content_length)).1) ≡ false)
    × (true ≡ true)
    × ((strtol (envs_of (post_with (codes "-1")) content_length)).0 ≡ 2 ^ 64 - 1))
create_post-fault_example =
    create_post-fault (post_with (codes "-1")) reads_none fresh (is_post (codes "-1"))
