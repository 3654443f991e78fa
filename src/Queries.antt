-- ===== src/Queries.antt =====
-- src/linear_fcgi_queries.cc and .h: the query string of a request. `std::getline` reads up to a
-- delimiter or the end, and fails when there is nothing left to read.
pub mod Split
pub mod First
pub mod RoundTrip
mod Tests
use linear_fcgi.Common.{ℕ, Bool, List, [], ◌∷◌, ◌++◌, Option, none, some, if◌then◌else◌, ◌==◌}
use linear_fcgi.Common.{codes}
use linear_fcgi.Common.Map.{Key, find, insert}
use mathlib.Core.Option

-- namespace QueryKeys.
abbrev pub session_id_key : Key
session_id_key = codes "sid"

abbrev pub channel_key : Key
channel_key = codes "ch"

abbrev pub command_key : Key
command_key = codes "c"

abbrev pub data_key : Key
data_key = codes "data"

abbrev pub callback_key : Key
callback_key = codes "f"

-- `queries_`.
abbrev pub Queries : Type 0
Queries = List (Key × List ℕ)

abbrev push_last : List ℕ → List (List ℕ)
push_last [] = []
push_last (c ∷ tmp) = (c ∷ tmp) ∷ []

-- `while (getline(is, tmp, '&'))`: `tmp` is what the current call has extracted.
unfoldable pub split_loop : List ℕ → List ℕ → List (List ℕ)
split_loop tmp [] = push_last tmp
split_loop tmp (c ∷ is) =
    let next = tmp ∷ split_loop [] is in
    let more = split_loop (tmp ++ (c ∷ [])) is in if c == b'&' then next else more

unfoldable pub split : List ℕ → List (List ℕ)
unfolding split_loop
split is = split_loop [] is

-- `find('=')`, with `substr` on both sides of it; `none` for npos.
unfoldable pub cut : List ℕ → Option (Key × List ℕ)
cut [] = none
cut (c ∷ word) =
    if c == b'=' then some ([], word) else Option.map (λ kv. (c ∷ kv.0, kv.1)) (cut word)

insert_word : Option (Key × List ℕ) → Queries → Queries
insert_word none queries = queries
insert_word (some (key, val)) queries = insert key val queries

-- The `for` loop of `parse`, over the words left.
unfoldable pub parse_loop : Queries → List (List ℕ) → Queries
unfolding insert_word
parse_loop queries [] = queries
parse_loop queries (word ∷ words) = parse_loop (insert_word (cut word) queries) words

unfoldable pub parse : Queries → List ℕ → Queries
unfolding parse_loop
parse queries query_data = parse_loop queries (split query_data)

-- The constructor.
unfoldable pub make : List ℕ → Queries
unfolding parse
make query_data = parse [] query_data

-- A getter answers with the empty string when the key is missing.
unfoldable pub get : Key → Queries → List ℕ
get key queries = Option.get_or (find key queries) []

unfoldable pub get_session_id : Queries → List ℕ
get_session_id = get session_id_key

unfoldable pub get_channel : Queries → List ℕ
get_channel = get channel_key

unfoldable pub get_command : Queries → List ℕ
get_command = get command_key

unfoldable pub get_data : Queries → List ℕ
get_data = get data_key

unfoldable pub get_callback : Queries → List ℕ
get_callback = get callback_key
