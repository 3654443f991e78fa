-- ===== src/Queries/Tests.antt =====
-- Runs of src/linear_fcgi_queries.cc, and the theorems at an input.
use linear_fcgi.Common.{ℕ, ◌≡◌, refl, arith, List, [], ◌∷◌, All, codes}
use linear_fcgi.Common.Map.{Key, find, insert}
use linear_fcgi.Queries.{split, cut, make, get}
use linear_fcgi.Queries.{get_channel, get_command, get_session_id}
use linear_fcgi.Queries.{command_key, channel_key}
use linear_fcgi.Queries.RoundTrip.{IsField, render, find-make-render}

abbrev connect_query : List ℕ
connect_query = codes "c=connect&ch=a=b&c=poll&"

connect_words : split connect_query ≡ codes "c=connect" ∷ codes "ch=a=b" ∷ codes "c=poll" ∷ []
unfolding split
connect_words = refl

-- The first `c` counts, a value may hold `=`, and a missing key reads as the empty string.
connect_fields :
    (get_command (make connect_query) ≡ codes "connect")
    × (get_channel (make connect_query) ≡ codes "a=b")
    × (get_session_id (make connect_query) ≡ [])
unfolding get_command get_channel get_session_id get make split cut find insert
connect_fields = (refl, refl, refl)

abbrev connect_pairs : List (Key × List ℕ)
connect_pairs = (command_key, codes "connect") ∷ (channel_key, codes "a=b") ∷ []

connect_fields_ok : All IsField connect_pairs
connect_fields_ok = ground arith

find-make-render_example :
    find channel_key (make (render connect_pairs)) ≡ find channel_key connect_pairs
find-make-render_example =
    find-make-render channel_key connect_pairs (refl, (refl, tt)) connect_fields_ok
