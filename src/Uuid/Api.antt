-- ===== src/Uuid/Api.antt =====
-- src/uuid/uuid.c: the UUID functions that the program calls. A uuid_t is a list of 16 bytes.
use linear_fcgi.Common.{ℕ, Bool, true, false, not, List, [], ◌∷◌, Option, none, some}
use linear_fcgi.Common.{if◌then◌else◌, ◌==◌, replicate}
use linear_fcgi.Uuid.Fields.{Uuid, pack, unpack, Sign, compare_fields}
use linear_fcgi.Uuid.Hex.{parse_fields, unparse_fields}
use linear_fcgi.Uuid.Source.{Machine, Clock, generate_fields}
use mathlib.Core.Option

-- uuid_clear.
unfoldable pub clear : List ℕ
clear = replicate 16 0

-- uuid_compare.
unfoldable pub compare : List ℕ → List ℕ → Sign
unfolding compare_fields unpack
compare uu1 uu2 = compare_fields (unpack uu1) (unpack uu2)

-- uuid_copy.
unfoldable pub copy : List ℕ → List ℕ
copy src = src

unfoldable pub packed : Clock × Option Uuid → Clock × List ℕ
unfolding clear pack
packed (c, none) = (c, clear)
packed (c, some u) = (c, pack u)

-- uuid_generate; `locked` says whether pthread_mutex_lock succeeds.
unfoldable pub generate : (locked : Bool) → Machine → Clock → Clock × List ℕ
unfolding packed generate_fields clear
generate locked m c = if not locked then (c, clear) else packed (generate_fields m c)

-- uuid_is_null.
unfoldable pub is_null : List ℕ → Bool
is_null [] = true
is_null (b ∷ uu) = if not (b == 0) then false else is_null uu

-- uuid_parse; `none` for -1.
unfoldable pub parse : List ℕ → Option (List ℕ)
unfolding parse_fields pack
parse text = Option.map pack (parse_fields text)

-- uuid_unparse, without the NUL at the end.
unfoldable pub unparse : List ℕ → List ℕ
unfolding unparse_fields unpack
unparse uu = unparse_fields (unpack uu)
