-- ===== src/Uuid/Source.antt =====
-- src/uuid/_uuid_time.c, src/uuid/_uuid_clock.c, src/uuid/_uuid_node.c (for Linux) and
-- _uuid_generate: where the fields of a new UUID come from.
use linear_fcgi.Common.{ℕ, ◌+◌, ◌-◌, ◌*◌, ◌/◌, ◌%◌, ◌^◌, Bool, true, not, ◌&&◌}
use linear_fcgi.Common.{List, [], ◌∷◌, Option, none, some, if◌then◌else◌, ltb, bit_or}
use linear_fcgi.Common.{bytes_eq, take, map, codes}
use linear_fcgi.Url.{to_lower}
use linear_fcgi.Uuid.Fields.{Uuid, Node}

-- struct timeval, as gettimeofday fills it.
pub record Timeval : Type 0 where
  pub tv_sec : ℕ
  pub tv_usec : ℕ

abbrev pub time_offset : ℕ
time_offset = 0x01b21dd213814000

-- The uint64_t count of 100 ns since 1582.
unfoldable pub uutime : Timeval → ℕ
uutime tv =
    (time_offset + (tv.tv_usec * 10 % 2 ^ 64 + tv.tv_sec * 10000000 % 2 ^ 64) % 2 ^ 64) % 2 ^ 64

-- _uuid_get_time: low, mid, high.
unfoldable pub get_time : Timeval → ℕ × ℕ × ℕ
unfolding uutime
get_time tv = let t = uutime tv in (t % 2 ^ 32, t / 2 ^ 32 % 2 ^ 16, t / 2 ^ 32 / 2 ^ 16 % 2 ^ 12)

-- The static variables of _uuid_get_clock; `seq` is the 64-bit pattern of a long.
pub record Clock : Type 0 where
  pub is_initialized : Bool
  pub seq : ℕ

-- The system at the first call: the two bytes of /dev/urandom, if they can be read, and what
-- random() returns after srandom otherwise.
pub record Entropy : Type 0 where
  pub urandom : Option (ℕ × ℕ)
  pub random : ℕ

-- A signed char as a 64-bit pattern.
signed_char : ℕ → ℕ
signed_char b = if ltb b 128 then b else b + (2 ^ 64 - 256)

first_seq : Option (ℕ × ℕ) → ℕ → ℕ
unfolding signed_char
first_seq none random = random
first_seq (some (b0, b1)) random = (signed_char b0 * 2 ^ 8 + signed_char b1) % 2 ^ 64

-- _uuid_get_clock: the new static variables, seq_low and seq_hi.
unfoldable pub get_clock : Entropy → Clock → Clock × ℕ × ℕ
unfolding first_seq
get_clock e c =
    let seq = if not c.is_initialized then first_seq e.urandom e.random else (c.seq + 1) % 2 ^ 64 in
    (record { is_initialized = true; seq = seq }, seq % 2 ^ 8, seq / 2 ^ 8 % 2 ^ 6)

-- An interface that SIOCGIFCONF lists: its family is AF_INET or not, its name, and the address
-- that SIOCGIFHWADDR answers for it.
pub record Interface : Type 0 where
  pub is_inet : Bool
  pub name : List ℕ
  pub hwaddr : Option Node

-- strncasecmp(name, "lo", 2) == 0
unfoldable pub is_loopback : List ℕ → Bool
unfolding to_lower bytes_eq
is_loopback name = bytes_eq (map to_lower (take 2 name)) (codes "lo")

-- The loop of _uuid_get_node.
unfoldable pub first_node : List Interface → Option Node
unfolding is_loopback
first_node [] = none
first_node (i ∷ is) =
    let rest = first_node is in if i.is_inet && not (is_loopback i.name) then i.hwaddr else rest

-- _uuid_get_node; `none` for -1. `interfaces` is `none` if the socket cannot be opened or listing
-- the interfaces fails.
unfoldable pub get_node : Option (List Interface) → Option Node
unfolding first_node
get_node none = none
get_node (some is) = first_node is

-- What a call of _uuid_generate finds.
pub record Machine : Type 0 where
  pub interfaces : Option (List Interface)
  pub time : Timeval
  pub entropy : Entropy

unfoldable pub generate_with : Machine → Option Node → Clock → Clock × Option Uuid
generate_with m none c = (c, none)
generate_with m (some node) c =
    let (low, mid, hi) = get_time m.time in
    let (c', seq_low, seq_hi) = get_clock m.entropy c in
    (
      c',
      some (record {
        time_low = low;
        time_mid = mid;
        time_hi_and_version = bit_or hi 0x1000;
        clock_seq_hi_and_reserved = bit_or seq_hi 0x80;
        clock_seq_low = seq_low;
        node = node;
      }),
    )

-- _uuid_generate; `none` for -1.
unfoldable pub generate_fields : Machine → Clock → Clock × Option Uuid
unfolding generate_with get_node
generate_fields m c = generate_with m (get_node m.interfaces) c
