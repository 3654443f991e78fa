-- ===== src/Uuid/Unique.antt =====
-- uuid_generate of src/uuid/uuid.c: when it fails, what marks its results, and that they differ.
use linear_fcgi.Common.{ℕ, zero, suc, ◌+◌, ◌*◌, ◌/◌, ◌%◌, ◌^◌, ◌<◌, ◌≡◌, refl, ap, ◌∙◌, arith}
use linear_fcgi.Common.{Bool, true, false, ◌≢◌, ◌↔◌, inl, inr, List, [], ◌∷◌, none, some}
use linear_fcgi.Common.{length, get_or, All, ◌==◌, ==_iff, bit_or, Option-cases}
use linear_fcgi.Common.Bits.{every_below, every_below_sound}
use linear_fcgi.Uuid.Fields.{Node, at}
use linear_fcgi.Uuid.Source.{
  Timeval, get_time, Clock, Entropy, get_clock, Machine, get_node, generate_fields, generate_with,
}
use linear_fcgi.Uuid.Api.{clear, generate, packed, is_null}

reserved_table : every_below 64 (λ hi. bit_or hi 0x80 == hi + 128) ≡ true
unfolding every_below
reserved_table = refl

set_reserved : (hi : ℕ) → hi < 64 → bit_or hi 0x80 ≡ hi + 128
set_reserved hi h = (==_iff _ _).0 (every_below_sound 64 _ hi reserved_table h)

version_table : every_below 4096 (λ hi. bit_or hi 0x1000 == hi + 4096) ≡ true
unfolding every_below
version_table = refl

set_version : (hi : ℕ) → hi < 4096 → bit_or hi 0x1000 ≡ hi + 4096
set_version hi h = (==_iff _ _).0 (every_below_sound 4096 _ hi version_table h)

-- The 14 bits of the clock sequence in a uuid_t.
unfoldable pub clock_sequence : List ℕ → ℕ
clock_sequence uu = at uu 8 % 64 * 256 + at uu 9

-- A result of version 1 and of the variant of RFC 4122, and its clock sequence.
abbrev pub IsTimeBased : ℕ → List ℕ → Type 0
IsTimeBased seq uu =
    (length uu ≡ 16) × (at uu 6 / 16 ≡ 1) × (at uu 8 / 64 ≡ 2) × (clock_sequence uu ≡ seq % 2 ^ 14)

pub generate-found :
    (m : Machine) (c : Clock) {node : Node}
    → get_node m.interfaces ≡ some node
    → generate true m c ≡ packed (generate_with m (some node) c)
unfolding generate generate_fields
generate-found m c h = rw h

get_time-lt : (tv : Timeval) → (get_time tv).2 < 4096
unfolding get_time
get_time-lt tv = omega arith

get_clock_parts :
    (e : Entropy) (c : Clock)
    → ((get_clock e c).1 ≡ (get_clock e c).0.seq % 2 ^ 8)
      × ((get_clock e c).2 ≡ (get_clock e c).0.seq / 2 ^ 8 % 2 ^ 6)
unfolding get_clock
get_clock_parts e c = (refl, refl)

pub generate_with-IsTimeBased :
    (m : Machine) (c : Clock) (node : Node)
    → IsTimeBased
        (packed (generate_with m (some node) c)).0.seq
        (packed (generate_with m (some node) c)).1
unfolding generate_with packed clock_sequence
generate_with-IsTimeBased m c node =
    let (low, hi) = get_clock_parts m.entropy c in
    let bound = get_time-lt m.time in
    let marked = set_version (get_time m.time).2 (get_time-lt m.time) in
    let reserved = set_reserved (get_clock m.entropy c).2 (omega arith) in
    (refl, omega arith, omega arith, omega arith)

generate_with-counts :
    (m : Machine) (c : Clock) (node : Node)
    → c.is_initialized ≡ true
    → (packed (generate_with m (some node) c)).0
      ≡ record { is_initialized = true; seq = (c.seq + 1) % 2 ^ 64 }
unfolding generate_with packed get_clock
generate_with-counts m c node h = rw h

-- Without a node, or without the lock, the static variables stay.
pub generate-missing :
    (m : Machine) (c : Clock) → get_node m.interfaces ≡ none → generate true m c ≡ (c, clear)
unfolding generate generate_fields generate_with packed
generate-missing m c h = rw h

generate-step :
    (m : Machine) (c : Clock) {node : Node}
    → c.is_initialized ≡ true
    → get_node m.interfaces ≡ some node
    → ((generate true m c).0 ≡ record { is_initialized = true; seq = (c.seq + 1) % 2 ^ 64 })
      × (clock_sequence (generate true m c).1 ≡ (c.seq + 1) % 2 ^ 14)
generate-step m c {node} init found =
    let counts = generate_with-counts m c node init in
    let marks = generate_with-IsTimeBased m c node in
    rw (generate-found m c found)
      (counts, marks.3 ∙ ap (λ (k : Clock). k.seq % 2 ^ 14) counts ∙ omega arith)

-- The results of `uuid_generate` on one machine state after another.
unfoldable pub generate_all : List Machine → Clock → List (List ℕ)
generate_all [] c = []
generate_all (m ∷ ms) c = let (c', uu) = generate true m c in uu ∷ generate_all ms c'

-- The machine has a network interface whose address can be read.
abbrev pub HasNode : Machine → Type 0
HasNode m = (node : Node) × (get_node m.interfaces ≡ some node)

generate_all-clock :
    (ms : List Machine) (c : Clock) (i : ℕ)
    → c.is_initialized ≡ true
    → All HasNode ms
    → i < length ms
    → clock_sequence (get_or (generate_all ms c) i []) ≡ (c.seq + i + 1) % 2 ^ 14
unfolding generate_all
generate_all-clock [] c i init h lt = absurd (omega arith)
generate_all-clock (m ∷ ms) c zero init ((node, found), h) lt =
    rw (generate-step m c init found).1 (omega arith)
generate_all-clock (m ∷ ms) c (suc i) init ((node, found), h) lt =
    let (next, _) = generate-step m c init found in
    rw next (
      generate_all-clock ms (record { is_initialized = true; seq = (c.seq + 1) % 2 ^ 64 }) i refl h
        (omega arith)
      ∙ omega arith)

nonzero-at : (uu : List ℕ) (i : ℕ) → 0 < at uu i → is_null uu ≡ false
unfolding is_null
nonzero-at [] i h = absurd (omega arith)
nonzero-at (b ∷ uu) zero h = ground arith
nonzero-at (b ∷ uu) (suc i) h = ground (arith, nonzero-at uu i h)

is_null-clear : is_null clear ≡ true
unfolding is_null clear
is_null-clear = refl

generate-unlocked : (m : Machine) (c : Clock) → generate false m c ≡ (c, clear)
unfolding generate
generate-unlocked m c = refl

-- What `uuid_generate` may answer.
abbrev pub Answers : Bool → Machine → Clock → Clock × List ℕ → Type 0
Answers locked m c (c', uu) =
    ((is_null uu ≡ false) ↔ ((locked ≡ true) × HasNode m))
    × ((is_null uu ≡ false) → IsTimeBased c'.seq uu)
    × ((is_null uu ≡ true) → c' ≡ c)

Answers-clear :
    (locked : Bool) (m : Machine) (c : Clock)
    → ¬ ((locked ≡ true) × HasNode m)
    → Answers locked m c (c, clear)
Answers-clear locked m c h =
    ((λ e. cc is_null-clear, λ k. absurd (h k)), (λ e. cc is_null-clear), (λ e. refl))

Answers-found :
    (m : Machine) (c : Clock) (node : Node)
    → get_node m.interfaces ≡ some node
    → Answers true m c (packed (generate_with m (some node) c))
Answers-found m c node found =
    let marks = generate_with-IsTimeBased m c node in
    let live =
      nonzero-at (packed (generate_with m (some node) c)).1 6
        (omega (arith, generate_with-IsTimeBased m c node)) in
    ((λ e. (refl, (node, found)), λ k. live), (λ e. marks), (λ e. cc))

-- `uuid_generate` gives a result that is not null exactly when it gets the lock and finds a node.
-- Such a result is a uuid_t of version 1 and of the variant of RFC 4122 that carries the clock
-- sequence; with a null result the clock sequence is not used up.
pub generate_lem :
    (locked : Bool) (m : Machine) (c : Clock) → Answers locked m c (generate locked m c)
generate_lem false m c = rw (generate-unlocked m c) (Answers-clear false m c (λ k. cc (k.0)))
generate_lem true m c = elim (Option-cases (get_node m.interfaces)) [
  | inl e ↦ rw (generate-missing m c e) (Answers-clear true m c (λ k. cc (k.1.1)))
  | inr (node, e) ↦ rw (generate-found m c e) (Answers-found m c node e)
]

-- Once the clock sequence is initialised, of up to 16384 calls of `uuid_generate` in a row that all
-- get the lock and find a node, no two give the same result, whatever the clock and the interfaces
-- answer.
pub generate_all_unique :
    (ms : List Machine) (c : Clock) (i j : ℕ)
    → c.is_initialized ≡ true
    → All HasNode ms
    → i < j
    → j < length ms
    → j < i + 16384
    → get_or (generate_all ms c) i [] ≢ get_or (generate_all ms c) j []
generate_all_unique ms c i j init h lt inside near e =
    let a = generate_all-clock ms c i init h (omega arith) in
    let b = generate_all-clock ms c j init h inside in let same = ap clock_sequence e in omega arith
