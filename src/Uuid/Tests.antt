-- ===== src/Uuid/Tests.antt =====
-- The theorems on src/uuid at an input.
use linear_fcgi.Common.{ℕ, ◌≡◌, ◌≢◌, refl, arith}
use linear_fcgi.Common.{true, List, [], ◌∷◌, none, some, codes, get_or, bytes_eq}
use linear_fcgi.Url.{to_lower}
use linear_fcgi.Uuid.Fields.{Node, memcmp}
use linear_fcgi.Uuid.Source.{Clock, Machine, get_node, first_node, is_loopback}
use linear_fcgi.Uuid.Api.{compare, parse, unparse}
use linear_fcgi.Uuid.Layout.{IsBytes}
use linear_fcgi.Uuid.Order.{compare-memcmp}
use linear_fcgi.Uuid.RoundTrip.{parse-unparse}
use linear_fcgi.Uuid.Unique.{HasNode, generate_all, generate_all_unique}

abbrev bytes : List ℕ
bytes =
    0x4d ∷ 0x0f ∷ 0xa1 ∷ 0x60 ∷ 0x6b ∷ 0xec ∷ 0x11 ∷ 0xe3 ∷ 0x81 ∷ 0xc1 ∷ 0x08 ∷ 0x00 ∷ 0x27 ∷ 0xff
    ∷ 0xfe ∷ 0x01 ∷ []

abbrev later : List ℕ
later =
    0x4d ∷ 0x0f ∷ 0xa1 ∷ 0x60 ∷ 0x6b ∷ 0xec ∷ 0x11 ∷ 0xe3 ∷ 0x81 ∷ 0xc2 ∷ 0x08 ∷ 0x00 ∷ 0x27 ∷ 0xff
    ∷ 0xfe ∷ 0x01 ∷ []

bytes-IsBytes : IsBytes bytes
bytes-IsBytes = ground arith

later-IsBytes : IsBytes later
later-IsBytes = ground arith

parse-unparse_example : parse (unparse bytes) ≡ some bytes
parse-unparse_example = parse-unparse bytes bytes-IsBytes

compare-memcmp_example : compare bytes later ≡ memcmp bytes later
compare-memcmp_example = compare-memcmp bytes later bytes-IsBytes later-IsBytes

abbrev node : Node
node = (8, 0, 0x27, 1, 2, 3)

abbrev machine : Machine
machine = record {
  interfaces = some (
      record { is_inet = true; name = codes "lo"; hwaddr = none }
      ∷ record { is_inet = true; name = codes "eth0"; hwaddr = some node }
      ∷ []);
  time = record { tv_sec = 1400000000; tv_usec = 17 };
  entropy = record { urandom = none; random = 5 };
}

abbrev clock : Clock
clock = record { is_initialized = true; seq = 16383 }

machine_node : get_node machine.interfaces ≡ some node
unfolding get_node first_node is_loopback to_lower bytes_eq
machine_node = refl

machine-HasNode : HasNode machine
machine-HasNode = (node, machine_node)

abbrev machines : List Machine
machines = machine ∷ machine ∷ []

generate_all_unique_example :
    get_or (generate_all machines clock) 0 [] ≢ get_or (generate_all machines clock) 1 []
generate_all_unique_example =
    generate_all_unique machines clock 0 1 refl (machine-HasNode, (machine-HasNode, tt))
      (omega arith) (omega arith) (omega arith)
