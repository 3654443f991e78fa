-- ===== src/Uuid/Sample.antt =====
-- src/uuid/samples/uuidgen.c: the program that prints one new UUID.
use linear_fcgi.Common.{ℕ, ◌-◌, ◌/◌, ◌%◌, ◌^◌, ◌<◌, ◌≡◌, refl, sym, arith}
use linear_fcgi.Common.{
  Bool, true, List, [], ◌++◌, some, codes, if◌then◌else◌, All, ◌⊎◌, inl, inr, Bool-cases,
}
use mathlib.Core.Path.{subst}
use linear_fcgi.Uuid.Api.{generate, is_null, unparse, parse, packed}
use linear_fcgi.Uuid.Fields.{Node, bytes_of_node, pack, Uuid}
use linear_fcgi.Uuid.Layout.{IsBytes}
use linear_fcgi.Uuid.RoundTrip.{parse-unparse}
use linear_fcgi.Uuid.Source.{Clock, Machine, get_clock, get_node, generate_with}
use linear_fcgi.Uuid.Unique.{HasNode, generate_lem, generate-found, generate_with-IsTimeBased}

-- What a run leaves: the 32-bit pattern that main returns, and the two standard streams.
pub record Run : Type 0 where
  pub returns : ℕ
  pub out : List ℕ
  pub err : List ℕ

-- main.
unfoldable pub uuidgen : (locked : Bool) → Machine → Clock → Run
uuidgen locked m c =
    let (c', uu) = generate locked m c in
    if is_null uu
    then record { returns = 2 ^ 32 - 1; out = []; err = codes "fail to create uuid\n" }
    else record { returns = 0; out = unparse uu ++ codes "\n"; err = [] }

byte-lt : (x : ℕ) → x % 256 < 256
byte-lt x = omega arith

pack-IsBytes :
    (u : Uuid)
    → u.clock_seq_hi_and_reserved < 256
    → u.clock_seq_low < 256
    → All (λ b. b < 256) (bytes_of_node u.node)
    → IsBytes (pack u)
unfolding pack
pack-IsBytes u hi low node = (
  refl,
  (
    byte-lt _,
    (
      byte-lt _,
      (
        byte-lt _,
        (byte-lt _, (byte-lt _, (byte-lt _, (byte-lt _, (byte-lt _, (hi, (low, node))))))),
      ),
    ),
  ),
)

generated-IsBytes :
    (m : Machine) (c : Clock) (node : Node)
    → All (λ b. b < 256) (bytes_of_node node)
    → IsBytes (packed (generate_with m (some node) c)).1
unfolding packed generate_with get_clock
generated-IsBytes m c node fits =
    let marks = generate_with-IsTimeBased m c node in
    pack-IsBytes _ (high _ marks.2) (byte-lt _) fits
  where
    high : (x : ℕ) → x / 64 ≡ 2 → x < 256
    high x h = omega arith

-- Where the address of a network interface is six bytes: with the lock and an interface with an
-- address, uuidgen returns 0 and prints one line, whose text is parsed as the UUID that was
-- generated; without one of them it returns -1 and prints only the message on stderr.
uuidgen_lem :
    (locked : Bool) (m : Machine) (c : Clock)
    → ((node : Node) → get_node m.interfaces ≡ some node → All (λ b. b < 256) (bytes_of_node node))
    → ((locked ≡ true)
        × HasNode m
        × (text : List ℕ) × (uuidgen locked m c
            ≡ record { returns = 0; out = text ++ codes "\n"; err = [] })
        × (parse text ≡ some (generate locked m c).1))
      ⊎ ((¬ ((locked ≡ true) × HasNode m))
          × (uuidgen locked m c
              ≡ record { returns = 2 ^ 32 - 1; out = []; err = codes "fail to create uuid\n" }))
unfolding uuidgen
uuidgen_lem locked m c fits =
    let (live, marks, same) = generate_lem locked m c in
    elim (Bool-cases (is_null (generate locked m c).1)) [
      | inl null ↦ inr (λ k. cc (live.1 k), rw null refl)
      | inr found ↦
          let (lock, (node, e)) = live.0 found in
          inl (
            lock,
            (node, e),
            unparse (generate locked m c).1,
            rw found refl,
            parse-unparse _ (
                subst (λ l. IsBytes (generate l m c).1) (sym lock)
                  (rw (generate-found m c e) (generated-IsBytes m c node (fits node e)))),
          )
    ]
